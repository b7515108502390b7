-- ===== src/Server/Poll/Rounds.antt =====
-- Which connections a round of the poll loop leaves alone.
use pvs_kp.Base.{◌≡◌, false, List}
use pvs_kp.Server.Msg.{Msg}
use pvs_kp.Server.ServerInfo.{Slot, ServerInfo}
use pvs_kp.Server.Poll.{Ready}

abbrev pub Idle : Ready × Slot → Type 0
Idle (ready, s) = ready.woken ≡ false
