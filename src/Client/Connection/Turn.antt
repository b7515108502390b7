-- ===== src/Client/Connection/Turn.antt =====
-- client/src/worker.c: what worker_main does with a connection after select: the event, and the step
-- of the protocol machine. The outer `none` is undefined behaviour, the inner one the end of the
-- process.
use mathlib.Core.Option
use pvs_kp.Base.{ℕ, zero, suc, Option, none, some}
use pvs_kp.Client.Memory.{Memory}
use pvs_kp.Client.Fsm.{client_fsm_step}
use pvs_kp.Client.Connection.{SmtpConnection, System}
use pvs_kp.Client.Connection.Generate.{Generated, generate_event}

abbrev pub stepped : Generated → Option SmtpConnection × Memory
stepped (conn, event, mem) =
    (Option.map (λ s. record conn { state = s }) (client_fsm_step conn.state event), mem)

unfoldable pub turn : System → SmtpConnection → Memory → Option (Option SmtpConnection × Memory)
unfolding generate_event client_fsm_step
turn system conn mem = Option.map {A = Generated} stepped (generate_event system conn mem)

-- What follows a turn that neither is undefined nor ends the process.
abbrev pub go_on :
    (SmtpConnection → Memory → Option (Option SmtpConnection × Memory))
    → Option (Option SmtpConnection × Memory)
    → Option (Option SmtpConnection × Memory)
go_on next none = none
go_on next (some (none, mem)) = some (none, mem)
go_on next (some (some conn, mem)) = next conn mem

-- As many turns, at one time.
unfoldable pub turns :
    ℕ → System → SmtpConnection → Memory → Option (Option SmtpConnection × Memory)
turns zero system conn mem = some (some conn, mem)
turns (suc n) system conn mem = go_on (turns n system) (turn system conn mem)
