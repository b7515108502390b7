-- ===== src/Server/SmtpCmd.antt =====
-- server/src/smtp_cmd.c, server/include/smtp_cmd.h: what a received line is matched against.
-- The expressions themselves are PCRE's: `pcre_exec` is a parameter that says, for a command and a
-- line, which part of the line matched, if any.
use mathlib.Core.Option
use pvs_kp.Base.{ℕ, Option, none, some, List, [], ◌∷◌, length, ltb, if◌then◌else◌}
use pvs_kp.Server.ErrorCode.{ErrorCode, ce_success, ce_common}

pub data SmtpCmd : Type 0 where
  cmd_helo cmd_ehlo cmd_mail cmd_rcpt cmd_vrfy cmd_rset cmd_quit cmd_data cmd_end_data : SmtpCmd

-- `match_start` is sub_str[0], and `groups i` the text of group i as pcre_copy_substring finds it:
-- `none` where it returns an error.
pub record MatchInfo : Type 0 where
  pub tested_line : List ℕ
  pub match_start : ℕ
  pub groups : ℕ → Option (List ℕ)

abbrev pub Pcre : Type 0
Pcre = SmtpCmd → List ℕ → Option MatchInfo

-- NULL: the callers that pass it reach no callback that reads it.
abbrev pub no_match : MatchInfo
no_match = record { tested_line = []; match_start = 0; groups = λ _. none }

-- `line` is the C string that the line's buffer holds. A command out of range cannot be written.
unfoldable pub smtp_cmd_check : Pcre → SmtpCmd → List ℕ → Option MatchInfo
smtp_cmd_check pcre_exec cmd line =
    Option.map {A = MatchInfo} (λ mi. record mi { tested_line = line }) (pcre_exec cmd line)

-- The buffer afterwards, as a C string, and the code. The copy fails, and leaves the buffer alone,
-- where there is no such group or the buffer of `buf_size` bytes is too small.
unfoldable pub smtp_cmd_get_substring : MatchInfo → ℕ → List ℕ → ℕ → List ℕ × ErrorCode
smtp_cmd_get_substring mi index buf buf_size =
    let copied : List ℕ = elim (mi.groups index) [
      | none ↦ buf
      | some s ↦ if ltb (length s) buf_size then s else buf
    ] in
    (copied, elim copied [ [] ↦ ce_common | _ ∷ _ ↦ ce_success ])
