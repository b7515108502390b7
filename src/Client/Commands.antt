-- ===== src/Client/Commands.antt =====
-- client/src/SMTP_command_factory.c: the commands of the client. `none` is undefined behaviour: sprintf
-- through NULL, or past its 256 bytes.
use pvs_kp.Base.{ℕ, Option, none, some, List, ◌++◌, length, ltb, if◌then◌else◌, codes, crlf}
use pvs_kp.Client.Memory.{Alloc}
use pvs_kp.Client.MString.{MString, string_init2}

-- The string of this text, or NULL.
abbrev pub command : List ℕ → Alloc MString
command text = string_init2 text (length text)

-- sprintf into an array of 256 bytes, and its string.
abbrev pub printed : List ℕ → Option (Alloc MString)
printed text = if ltb (length text) 256 then some (command text) else none

unfoldable pub helo_command : Option (Alloc MString)
helo_command = none

unfoldable pub ehlo_command : Option (Alloc MString)
unfolding string_init2
ehlo_command = printed (codes "EHLO mysmtp.ru" ++ crlf)

unfoldable pub mailfrom_command : List ℕ → Option (Alloc MString)
unfolding string_init2
mailfrom_command from_addr = printed (codes "MAIL FROM:" ++ (from_addr ++ crlf))

unfoldable pub rcptto_command : List ℕ → Option (Alloc MString)
unfolding string_init2
rcptto_command recipient_addr = printed (codes "RCPT TO:" ++ (recipient_addr ++ crlf))

unfoldable pub rset_command : Option (Alloc MString)
unfolding string_init2
rset_command = some (command (codes "RSET" ++ crlf))

unfoldable pub data_command : Option (Alloc MString)
unfolding string_init2
data_command = some (command (codes "DATA" ++ crlf))

unfoldable pub enddata_command : Option (Alloc MString)
unfolding string_init2
enddata_command = some (command (codes "." ++ crlf))

unfoldable pub quit_command : Option (Alloc MString)
unfolding string_init2
quit_command = some (command (codes "QUIT" ++ crlf))
