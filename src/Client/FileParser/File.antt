-- ===== src/Client/FileParser/File.antt =====
-- client/src/fileparser.c: `parse_message`, a mail out of its file. What fopen and fgets give, line by
-- line, is a parameter, as are the two times of the configuration and the fields that are not set. The
-- outer `none` is a write behind an array, or the use of a pointer that is NULL, at once or when the
-- message is copied.
pub mod Contents
use mathlib.Core.Option
use pvs_kp.Base.{
  ℕ, zero, suc, ◌+◌, Bool, Option, none, some, List, [], ◌∷◌, ◌++◌, length, take, ◌==◌,
  if◌then◌else◌,
}
use pvs_kp.Client.Memory.{Memory, malloc}
use pvs_kp.Client.MString.{MString, string_init2, concat_with_sep}
use pvs_kp.Client.Message.{SmtpMessage, smtp_message_init}
use pvs_kp.Client.FileParser.{get_addr, parse_recipients, parse_sender, trim}

-- The message with a line more.
abbrev pub with_line : SmtpMessage → Option MString × Memory → SmtpMessage × Memory
with_line message (line, mem) =
    (record message { msg = message.msg ++ line ∷ []; msg_lines = message.msg_lines + 1 }, mem)

-- The lines from the third on.
unfoldable pub read_text : List (List ℕ) → SmtpMessage × Memory → SmtpMessage × Memory
unfolding string_init2 trim
read_text [] r = r
read_text (line ∷ lines) (message, mem) =
    read_text lines (with_line message (string_init2 (trim line) (length (trim line)) mem))

abbrev pub with_sender :
    List (List ℕ) → SmtpMessage → Option (Option (List ℕ) × Memory) → Option (SmtpMessage × Memory)
with_sender lines message none = none
with_sender lines message (some (none, mem)) = none
with_sender lines message (some (some sender, mem)) =
    some (read_text lines (record message { from_addr = sender }, mem))

unfoldable pub read_sender :
    (ℕ → Bool) → List (List ℕ) → SmtpMessage → Memory → Option (SmtpMessage × Memory)
unfolding read_text parse_sender trim
read_sender spare [] message mem = some (message, mem)
read_sender spare (line ∷ lines) message mem =
    with_sender lines message (parse_sender spare (trim line) mem)

-- From the second line on, with the receivers and their number.
abbrev pub with_recipients :
    (ℕ → Bool)
    → List (List ℕ)
    → SmtpMessage
    → Memory
    → Option (List (List ℕ) × ℕ)
    → Option (SmtpMessage × Memory)
with_recipients spare lines message mem none = none
with_recipients spare lines message mem (some (recipients, count)) =
    let found : SmtpMessage = record message {
      recipients_addr = recipients;
      recipients_count = count;
    } in
    if count == 0 then some (found, mem) else read_sender spare lines found mem

-- The loop over the lines, from the first one, which breaks off where no receiver is wanted.
unfoldable pub read_lines :
    (ℕ → Bool)
    → List ℕ
    → List ℕ × ℕ
    → List (List ℕ)
    → SmtpMessage
    → Memory
    → Option (SmtpMessage × Memory)
unfolding read_sender parse_recipients trim
read_lines spare behind (addr, a_type) [] message mem = some (message, mem)
read_lines spare behind (addr, a_type) (line ∷ lines) message mem =
    with_recipients spare lines message mem (parse_recipients spare behind (trim line) addr a_type)

-- NULL where there is no receiver.
abbrev pub if_received : SmtpMessage × Memory → Option SmtpMessage × Memory
if_received (message, mem) = (if message.recipients_count == 0 then none else some message, mem)

-- The file is opened by its path. Without it there is no receiver.
abbrev pub read_file :
    (ℕ → Bool)
    → List ℕ
    → List ℕ × ℕ
    → SmtpMessage
    → Option (List (List ℕ))
    → Memory
    → Option (SmtpMessage × Memory)
read_file spare behind addr message none mem = some (message, mem)
read_file spare behind addr message (some lines) mem =
    read_lines spare behind addr lines message mem

-- What is parsed of: the files, queue_dir, the two times, the fields that are not set, the bytes
-- behind a receiver in memory, and whether malloc's block for a number of bytes has a byte more.
pub record Source : Type 0 where
  pub fopen : List ℕ → Option (List (List ℕ))
  pub queue_dir : List ℕ
  pub max_attempts_time : ℕ
  pub min_interval_between_attempts : ℕ
  pub unset : SmtpMessage
  pub behind : List ℕ
  pub spare : ℕ → Bool

-- The array of the lines, whose growth is left out, is there before the file is read.
abbrev pub in_array :
    Source
    → List ℕ × ℕ
    → SmtpMessage
    → MString
    → Option (List ℕ) × Memory
    → Option (Option SmtpMessage × Memory)
in_array source addr message path (none, mem) = none
in_array source addr message path (some msg, mem) =
    Option.map {A = SmtpMessage × Memory} if_received (
      read_file source.spare source.behind addr (record message { msg = [] })
        (source.fopen (take path.size path.data_)) mem)

abbrev pub at_path :
    Source
    → List ℕ × ℕ
    → SmtpMessage
    → Option MString × Memory
    → Option (Option SmtpMessage × Memory)
at_path source addr message (none, mem) = none
at_path source addr message (some path, mem) = in_array source addr message path (malloc 512 mem)

abbrev pub in_dir :
    Source
    → MString
    → List ℕ × ℕ
    → SmtpMessage
    → Option MString × Memory
    → Option (Option SmtpMessage × Memory)
in_dir source filename addr message (none, mem) = none
in_dir source filename addr message (some dir, mem) =
    at_path source addr message (concat_with_sep dir filename 47 mem)

abbrev pub in_message :
    Source
    → MString
    → List ℕ × ℕ
    → Option SmtpMessage × Memory
    → Option (Option SmtpMessage × Memory)
in_message source filename addr (none, mem) = some (none, mem)
in_message source filename addr (some message, mem) =
    in_dir source filename addr message
      (string_init2 source.queue_dir (length source.queue_dir) mem)

abbrev pub of_addr :
    Source → MString → Option (List ℕ × ℕ) × Memory → Option (Option SmtpMessage × Memory)
of_addr source filename (none, mem) = some (none, mem)
of_addr source filename (some addr, mem) = in_message source filename addr (
    smtp_message_init source.max_attempts_time source.min_interval_between_attempts source.unset
      mem)

unfoldable pub parse_message : Source → MString → Memory → Option (Option SmtpMessage × Memory)
unfolding get_addr
parse_message source filename mem = of_addr source filename (get_addr filename mem)
