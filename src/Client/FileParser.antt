-- ===== src/Client/FileParser.antt =====
-- client/src/fileparser.c: the host in the name of a mail's file, and the lines of the file. A line is
-- the C string that fgets gives. A receiver and the sender get an array of their length and a NUL behind
-- it: `spare` says whether malloc's block for that many bytes has a byte more, and where it has not the
-- outer `none` is the write behind it. malloc finds memory for a receiver, or the code writes through NULL.
pub mod Addr
pub mod Recipients
pub mod Examples
pub mod File
use mathlib.Core.Option
use pvs_kp.Base.{
  ℕ, zero, suc, ◌+◌, ◌-◌, ◌%◌, Bool, true, false, not, ◌&&◌, ◌||◌, Option, none, some, List, [],
  ◌∷◌, ◌++◌, length, take, drop, ltb, ◌==◌, if◌then◌else◌, codes,
}
use pvs_kp.Client.Memory.{Alloc, Memory, malloc, made, ◌>>=◌}
use pvs_kp.Client.MString.{MString}

abbrev pub domain_name : List ℕ
domain_name = codes "mysmtp.ru"

abbrev pub x_domain_to : List ℕ
x_domain_to = codes "X-mysmtp-to: "

abbrev pub x_domain_from : List ℕ
x_domain_from = codes "X-mysmtp-from: "

-- The byte at a place, 0 behind the end.
abbrev pub byte_at : List ℕ → ℕ → ℕ
byte_at [] n = 0
byte_at (c ∷ cs) zero = c
byte_at (c ∷ cs) (suc n) = byte_at cs n

-- The loop down to the last dot before a place; `none` is -1.
unfoldable pub meta_from : List ℕ → ℕ → Option ℕ
meta_from text zero = none
meta_from text (suc n) =
    let before = meta_from text n in if byte_at text n == 46 then some n else before

-- The type is an int of 32 bits.
abbrev pub addr_before : List ℕ → Option ℕ → Alloc (List ℕ × ℕ)
addr_before text none mem = (none, mem)
addr_before text (some meta_start) mem =
    if ltb meta_start 4
    then (none, mem)
    else (do
      addr ← malloc (meta_start - 1)
      let type_ = (byte_at text (meta_start - 1) + 4294967248) % 4294967296
      made (take (meta_start - 2) text, type_))
        mem

-- The address and its type.
unfoldable pub get_addr : MString → Alloc (List ℕ × ℕ)
unfolding meta_from
get_addr filename = addr_before filename.data_ (meta_from filename.data_ (filename.size + 1))

-- The commas of the line.
unfoldable pub commas : List ℕ → ℕ
commas [] = 0
commas (c ∷ cs) = let rest = commas cs in if c == 44 then rest + 1 else rest

unfoldable pub get_recipients_count : List ℕ → ℕ
unfolding commas
get_recipients_count line = commas line + 1

-- memcmp(bytes, text, length text) == 0.
unfoldable pub same_bytes : List ℕ → List ℕ → Bool
same_bytes [] bytes = true
same_bytes (c ∷ cs) [] = false
same_bytes (c ∷ cs) (b ∷ bs) = let rest = same_bytes cs bs in (c == b) && rest

-- The loop to the first '@'.
unfoldable pub at_from : List ℕ → ℕ
at_from [] = 0
at_from (c ∷ cs) = let rest = at_from cs in if c == 64 then 0 else rest + 1

-- The bytes that stand in memory behind the receiver's NUL are the first argument: memcmp reads them
-- where there is no '@'.
unfoldable pub check_recipient : List ℕ → List ℕ → List ℕ → ℕ → Bool
unfolding same_bytes at_from
check_recipient behind rcpt addr a_type =
    let memory = rcpt ++ 0 ∷ behind in
    let at_idx = at_from rcpt in
    let bracket = byte_at memory (at_idx + 1) == 91 in
    if same_bytes domain_name (drop (at_idx + 1) memory)
    then false
    else if a_type == 2
    then same_bytes addr (drop (at_idx + 1) memory)
    else if a_type == 0
    then bracket && same_bytes addr (drop (at_idx + 2) memory)
    else if a_type == 1
    then bracket && same_bytes addr (drop (at_idx + 6) memory)
    else false

-- What stands before the first comma, and what stands from it on.
unfoldable pub to_comma : List ℕ → List ℕ × List ℕ
to_comma [] = ([], [])
to_comma (c ∷ cs) = let rest = to_comma cs in if c == 44 then ([], c ∷ cs) else (c ∷ rest.0, rest.1)

-- The loop over what is left of the line. Its fuel is the line's length: a round takes two bytes.
unfoldable pub recipients_from :
    (ℕ → Bool) → ℕ → (List ℕ → Bool) → List ℕ → ℕ → Option (List (List ℕ) × ℕ)
unfolding to_comma
recipients_from spare zero wanted line count = some ([], count)
recipients_from spare (suc fuel) wanted [] count = some ([], count)
recipients_from spare (suc fuel) wanted (c ∷ cs) count =
    let (rcpt, behind) = to_comma (c ∷ cs) in
    let kept = recipients_from spare fuel wanted (drop 2 behind) count in
    let dropped = recipients_from spare fuel wanted (drop 2 behind) (count - 1) in
    if not (spare (length rcpt))
    then none
    else if wanted rcpt
    then Option.map {A = List (List ℕ) × ℕ} (λ r. (rcpt ∷ r.0, r.1)) kept
    else dropped

-- The receivers and *count. A line that is shorter than its header has no round.
unfoldable pub parse_recipients :
    (ℕ → Bool) → List ℕ → List ℕ → List ℕ → ℕ → Option (List (List ℕ) × ℕ)
unfolding recipients_from get_recipients_count check_recipient
parse_recipients spare behind line addr a_type =
    recipients_from spare (length line) (λ rcpt. check_recipient behind rcpt addr a_type)
      (drop (length x_domain_to) line) (get_recipients_count line)

-- The NUL is written behind the copy, if there is one.
abbrev pub with_nul : Bool → Option (List ℕ) × Memory → Option (Option (List ℕ) × Memory)
with_nul spare (none, mem) = some (none, mem)
with_nul true (some sender, mem) = some (some sender, mem)
with_nul false (some sender, mem) = none

-- The length would be negative for a line that is shorter than its header, which is undefined.
unfoldable pub parse_sender : (ℕ → Bool) → List ℕ → Memory → Option (Option (List ℕ) × Memory)
parse_sender spare line mem =
    let sender_len = length line - length x_domain_from in
    with_nul (spare sender_len)
      ((do sender ← malloc sender_len; made (drop (length x_domain_from) line)) mem)

-- The CR and LF bytes at the end go, but never the first byte.
unfoldable pub trim_end : List ℕ → List ℕ
trim_end [] = []
trim_end (c ∷ cs) = cut c (trim_end cs)
  where
    cut : ℕ → List ℕ → List ℕ
    cut c [] = if c == 10 || c == 13 then [] else c ∷ []
    cut c (d ∷ ds) = c ∷ d ∷ ds

unfoldable pub trim : List ℕ → List ℕ
unfolding trim_end
trim [] = []
trim (c ∷ cs) = c ∷ trim_end cs
