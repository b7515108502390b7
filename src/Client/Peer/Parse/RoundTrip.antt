-- ===== src/Client/Peer/Parse/RoundTrip.antt =====
-- Lines that end with CR LF come out of parse_buffer as they went in.
use pvs_kp.Base.{
  ℕ, suc, ◌+◌, ◌-◌, ◌≤◌, ◌<◌, ◌≡◌, ◌≢◌, refl, sym, ap, ◌∙◌, arith, some, List, [], ◌∷◌, ◌++◌,
  length, drop, All, crlf, length-append, append_assoc, append-nil, ◌==◌, false, drop-append_more,
  drop-drop,
}
use pvs_kp.Client.Memory.{Memory, rest, Plenty, Plenty-rest, Plenty-malloc}
use pvs_kp.Client.MString.{MString}
use pvs_kp.Client.MString.Contents.{str_of, string_init2-append, string_init2-Plenty}
use pvs_kp.Client.Queue.{queue_init}
use pvs_kp.Client.Queue.Contents.{queue_of, strings_of, queue_push_back-Plenty}
use pvs_kp.Client.Peer.Parse.{Parse, nul_first, parse_byte, parse_bytes, parse_buffer}

-- No byte is NUL or CR.
abbrev pub IsLine : List ℕ → Type 0
IsLine text = All (λ c. (0 < c) × (c ≢ 13)) text

-- The lines, each with CR LF behind it.
abbrev pub wire : List (List ℕ) → List ℕ
wire [] = []
wire (text ∷ texts) = text ++ 13 ∷ 10 ∷ wire texts

-- Between messages, or within one that has no CR yet.
abbrev at : ℕ → ℕ → ℕ → List MString → Parse
at i begin parsed xs = record {
  i = i;
  j = 0;
  message_begin = begin;
  parsed = parsed;
  messages = queue_of xs;
}

parse_byte-other :
    (buffer behind : List ℕ) (c i begin parsed : ℕ) (xs : List MString) (mem : Memory)
    → c ≢ 13
    → parse_byte buffer crlf c behind (at i begin parsed xs) mem
      ≡ some (at (i + 1) begin parsed xs, mem)
unfolding parse_byte
parse_byte-other buffer behind c i begin parsed xs mem h =
    let other : (c == 13) ≡ false = ground arith in rw other refl

-- A text without CR only moves i on.
parse_bytes-line :
    (buffer text more : List ℕ) (i begin parsed : ℕ) (xs : List MString) (mem : Memory)
    → IsLine text
    → parse_bytes buffer crlf (text ++ more) (some (at i begin parsed xs, mem))
      ≡ parse_bytes buffer crlf more (some (at (i + length text) begin parsed xs, mem))
unfolding parse_bytes
parse_bytes-line buffer [] more i begin parsed xs mem h = let e : i + 0 ≡ i = omega arith in rw e
parse_bytes-line buffer (c ∷ cs) more i begin parsed xs mem h =
    let other = parse_byte-other buffer (cs ++ more) c i begin parsed xs mem h.0.1 in
    let e : i + suc (length cs) ≡ i + 1 + length cs = omega arith in
    ap (parse_bytes buffer crlf (cs ++ more)) other
    ∙ rw e (parse_bytes-line buffer cs more (i + 1) begin parsed xs mem h.1)

-- CR LF ends the message that is the text before it.
parse_bytes-crlf :
    (buffer text more : List ℕ) (begin parsed : ℕ) (xs : List MString) (mem : Memory)
    → drop begin buffer ≡ text ++ 13 ∷ 10 ∷ more
    → nul_first more ≡ false
    → length xs < 10000
    → Plenty mem
    → parse_bytes buffer crlf
        (13 ∷ 10 ∷ more)
        (some (at (begin + length text) begin parsed xs, mem))
      ≡ parse_bytes buffer crlf more (
          some (
            at
                (begin + length text + 2)
                (begin + length text + 2)
                (begin + length text + 2)
                (xs ++ str_of text ∷ []),
            rest (rest (rest (rest (rest mem)))),
          ))
unfolding parse_bytes parse_byte
parse_bytes-crlf buffer text more begin parsed xs mem at_text no_nul room h =
    let size : begin + length text + 1 + 1 - (2 + begin) ≡ length text = omega arith in
    let end_ : begin + length text + 1 + 1 + 0 ≡ begin + length text + 2 = omega arith in
    let next : begin + length text + 1 + 1 ≡ begin + length text + 2 = omega arith in
    let made_ = string_init2-Plenty text mem h in
    let pushed = queue_push_back-Plenty xs text (rest (rest mem)) room (λ n. h (suc (suc n))) in
    rw at_text (
      rw size (
        rw (string_init2-append text (13 ∷ 10 ∷ more) mem)
          (rw made_ (rw pushed (rw no_nul (rw end_ (rw next refl)))))))

positive-not_nul : (c : ℕ) → 0 < c → (c == 0) ≡ false
positive-not_nul c h = ground arith

wire-no_nul :
    (texts : List (List ℕ)) (tail : List ℕ)
    → All IsLine texts
    → IsLine tail
    → nul_first (wire texts ++ tail) ≡ false
wire-no_nul [] [] hs h = refl
wire-no_nul [] (c ∷ cs) hs h = positive-not_nul c h.0.0
wire-no_nul ([] ∷ texts) tail hs h = refl
wire-no_nul ((c ∷ cs) ∷ texts) tail hs h = positive-not_nul c hs.0.0.0

behind_crlf :
    (buffer text more : List ℕ) (begin : ℕ)
    → drop begin buffer ≡ text ++ 13 ∷ 10 ∷ more
    → drop (begin + length text + 2) buffer ≡ more
behind_crlf buffer text more begin e =
    let n : begin + length text + 2 ≡ begin + (length text + 2) = omega arith in
    rw n (
      sym (drop-drop begin (length text + 2) buffer)
      ∙ ap (drop (length text + 2)) e
      ∙ drop-append_more text (13 ∷ 10 ∷ more) 2)

-- What stands before a tail without CR, when the lines come from the place `begin` of the buffer.
parse_bytes-wire :
    (texts : List (List ℕ)) (tail buffer : List ℕ) (begin : ℕ) (xs : List MString) (mem : Memory)
    → All IsLine texts
    → IsLine tail
    → drop begin buffer ≡ wire texts ++ tail
    → length xs + length texts ≤ 10000
    → Plenty mem
    → (mem' : Memory) × (parse_bytes buffer crlf
          (wire texts ++ tail)
          (some (at begin begin begin xs, mem))
        ≡ some (
          at
              (begin + length (wire texts) + length tail)
              (begin + length (wire texts))
              (begin + length (wire texts))
              (xs ++ strings_of texts),
          mem',
        ))
unfolding parse_bytes
parse_bytes-wire [] tail buffer begin xs mem hs h e room plenty = (
  mem,
  let skipped = parse_bytes-line buffer tail [] begin begin begin xs mem h in
      let same : begin + 0 ≡ begin = omega arith in
      rw same (rw (append-nil xs) (rw (append-nil tail) at skipped)),
)
parse_bytes-wire (text ∷ texts) tail buffer begin xs mem hs h e room plenty =
    let more = wire texts ++ tail in
    let split : (text ++ 13 ∷ 10 ∷ wire texts) ++ tail ≡ text ++ 13 ∷ 10 ∷ more =
      append_assoc text (13 ∷ 10 ∷ wire texts) tail in
    let at_text : drop begin buffer ≡ text ++ 13 ∷ 10 ∷ more = e ∙ split in
    let line = parse_bytes-line buffer text (13 ∷ 10 ∷ more) begin begin begin xs mem hs.0 in
    let ended =
      parse_bytes-crlf buffer text more begin begin xs mem at_text (wire-no_nul texts tail hs.1 h)
        (omega arith) plenty in
    let next = begin + length text + 2 in
    let behind : drop next buffer ≡ more = behind_crlf buffer text more begin at_text in
    let longer : length (xs ++ str_of text ∷ []) + length texts ≤ 10000 =
      omega (arith, length-append xs (str_of text ∷ [])) in
    let (mem', ih) =
      parse_bytes-wire texts tail buffer next (xs ++ str_of text ∷ [])
        (λ n. mem (suc (suc (suc (suc (suc n)))))) hs.1 h behind longer
        (λ n. plenty (suc (suc (suc (suc (suc n)))))) in
    let len : begin + length (text ++ 13 ∷ 10 ∷ wire texts) ≡ next + length (wire texts) =
      omega (arith, length-append text (13 ∷ 10 ∷ wire texts)) in
    let joined : (xs ++ str_of text ∷ []) ++ strings_of texts
        ≡ xs ++ str_of text ∷ strings_of texts =
      append_assoc xs (str_of text ∷ []) (strings_of texts) in
    (mem', rw split (rw len (line ∙ ended ∙ rw joined at ih)))

-- Lines that end with CR LF, none with a NUL or a CR, and the start of a further line: parse_buffer
-- returns the lines in their order, and counts every byte up to the last CR LF as parsed, if memory
-- is not refused and there are no more than 10000 lines.
pub parse_buffer-wire :
    (texts : List (List ℕ)) (tail : List ℕ) (mem : Memory)
    → All IsLine texts
    → IsLine tail
    → length texts ≤ 10000
    → Plenty mem
    → (mem' : Memory) × (parse_buffer (wire texts ++ tail) crlf mem
        ≡ some (some (queue_of (strings_of texts)), length (wire texts), mem'))
unfolding parse_buffer queue_init
parse_buffer-wire texts tail mem hs h room plenty =
    let (node, l, e) = Plenty-malloc 56 mem plenty in
    let (mem', parsed) =
      parse_bytes-wire texts tail (wire texts ++ tail) 0 [] (rest mem) hs h refl (omega arith)
        (Plenty-rest mem plenty) in
    let len : 0 + length (wire texts) ≡ length (wire texts) = omega arith in
    (mem', rw e (rw parsed (rw len refl)))
