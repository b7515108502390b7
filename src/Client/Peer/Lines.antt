-- ===== src/Client/Peer/Lines.antt =====
-- From add_message at one peer to parse_buffer at the other.
use pvs_kp.Base.{
  ℕ, zero, suc, ◌+◌, ◌≤◌, ◌<◌, ◌≡◌, refl, ap, ◌∙◌, arith, Option, none, some, List, [], ◌∷◌, ◌++◌,
  length, All, crlf, length-append, append_assoc, append-nil,
}
use pvs_kp.Client.Errors.{Code, success}
use pvs_kp.Client.Memory.{Memory, Plenty}
use pvs_kp.Client.MString.Contents.{str_of, string_init2-Plenty, concat-Plenty}
use pvs_kp.Client.Queue.Contents.{
  queue_of, strings_of, length-strings_of, strings_of-append, queue_push_back-Plenty,
}
use pvs_kp.Client.Peer.{Peer, add_message}
use pvs_kp.Client.Peer.Parse.{parse_buffer}
use pvs_kp.Client.Peer.Parse.RoundTrip.{IsLine, wire, parse_buffer-wire}
use pvs_kp.Client.Peer.Send.Pending.{holding, joined, pending}

-- The first `n` calls of malloc are over.
abbrev later : ℕ → Memory → Memory
later zero mem = mem
later (suc n) mem = λ k. later n mem (suc k)

Plenty-later : (n : ℕ) (mem : Memory) → Plenty mem → Plenty (later n mem)
Plenty-later zero mem h = h
Plenty-later (suc n) mem h = λ k. Plenty-later n mem h (suc k)

-- Where memory is not refused and the queue has room, a line is put behind the others with CR LF.
add_message-holding :
    (p : Peer) (texts : List (List ℕ)) (line : List ℕ) (mem : Memory)
    → length texts < 10000
    → Plenty mem
    → (mem' : Memory) × Plenty mem'
      × (add_message (holding p texts) (str_of line) (some crlf) mem
          ≡ some (holding p (texts ++ (line ++ crlf) ∷ []), success, mem'))
unfolding add_message
add_message-holding p texts line mem room plenty = (
  (λ n. mem (suc (suc (suc (suc (suc (suc (suc (suc n))))))))),
  (λ n. plenty (suc (suc (suc (suc (suc (suc (suc (suc n))))))))),
  let marker = string_init2-Plenty crlf mem plenty in
      let ended = concat-Plenty line crlf (λ n. mem (suc (suc n))) (λ n. plenty (suc (suc n))) in
      let pushed =
        queue_push_back-Plenty (strings_of texts) (line ++ crlf)
          (λ n. mem (suc (suc (suc (suc (suc n)))))) (omega (arith, length-strings_of texts))
          (λ n. plenty (suc (suc (suc (suc (suc n)))))) in
      rw marker (rw ended (rw pushed (rw (strings_of-append texts (line ++ crlf)) refl))),
)

abbrev and_lines :
    (Peer → Memory → Option (Peer × Memory))
    → Option (Peer × Code × Memory)
    → Option (Peer × Memory)
and_lines next none = none
and_lines next (some (p, code, mem)) = next p mem

-- add_message for each of the lines, with the end marker of SMTP.
unfoldable pub add_lines : List (List ℕ) → Peer → Memory → Option (Peer × Memory)
unfolding add_message
add_lines [] p mem = some (p, mem)
add_lines (line ∷ lines) p mem =
    and_lines (add_lines lines) (add_message p (str_of line) (some crlf) mem)

abbrev pub ended : List (List ℕ) → List (List ℕ)
ended [] = []
ended (line ∷ lines) = (line ++ crlf) ∷ ended lines

add_lines-holding :
    (lines texts : List (List ℕ)) (p : Peer) (mem : Memory)
    → length texts + length lines ≤ 10000
    → Plenty mem
    → (mem' : Memory) × (add_lines lines (holding p texts) mem
        ≡ some (holding p (texts ++ ended lines), mem'))
unfolding add_lines
add_lines-holding [] texts p mem room plenty = (mem, rw (append-nil texts) refl)
add_lines-holding (line ∷ lines) texts p mem room plenty =
    let (mem1, plenty1, added) = add_message-holding p texts line mem (omega arith) plenty in
    let (mem', ih) =
      add_lines-holding lines (texts ++ (line ++ crlf) ∷ []) p mem1
        (omega (arith, length-append texts ((line ++ crlf) ∷ []))) plenty1 in
    (mem', rw added (rw (append_assoc texts ((line ++ crlf) ∷ []) (ended lines)) at ih))

pub joined-ended : (lines : List (List ℕ)) → joined (ended lines) ≡ wire lines
joined-ended [] = refl
joined-ended (line ∷ lines) =
    append_assoc line crlf (joined (ended lines))
    ∙ ap (λ t. line ++ 13 ∷ 10 ∷ t) (joined-ended lines)

-- Lines with no NUL and no CR that are given to add_message one after the other, at a peer that has
-- nothing to send: what it then has to send, followed by the start of a further line, is parsed by
-- parse_buffer into these lines in their order, if memory is not refused and there are no more than
-- 10000 lines.
pub add_lines-parse_buffer :
    (lines : List (List ℕ)) (tail : List ℕ) (p : Peer) (mem mem1 : Memory)
    → All IsLine lines
    → IsLine tail
    → length lines ≤ 10000
    → p.buffer_in_size ≡ 0
    → p.message_in_begin ≡ 0
    → Plenty mem
    → Plenty mem1
    → (texts : List (List ℕ)) × (mem' mem1' : Memory) × (add_lines lines (holding p []) mem
        ≡ some (holding p texts, mem'))
      × (parse_buffer (pending p texts ++ tail) crlf mem1
          ≡ some (some (queue_of (strings_of lines)), length (pending p texts), mem1'))
add_lines-parse_buffer lines tail p mem mem1 hs h room empty begin plenty plenty1 =
    let (mem', added) = add_lines-holding lines [] p mem (omega arith) plenty in
    let (mem1', parsed) = parse_buffer-wire lines tail mem1 hs h room plenty1 in
    (ended lines, mem', mem1', added, rw empty (rw begin (rw (joined-ended lines) parsed)))
