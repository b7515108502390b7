-- ===== src/Server/Msg/Stream.antt =====
-- The loops of server/src/msg.c over a socket: `msg_recv_one` and `msg_send_one`.
use pvs_kp.Base.{
  ℕ, zero, suc, ◌+◌, ◌≤◌, ◌<◌, ◌≡◌, refl, sym, ap, ◌∙◌, Bool, true, inl, inr, List, [], ◌++◌,
  append-nil, append_assoc, arith, length, take, drop, ◌==◌, size_mod, Bool-cases, NoNul,
  take-append-drop, All-drop, length-append, ==→eq, ==-suc_zero,
}
use pvs_kp.Server.ErrorCode.{ErrorCode, Calloc, ce_success}
use pvs_kp.Server.Msg.{
  Msg, bytes, msg_add_text, msg_rm_text, Received, shut, chunk, would_block, failed, recv_turn,
  recv_rounds, msg_recv_one, Sent, took, blocked, broken, send_turn, send_rounds, msg_send_one,
}
use pvs_kp.Server.Msg.Content.{
  IsValid, content, msg_add_text-Appended, msg_rm_text_lem, msg_rm_text-content,
}

-- What one round of the loop keeps, when the rounds that follow keep it: the message is valid,
-- and what was sent with what is left is what there was.
module _ (next : Msg → List ℕ → Msg × List ℕ × ErrorCode) where
  abbrev Keeps : Msg → List ℕ → Msg × List ℕ × ErrorCode → Type 0
  Keeps msg wire (r, wire', code) = IsValid r × (wire' ++ content r ≡ wire ++ content msg)

  send_turn-Keeps :
      (s : Sent) (msg : Msg) (wire : List ℕ)
      → IsValid msg
      → NoNul (content msg)
      → ((m : Msg) (w : List ℕ) → IsValid m → NoNul (content m) → Keeps m w (next m w))
      → Keeps msg wire (send_turn next s msg wire)
  unfolding send_turn
  send_turn-Keeps (took n) msg wire v z keep = elim (Bool-cases (n == 0)) [
    | inl none_taken ↦ rw none_taken (v, refl)
    | inr taken ↦
        let c = content msg in
        let valid = (msg_rm_text_lem msg n v).0 in
        let rest = msg_rm_text-content msg n v z in
        let unsent : NoNul (content (msg_rm_text msg n).0) =
          rw rest (All-drop (λ x. 0 < x) n c z) in
        let (valid', all) = keep (msg_rm_text msg n).0 (wire ++ take n c) valid unsent in
        let regroup : (wire ++ take n c) ++ content (msg_rm_text msg n).0 ≡ wire ++ c =
          rw rest (
            append_assoc wire (take n c) (drop n c) ∙ ap (λ t. wire ++ t) (take-append-drop n c)) in
        rw taken (valid', all ∙ regroup)
  ]
  send_turn-Keeps blocked msg wire v z keep = (v, refl)
  send_turn-Keeps broken msg wire v z keep = (v, refl)

send_rounds_lem :
    (send : ℕ → Sent) (left i : ℕ) (msg : Msg) (wire : List ℕ)
    → IsValid msg
    → NoNul (content msg)
    → let (r, wire', code) = send_rounds send left i msg wire in
      IsValid r × (wire' ++ content r ≡ wire ++ content msg)
unfolding send_rounds
send_rounds_lem send zero i msg wire v z = (v, refl)
send_rounds_lem send (suc left) i msg wire v z = elim (Bool-cases (msg.size == 0)) [
  | inl nothing ↦ rw nothing (v, refl)
  | inr more ↦ rw more (
      send_turn-Keeps (send_rounds send left (i + 1)) (send i) msg wire v z
        (send_rounds_lem send left (i + 1)))
]

-- Whatever `send` returns in its rounds, a valid message without a NUL stays valid, and the bytes
-- that went over the wire followed by those that are left are the contents: none is lost, sent
-- twice or sent out of order.
pub msg_send_one-content :
    (msg : Msg) (send : ℕ → Sent)
    → IsValid msg
    → NoNul (content msg)
    → let (r, wire, code) = msg_send_one msg send in IsValid r × (wire ++ content r ≡ content msg)
unfolding msg_send_one
msg_send_one-content msg send v z = send_rounds_lem send 500 0 msg [] v z

send_rounds_empties :
    (send : ℕ → Sent) (left i : ℕ) (msg : Msg) (wire : List ℕ)
    → IsValid msg
    → msg.size ≤ left
    → ((k : ℕ) → (n : ℕ) × (send k ≡ took (suc n)))
    → let (r, wire', code) = send_rounds send left i msg wire in (r.size ≡ 0) × (code ≡ ce_success)
unfolding send_rounds send_turn
send_rounds_empties send zero i msg wire v small takes = (omega arith, refl)
send_rounds_empties send (suc left) i msg wire v small takes =
    let (n, e) = takes i in
    let (valid, size, _) = msg_rm_text_lem msg (suc n) v in
    elim (Bool-cases (msg.size == 0)) [
      | inl nothing ↦ rw nothing (==→eq _ _ nothing, refl)
      | inr more ↦ rw more (
          rw (e, send_turn)
            (rw (==-suc_zero n) (
              send_rounds_empties send left (i + 1) (msg_rm_text msg (suc n)).0
                (wire ++ take (suc n) (content msg)) valid (omega (arith, size)) takes)))
    ]

-- A valid message of at most 500 bytes without a NUL is sent whole if every `send` takes a byte or
-- more: its contents went over the wire, and none is left.
pub msg_send_one-empties :
    (msg : Msg) (send : ℕ → Sent)
    → IsValid msg
    → NoNul (content msg)
    → msg.size ≤ 500
    → ((k : ℕ) → (n : ℕ) × (send k ≡ took (suc n)))
    → let (r, wire, code) = msg_send_one msg send in
      (wire ≡ content msg) × (r.size ≡ 0) × (code ≡ ce_success)
unfolding msg_send_one
msg_send_one-empties msg send v z small takes =
    let (empty, ok) = send_rounds_empties send 500 0 msg [] v small takes in
    let (valid, all) = send_rounds_lem send 500 0 msg [] v z in
    (whole (send_rounds send 500 0 msg []).0 (send_rounds send 500 0 msg []).1 empty all, empty, ok)
  where
    whole :
        (r : Msg) (wire : List ℕ)
        → r.size ≡ 0
        → wire ++ content r ≡ content msg
        → wire ≡ content msg
    whole r wire empty all =
        sym (append-nil wire) ∙ ap (λ n. wire ++ take n (bytes r.text)) (sym empty) ∙ all

abbrev pub read_turn : List ℕ → Received → List ℕ
read_turn rest (chunk buf) = buf ++ rest
read_turn rest _ = []

-- What the loop reads, by itself: the chunks up to the first other result or the last round.
abbrev pub read_of : (ℕ → Received) → ℕ → ℕ → List ℕ
read_of recv zero i = []
read_of recv (suc left) i = read_turn (read_of recv left (i + 1)) (recv i)

module _ (calloc : Calloc) (enough : (n : ℕ) → calloc n ≡ true) where
  append_enough :
      (msg : Msg) (buf : List ℕ)
      → IsValid msg
      → msg.size + length buf + 50 < size_mod
      → let r = (msg_add_text calloc msg buf).0 in
        IsValid r × (content r ≡ content msg ++ buf) × (r.size ≡ msg.size + length buf)
  append_enough msg buf v small = elim (msg_add_text-Appended calloc msg buf v small) [
    | inl (code, a) ↦ (a.valid, a.contents, a.size)
    | inr (code, same, big, refused) ↦ cc (enough (msg.size + length buf + 50))
  ]

  abbrev Reads : Msg → List ℕ → Msg → Type 0
  Reads msg input r = IsValid r × (content r ≡ content msg ++ input)

  recv_turn-Reads :
      (next : Msg → Msg × Bool × ErrorCode) (rest : List ℕ) (x : Received) (msg : Msg)
      → IsValid msg
      → msg.size + length (read_turn rest x) + 50 < size_mod
      → ((m : Msg) → IsValid m → m.size + length rest + 50 < size_mod → Reads m rest (next m).0)
      → Reads msg (read_turn rest x) (recv_turn next calloc x msg).0
  unfolding recv_turn
  recv_turn-Reads next rest (chunk buf) msg v small keep =
      let (valid, contents, size) =
        append_enough msg buf v (omega (arith, length-append buf rest)) in
      let r = (msg_add_text calloc msg buf).0 in
      let (valid', all) = keep r valid (omega (arith, length-append buf rest, size)) in
      (valid', all ∙ ap (λ t. t ++ rest) contents ∙ append_assoc (content msg) buf rest)
  recv_turn-Reads next rest shut msg v small keep = (v, sym (append-nil (content msg)))
  recv_turn-Reads next rest would_block msg v small keep = (v, sym (append-nil (content msg)))
  recv_turn-Reads next rest failed msg v small keep = (v, sym (append-nil (content msg)))

  recv_rounds-Reads :
      (recv : ℕ → Received) (left i : ℕ) (msg : Msg)
      → IsValid msg
      → msg.size + length (read_of recv left i) + 50 < size_mod
      → Reads msg (read_of recv left i) (recv_rounds calloc recv left i msg).0
  unfolding recv_rounds
  recv_rounds-Reads recv zero i msg v small = (v, sym (append-nil (content msg)))
  recv_rounds-Reads recv (suc left) i msg v small =
      recv_turn-Reads (recv_rounds calloc recv left (i + 1)) (read_of recv left (i + 1)) (recv i)
        msg v small (recv_rounds-Reads recv left (i + 1))

  -- While memory lasts, msg_recv_one puts behind the contents of a valid message exactly what its
  -- at most 100 calls of `recv` gave, in order, and the message stays valid.
  pub msg_recv_one-content :
      (msg : Msg) (recv : ℕ → Received)
      → IsValid msg
      → msg.size + length (read_of recv 100 0) + 50 < size_mod
      → let r = (msg_recv_one calloc msg recv).0 in
        IsValid r × (content r ≡ content msg ++ read_of recv 100 0)
  unfolding msg_recv_one
  msg_recv_one-content msg recv v small = recv_rounds-Reads recv 100 0 msg v small
