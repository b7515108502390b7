-- ===== src/Server/ServerInfo/Compressed.antt =====
-- Which connections of a thread server_info_compress of server/src/server_info.c keeps.
use mathlib.Core.Option
use pvs_kp.Base.{
  ℕ, zero, suc, ◌+◌, ◌-◌, ◌≤◌, ◌<◌, ◌≡◌, inl, inr, refl, ap, sym, ◌∙◌, Bool, true, false, not, ◌&&◌,
  ◌||◌, Option, none, some, List, [], ◌∷◌, ◌++◌, arith, length, take, drop, All, ltb, lt→ltb,
  Bool-cases, if◌then◌else◌, ◌==◌, append-nil, append_assoc, take-prefix, drop-append,
  drop-append_more, length-append,
}
use pvs_kp.Server.ServerInfo.{
  Slot, ServerInfo, is_open, has_client, move_slots, run_end, Slots, close_run, compress_turn,
  compress_rounds, server_info_compress,
}

-- Reference: the open connections, in their order.
unfoldable pub open_slots : List Slot → List Slot
open_slots [] = []
open_slots (s ∷ rest) = let kept = open_slots rest in if is_open s then s ∷ kept else kept

-- Reference: whether the first slot is closed, and whether two neighbours are.
unfoldable pub starts_closed : List Slot → Bool
starts_closed [] = false
starts_closed (s ∷ rest) = not (is_open s)

unfoldable pub closed_neighbours : List Slot → Bool
closed_neighbours [] = false
closed_neighbours (s ∷ rest) = not (is_open s) && starts_closed rest || closed_neighbours rest

abbrev pub HasClient : Slot → Type 0
HasClient s = has_client s ≡ true

-- The slots that count.
abbrev pub used : Option Slots → Option (List Slot)
used r = Option.map {A = Slots} (λ z. take z.1 z.0) r

-- A closed slot goes, and those behind it come to its place.
==-refl : (n : ℕ) → (n == n) ≡ true
==-refl n = ground arith

move_slots-one :
    (done rest behind : List Slot) (s : Slot)
    → move_slots (done ++ (s ∷ (rest ++ behind))) (length done) (length done + 1) (length rest)
      ≡ done ++ (rest ++ drop (length done + length rest) (done ++ (s ∷ (rest ++ behind))))
unfolding move_slots
move_slots-one done rest behind s =
    rw (take-prefix done (s ∷ (rest ++ behind)))
      (rw (drop-append_more done (s ∷ (rest ++ behind)) 1) (rw (take-prefix rest behind) refl))

-- What the loop gives from there on.
abbrev pub expected : List Slot → List Slot → Option (List Slot)
expected done rest = if closed_neighbours rest then none else some (done ++ open_slots rest)

expected_next :
    (done rest : List Slot) (s : Slot)
    → expected (done ++ s ∷ []) rest
      ≡ (if closed_neighbours rest then none else some (done ++ s ∷ open_slots rest))
expected_next done rest s = rw (append_assoc done (s ∷ []) (open_slots rest)) refl

run_end-size :
    (max_size size : ℕ) (slots : List Slot)
    → size < max_size
    → run_end max_size size size slots ≡ some size
unfolding run_end
run_end-size max_size size [] room = rw (==-refl size) (rw (lt→ltb size max_size room) refl)
run_end-size max_size size (s ∷ slots) room =
    rw (==-refl size) (rw (lt→ltb size max_size room) refl)

-- A round at a closed slot, the last one or one before others.
module _ (next : List Slot → ℕ → Option Slots) (max_size size : ℕ) (done behind : List Slot)
    (s : Slot) (closed : is_open s ≡ false) (alive : has_client s ≡ true) where
  close_last :
      size ≡ length done + 1
      → size < max_size
      → used (compress_turn next max_size (length done) (done ++ (s ∷ behind)) size (s ∷ behind))
        ≡ some done
  unfolding compress_turn close_run
  close_last ends room = rw closed (
      rw alive (
        rw (sym ends) (
          rw (run_end-size max_size size behind room)
            (rw (==-refl size) (ap some (take-prefix done (s ∷ behind)))))))

  module _ (s2 : Slot) (rest : List Slot)
      (ends : size ≡ length done + suc (suc (length rest))) where
    abbrev array : List Slot
    array = done ++ (s ∷ (s2 ∷ rest ++ behind))

    close_more :
        is_open s2 ≡ true
        → compress_turn next max_size (length done) array size (s ∷ (s2 ∷ rest ++ behind))
          ≡ next
              (done ++ (s2 ∷ (rest ++ drop (length done + suc (length rest)) array)))
              (length done + suc (length rest))
    unfolding compress_turn close_run run_end
    close_more opened =
        let other : (length done + 1 == size) ≡ false = ground (arith, ends) in
        let count : size - (length done + 1) ≡ suc (length rest) = omega (arith, ends) in
        let left : size - (length done + 1 - length done) ≡ length done + suc (length rest) =
          omega (arith, ends) in
        rw closed (
          rw alive (
            rw other (
              rw opened (
                rw other
                  (rw count (rw left (rw (move_slots-one done (s2 ∷ rest) behind s) refl)))))))

    close_lost :
        is_open s2 ≡ false
        → has_client s2 ≡ true
        → compress_turn next max_size (length done) array size (s ∷ (s2 ∷ rest ++ behind)) ≡ none
    unfolding compress_turn close_run run_end
    close_lost closed2 alive2 =
        let other : (length done + 1 == size) ≡ false = ground (arith, ends) in
        rw closed (rw alive (rw other (rw closed2 (rw alive2 refl))))

-- A round at a slot.
module _ (left max_size size : ℕ) (done tail : List Slot) (s : Slot) where
  one_round :
      length done < size
      → compress_rounds (suc left) max_size (length done) (done ++ (s ∷ tail)) size
        ≡ compress_turn
            (compress_rounds left max_size (length done + 1))
            max_size
            (length done)
            (done ++ (s ∷ tail))
            size
            (s ∷ tail)
  unfolding compress_rounds
  one_round below = rw (lt→ltb (length done) size below) (rw (drop-append done (s ∷ tail)) refl)

  next_round :
      compress_rounds left max_size (length done + 1) (done ++ (s ∷ tail)) size
      ≡ compress_rounds left max_size (length (done ++ s ∷ [])) ((done ++ s ∷ []) ++ tail) size
  next_round = rw (length-append done (s ∷ [])) (rw (append_assoc done (s ∷ []) tail) refl)

open_round :
    (left max_size size : ℕ) (done rest behind : List Slot) (s : Slot)
    → length done < size
    → is_open s ≡ true
    → used (
        compress_rounds left max_size
          (length (done ++ s ∷ []))
          ((done ++ s ∷ []) ++ (rest ++ behind))
          size)
      ≡ expected (done ++ s ∷ []) rest
    → used (compress_rounds (suc left) max_size (length done) (done ++ (s ∷ (rest ++ behind))) size)
      ≡ expected done (s ∷ rest)
unfolding compress_turn closed_neighbours open_slots
open_round left max_size size done rest behind s below opened later =
    let round = one_round left max_size size done (rest ++ behind) s below in
    let shift = next_round left max_size size done (rest ++ behind) s in
    rw round (rw opened (rw shift (later ∙ expected_next done rest s)))

closed_round :
    (left max_size size : ℕ) (done rest behind : List Slot) (s s2 : Slot)
    → size ≡ length done + suc (suc (length rest))
    → is_open s ≡ false
    → has_client s ≡ true
    → is_open s2 ≡ true
    → ((behind' : List Slot)
        → used (
            compress_rounds left max_size
              (length (done ++ s2 ∷ []))
              ((done ++ s2 ∷ []) ++ (rest ++ behind'))
              (length done + suc (length rest)))
          ≡ expected (done ++ s2 ∷ []) rest)
    → used (
        compress_rounds
          (suc left)
          max_size
          (length done)
          (done ++ (s ∷ (s2 ∷ rest ++ behind)))
          size)
      ≡ expected done (s ∷ (s2 ∷ rest))
unfolding closed_neighbours open_slots starts_closed
closed_round left max_size size done rest behind s s2 ends closed alive opened later =
    let round = one_round left max_size size done (s2 ∷ rest ++ behind) s (omega (arith, ends)) in
    let next = compress_rounds left max_size (length done + 1) in
    let moved = close_more next max_size size done behind s closed alive s2 rest ends opened in
    let behind' = drop (length done + suc (length rest)) (done ++ (s ∷ (s2 ∷ rest ++ behind))) in
    let shift =
      next_round left max_size (length done + suc (length rest)) done (rest ++ behind') s2 in
    ap used (round ∙ moved ∙ shift)
    ∙ later behind'
    ∙ expected_next done rest s2
    ∙ rw closed (rw opened refl)

-- The rounds from a slot on.
compress_rounds-expected :
    (left max_size size : ℕ) (done rest behind : List Slot)
    → All HasClient rest
    → length rest ≤ left
    → size ≡ length done + length rest
    → size < max_size
    → used (compress_rounds left max_size (length done) (done ++ (rest ++ behind)) size)
      ≡ expected done rest
unfolding compress_rounds closed_neighbours open_slots starts_closed
compress_rounds-expected zero max_size size done [] behind all enough ends room =
    let same : size ≡ length done = omega (arith, ends) in
    rw same (rw (take-prefix done behind) (rw (append-nil done) refl))
compress_rounds-expected zero max_size size done (s ∷ rest) behind all enough ends room =
    absurd (omega arith)
compress_rounds-expected (suc left) max_size size done [] behind all enough ends room =
    let over : ltb (length done) size ≡ false = ground (arith, ends) in
    let same : size ≡ length done = omega (arith, ends) in
    rw over (rw same (rw (take-prefix done behind) (rw (append-nil done) refl)))
compress_rounds-expected (suc left) max_size size done (s ∷ []) behind all enough ends room =
    elim (Bool-cases (is_open s)) [
      | inl opened ↦ open_round left max_size size done [] behind s (omega (arith, ends)) opened (
          compress_rounds-expected left max_size size (done ++ s ∷ []) [] behind tt (omega arith)
            (omega (arith, ends, length-append done (s ∷ []))) room)
      | inr closed ↦
          ap used (one_round left max_size size done behind s (omega (arith, ends)))
          ∙ close_last (compress_rounds left max_size (length done + 1)) max_size size done behind s
              closed all.0 ends room
          ∙ rw closed (rw (append-nil done) refl)
    ]
compress_rounds-expected (suc left) max_size size done (s ∷ (s2 ∷ rest)) behind all enough ends
      room =
    elim (Bool-cases (is_open s)) [
      | inl opened ↦
          open_round left max_size size done (s2 ∷ rest) behind s (omega (arith, ends)) opened (
            compress_rounds-expected left max_size size (done ++ s ∷ []) (s2 ∷ rest) behind all.1
              (omega arith) (omega (arith, ends, length-append done (s ∷ []))) room)
      | inr closed ↦ elim (Bool-cases (is_open s2)) [
        | inl opened ↦
            closed_round left max_size size done rest behind s s2 ends closed all.0 opened
              (λ behind'.
                compress_rounds-expected left max_size (length done + suc (length rest))
                  (done ++ s2 ∷ []) rest behind' all.1.1 (omega arith)
                  (omega (arith, length-append done (s2 ∷ []))) (omega (arith, ends, room)))
        | inr shut ↦
            ap used (
              one_round left max_size size done (s2 ∷ rest ++ behind) s (omega (arith, ends))
              ∙ close_lost (compress_rounds left max_size (length done + 1)) max_size size done
                  behind s closed all.0 s2 rest ends shut all.1.0)
            ∙ rw closed (rw shut refl)
      ]
    ]

-- Every connection of a thread has its client, and the arrays are not full. Compressing in place keeps
-- exactly the open connections, in their order, where no two neighbours are closed, and else loses
-- the array of the clients.
pub server_info_compress-slots :
    (server : ServerInfo)
    → All HasClient server.slots
    → length server.slots < server.max_size
    → server_info_compress server ≡ (
        if closed_neighbours server.slots
        then none
        else some (record server { slots = open_slots server.slots }))
unfolding server_info_compress
server_info_compress-slots server all room =
    let slots = server.slots in
    let with_slots : List Slot → ServerInfo = λ l. record server { slots = l } in
    let run = rw (append-nil slots) at (
      compress_rounds-expected (length slots) server.max_size (length slots) [] slots [] all
        (omega arith) (omega arith) room) in
    filled (compress_rounds (length slots) server.max_size 0 slots (length slots))
    ∙ ap (λ r. Option.map {A = List Slot} with_slots r) run
    ∙ elim (Bool-cases (closed_neighbours slots)) [
      | inl lost ↦ rw lost refl
      | inr whole ↦ rw whole refl
    ]
  where
    filled :
        (r : Option Slots)
        → Option.map {A = Slots} {B = ServerInfo} (λ z. record server { slots = take z.1 z.0 }) r
          ≡ Option.map {A = List Slot} (λ l. record server { slots = l }) (used r)
    filled none = refl
    filled (some z) = refl
