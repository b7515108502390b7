-- ===== src/Client/Peer/Send/Pending.antt =====
-- What a peer has yet to send, and what the filling of its buffer makes of it.
use pvs_kp.Base.{
  ℕ, zero, suc, ◌+◌, ◌-◌, ◌≤◌, ◌<◌, ◌≡◌, refl, sym, ap, ◌∙◌, arith, true, false, some, List, [],
  ◌∷◌, ◌++◌, length, take, drop, memcpy, ltb, leb, ◌==◌, Bool-cases, ==→eq, length-append,
  length-take, length-drop, length-memcpy, take-memcpy, append_assoc, append-nil, le→leb, le→ltb,
  inl, inr, take-prefix,
}
use pvs_kp.Client.MString.Contents.{str_of}
use pvs_kp.Client.Queue.Contents.{
  queue_of, strings_of, length-strings_of, queue_peek-cons, queue_pop_front-cons,
}
use pvs_kp.Client.Peer.{Peer}
use pvs_kp.Client.Peer.Send.{add_data_to_buffer_in, reduce_messages_in, fill_rounds, fill_buffer_in}

-- The peer with these texts in its queue of messages.
abbrev pub holding : Peer → List (List ℕ) → Peer
holding p texts = record p { messages_in = queue_of (strings_of texts) }

abbrev pub joined : List (List ℕ) → List ℕ
joined [] = []
joined (text ∷ texts) = text ++ joined texts

-- What stands in the buffer, and then what the queue has behind the start of its first message.
abbrev pub pending : Peer → List (List ℕ) → List ℕ
pending p texts = take p.buffer_in_size p.buffer_in ++ drop p.message_in_begin (joined texts)

-- The place in the first message is within it.
abbrev pub BeginsWithin : ℕ → List (List ℕ) → Type 0
BeginsWithin begin [] = begin ≡ 0
BeginsWithin begin (text ∷ texts) = begin ≤ length text

abbrev pub IsSendable : Peer → List (List ℕ) → Type 0
IsSendable p texts =
    (length p.buffer_in ≡ 1024) × (p.buffer_in_size ≤ 1024) × BeginsWithin p.message_in_begin texts

-- The buffer takes the rest of the first message.
abbrev pub moved : Peer → List ℕ → Peer
moved p text =
    let left = length text - p.message_in_begin in
    record p {
      message_in_begin = 0;
      buffer_in = memcpy p.buffer_in p.buffer_in_size (drop p.message_in_begin text);
      buffer_in_size = p.buffer_in_size + left;
    }

pub drop-append_le : (n : ℕ) (xs ys : List ℕ) → n ≤ length xs → drop n (xs ++ ys) ≡ drop n xs ++ ys
drop-append_le zero xs ys h = refl
drop-append_le (suc n) [] ys h = absurd (omega arith)
drop-append_le (suc n) (x ∷ xs) ys h = drop-append_le n xs ys (omega arith)

-- Nothing behind the text is taken.
take-rest :
    (begin : ℕ) (text : List ℕ)
    → begin ≤ length text
    → take (length text - begin) (drop begin (text ++ 0 ∷ [])) ≡ drop begin text
take-rest begin text h =
    let size : length text - begin ≡ length (drop begin text) = sym (length-drop begin text) in
    rw (drop-append_le begin text (0 ∷ []) h) (rw size (take-prefix (drop begin text) (0 ∷ [])))

reduce_messages_in-moved :
    (p : Peer) (text : List ℕ) (texts : List (List ℕ))
    → p.message_in_begin ≤ length text
    → p.buffer_in_size + (length text - p.message_in_begin) ≤ 1024
    → reduce_messages_in (holding p (text ∷ texts)) (str_of text)
      ≡ some (holding (moved p text) texts)
unfolding reduce_messages_in add_data_to_buffer_in
reduce_messages_in-moved p text texts within room =
    let left = length text - p.message_in_begin in
    let small : ltb 1024 left ≡ false = le→ltb 1024 left (omega arith) in
    let fits : leb (p.buffer_in_size + left) 1024 ≡ true =
      le→leb (p.buffer_in_size + left) 1024 room in
    let whole : (p.message_in_begin + left == length text) ≡ true =
      at_end p.message_in_begin (length text) within in
    rw small (
      rw fits (
        rw whole (
          rw (queue_pop_front-cons (str_of text) (strings_of texts))
            (rw (take-rest p.message_in_begin text within)))))
  where
    at_end : (a b : ℕ) → a ≤ b → (a + (b - a) == b) ≡ true
    at_end a b h = ground arith

pending-moved :
    (p : Peer) (text : List ℕ) (texts : List (List ℕ))
    → IsSendable p (text ∷ texts)
    → pending (moved p text) texts ≡ pending p (text ∷ texts)
pending-moved p text texts (l, size, within) =
    let left : length text - p.message_in_begin ≡ length (drop p.message_in_begin text) =
      sym (length-drop p.message_in_begin text) in
    rw left (
      rw (take-memcpy p.buffer_in p.buffer_in_size (drop p.message_in_begin text) (omega arith)) (
        rw (drop-append_le p.message_in_begin text (joined texts) within) (
          append_assoc (take p.buffer_in_size p.buffer_in) (drop p.message_in_begin text)
            (joined texts))))

-- Everything stands in the buffer.
abbrev pub Filled : Peer → List (List ℕ) → Peer → List (List ℕ) → Type 0
Filled p texts p' texts' =
    (take p'.buffer_in_size p'.buffer_in ≡ pending p texts)
    × (p'.buffer_in_size ≡ length (pending p texts))
    × (drop p'.message_in_begin (joined texts') ≡ [])
    × IsSendable p' texts'
    × (p'.fd ≡ p.fd)
    × (p'.type_ ≡ p.type_)

length-pending :
    (p : Peer) (texts : List (List ℕ))
    → IsSendable p texts
    → length (pending p texts) ≡ p.buffer_in_size + length (drop p.message_in_begin (joined texts))
length-pending p texts (l, size, within) = omega (
  arith,
  length-append (take p.buffer_in_size p.buffer_in) (drop p.message_in_begin (joined texts)),
  length-take p.buffer_in_size p.buffer_in (omega arith),
)

no_length : (xs : List ℕ) → length xs ≡ 0 → xs ≡ []
no_length [] h = refl
no_length (x ∷ xs) h = absurd (omega arith)

-- With nothing left in the queue's messages, the buffer is all there is.
Filled-done :
    (p : Peer) (texts : List (List ℕ))
    → IsSendable p texts
    → length (drop p.message_in_begin (joined texts)) ≡ 0
    → Filled p texts p texts
Filled-done p texts valid none_left =
    let empty = no_length (drop p.message_in_begin (joined texts)) none_left in
    (
      rw empty (sym (append-nil (take p.buffer_in_size p.buffer_in))),
      omega (arith, length-pending p texts valid, none_left),
      empty,
      valid,
      refl,
      refl,
    )

moved-IsSendable :
    (p : Peer) (text : List ℕ) (texts : List (List ℕ))
    → IsSendable p (text ∷ texts)
    → p.buffer_in_size + (length text - p.message_in_begin) ≤ 1024
    → IsSendable (moved p text) texts
moved-IsSendable p text texts (l, size, within) room = (
  length-memcpy p.buffer_in p.buffer_in_size (drop p.message_in_begin text)
        (omega (arith, length-drop p.message_in_begin text))
      ∙ l,
  room,
  begins texts,
)
  where
    begins : (texts : List (List ℕ)) → BeginsWithin 0 texts
    begins [] = refl
    begins (text ∷ texts) = omega arith

left_behind :
    (p : Peer) (text : List ℕ) (texts : List (List ℕ))
    → p.message_in_begin ≤ length text
    → length (drop p.message_in_begin (joined (text ∷ texts)))
      ≡ length text - p.message_in_begin + length (joined texts)
left_behind p text texts within = omega (
  arith,
  length-drop p.message_in_begin (text ++ joined texts),
  length-append text (joined texts),
)

-- A round with a full buffer is the last.
stops :
    (fuel : ℕ) (p : Peer) (text : List ℕ) (texts : List (List ℕ))
    → (p.buffer_in_size == 1024) ≡ true
    → fill_rounds (suc fuel) (some (holding p (text ∷ texts))) ≡ some (holding p (text ∷ texts))
unfolding fill_rounds
stops fuel p text texts full = rw (queue_peek-cons (str_of text) (strings_of texts)) (rw full)

goes_on :
    (fuel : ℕ) (p : Peer) (text : List ℕ) (texts : List (List ℕ))
    → (p.buffer_in_size == 1024) ≡ false
    → p.message_in_begin ≤ length text
    → p.buffer_in_size + (length text - p.message_in_begin) ≤ 1024
    → fill_rounds (suc fuel) (some (holding p (text ∷ texts)))
      ≡ fill_rounds fuel (some (holding (moved p text) texts))
unfolding fill_rounds
goes_on fuel p text texts more within fits =
    rw (queue_peek-cons (str_of text) (strings_of texts))
      (rw more (rw (reduce_messages_in-moved p text texts within fits)))

fill_rounds-Filled :
    (fuel : ℕ) (p : Peer) (texts : List (List ℕ))
    → length texts < fuel
    → IsSendable p texts
    → length (pending p texts) ≤ 1024
    → (p' : Peer) × (texts' : List (List ℕ)) × (fill_rounds fuel (some (holding p texts))
        ≡ some (holding p' texts'))
      × Filled p texts p' texts'
unfolding fill_rounds
fill_rounds-Filled zero p texts enough valid room = absurd (omega arith)
fill_rounds-Filled (suc fuel) p [] enough valid room =
    (p, [], refl, Filled-done p [] valid (ap length (nothing p.message_in_begin)))
  where
    nothing : (n : ℕ) → drop {A = ℕ} n [] ≡ []
    nothing zero = refl
    nothing (suc n) = refl
fill_rounds-Filled (suc fuel) p (text ∷ texts) enough valid room =
    let behind = left_behind p text texts valid.2 in
    let whole = length-pending p (text ∷ texts) valid in
    elim (Bool-cases (p.buffer_in_size == 1024)) [
      | inl full ↦
          let at_end = ==→eq p.buffer_in_size 1024 full in
          (
            p,
            text ∷ texts,
            stops fuel p text texts full,
            Filled-done p (text ∷ texts) valid (omega arith),
          )
      | inr more ↦
          let fits : p.buffer_in_size + (length text - p.message_in_begin) ≤ 1024 = omega arith in
          let kept = pending-moved p text texts valid in
          let (p', texts', ran, filled) =
            fill_rounds-Filled fuel (moved p text) texts (omega arith)
              (moved-IsSendable p text texts valid fits) (rw kept room) in
          (p', texts', goes_on fuel p text texts more valid.2 fits ∙ ran, rw kept at filled)
    ]

-- Where all that a peer has to send is no longer than the buffer, fill_buffer_in brings it there.
pub fill_buffer_in-Filled :
    (p : Peer) (texts : List (List ℕ))
    → IsSendable p texts
    → length (pending p texts) ≤ 1024
    → (p' : Peer) × (texts' : List (List ℕ)) × (fill_buffer_in (holding p texts)
        ≡ some (holding p' texts'))
      × Filled p texts p' texts'
unfolding fill_buffer_in
fill_buffer_in-Filled p texts valid room =
    fill_rounds-Filled (suc (length (strings_of texts))) p texts
      (omega (arith, length-strings_of texts)) valid room
