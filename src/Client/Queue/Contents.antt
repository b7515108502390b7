-- ===== src/Client/Queue/Contents.antt =====
-- What the queues of client/src/queue.c hold.
use mathlib.Core.Option
use pvs_kp.Base.{
  ℕ, suc, ◌+◌, ◌-◌, ◌<◌, ◌≡◌, refl, ap, arith, ◌⊎◌, inl, inr, Option, none, some, List, [], ◌∷◌,
  ◌++◌, length, length-append, ◌==◌, false, if◌then◌else◌, ==-suc_zero, Bool-cases,
}
use pvs_kp.Client.Errors.{Code, success, memory_error, queue_overflow}
use pvs_kp.Client.Memory.{Memory, rest, Plenty, Plenty-rest, malloc-cases, Plenty-malloc}
use pvs_kp.Client.MString.{MString, string_copy}
use pvs_kp.Client.MString.Contents.{str_of, MadeOf, string_copy-MadeOf, string_copy-Plenty}
use pvs_kp.Client.Queue.{Queue, at_back, queue_push_back, queue_pop_front, queue_peek}

module _ {ℓ} {A : Type ℓ} where
  -- The queue of these values.
  abbrev pub queue_of : List A → Queue A
  queue_of values = record { nodes = values; size = length values; max_size = 10000 }

  pub queue_peek-cons : (x : A) (xs : List A) → queue_peek (queue_of (x ∷ xs)) ≡ some x
  unfolding queue_peek
  queue_peek-cons x xs = rw (==-suc_zero (length xs))

  pub queue_pop_front-cons :
      (x : A) (xs : List A) → queue_pop_front (queue_of (x ∷ xs)) ≡ some (queue_of xs)
  unfolding queue_pop_front
  queue_pop_front-cons x xs =
      let left : suc (length xs) - 1 ≡ length xs = omega arith in
      rw (==-suc_zero (length xs)) (rw left (emptied xs))
    where
      emptied :
          (xs : List A)
          → some (record {
            nodes = if length xs == 0 then [] else xs;
            size = length xs;
            max_size = 10000;
          })
            ≡ some (queue_of xs)
      emptied [] = refl
      emptied (y ∷ ys) = rw (==-suc_zero (length ys))

abbrev pub strings_of : List (List ℕ) → List MString
strings_of [] = []
strings_of (text ∷ texts) = str_of text ∷ strings_of texts

pub length-strings_of : (texts : List (List ℕ)) → length (strings_of texts) ≡ length texts
length-strings_of [] = refl
length-strings_of (text ∷ texts) = ap suc (length-strings_of texts)

pub strings_of-append :
    (texts : List (List ℕ)) (text : List ℕ)
    → strings_of (texts ++ text ∷ []) ≡ strings_of texts ++ str_of text ∷ []
strings_of-append [] text = refl
strings_of-append (t ∷ texts) text = ap (λ ss. str_of t ∷ ss) (strings_of-append texts text)

-- The value behind the others, or the queue as it was.
abbrev pub PushedTo : Queue MString → MString → Queue MString × Code × Memory → Type 0
PushedTo q x r =
    ((r.1 ≡ success)
      × (r.0.nodes ≡ q.nodes ++ x ∷ [])
      × (r.0.size ≡ q.size + 1)
      × (r.0.max_size ≡ q.max_size))
    ⊎ ((r.0 ≡ q) × ((r.1 ≡ memory_error) ⊎ (r.1 ≡ queue_overflow)))

at_back-PushedTo :
    (q : Queue MString) (text : List ℕ) (r : Option MString × Memory)
    → MadeOf text r.0
    → PushedTo q (str_of text) (at_back q r)
at_back-PushedTo q text (none, mem) h = inr (refl, inl refl)
at_back-PushedTo q text (some s, mem) (inl e) = cc
at_back-PushedTo q text (some s, mem) (inr e) =
    let same : s ≡ str_of text = Option.some-injective s (str_of text) e in
    rw same (inl (refl, refl, refl, refl))

-- A push of a string that leaves success has put it behind the others; any other code leaves the
-- queue as it was.
pub queue_push_back-PushedTo :
    (q : Queue MString) (text : List ℕ) (mem : Memory)
    → PushedTo q (str_of text) (queue_push_back string_copy q (str_of text) mem)
unfolding queue_push_back
queue_push_back-PushedTo q text mem = elim (Bool-cases (q.size == q.max_size)) [
  | inl e ↦ rw e (inr (refl, inr refl))
  | inr e ↦ elim (malloc-cases 8 mem) [
    | inl e1 ↦ rw e (rw e1 (inr (refl, inl refl)))
    | inr (node, l, e1) ↦
        rw e (rw e1 (at_back-PushedTo q text _ (string_copy-MadeOf text (rest mem))))
  ]
]

pub queue_push_back-Plenty :
    (xs : List MString) (text : List ℕ) (mem : Memory)
    → length xs < 10000
    → Plenty mem
    → queue_push_back string_copy (queue_of xs) (str_of text) mem
      ≡ (queue_of (xs ++ str_of text ∷ []), success, rest (rest (rest mem)))
unfolding queue_push_back
queue_push_back-Plenty xs text mem room h =
    let (node, l, e) = Plenty-malloc 8 mem h in
    let open_ : (length xs == 10000) ≡ false = ground arith in
    let longer : length xs + 1 ≡ length (xs ++ str_of text ∷ []) =
      omega (arith, length-append xs (str_of text ∷ [])) in
    let copied = string_copy-Plenty text (rest mem) (Plenty-rest mem h) in
    rw open_ (rw e (rw copied (rw longer)))
