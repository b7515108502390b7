-- ===== src/Server/Queue/Taken.antt =====
-- What a thread takes from the front of the queue.
use mathlib.Core.List.{map}
use mathlib.Core.Path.{subst}
use pvs_kp.Base.{
  ℕ, zero, suc, ◌+◌, ◌-◌, ◌≤◌, ◌≡◌, ◌≢◌, ◌⊎◌, inl, inr, refl, sym, ap, ◌∙◌, Bool, true, false, ◌||◌,
  none, some, List, [], ◌∷◌, arith, length, All, ◌==◌, ==→eq, Bool-cases, if◌then◌else◌,
}
use pvs_kp.Server.ErrorCode.{ErrorCode, ce_success, ce_common, ce_lock}
use pvs_kp.Server.Queue.{
  Cells, Os, Queue, set, node_get_value, take_front, queue_try_pop_front, queue_pop_front,
  destroy_rounds, queue_destroy,
}
use pvs_kp.Server.Queue.Fifo.{Item, first, last, Chain, set_same, set_other, Chain-update, Holds}

-- The outcomes of taking the front. In the last one the queue points at a node that is freed.
abbrev pub Popped : List (List ℕ) → ℕ → Queue → List ℕ → ErrorCode → Type 0
Popped values size r bytes code =
    ((code ≡ ce_success)
      × (rest : List (List ℕ)) × (values ≡ bytes ∷ rest)
      × (size ≡ length bytes)
      × Holds r rest)
    ⊎ ((code ≡ ce_common)
        × (v : List ℕ) × (rest : List (List ℕ)) × (values ≡ v ∷ rest)
        × (size ≢ length v)
        × (a : ℕ) × (r.front ≡ some a)
        × (r.cells a ≡ none))

abbrev Taken : Queue → ℕ → List (List ℕ) → Type 0
Taken q size values =
    (r : Queue) × (bytes : List ℕ) × (code : ErrorCode) × (take_front q size
      ≡ some (r, bytes, code))
    × Popped values size r bytes code

==-refl : (n : ℕ) → (n == n) ≡ true
==-refl n = ground arith

-- The value has the size that the caller asks for.
take_fitting :
    (q : Queue) (size : ℕ) (a : ℕ) (v : List ℕ) (items : List Item)
    → q.front ≡ some a
    → q.back ≡ last ((a, v) ∷ items)
    → q.size ≡ length items + 1
    → Chain q.cells ((a, v) ∷ items)
    → (size == length v) ≡ true
    → Taken q size (v ∷ map (λ (i : Item). i.1) items)
unfolding take_front node_get_value
take_fitting q size a v [] front back len chain fits =
    let freed = set q.cells a none in
    let only : (q.size - 1 == 0) ≡ true = ground (arith, len) in
    let r : Queue = record q { front = none; back = none; size = 0; cells = freed } in
    (
      r,
      v,
      ce_success,
      rw front (rw (chain.0) (rw fits (rw only refl))),
      inl (
        refl,
        [],
        refl,
        ==→eq _ _ fits,
        record { items = []; front = refl; back = refl; size = refl; chain = tt; holds = refl },
      ),
    )
take_fitting q size a v (item ∷ items) front back len chain fits =
    let freed = set q.cells a none in
    let more : (q.size - 1 == 0) ≡ false = ground (arith, len) in
    let r : Queue = record q { front = some item.0; size = q.size - 1; cells = freed } in
    (
      r,
      v,
      ce_success,
      rw front (rw (chain.0) (rw fits (rw more refl))),
      inl (
        refl,
        map (λ (i : Item). i.1) (item ∷ items),
        refl,
        ==→eq _ _ fits,
        record {
          items = item ∷ items;
          front = refl;
          back = back;
          size = omega (arith, len);
          chain = Chain-update q.cells a none (item ∷ items) chain.1 chain.2;
          holds = refl;
        },
      ),
    )

take_front-Taken :
    (q : Queue) (size : ℕ) (a : ℕ) (v : List ℕ) (items : List Item)
    → q.front ≡ some a
    → q.back ≡ last ((a, v) ∷ items)
    → q.size ≡ length items + 1
    → Chain q.cells ((a, v) ∷ items)
    → Taken q size (v ∷ map (λ (i : Item). i.1) items)
unfolding take_front node_get_value
take_front-Taken q size a v items front back len chain =
    let freed = set q.cells a none in
    elim (Bool-cases (size == length v)) [
      | inr other ↦ (
        record q { cells = freed },
        [],
        ce_common,
        rw front (rw (chain.0) (rw other refl)),
        inr (
          refl,
          v,
          map (λ (i : Item). i.1) items,
          refl,
          ground arith,
          a,
          front,
          set_same q.cells a none,
        ),
      )
      | inl fits ↦ take_fitting q size a v items front back len chain fits
    ]

take_held :
    (q : Queue) (values : List (List ℕ)) (size : ℕ)
    → Holds q values
    → (q.size == 0) ≡ false
    → Taken q size values
take_held q values size h filled = go h.items h.front h.back h.size h.chain h.holds
  where
    go :
        (items : List Item)
        → q.front ≡ first items
        → q.back ≡ last items
        → q.size ≡ length items
        → Chain q.cells items
        → map (λ (i : Item). i.1) items ≡ values
        → Taken q size values
    go [] front back len chain holds = absurd (ground (arith, filled, len))
    go ((a, v) ∷ items) front back len chain holds =
        subst (Taken q size) holds
          (take_front-Taken q size a v items front back (omega (arith, len)) chain)

empty_held :
    (q : Queue) (values : List (List ℕ)) → Holds q values → (q.size == 0) ≡ true → values ≡ []
empty_held q values h empty = go h.items h.size h.holds
  where
    go :
        (items : List Item)
        → q.size ≡ length items
        → map (λ (i : Item). i.1) items ≡ values
        → values ≡ []
    go [] len holds = sym holds
    go (item ∷ items) len holds = absurd (ground (arith, empty, len))

-- The outcomes of a call that takes the front.
abbrev pub Given : Os → List (List ℕ) → ℕ → Queue → List ℕ → ErrorCode → Type 0
Given os values size r bytes code =
    ((code ≡ ce_lock) × (os.locks ≡ false) × Holds r values)
    ⊎ ((code ≡ ce_common) × (values ≡ []) × Holds r [])
    ⊎ Popped values size r bytes code

-- From a queue that holds some values, queue_try_pop_front uses no memory that is not allocated. It
-- gives the first value, and the queue holds the others; or the mutex could not be locked or there
-- was no value, and the queue is as it was; or the first value has another size than the caller's,
-- and then the queue still points at the node that it has freed.
pub queue_try_pop_front-Given :
    (os : Os) (q : Queue) (values : List (List ℕ)) (size : ℕ)
    → Holds q values
    → (r : Queue) × (bytes : List ℕ) × (code : ErrorCode) × (queue_try_pop_front os q size
        ≡ some (r, bytes, code))
      × Given os values size r bytes code
unfolding queue_try_pop_front
queue_try_pop_front-Given os q values size h = elim (Bool-cases os.locks) [
  | inr stuck ↦ (q, [], ce_lock, rw stuck refl, inl (refl, stuck, h))
  | inl locks ↦ elim (Bool-cases (q.size == 0)) [
    | inl empty ↦ (
      q,
      [],
      ce_common,
      rw locks (rw empty refl),
      inr (
          inl (refl, empty_held q values h empty, subst (Holds q) (empty_held q values h empty) h)),
    )
    | inr filled ↦
        let (r, bytes, code, taken, popped) = take_held q values size h filled in
        (r, bytes, code, rw locks (rw filled taken), inr (inr popped))
  ]
]

-- The same of queue_pop_front, which waits where the queue is empty: then the values are those that
-- the queue holds when the wait ends, and if it still holds none that is returned.
pub queue_pop_front-Given :
    (os : Os) (q woken : Queue) (values later : List (List ℕ)) (size : ℕ)
    → Holds q values
    → Holds woken later
    → (r : Queue) × (bytes : List ℕ) × (code : ErrorCode) × (queue_pop_front os q woken size
        ≡ some (r, bytes, code))
      × (((code ≡ ce_lock) × (os.locks ≡ false) × Holds r values)
          ⊎ ((code ≡ ce_common) × (values ≡ []) × (later ≡ []) × Holds r [])
          ⊎ ((values ≡ []) × Popped later size r bytes code)
          ⊎ Popped values size r bytes code)
unfolding queue_pop_front
queue_pop_front-Given os q woken values later size h w = elim (Bool-cases os.locks) [
  | inr stuck ↦ (q, [], ce_lock, rw stuck refl, inl (refl, stuck, h))
  | inl locks ↦ elim (Bool-cases (q.size == 0)) [
    | inl empty ↦ elim (Bool-cases (woken.size == 0)) [
      | inl still ↦ (
        woken,
        [],
        ce_common,
        rw locks (rw empty (rw still refl)),
        inr (
            inl (
              refl,
              empty_held q values h empty,
              empty_held woken later w still,
              subst (Holds woken) (empty_held woken later w still) w,
            )),
      )
      | inr filled ↦
          let (r, bytes, code, taken, popped) = take_held woken later size w filled in
          (
            r,
            bytes,
            code,
            rw locks (rw empty (rw filled taken)),
            inr (inr (inl (empty_held q values h empty, popped))),
          )
    ]
    | inr filled ↦
        let (r, bytes, code, taken, popped) = take_held q values size h filled in
        (r, bytes, code, rw locks (rw filled taken), inr (inr (inr popped)))
  ]
]

-- What the loop of queue_destroy leaves of the memory.
abbrev Freed : Cells → List Item → Cells → Type 0
Freed cells items left =
    All (λ (i : Item). left i.0 ≡ none) items
    × ((c : ℕ) → All (λ (i : Item). c ≢ i.0) items → left c ≡ cells c)

destroy_rounds-Freed :
    (fuel : ℕ) (cells : Cells) (items : List Item) (size : ℕ)
    → Chain cells items
    → length items ≤ fuel
    → size ≡ length items
    → (left : Cells) × (destroy_rounds fuel cells (first items) size ≡ some (left, 0))
      × Freed cells items left
unfolding destroy_rounds
destroy_rounds-Freed fuel cells [] size chain enough len =
    (cells, rw len refl, (tt, λ c other. refl))
destroy_rounds-Freed zero cells (item ∷ items) size chain enough len = absurd (omega arith)
destroy_rounds-Freed (suc fuel) cells ((a, v) ∷ items) size chain enough len =
    let freed = set cells a none in
    let (left, run, (gone, kept)) =
      destroy_rounds-Freed fuel freed items (size - 1)
        (Chain-update cells a none items chain.1 chain.2) (omega arith) (omega (arith, len)) in
    (
      left,
      rw (chain.0) run,
      (
        (kept a chain.1 ∙ set_same cells a none, gone),
        λ c other. kept c other.1 ∙ set_other cells a c none (λ e. other.0 (sym e)),
      ),
    )

-- Whether a node of the items stands at the address.
abbrev pub stands_in : ℕ → List Item → Bool
stands_in c [] = false
stands_in c ((a, v) ∷ items) = c == a || stands_in c items

gone_at :
    (left : Cells) (c : ℕ) (items : List Item)
    → All (λ (i : Item). left i.0 ≡ none) items
    → stands_in c items ≡ true
    → left c ≡ none
gone_at left c [] gone here = cc
gone_at left c ((a, v) ∷ items) gone here = elim (Bool-cases (c == a)) [
  | inl same ↦ ap left (==→eq _ _ same) ∙ gone.0
  | inr other ↦ gone_at left c items gone.1 (ap (λ b. b || stands_in c items) (sym other) ∙ here)
]

other_at :
    (c : ℕ) (items : List Item) → stands_in c items ≡ false → All (λ (i : Item). c ≢ i.0) items
other_at c [] away = tt
other_at c ((a, v) ∷ items) away = elim (Bool-cases (c == a)) [
  | inl same ↦ absurd (cc (ap (λ b. b || stands_in c items) (sym same) ∙ away))
  | inr other ↦
      (ground arith, other_at c items (ap (λ b. b || stands_in c items) (sym other) ∙ away))
]

-- With at least as much fuel as there are values, queue_destroy uses no memory that is not
-- allocated, leaves an empty queue without front and back, frees every node of the queue and changes no other memory.
pub queue_destroy-cells :
    (fuel : ℕ) (q : Queue) (values : List (List ℕ)) (h : Holds q values) (c : ℕ)
    → q.size ≤ fuel
    → (r : Queue) × (queue_destroy fuel q ≡ some r)
      × (r.size ≡ 0)
      × (r.front ≡ none)
      × (r.back ≡ none)
      × (r.cells c ≡ (if stands_in c h.items then none else q.cells c))
unfolding queue_destroy
queue_destroy-cells fuel q values h c enough =
    let (left, run, (gone, kept)) =
      destroy_rounds-Freed fuel q.cells h.items q.size h.chain (omega (arith, h.size)) h.size in
    let r : Queue = record q { front = none; back = none; size = 0; cells = left } in
    let at_c : left c ≡ (if stands_in c h.items then none else q.cells c) =
      elim (Bool-cases (stands_in c h.items)) [
        | inl here ↦ rw here (gone_at left c h.items gone here)
        | inr away ↦ rw away (kept c (other_at c h.items away))
      ] in
    (r, rw (h.front) (rw run refl), refl, refl, refl, at_c)
