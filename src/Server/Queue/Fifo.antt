-- ===== src/Server/Queue/Fifo.antt =====
-- The linked nodes of the queue hold a list of values, pushed behind and taken in front.
use mathlib.Core.Option
use mathlib.Core.List.{map}
use pvs_kp.Base.{
  ℕ, ◌+◌, ◌≡◌, ◌≢◌, ◌⊎◌, inl, inr, refl, sym, ap, ◌∙◌, Bool, true, false, Option, none, some, List,
  [], ◌∷◌, ◌++◌, arith, length, length-append, All, All-append, ◌==◌, ==→eq, Bool-cases,
}
use pvs_kp.Server.ErrorCode.{ErrorCode, ce_success, ce_alloc, ce_lock, ce_max_size}
use pvs_kp.Server.Queue.{
  Node, Cells, Os, Queue, set, blank, node_init_with_value, queue_init, link_back, queue_push_back,
}

-- An address and the value in the node there.
abbrev pub Item : Type 0
Item = ℕ × List ℕ

abbrev pub first : List Item → Option ℕ
first [] = none
first ((a, v) ∷ items) = some a

abbrev pub last : List Item → Option ℕ
last [] = none
last ((a, v) ∷ []) = some a
last ((a, v) ∷ item ∷ items) = last (item ∷ items)

abbrev pub cell : List ℕ → Option ℕ → Option Node
cell v next = some (record { value = some v; size = length v; next = next })

-- The nodes of the items are linked in their order and stand at different addresses.
abbrev pub Chain : Cells → List Item → Type 0
Chain cells [] = Unit
Chain cells ((a, v) ∷ items) =
    (cells a ≡ cell v (first items)) × All (λ (i : Item). a ≢ i.0) items × Chain cells items

pub set_same : (cells : Cells) (a : ℕ) (x : Option Node) → set cells a x a ≡ x
set_same cells a x = ground arith

pub set_other : (cells : Cells) (a b : ℕ) (x : Option Node) → a ≢ b → set cells a x b ≡ cells b
set_other cells a b x h = ground arith

pub Chain-update :
    (cells : Cells) (c : ℕ) (x : Option Node) (items : List Item)
    → All (λ (i : Item). c ≢ i.0) items
    → Chain cells items
    → Chain (set cells c x) items
Chain-update cells c x [] other h = tt
Chain-update cells c x ((a, v) ∷ items) other h =
    (set_other cells c a x other.0 ∙ h.0, h.1, Chain-update cells c x items other.1 h.2)

-- A free address is none of the items'.
free_other :
    (cells : Cells) (c : ℕ) (items : List Item)
    → cells c ≡ none
    → Chain cells items
    → All (λ (i : Item). c ≢ i.0) items
free_other cells c [] free h = tt
free_other cells c ((a, v) ∷ items) free h = (differs, free_other cells c items free h.2)
  where
    differs : c ≢ a
    differs e = cc

last_other :
    (a b : ℕ) (items : List Item) → All (λ (i : Item). a ≢ i.0) items → last items ≡ some b → a ≢ b
last_other a b [] other h = cc
last_other a b ((c, v) ∷ []) other h = λ e. other.0 (e ∙ sym (Option.some-injective c b h))
last_other a b ((c, v) ∷ item ∷ items) other h = last_other a b (item ∷ items) other.1 h

-- A new node and a link to it from the last one.
module _ (cells : Cells) (c : ℕ) (v : List ℕ) (b : ℕ) (free : cells c ≡ none) where
  abbrev with_new : Cells
  with_new = set cells c (cell v none)

  abbrev with_link : Node → Cells
  with_link node = set with_new b (some (record node { next = some c }))

  Chain-link :
      (items : List Item)
      → last items ≡ some b
      → Chain cells items
      → (node : Node) × (with_new b ≡ some node) × Chain (with_link node) (items ++ (c, v) ∷ [])
  Chain-link [] h chain = absurd (cc h)
  Chain-link ((a, w) ∷ []) h chain =
      let e : a ≡ b = Option.some-injective a b h in
      let other = free_other cells c ((a, w) ∷ []) free chain in
      let node : Node = record { value = some w; size = length w; next = none } in
      let here : with_new b ≡ some node =
        rw (sym e) (set_other cells c a (cell v none) other.0 ∙ chain.0) in
      let link : with_link node a ≡ cell w (some c) =
        rw e (set_same with_new b (cell w (some c))) in
      let apart : b ≢ c = λ e'. other.0 (sym (e ∙ e')) in
      let new : with_link node c ≡ cell v none =
        set_other with_new b c (cell w (some c)) apart ∙ set_same cells c (cell v none) in
      (node, here, (link, ((λ e'. other.0 (sym e')), tt), (new, tt, tt)))
  Chain-link ((a, w) ∷ item ∷ items) h chain =
      let (node, here, rest) = Chain-link (item ∷ items) h chain.2 in
      let other = free_other cells c ((a, w) ∷ item ∷ items) free chain in
      let x : Option Node = some (record node { next = some c }) in
      let kept : with_link node a ≡ cells a =
        set_other with_new b a x (λ e. last_other a b (item ∷ items) chain.1 h (sym e))
        ∙ set_other cells c a (cell v none) other.0 in
      let behind =
        All-append (λ (i : Item). a ≢ i.0) (item ∷ items) ((c, v) ∷ []) chain.1
          ((λ e. other.0 (sym e)), tt) in
      (node, here, (kept ∙ chain.0, behind, rest))

-- The queue is well formed and holds these values, the front first.
pub record Holds (q : Queue) (values : List (List ℕ)) : Type 0 where
  pub items : List Item
  pub front : q.front ≡ first items
  pub back : q.back ≡ last items
  pub size : q.size ≡ length items
  pub chain : Chain q.cells items
  pub holds : map (λ (i : Item). i.1) items ≡ values

pub queue_init-Holds :
    (has_mtx has_cnd : Bool) (cells : Cells) → Holds (queue_init has_mtx has_cnd cells).0 []
unfolding queue_init
queue_init-Holds has_mtx has_cnd cells = record {
  items = [];
  front = refl;
  back = refl;
  size = refl;
  chain = tt;
  holds = refl;
}

-- What malloc returns is free.
abbrev pub Fresh : Os → Queue → Type 0
Fresh os q = (a : ℕ) → os.malloc q.cells ≡ some a → q.cells a ≡ none

Option-cases : (x : Option ℕ) → (x ≡ none) ⊎ ((a : ℕ) × (x ≡ some a))
Option-cases none = inl refl
Option-cases (some a) = inr (a, refl)

last_append : (items : List Item) (i : Item) → last (items ++ i ∷ []) ≡ some i.0
last_append [] i = refl
last_append (j ∷ []) i = refl
last_append (j ∷ k ∷ items) i = last_append (k ∷ items) i

last-some : (item : Item) (items : List Item) → (b : ℕ) × (last (item ∷ items) ≡ some b)
last-some (a, v) [] = (a, refl)
last-some (a, v) (item ∷ items) = last-some item items

-- Linking a new node puts its value behind the others.
module _ (q : Queue) (c : ℕ) (v : List ℕ) (free : q.cells c ≡ none) where
  abbrev held : Queue
  held = record q { cells = set q.cells c (cell v none) }

  abbrev Linked : List Item → Type 0
  Linked items =
      (r : Queue) × (link_back held c ≡ some r)
      × (r.max_size ≡ q.max_size)
      × Holds r (map (λ (i : Item). i.1) (items ++ (c, v) ∷ []))

  link_back-Linked :
      (items : List Item)
      → q.front ≡ first items
      → q.back ≡ last items
      → q.size ≡ length items
      → Chain q.cells items
      → Linked items
  unfolding link_back
  link_back-Linked [] front back size chain = (
    record held { front = some c; back = some c; size = q.size + 1 },
    rw back refl,
    refl,
    record {
      items = (c, v) ∷ [];
      front = refl;
      back = refl;
      size = omega (arith, size);
      chain = (set_same q.cells c (cell v none), tt, tt);
      holds = refl;
    },
  )
  link_back-Linked (item ∷ items) front back size chain =
      let (b, at_b) = last-some item items in
      let (node, here, linked) = Chain-link q.cells c v b free (item ∷ items) at_b chain in
      (
        record held { back = some c; size = q.size + 1; cells = with_link q.cells c v b free node },
        rw (back ∙ at_b) (rw here refl),
        refl,
        record {
          items = (item ∷ items) ++ (c, v) ∷ [];
          front = front;
          back = sym (last_append (item ∷ items) (c, v));
          size = omega (arith, size, length-append (item ∷ items) ((c, v) ∷ []));
          chain = linked;
          holds = refl;
        },
      )

map_append :
    (items more : List Item)
    → map (λ (i : Item). i.1) (items ++ more)
      ≡ map (λ (i : Item). i.1) items ++ map (λ (i : Item). i.1) more
map_append [] more = refl
map_append ((a, v) ∷ items) more = ap (λ l. v ∷ l) (map_append items more)

pub same-Holds :
    (q r : Queue) (values : List (List ℕ)) (h : Holds q values)
    → r.front ≡ q.front
    → r.back ≡ q.back
    → r.size ≡ q.size
    → Chain r.cells h.items
    → Holds r values
same-Holds q r values h front back size chain = record {
  items = h.items;
  front = front ∙ h.front;
  back = back ∙ h.back;
  size = size ∙ h.size;
  chain = chain;
  holds = h.holds;
}

pub values-Holds :
    (q : Queue) (values others : List (List ℕ)) → Holds q values → values ≡ others → Holds q others
values-Holds q values others h e = record {
  items = h.items;
  front = h.front;
  back = h.back;
  size = h.size;
  chain = h.chain;
  holds = h.holds ∙ e;
}

-- The outcomes of a push.
abbrev pub Pushed : Os → Queue → List (List ℕ) → List ℕ → Queue → ErrorCode → Type 0
Pushed os q values v r code =
    ((code ≡ ce_success)
      × (os.locks ≡ true)
      × (q.size ≢ q.max_size)
      × (os.malloc q.cells ≢ none)
      × (os.has_room ≡ true)
      × Holds r (values ++ v ∷ []))
    ⊎ ((code ≡ ce_lock) × (os.locks ≡ false) × Holds r values)
    ⊎ ((code ≡ ce_max_size) × (q.size ≡ q.max_size) × Holds r values)
    ⊎ ((code ≡ ce_alloc) × ((os.malloc q.cells ≡ none) ⊎ (os.has_room ≡ false)) × Holds r values)

push_node :
    (os : Os) (q : Queue) (values : List (List ℕ)) (v : List ℕ) (a : ℕ)
    → Holds q values
    → os.locks ≡ true
    → (q.size == q.max_size) ≡ false
    → os.malloc q.cells ≡ some a
    → q.cells a ≡ none
    → (r : Queue) × (code : ErrorCode) × (queue_push_back os q v ≡ some (r, code))
      × Pushed os q values v r code
unfolding queue_push_back node_init_with_value
push_node os q values v a h locks fits found free = elim (Bool-cases os.has_room) [
  | inl room ↦
      let (r, linked, same, holds) =
        link_back-Linked q a v free h.items h.front h.back h.size h.chain in
      (
        r,
        ce_success,
        rw locks (rw fits (rw found (rw room (rw linked refl)))),
        inl (
          refl,
          locks,
          ground (arith, fits),
          (λ e. cc (sym e ∙ found)),
          room,
          values-Holds r _ _ holds
              (map_append h.items ((a, v) ∷ []) ∙ ap (λ l. l ++ v ∷ []) h.holds),
        ),
      )
  | inr full ↦
      let other = free_other q.cells a h.items free h.chain in
      let r : Queue = record q { cells = set q.cells a (some blank) } in
      let kept = Chain-update q.cells a (some blank) h.items other h.chain in
      (
        r,
        ce_alloc,
        rw locks (rw fits (rw found (rw full refl))),
        inr (inr (inr (refl, inr full, same-Holds q r values h refl refl refl kept))),
      )
]

-- Whatever the system answers, as long as malloc gives only free memory, a push onto a queue that
-- holds some values uses no memory that is not allocated. It puts its value behind them, and then the
-- mutex was got, the limit left room and malloc answered both times; or it returns an error, for the
-- reason that the error names, and the queue holds the values that it held.
pub queue_push_back-Pushed :
    (os : Os) (q : Queue) (values : List (List ℕ)) (v : List ℕ)
    → Holds q values
    → Fresh os q
    → (r : Queue) × (code : ErrorCode) × (queue_push_back os q v ≡ some (r, code))
      × Pushed os q values v r code
unfolding queue_push_back
queue_push_back-Pushed os q values v h fresh = elim (Bool-cases os.locks) [
  | inr stuck ↦ (q, ce_lock, rw stuck refl, inr (inl (refl, stuck, h)))
  | inl locks ↦ elim (Bool-cases (q.size == q.max_size)) [
    | inl full ↦
        (q, ce_max_size, rw locks (rw full refl), inr (inr (inl (refl, ==→eq _ _ full, h))))
    | inr fits ↦ elim (Option-cases (os.malloc q.cells)) [
      | inl nowhere ↦ (
        q,
        ce_alloc,
        rw locks (rw fits (rw nowhere refl)),
        inr (inr (inr (refl, inl nowhere, h))),
      )
      | inr (a, found) ↦ push_node os q values v a h locks fits found (fresh a found)
    ]
  ]
]
