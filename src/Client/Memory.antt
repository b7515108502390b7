-- ===== src/Client/Memory.antt =====
-- malloc, for the client: what each of the calls to come gives, its bytes being whatever they are.
use mathlib.Core.Option
use pvs_kp.Base.{
  ℕ, zero, suc, ◌≡◌, ◌≢◌, ◌⊎◌, inl, inr, Option-cases, Option, none, some, List, [], ◌∷◌, length,
  refl, ap,
}

abbrev pub Memory : Type 0
Memory = ℕ → Option (List ℕ)

abbrev pub rest : Memory → Memory
rest mem n = mem (suc n)

-- `size` bytes.
unfoldable pub fill : ℕ → List ℕ → List ℕ
fill zero junk = []
fill (suc n) [] = 0 ∷ fill n []
fill (suc n) (c ∷ cs) = c ∷ fill n cs

-- What a function that allocates returns, `none` being NULL, and the calls of malloc that are left.
abbrev pub Alloc {ℓ} : Type ℓ → Type ℓ
Alloc A = Memory → Option A × Memory

unfoldable pub malloc : ℕ → Alloc (List ℕ)
malloc size mem = (Option.map {A = List ℕ} (fill size) (mem 0), rest mem)

-- What is done with a result that is not NULL.
abbrev pub and_then {ℓ ℓ'} :
    {A : Type ℓ} → {B : Type ℓ'} → Option A × Memory → (A → Alloc B) → Option B × Memory
and_then (none, mem) f = (none, mem)
and_then (some a, mem) f = f a mem

infixl 1 ◌>>=◌
abbrev pub ◌>>=◌ {ℓ ℓ'} : {A : Type ℓ} → {B : Type ℓ'} → Alloc A → (A → Alloc B) → Alloc B
(m >>= f) mem = and_then (m mem) f

abbrev pub made {ℓ} : {A : Type ℓ} → A → Alloc A
made a mem = (some a, mem)

-- No call of malloc fails.
abbrev pub Plenty : Memory → Type 0
Plenty mem = (n : ℕ) → mem n ≢ none

pub length-fill : (n : ℕ) (junk : List ℕ) → length (fill n junk) ≡ n
unfolding fill
length-fill zero junk = refl
length-fill (suc n) [] = ap suc (length-fill n [])
length-fill (suc n) (c ∷ cs) = ap suc (length-fill n cs)

pub Plenty-rest : (mem : Memory) → Plenty mem → Plenty (rest mem)
Plenty-rest mem h n = h (suc n)

-- NULL, or as many bytes as were asked for.
pub malloc-cases :
    (size : ℕ) (mem : Memory)
    → (malloc size mem ≡ (none, rest mem))
      ⊎ ((bytes : List ℕ) × (length bytes ≡ size) × (malloc size mem ≡ (some bytes, rest mem)))
unfolding malloc
malloc-cases size mem = elim (Option-cases (mem 0)) [
  | inl e ↦ inl (rw e)
  | inr (junk, e) ↦ inr (fill size junk, length-fill size junk, rw e)
]

pub Plenty-malloc :
    (size : ℕ) (mem : Memory)
    → Plenty mem
    → (bytes : List ℕ) × (length bytes ≡ size) × (malloc size mem ≡ (some bytes, rest mem))
unfolding malloc
Plenty-malloc size mem h = elim (Option-cases (mem 0)) [
  | inl e ↦ absurd (h 0 e)
  | inr (junk, e) ↦ (fill size junk, length-fill size junk, rw e)
]
