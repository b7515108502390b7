-- ===== src/Client/Unsafe.antt =====
-- Functions of the client that use pointers which may be NULL: from the calls of malloc to come, the
-- result and those that are left, or `none`, which is undefined behaviour.
use pvs_kp.Base.{Option, none, some}
use pvs_kp.Client.Memory.{Memory, Alloc}

abbrev pub Unsafe {ℓ} : Type ℓ → Type ℓ
Unsafe A = Memory → Option (A × Memory)

abbrev pub go_on {ℓ ℓ'} :
    {A : Type ℓ} → {B : Type ℓ'} → Option (A × Memory) → (A → Unsafe B) → Option (B × Memory)
go_on none f = none
go_on (some (a, mem)) f = f a mem

infixl 1 ◌>>=◌
abbrev pub ◌>>=◌ {ℓ ℓ'} : {A : Type ℓ} → {B : Type ℓ'} → Unsafe A → (A → Unsafe B) → Unsafe B
(m >>= f) mem = go_on (m mem) f

abbrev pub return {ℓ} : {A : Type ℓ} → A → Unsafe A
return a mem = some (a, mem)

abbrev pub undefined {ℓ} : {A : Type ℓ} → Unsafe A
undefined mem = none

-- With the pointer, which may be NULL.
abbrev pub maybe {ℓ} : {A : Type ℓ} → Alloc A → Unsafe (Option A)
maybe m mem = some (m mem)

-- The pointer is used.
abbrev pub used {ℓ} : {A : Type ℓ} → Option A → Unsafe A
used none = undefined
used (some a) = return a

-- NULL is returned for NULL.
abbrev pub unless_null {ℓ ℓ'} :
    {A : Type ℓ} → {B : Type ℓ'} → Option A → (A → Unsafe (Option B)) → Unsafe (Option B)
unless_null none f = return none
unless_null (some a) f = f a
