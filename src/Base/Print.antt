-- ===== src/Base/Print.antt =====
-- The parts of printf that the programs use, over lists of bytes.
use Prim.Native.Nat.{ℕ, zero, suc, ◌+◌, ◌/◌, ◌%◌, ◌<◌}
use mathlib.Core.Logic.{inl, inr}
use native.Mathlib.Omega.{arith}
use mathlib.Core.List.{List, [], ◌∷◌, ◌++◌}
use pvs_kp.Base.Tests.{ltb, if◌then◌else◌, Bool-cases}
use pvs_kp.Base.Lists.{take, All, All-append}

-- The fuel is the number itself, which has no more digits than its value and one.
digits : ℕ → ℕ → List ℕ
digits zero n = (48 + n % 10) ∷ []
digits (suc fuel) n =
    let front = digits fuel (n / 10) in
    if ltb n 10 then (48 + n) ∷ [] else front ++ (48 + n % 10) ∷ []

-- %d and %ld of a number that is not negative
unfoldable pub decimal : ℕ → List ℕ
unfolding digits
decimal n = digits n n

-- snprintf(_, size, ...) of that text: what stands before the final NUL.
abbrev pub snprintf : ℕ → List ℕ → List ℕ
snprintf zero text = []
snprintf (suc room) text = take room text

digits-All : (fuel n : ℕ) → All (λ c. 47 < c) (digits fuel n)
unfolding digits
digits-All zero n = (omega arith, tt)
digits-All (suc fuel) n =
    let front = digits-All fuel (n / 10) in
    elim (Bool-cases (ltb n 10)) [
      | inl e ↦ rw e (omega arith, tt)
      | inr e ↦ rw e (
          All-append (λ c. 47 < c) (digits fuel (n / 10)) ((48 + n % 10) ∷ []) front
            (omega arith, tt))
    ]

-- No byte of a printed number stands before the digits.
pub decimal-All : (n : ℕ) → All (λ c. 47 < c) (decimal n)
unfolding decimal
decimal-All n = digits-All n n
