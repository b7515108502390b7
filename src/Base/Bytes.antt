-- ===== src/Base/Bytes.antt =====
-- Bytes, C strings and the memory functions of <string.h> over lists of bytes.
use Prim.Native.Nat.{ℕ, zero, suc, ◌+◌, ◌%◌, ◌≤◌, ◌<◌}
use Prim.Native.Char.{code}
use Prim.Native.String.{String}
use mathlib.Core.Path.{◌≡◌, refl, ap, ◌∙◌, sym}
use mathlib.Core.List.{List, [], ◌∷◌, ◌++◌}
use native.Mathlib.Omega.{arith}
use pvs_kp.Base.Tests.{◌==◌, if◌then◌else◌}
use pvs_kp.Base.Lists.{length, take, drop, replicate, All, length-append, length-take, length-drop}
use pvs_kp.Base.Lists.{length-replicate, take-append}

-- size_t arithmetic on a 64-bit machine.
abbrev pub size_mod : ℕ
size_mod = 18446744073709551616

abbrev pub size_t : ℕ → ℕ
size_t n = n % size_mod

-- The bytes of a text literal.
abbrev pub codes : String → List ℕ
codes String.[] = []
codes (String.◌∷◌ c s) = code c ∷ codes s

abbrev pub crlf : List ℕ
crlf = 13 ∷ 10 ∷ []

-- The C string at the start of a buffer: what stands before the first NUL.
unfoldable pub c_string : List ℕ → List ℕ
c_string [] = []
c_string (c ∷ cs) = if c == 0 then [] else c ∷ c_string cs

-- memcpy(buffer + at, src, length src). Past the end it would make the list longer, so a proof
-- that the length stays is a proof that no byte is written out of bounds.
unfoldable pub memcpy : List ℕ → ℕ → List ℕ → List ℕ
memcpy buffer at src = take at buffer ++ (src ++ drop (at + length src) buffer)

-- The `n` bytes that strncpy(_, src, n) writes: up to the first NUL, and then zeros.
unfoldable pub strncpy : ℕ → List ℕ → List ℕ
strncpy zero src = []
strncpy (suc n) [] = 0 ∷ strncpy n []
strncpy (suc n) (c ∷ cs) = if c == 0 then replicate (suc n) 0 else c ∷ strncpy n cs

abbrev pub NoNul : List ℕ → Type 0
NoNul bytes = All (λ c. 0 < c) bytes

pub length-memcpy :
    (buffer : List ℕ) (at : ℕ) (src : List ℕ)
    → at + length src ≤ length buffer
    → length (memcpy buffer at src) ≡ length buffer
unfolding memcpy
length-memcpy buffer at src h = omega (
  arith,
  length-append (take at buffer) (src ++ drop (at + length src) buffer),
  length-append src (drop (at + length src) buffer),
  length-take at buffer (omega arith),
  length-drop (at + length src) buffer,
)

-- What stands in the buffer up to the end of the copy.
pub take-memcpy :
    (buffer : List ℕ) (at : ℕ) (src : List ℕ)
    → at ≤ length buffer
    → take (at + length src) (memcpy buffer at src) ≡ take at buffer ++ src
unfolding memcpy
take-memcpy buffer at src h =
    let e : at ≡ length (take at buffer) = sym (length-take at buffer h) in
    ap (λ n. take (n + length src) (take at buffer ++ (src ++ drop (at + length src) buffer))) e
    ∙ take-append (take at buffer) (src ++ drop (at + length src) buffer) (length src)
    ∙ ap (λ t. take at buffer ++ t) (prefix src (drop (at + length src) buffer))
  where
    prefix : (xs ys : List ℕ) → take (length xs) (xs ++ ys) ≡ xs
    prefix [] ys = refl
    prefix (x ∷ xs) ys = ap (λ t. x ∷ t) (prefix xs ys)

-- What a copy to the start leaves there.
pub take-memcpy_start :
    (buffer src : List ℕ) (n : ℕ) → length src ≡ n → take n (memcpy buffer 0 src) ≡ src
take-memcpy_start buffer src n e =
    let z : n ≡ 0 + length src = omega arith in rw z (take-memcpy buffer 0 src (omega arith))

pub length-strncpy : (n : ℕ) (src : List ℕ) → length (strncpy n src) ≡ n
unfolding strncpy
length-strncpy zero src = refl
length-strncpy (suc n) [] = ap suc (length-strncpy n [])
length-strncpy (suc n) (c ∷ cs) = ground (arith, length-strncpy n cs, length-replicate {A = ℕ} n 0)

-- Without a NUL among the first `n` bytes, strncpy copies them.
pub strncpy-NoNul :
    (n : ℕ) (src : List ℕ) → n ≤ length src → NoNul (take n src) → strncpy n src ≡ take n src
unfolding strncpy
strncpy-NoNul zero src h z = refl
strncpy-NoNul (suc n) [] h z = absurd (omega arith)
strncpy-NoNul (suc n) (c ∷ cs) h z = ground (arith, strncpy-NoNul n cs (omega arith) z.1)
