-- ===== src/Client/MString/Contents.antt =====
-- What the strings of client/src/mstring.c hold.
use pvs_kp.Base.{
  ℕ, ◌+◌, ◌≡◌, ◌⊎◌, inl, inr, arith, Option, none, some, List, [], ◌∷◌, ◌++◌, length, take, drop,
  memcpy, drop-append, drop-append_more, take-prefix, length-drop, length-append, append-nil, ◌≤◌,
  drop_all, length-take, sym, take_all, append_assoc, ap, ◌∙◌, refl,
}
use pvs_kp.Client.Memory.{Memory, rest, Plenty, Plenty-rest, malloc-cases, Plenty-malloc}
use pvs_kp.Client.MString.{MString, string_init, string_init2, string_copy, concat, concat_with_sep}

-- The string of these bytes.
abbrev pub str_of : List ℕ → MString
str_of text = record { data_ = text ++ 0 ∷ []; size = length text }

-- NULL, or the string of these bytes.
abbrev pub MadeOf : List ℕ → Option MString → Type 0
MadeOf text r = (r ≡ none) ⊎ (r ≡ some (str_of text))

-- What the NUL and then the text are copied into is the text and the NUL.
memcpy-text :
    (b text : List ℕ)
    → length b ≡ length text + 1
    → memcpy (memcpy b (length text) (0 ∷ [])) 0 text ≡ text ++ 0 ∷ []
unfolding memcpy
memcpy-text b text h =
    let front : length (take (length text) b) ≡ length text =
      length-take (length text) b (omega arith) in
    let back : drop (length text + 1) b ≡ [] = drop_all (length text + 1) b (omega arith) in
    let tail : drop (length text) (take (length text) b ++ 0 ∷ drop (length text + 1) b) ≡ 0 ∷ [] =
      ap (λ n. drop n (take (length text) b ++ 0 ∷ drop (length text + 1) b)) (sym front)
      ∙ drop-append (take (length text) b) (0 ∷ drop (length text + 1) b)
      ∙ ap (λ t. 0 ∷ t) back in
    let none_before : 0 + length text ≡ length text = omega arith in
    ap (λ n. text ++ drop n (take (length text) b ++ 0 ∷ drop (length text + 1) b)) none_before
    ∙ ap (λ t. text ++ t) tail

pub string_init2-MadeOf :
    (text : List ℕ) (mem : Memory) → MadeOf text (string_init2 text (length text) mem).0
unfolding string_init2 string_init
string_init2-MadeOf text mem = elim (malloc-cases 16 mem) [
  | inl e ↦ rw e (inl refl)
  | inr (s, ls, e) ↦ elim (malloc-cases (length text + 1) (rest mem)) [
    | inl e2 ↦ rw e (rw e2 (inl refl))
    | inr (b, lb, e2) ↦ rw e (rw e2 (rw (take_all text) (rw (memcpy-text b text lb) (inr refl))))
  ]
]

pub string_init2-Plenty :
    (text : List ℕ) (mem : Memory)
    → Plenty mem
    → string_init2 text (length text) mem ≡ (some (str_of text), rest (rest mem))
unfolding string_init2 string_init
string_init2-Plenty text mem h =
    let (s, ls, e) = Plenty-malloc 16 mem h in
    let (b, lb, e2) = Plenty-malloc (length text + 1) (rest mem) (Plenty-rest mem h) in
    rw e (rw e2 (rw (take_all text) (rw (memcpy-text b text lb))))

-- Nothing behind the size is read.
pub string_init2-append :
    (text more : List ℕ) (mem : Memory)
    → string_init2 (text ++ more) (length text) mem ≡ string_init2 text (length text) mem
unfolding string_init2
string_init2-append text more mem =
    let same : take (length text) (text ++ more) ≡ take (length text) text =
      take-prefix text more ∙ sym (take_all text) in
    rw same

pub string_copy-MadeOf :
    (text : List ℕ) (mem : Memory) → MadeOf text (string_copy (str_of text) mem).0
unfolding string_copy
string_copy-MadeOf text mem =
    rw (string_init2-append text (0 ∷ []) mem) (string_init2-MadeOf text mem)

pub string_copy-Plenty :
    (text : List ℕ) (mem : Memory)
    → Plenty mem
    → string_copy (str_of text) mem ≡ (some (str_of text), rest (rest mem))
unfolding string_copy
string_copy-Plenty text mem h =
    rw (string_init2-append text (0 ∷ []) mem) (string_init2-Plenty text mem h)

-- A copy behind what is there.
memcpy-behind :
    (pre post src : List ℕ)
    → memcpy (pre ++ post) (length pre) src ≡ pre ++ (src ++ drop (length src) post)
unfolding memcpy
memcpy-behind pre post src = rw (take-prefix pre post) (rw (drop-append_more pre post (length src)))

-- Two copies that fill the buffer.
memcpy-two :
    (buffer a b : List ℕ)
    → length buffer ≡ length a + length b
    → memcpy (memcpy buffer 0 a) (length a) b ≡ a ++ b
memcpy-two buffer a b h =
    let behind : length (drop (length a) buffer) ≤ length b =
      omega (arith, length-drop (length a) buffer) in
    rw (memcpy-behind [] buffer a) (
      rw (memcpy-behind a (drop (length a) buffer) b)
        (rw (drop_all (length b) (drop (length a) buffer) behind) (rw (append-nil b))))

memcpy-three :
    (buffer a b : List ℕ) (sep : ℕ)
    → length buffer ≡ length a + length b + 1
    → memcpy (memcpy (memcpy buffer 0 a) (length a) (sep ∷ [])) (length a + 1) b ≡ a ++ sep ∷ b
memcpy-three buffer a b sep h =
    let left = drop (length a) buffer in
    let joined : a ++ (sep ∷ drop 1 left) ≡ (a ++ sep ∷ []) ++ drop 1 left =
      sym (append_assoc a (sep ∷ []) (drop 1 left)) in
    let front : length a + 1 ≡ length (a ++ sep ∷ []) = omega (arith, length-append a (sep ∷ [])) in
    let behind : length (drop 1 left) ≤ length b =
      omega (arith, length-drop (length a) buffer, length-drop 1 left) in
    rw (memcpy-behind [] buffer a) (
      rw (memcpy-behind a left (sep ∷ [])) (
        rw joined (
          rw front (
            rw (memcpy-behind (a ++ sep ∷ []) (drop 1 left) b) (
              rw (drop_all (length b) (drop 1 left) behind)
                (rw (append-nil b) (append_assoc a (sep ∷ []) b)))))))

-- concat gives NULL or the bytes of the one string and then those of the other.
pub concat-MadeOf :
    (a b : List ℕ) (mem : Memory) → MadeOf (a ++ b) (concat (str_of a) (str_of b) mem).0
unfolding concat
concat-MadeOf a b mem = elim (malloc-cases (length a + length b) mem) [
  | inl e ↦ rw e (inl refl)
  | inr (buffer, l, e) ↦ rw e (
      rw (take-prefix a (0 ∷ [])) (
        rw (take-prefix b (0 ∷ [])) (
          rw (memcpy-two buffer a b l)
            (rw (sym (length-append a b)) (string_init2-MadeOf (a ++ b) (rest mem))))))
]

pub concat-Plenty :
    (a b : List ℕ) (mem : Memory)
    → Plenty mem
    → concat (str_of a) (str_of b) mem ≡ (some (str_of (a ++ b)), rest (rest (rest mem)))
unfolding concat
concat-Plenty a b mem h =
    let (buffer, l, e) = Plenty-malloc (length a + length b) mem h in
    rw e (
      rw (take-prefix a (0 ∷ [])) (
        rw (take-prefix b (0 ∷ [])) (
          rw (memcpy-two buffer a b l) (
            rw (sym (length-append a b))
              (string_init2-Plenty (a ++ b) (rest mem) (Plenty-rest mem h))))))

-- concat_with_sep gives NULL or the bytes of the one string, the separator and those of the other.
pub concat_with_sep-MadeOf :
    (a b : List ℕ) (sep : ℕ) (mem : Memory)
    → MadeOf (a ++ sep ∷ b) (concat_with_sep (str_of a) (str_of b) sep mem).0
unfolding concat_with_sep
concat_with_sep-MadeOf a b sep mem = elim (malloc-cases (length a + length b + 1) mem) [
  | inl e ↦ rw e (inl refl)
  | inr (buffer, l, e) ↦ rw e (
      rw (take-prefix a (0 ∷ [])) (
        rw (take-prefix b (0 ∷ [])) (
          rw (memcpy-three buffer a b sep l) (
            let whole : length a + length b + 1 ≡ length (a ++ sep ∷ b) =
              omega (arith, length-append a (sep ∷ b)) in
            rw whole (string_init2-MadeOf (a ++ sep ∷ b) (rest mem))))))
]

pub concat_with_sep-Plenty :
    (a b : List ℕ) (sep : ℕ) (mem : Memory)
    → Plenty mem
    → concat_with_sep (str_of a) (str_of b) sep mem
      ≡ (some (str_of (a ++ sep ∷ b)), rest (rest (rest mem)))
unfolding concat_with_sep
concat_with_sep-Plenty a b sep mem h =
    let (buffer, l, e) = Plenty-malloc (length a + length b + 1) mem h in
    let whole : length a + length b + 1 ≡ length (a ++ sep ∷ b) =
      omega (arith, length-append a (sep ∷ b)) in
    rw e (
      rw (take-prefix a (0 ∷ [])) (
        rw (take-prefix b (0 ∷ [])) (
          rw (memcpy-three buffer a b sep l)
            (rw whole (string_init2-Plenty (a ++ sep ∷ b) (rest mem) (Plenty-rest mem h))))))
