-- ===== src/Server/Msg/Content.antt =====
-- What the operations of server/src/msg.c do to the contents of a buffer.
use pvs_kp.Base.{
  ℕ, zero, suc, ◌+◌, ◌-◌, ◌≤◌, ◌<◌, ◌≡◌, refl, sym, ap, ◌∙◌, true, false, Option, none, some, List,
  [], ◌∷◌, ◌++◌, arith, length, take, drop, replicate, lt→leb, if◌then◌else◌, size_t, size_mod,
  memcpy, strncpy, length-memcpy, take-memcpy, take-memcpy_start, Bool-cases, ltb, leb, leb→le,
  leb→lt, length-strncpy, NoNul, drop_all, take-drop, strncpy-NoNul, length-drop, All-drop, ltb→lt,
  ltb→le, ◌⊎◌, inl, inr, length-replicate, length-take,
}
use mathlib.Core.Option
use native.Mathlib.Nat.{mod-eq_of_lt}
use pvs_kp.Server.ErrorCode.{ErrorCode, Calloc, ce_success, ce_alloc, succeeded}
use pvs_kp.Server.Msg.{
  Msg, bytes, msg_init, msg_resize, write_behind, msg_add_text, msg_clean, msg_rm_text,
}

-- The buffer is as long as the record says, and the contents fit in it. As a write out of bounds
-- would make the buffer longer, keeping this is memory safety.
pub record IsValid (msg : Msg) : Type 0 where
  pub allocated : length (bytes msg.text) ≡ msg.max_size
  pub within : msg.size ≤ msg.max_size

abbrev pub content : Msg → List ℕ
content msg = take msg.size (bytes msg.text)

pub msg_init-IsValid :
    (calloc : Calloc) (n : ℕ) → IsValid (msg_init calloc n).0 × ((msg_init calloc n).0.size ≡ 0)
unfolding msg_init
msg_init-IsValid calloc n = ground (arith, length-replicate {A = ℕ} n 0)

-- A copy into NULL that stays in its zero bytes does nothing.
pub bytes-memcpy :
    (text : Option (List ℕ)) (at : ℕ) (buf : List ℕ)
    → at + length buf ≤ length (bytes text)
    → bytes (Option.map (λ t. memcpy t at buf) text) ≡ memcpy (bytes text) at buf
unfolding memcpy
bytes-memcpy none zero [] h = refl
bytes-memcpy none zero (b ∷ buf) h = absurd (omega arith)
bytes-memcpy none (suc at) buf h = absurd (omega arith)
bytes-memcpy (some t) at buf h = refl

bytes-memcpy_start :
    (text : Option (List ℕ)) (f : List ℕ → List ℕ)
    → 0 < length (bytes text)
    → bytes (Option.map (λ t. memcpy t 0 (f t)) text) ≡ memcpy (bytes text) 0 (f (bytes text))
bytes-memcpy_start none f h = absurd (omega arith)
bytes-memcpy_start (some t) f h = refl

write_behind_lem :
    (msg : Msg) (buf : List ℕ) (n : ℕ)
    → IsValid msg
    → msg.size + length buf ≤ msg.max_size
    → n ≡ msg.size + length buf
    → IsValid (write_behind msg buf n) × (content (write_behind msg buf n) ≡ content msg ++ buf)
unfolding write_behind
write_behind_lem msg buf n v h e =
    let fits : msg.size + length buf ≤ length (bytes msg.text) = omega arith in
    let b = bytes-memcpy msg.text msg.size buf fits in
    (
      record {
        allocated = ap length b ∙ length-memcpy (bytes msg.text) msg.size buf fits ∙ v.allocated;
        within = omega arith;
      },
      rw (e, b) (take-memcpy (bytes msg.text) msg.size buf (omega arith)),
    )

size-write_behind : (msg : Msg) (buf : List ℕ) (n : ℕ) → (write_behind msg buf n).size ≡ n
unfolding write_behind
size-write_behind msg buf n = refl

resize_lem :
    (calloc : Calloc) (msg : Msg) (n : ℕ)
    → IsValid msg
    → msg.max_size < n
    → calloc n ≡ true
    → let (r, code) = msg_resize calloc msg n in
      (code ≡ ce_success)
      × IsValid r
      × (content r ≡ content msg)
      × (r.size ≡ msg.size)
      × (r.max_size ≡ n)
unfolding msg_resize
resize_lem calloc msg n v h a =
    let old = take msg.size (bytes msg.text) in
    let e : length old ≡ msg.size = length-take msg.size (bytes msg.text) (omega arith) in
    let z = length-replicate {A = ℕ} n 0 in
    rw (lt→leb n msg.max_size h) (
      rw a (
        refl,
        record {
          allocated = length-memcpy (replicate n 0) 0 old (omega arith) ∙ z;
          within = omega arith;
        },
        take-memcpy_start (replicate n 0) old msg.size e,
        refl,
        refl,
      ))

resize_failed :
    (calloc : Calloc) (msg : Msg) (n : ℕ)
    → msg.max_size < n
    → calloc n ≡ false
    → msg_resize calloc msg n ≡ (msg, ce_alloc)
unfolding msg_resize
resize_failed calloc msg n h a = rw (lt→leb n msg.max_size h) (rw a)

-- `r`, `code` is what appending `buf` to `msg` may give: the contents with `buf` behind them, or
-- the message unchanged because the larger buffer could not be allocated.
pub record Appended (calloc : Calloc) (msg : Msg) (buf : List ℕ) (r : Msg) : Type 0 where
  pub valid : IsValid r
  pub contents : content r ≡ content msg ++ buf
  pub size : r.size ≡ msg.size + length buf

abbrev Outcome : Calloc → Msg → List ℕ → Msg × ErrorCode → Type 0
Outcome calloc msg buf (r, code) =
    ((code ≡ ce_success) × Appended calloc msg buf r)
    ⊎ ((code ≡ ce_alloc)
        × (r ≡ msg)
        × (msg.max_size < msg.size + length buf)
        × (calloc (msg.size + length buf + 50) ≡ false))

add_grown :
    (calloc : Calloc) (msg : Msg) (buf : List ℕ)
    → IsValid msg
    → msg.max_size < msg.size + length buf
    → let n = msg.size + length buf in
      let (resized, cerr) = msg_resize calloc msg (n + 50) in
      Outcome calloc msg buf
        (if succeeded cerr then (write_behind resized buf n, ce_success) else (resized, cerr))
add_grown calloc msg buf v big =
    let n : ℕ = msg.size + length buf in
    elim (Bool-cases (calloc (n + 50))) [
      | inl a ↦
          let (code, valid, same, size, cap) = resize_lem calloc msg (n + 50) v (omega arith) a in
          let r = (msg_resize calloc msg (n + 50)).0 in
          let (valid', contents) = write_behind_lem r buf n valid (omega arith) (omega arith) in
          rw code (
            inl (
              refl,
              record {
                valid = valid';
                contents = contents ∙ ap (λ t. t ++ buf) same;
                size = size-write_behind r buf n;
              },
            ))
      | inr a ↦ rw (resize_failed calloc msg (n + 50) (omega arith) a) (inr (refl, refl, big, a))
    ]

-- From a valid message whose sizes stay in size_t, `msg_add_text` either appends the bytes to the
-- contents and keeps the message valid, or returns CE_ALLOC, leaves the message as it was, and the
-- text did not fit and the allocation of 50 bytes more than needed had failed.
pub msg_add_text-Appended :
    (calloc : Calloc) (msg : Msg) (buf : List ℕ)
    → IsValid msg
    → msg.size + length buf + 50 < size_mod
    → let (r, code) = msg_add_text calloc msg buf in
      ((code ≡ ce_success) × Appended calloc msg buf r)
      ⊎ ((code ≡ ce_alloc)
          × (r ≡ msg)
          × (msg.max_size < msg.size + length buf)
          × (calloc (msg.size + length buf + 50) ≡ false))
unfolding msg_add_text
msg_add_text-Appended calloc msg buf v small =
    let n : ℕ = msg.size + length buf in
    let e : size_t n ≡ n = mod-eq_of_lt (omega arith) in
    let e50 : size_t (n + 50) ≡ n + 50 = mod-eq_of_lt (omega arith) in
    rw e (
      rw e50 (elim (Bool-cases (ltb msg.max_size n)) [
        | inl big ↦ rw big (add_grown calloc msg buf v (ltb→lt _ _ big))
        | inr fits ↦
            let fit : n ≤ msg.max_size = ltb→le _ _ fits in
            let (valid, contents) = write_behind_lem msg buf n v fit refl in
            rw fits (
              inl (
                refl,
                record { valid = valid; contents = contents; size = size-write_behind msg buf n },
              ))
      ]))

-- msg_clean keeps a message valid and leaves no contents.
pub msg_clean-IsValid :
    (msg : Msg) → IsValid msg → IsValid (msg_clean msg) × ((msg_clean msg).size ≡ 0)
unfolding msg_clean
msg_clean-IsValid msg v =
    let zeros : List ℕ = replicate msg.max_size 0 in
    let n : length zeros ≡ msg.max_size = length-replicate msg.max_size 0 in
    let b = bytes-memcpy msg.text 0 zeros (omega arith) in
    (
      record {
        allocated =
            ap length b ∙ length-memcpy (bytes msg.text) 0 zeros (omega arith) ∙ v.allocated;
        within = omega arith;
      },
      refl,
    )

-- Taking `n` bytes off the front of a valid message keeps it valid, and what is left is what strncpy
-- makes of the contents behind them: all of it up to the first NUL, and zeros from there on. From a
-- message of at most `n` bytes nothing is left.
pub msg_rm_text_lem :
    (msg : Msg) (n : ℕ)
    → IsValid msg
    → let r = (msg_rm_text msg n).0 in
      IsValid r
      × (r.size ≡ msg.size - n)
      × (content r ≡ strncpy (msg.size - n) (drop n (bytes msg.text)))
unfolding msg_rm_text strncpy
msg_rm_text_lem msg n v = elim (Bool-cases (leb msg.size n)) [
  | inl all ↦
      let z : msg.size - n ≡ 0 = omega (arith, leb→le _ _ all) in
      let (valid, empty) = msg_clean-IsValid msg v in rw all (rw z (valid, empty, refl))
  | inr some_left ↦
      let left : n < msg.size = leb→lt _ _ some_left in
      let kept : List ℕ = strncpy (msg.size - n) (drop n (bytes msg.text)) in
      let len : length kept ≡ msg.size - n =
        length-strncpy (msg.size - n) (drop n (bytes msg.text)) in
      let f : List ℕ → List ℕ = λ t. strncpy (msg.size - n) (drop n t) in
      let b = bytes-memcpy_start msg.text f (omega arith) in
      rw some_left (
        record {
          allocated =
              ap length b ∙ length-memcpy (bytes msg.text) 0 kept (omega arith) ∙ v.allocated;
          within = omega arith;
        },
        refl,
        rw b (take-memcpy_start (bytes msg.text) kept (msg.size - n) len),
      )
]

-- Without a NUL in the contents, msg_rm_text drops exactly the bytes that it is told to.
pub msg_rm_text-content :
    (msg : Msg) (n : ℕ)
    → IsValid msg
    → NoNul (content msg)
    → content (msg_rm_text msg n).0 ≡ drop n (content msg)
msg_rm_text-content msg n v z =
    let t = bytes msg.text in
    let (valid, size, contents) = msg_rm_text_lem msg n v in
    contents ∙ elim (Bool-cases (leb msg.size n)) [
      | inl all ↦
          let none_left : msg.size - n ≡ 0 = omega (arith, leb→le _ _ all) in
          let len = length-take msg.size t (omega arith) in
          rw none_left
            (unfold strncpy in sym (drop_all n (take msg.size t) (omega (arith, leb→le _ _ all))))
      | inr some_left ↦
          let left : n < msg.size = leb→lt _ _ some_left in
          let behind : take (msg.size - n) (drop n t) ≡ drop n (take msg.size t) =
            take-drop n (msg.size - n) t ∙ ap (λ k. drop n (take k t)) (omega arith) in
          strncpy-NoNul (msg.size - n) (drop n t) (omega (arith, length-drop n t))
            (rw behind (All-drop (λ c. 0 < c) n (take msg.size t) z))
          ∙ behind
    ]
