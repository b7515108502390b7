-- ===== src/Client/FileParser/Recipients.antt =====
-- The list of receivers that client/src/fileparser.c reads from the first line of a mail's file.
use mathlib.Core.Option
use pvs_kp.Base.{
  ℕ, zero, suc, ◌+◌, ◌-◌, ◌≤◌, ◌<◌, ◌≡◌, ◌≢◌, refl, ap, ◌∙◌, arith, Bool, true, false, some, List,
  [], ◌∷◌, ◌++◌, length, drop, All, Bool-cases, inl, inr, length-append, append-nil, ◌==◌,
  if◌then◌else◌,
}
use pvs_kp.Client.FileParser.{
  x_domain_to, commas, get_recipients_count, check_recipient, to_comma, recipients_from,
  parse_recipients,
}

-- The receivers with a comma and a space between them.
abbrev pub listed : List (List ℕ) → List ℕ
listed [] = []
listed (r ∷ []) = r
listed (r ∷ (s ∷ rs)) = r ++ 44 ∷ 32 ∷ listed (s ∷ rs)

abbrev pub filter : (List ℕ → Bool) → List (List ℕ) → List (List ℕ)
filter wanted [] = []
filter wanted (r ∷ rs) = if wanted r then r ∷ filter wanted rs else filter wanted rs

abbrev pub NoComma : List ℕ → Type 0
NoComma text = All (λ c. c ≢ 44) text

-- A receiver is not empty and has no comma.
abbrev pub IsListable : List ℕ → Type 0
IsListable r = (0 < length r) × NoComma r

not_comma : (c : ℕ) → c ≢ 44 → (c == 44) ≡ false
not_comma c h = ground arith

to_comma-append : (r more : List ℕ) → NoComma r → to_comma (r ++ 44 ∷ more) ≡ (r, 44 ∷ more)
unfolding to_comma
to_comma-append [] more h = refl
to_comma-append (c ∷ cs) more h = rw (not_comma c h.0) (rw (to_comma-append cs more h.1) refl)

to_comma-NoComma : (r : List ℕ) → NoComma r → to_comma r ≡ (r, [])
unfolding to_comma
to_comma-NoComma [] h = refl
to_comma-NoComma (c ∷ cs) h = rw (not_comma c h.0) (rw (to_comma-NoComma cs h.1) refl)

commas-append : (a b : List ℕ) → commas (a ++ b) ≡ commas a + commas b
unfolding commas
commas-append [] b = omega arith
commas-append (c ∷ a) b = elim (Bool-cases (c == 44)) [
  | inl e ↦ rw e (omega (arith, commas-append a b))
  | inr e ↦ rw e (commas-append a b)
]

commas-NoComma : (r : List ℕ) → NoComma r → commas r ≡ 0
unfolding commas
commas-NoComma [] h = refl
commas-NoComma (c ∷ cs) h = rw (not_comma c h.0) (commas-NoComma cs h.1)

commas-listed :
    (r : List ℕ) (rs : List (List ℕ))
    → All IsListable (r ∷ rs)
    → commas (listed (r ∷ rs)) ≡ length rs
unfolding commas
commas-listed r [] h = commas-NoComma r h.0.1
commas-listed r (s ∷ rs) h = omega (
  arith,
  commas-append r (44 ∷ 32 ∷ listed (s ∷ rs)),
  commas-NoComma r h.0.1,
  commas-listed s rs h.1,
)

recipients_from-more :
    (spare : ℕ → Bool) (roomy : (n : ℕ) → spare n ≡ true) (fuel : ℕ) (wanted : List ℕ → Bool)
    (r rest tail : List ℕ) (count : ℕ)
    → 0 < length r
    → to_comma (r ++ tail) ≡ (r, tail)
    → drop 2 tail ≡ rest
    → recipients_from spare (suc fuel) wanted (r ++ tail) count ≡ (
        if wanted r
        then Option.map {A = List (List ℕ) × ℕ}
            (λ z. (r ∷ z.0, z.1))
            (recipients_from spare fuel wanted rest count)
        else recipients_from spare fuel wanted rest (count - 1))
unfolding recipients_from
recipients_from-more spare roomy fuel wanted [] rest tail count some_ split behind =
    absurd (omega arith)
recipients_from-more spare roomy fuel wanted (c ∷ cs) rest tail count some_ split behind =
    rw split (rw (roomy (suc (length cs))) (rw behind refl))

recipients_from-nil :
    (spare : ℕ → Bool) (roomy : (n : ℕ) → spare n ≡ true) (fuel : ℕ) (wanted : List ℕ → Bool)
    (count : ℕ)
    → recipients_from spare fuel wanted [] count ≡ some ([], count)
unfolding recipients_from
recipients_from-nil spare roomy zero wanted count = refl
recipients_from-nil spare roomy (suc fuel) wanted count = refl

no_room : (r : List ℕ) (rs : List (List ℕ)) → 0 < length r → length (listed (r ∷ rs)) ≤ 0 → ⊥
no_room r [] some_ h = omega arith
no_room r (s ∷ rs) some_ h = omega (arith, length-append r (44 ∷ 32 ∷ listed (s ∷ rs)))

commas-header : commas x_domain_to ≡ 0
unfolding commas
commas-header = refl

-- A round for each receiver.
recipients_from-listed :
    (spare : ℕ → Bool) (roomy : (n : ℕ) → spare n ≡ true) (rs : List (List ℕ)) (fuel k : ℕ)
    (wanted : List ℕ → Bool)
    → All IsListable rs
    → length (listed rs) ≤ fuel
    → recipients_from spare fuel wanted (listed rs) (k + length rs)
      ≡ some (filter wanted rs, k + length (filter wanted rs))
recipients_from-listed spare roomy [] fuel k wanted h enough =
    recipients_from-nil spare roomy fuel wanted (k + 0)
recipients_from-listed spare roomy (r ∷ rs) zero k wanted h enough =
    absurd (no_room r rs h.0.0 enough)
recipients_from-listed spare roomy (r ∷ []) (suc fuel) k wanted h enough =
    let split : to_comma (r ++ []) ≡ (r, []) =
      ap to_comma (append-nil r) ∙ to_comma-NoComma r h.0.1 in
    let last = recipients_from-more spare roomy fuel wanted r [] [] (k + 1) h.0.0 split refl in
    let none_left : k + 1 - 1 ≡ k + 0 = omega arith in
    rw (append-nil r) at last ∙ elim (Bool-cases (wanted r)) [
      | inl e ↦ rw e (rw (recipients_from-nil spare roomy fuel wanted (k + 1)) refl)
      | inr e ↦ rw e (rw none_left (recipients_from-nil spare roomy fuel wanted (k + 0)))
    ]
recipients_from-listed spare roomy (r ∷ (s ∷ rs)) (suc fuel) k wanted h enough =
    let behind = listed (s ∷ rs) in
    let count = k + suc (suc (length rs)) in
    let shorter : length behind ≤ fuel = omega (arith, length-append r (44 ∷ 32 ∷ behind)) in
    let first =
      recipients_from-more spare roomy fuel wanted r behind (44 ∷ 32 ∷ behind) count h.0.0
        (to_comma-append r (32 ∷ behind) h.0.1) refl in
    let as_kept : count ≡ k + 1 + suc (length rs) = omega arith in
    let as_dropped : count - 1 ≡ k + suc (length rs) = omega arith in
    let kept = recipients_from-listed spare roomy (s ∷ rs) fuel (k + 1) wanted h.1 shorter in
    let dropped = recipients_from-listed spare roomy (s ∷ rs) fuel k wanted h.1 shorter in
    let sum : k + 1 + length (filter wanted (s ∷ rs)) ≡ k + suc (length (filter wanted (s ∷ rs))) =
      omega arith in
    first ∙ elim (Bool-cases (wanted r)) [
      | inl e ↦ rw e (rw as_kept (rw kept (rw sum refl)))
      | inr e ↦ rw e (rw as_dropped dropped)
    ]

-- For a line of the header and one or more receivers, none of them empty or with a comma, and a comma
-- and a space between them, where malloc's blocks have a byte to spare: parse_recipients returns those that check_recipient wants, in their
-- order, and their number.
pub parse_recipients-listed :
    (spare : ℕ → Bool) (memory addr : List ℕ) (a_type : ℕ) (r : List ℕ) (rs : List (List ℕ))
    → All IsListable (r ∷ rs)
    → ((n : ℕ) → spare n ≡ true)
    → let wanted = filter (λ rcpt. check_recipient memory rcpt addr a_type) (r ∷ rs) in
      parse_recipients spare memory (x_domain_to ++ listed (r ∷ rs)) addr a_type
      ≡ some (wanted, length wanted)
unfolding parse_recipients get_recipients_count
parse_recipients-listed spare memory addr a_type r rs h roomy =
    let line = x_domain_to ++ listed (r ∷ rs) in
    let wanted : List ℕ → Bool = λ rcpt. check_recipient memory rcpt addr a_type in
    let count : commas line + 1 ≡ 0 + length (r ∷ rs) =
      omega
        (arith, commas-append x_domain_to (listed (r ∷ rs)), commas-listed r rs h, commas-header) in
    let same : 0 + length (filter wanted (r ∷ rs)) ≡ length (filter wanted (r ∷ rs)) =
      omega arith in
    let read =
      recipients_from-listed spare roomy (r ∷ rs) (length line) 0 wanted h
        (omega (arith, length-append x_domain_to (listed (r ∷ rs)))) in
    rw count (read ∙ ap (λ n. some (filter wanted (r ∷ rs), n)) same)
