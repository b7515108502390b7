-- ===== src/Server/MailWriter/Links.antt =====
-- What the loops of `write_mail` leave of the receivers.
use pvs_kp.Base.{
  arith, ℕ, zero, suc, ◌≡◌, refl, ap, ◌∙◌, List, [], ◌∷◌, length, All, ◌==◌, Bool-cases, inl, inr,
}
use pvs_kp.Server.Msg.{Msg}
use pvs_kp.Server.Msg.Content.{IsValid, msg_clean-IsValid}
use pvs_kp.Server.MailWriter.{
  Receiver, MailWriter, World, Files, FileOp, same_host, clean_same, link_rounds, write_mail,
}

abbrev pub ValidReceiver : Receiver → Type 0
ValidReceiver r = IsValid r.local_part × IsValid r.domain

clean_same-valid :
    (mw : MailWriter) (r : Receiver) (to : List Receiver)
    → All ValidReceiver to
    → All ValidReceiver (clean_same mw r to) × (length (clean_same mw r to) ≡ length to)
unfolding clean_same
clean_same-valid mw r [] v = (tt, refl)
clean_same-valid mw r (s ∷ rest) v =
    let (valid, len) = clean_same-valid mw r rest v.1 in
    elim (Bool-cases (same_host mw r s)) [
      | inl same ↦ rw same (((v.0.0, (msg_clean-IsValid s.domain v.0.1).0), valid), ap suc len)
      | inr other ↦ rw other ((v.0, valid), ap suc len)
    ]

link_rounds-valid :
    (mw : MailWriter) (f : Receiver → FileOp) (left : ℕ) (to : List Receiver)
    → All ValidReceiver to
    → let to' = (link_rounds mw f left to).0 in All ValidReceiver to' × (length to' ≡ length to)
unfolding link_rounds
link_rounds-valid mw f left [] v = (tt, refl)
link_rounds-valid mw f zero (r ∷ rest) v = (v, refl)
link_rounds-valid mw f (suc left) (r ∷ rest) v =
    let (cleaned, len) = clean_same-valid mw r rest v.1 in
    let (linked, len') = link_rounds-valid mw f left (clean_same mw r rest) cleaned in
    let (skipped, len'') = link_rounds-valid mw f left rest v.1 in
    elim (Bool-cases (r.domain.size == 0)) [
      | inl no_domain ↦ rw no_domain ((v.0, skipped), ap suc len'')
      | inr has_domain ↦ rw has_domain ((v.0, linked), ap suc (len' ∙ len))
    ]

-- write_mail keeps the receivers valid and their number, on every branch.
pub write_mail-valid :
    (files : Files) (mw : MailWriter) (to : List Receiver) (text : Msg) (w : World)
    → All ValidReceiver to
    → let to' = (write_mail files mw to text w).0 in
      All ValidReceiver to' × (length to' ≡ length to)
unfolding write_mail
write_mail-valid files mw to text w v = elim (Bool-cases files.can_open) [
  | inl can ↦ rw can (elim (Bool-cases (length to == 0)) [
    | inl empty ↦ rw empty (v, refl)
    | inr some_to ↦ rw some_to (link_rounds-valid mw _ (length to) to v)
  ])
  | inr cannot ↦ rw cannot (v, refl)
]

clean_same-length :
    (mw : MailWriter) (r : Receiver) (to : List Receiver) → length (clean_same mw r to) ≡ length to
unfolding clean_same
clean_same-length mw r [] = refl
clean_same-length mw r (s ∷ rest) = ap suc (clean_same-length mw r rest)

link_rounds-length :
    (mw : MailWriter) (f : Receiver → FileOp) (left : ℕ) (to : List Receiver)
    → length (link_rounds mw f left to).0 ≡ length to
unfolding link_rounds
link_rounds-length mw f left [] = refl
link_rounds-length mw f zero (r ∷ rest) = refl
link_rounds-length mw f (suc left) (r ∷ rest) = ground (
  arith,
  link_rounds-length mw f left (clean_same mw r rest),
  link_rounds-length mw f left rest,
  clean_same-length mw r rest,
)

pub write_mail-length :
    (files : Files) (mw : MailWriter) (to : List Receiver) (text : Msg) (w : World)
    → length (write_mail files mw to text w).0 ≡ length to
unfolding write_mail
write_mail-length files mw to text w = elim (Bool-cases files.can_open) [
  | inl can ↦ rw can (elim (Bool-cases (length to == 0)) [
    | inl empty ↦ rw empty refl
    | inr some_to ↦ rw some_to (link_rounds-length mw _ (length to) to)
  ])
  | inr cannot ↦ rw cannot refl
]
