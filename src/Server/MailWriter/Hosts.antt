-- ===== src/Server/MailWriter/Hosts.antt =====
-- Which receivers write_mail links the mail's file for.
use mathlib.Core.List.{map}
use pvs_kp.Base.{
  ℕ, zero, suc, ◌≤◌, ◌<◌, ◌≡◌, refl, ap, ◌∙◌, sym, Bool, true, false, List, [], ◌∷◌, ◌++◌, arith,
  length, take, All, ◌==◌, ◌||◌, codes, Bool-cases, inl, inr, if◌then◌else◌,
}
use pvs_kp.Server.Msg.{Msg, bytes, msg_clean}
use pvs_kp.Server.MailWriter.{
  MailWriter, Receiver, FileOp, World, Files, same_host, clean_same, link_rounds, write_mail,
  generate_local_file_name, generate_file_path, create_link_to_file, x_to_all, write_file, remove,
}

-- Reference: whether a link for one of `seen` serves `r` too.
pub served_by : MailWriter → List Receiver → Receiver → Bool
served_by mw [] r = false
served_by mw (q ∷ seen) r = same_host mw q r || served_by mw seen r

-- Reference: the first receiver of every remote host, and all local ones. `seen` holds those before.
pub first_of_hosts : MailWriter → List Receiver → List Receiver → List Receiver
first_of_hosts mw seen [] = []
first_of_hosts mw seen (r ∷ rest) =
    let with_r = first_of_hosts mw (r ∷ seen) rest in
    let without = first_of_hosts mw seen rest in if served_by mw seen r then without else r ∷ with_r

abbrev pub HasDomain : Receiver → Type 0
HasDomain r = 0 < r.domain.size

cleaned : Receiver → Receiver
cleaned r = record r { domain = msg_clean r.domain }

-- The array after the rounds of `seen`.
after : MailWriter → List Receiver → List Receiver → List Receiver
after mw seen [] = []
after mw seen (r ∷ rest) = (if served_by mw seen r then cleaned r else r) ∷ after mw seen rest

cleaned_other :
    (mw : MailWriter) (q s : Receiver) → HasDomain q → same_host mw q (cleaned s) ≡ false
unfolding same_host msg_clean cleaned
cleaned_other mw q s h = ground arith

clean_after :
    (mw : MailWriter) (q : Receiver) (seen to : List Receiver)
    → HasDomain q
    → clean_same mw q (after mw seen to) ≡ after mw (q ∷ seen) to
unfolding clean_same after served_by cleaned
clean_after mw q seen [] h = refl
clean_after mw q seen (s ∷ rest) h =
    let rest_same = clean_after mw q seen rest h in
    elim (Bool-cases (served_by mw seen s)) [
      | inl served ↦ elim (Bool-cases (same_host mw q s)) [
        | inl same ↦
            rw served (rw same (rw (cleaned_other mw q s h) (ap (λ l. cleaned s ∷ l) rest_same)))
        | inr other ↦
            rw served (rw other (rw (cleaned_other mw q s h) (ap (λ l. cleaned s ∷ l) rest_same)))
      ]
      | inr unserved ↦ elim (Bool-cases (same_host mw q s)) [
        | inl same ↦ rw unserved (rw same (ap (λ l. cleaned s ∷ l) rest_same))
        | inr other ↦ rw unserved (rw other (ap (λ l. s ∷ l) rest_same))
      ]
    ]

rounds_link :
    (mw : MailWriter) (f : Receiver → FileOp) (left : ℕ) (seen to : List Receiver)
    → All HasDomain to
    → length to ≤ left
    → (link_rounds mw f left (after mw seen to)).1 ≡ map f (first_of_hosts mw seen to)
unfolding link_rounds after first_of_hosts cleaned msg_clean
rounds_link mw f left seen [] all enough = refl
rounds_link mw f zero seen (r ∷ rest) all enough = absurd (omega arith)
rounds_link mw f (suc left) seen (r ∷ rest) all enough =
    let later = rounds_link mw f left seen rest all.1 (omega arith) in
    let linked = rounds_link mw f left (r ∷ seen) rest all.1 (omega arith) in
    elim (Bool-cases (served_by mw seen r)) [
      | inl served ↦ rw served later
      | inr unserved ↦ rw unserved (
          rw (has_domain r all.0)
            (rw (clean_after mw r seen rest all.0) (ap (λ l. f r ∷ l) linked)))
    ]
  where
    has_domain : (r : Receiver) → HasDomain r → (r.domain.size == 0) ≡ false
    has_domain r h = ground arith

after_none : (mw : MailWriter) (to : List Receiver) → after mw [] to ≡ to
unfolding after served_by
after_none mw [] = refl
after_none mw (r ∷ rest) = ap (λ l. r ∷ l) (after_none mw rest)

-- What a mail does to the file system.
abbrev pub mail_ops : Files → MailWriter → List Receiver → Msg → World → List FileOp
mail_ops files mw to text w =
    let local_filename = generate_local_file_name mw w.n files.now in
    let tmp_path = generate_file_path mw.local_maildir (codes "tmp/") local_filename in
    let lines = codes "X-mysmtp-to:" ++ (x_to_all to ++ take text.size (bytes text.text)) in
    let link_for = create_link_to_file mw w.n files.now tmp_path local_filename in
    write_file tmp_path lines ∷ (map link_for (first_of_hosts mw [] to) ++ remove tmp_path ∷ [])

-- Where the file can be opened and there is a receiver, each with a domain, a mail is written once,
-- with its receivers in the first line, linked for every local receiver and for the first receiver
-- of every other host, in their order, and then removed under its first name.
pub write_mail-ops :
    (files : Files) (mw : MailWriter) (to : List Receiver) (text : Msg) (w : World)
    → files.can_open ≡ true
    → 0 < length to
    → All HasDomain to
    → (write_mail files mw to text w).1.ops ≡ w.ops ++ mail_ops files mw to text w
unfolding write_mail
write_mail-ops files mw to text w can some_to all =
    let local_filename = generate_local_file_name mw w.n files.now in
    let tmp_path = generate_file_path mw.local_maildir (codes "tmp/") local_filename in
    let link_for = create_link_to_file mw w.n files.now tmp_path local_filename in
    let links = rounds_link mw link_for (length to) [] to all (omega arith) in
    let links' : (link_rounds mw link_for (length to) to).1
        ≡ map link_for (first_of_hosts mw [] to) =
      ap (λ l. (link_rounds mw link_for (length to) l).1) (sym (after_none mw to)) ∙ links in
    let filled : (length to == 0) ≡ false = ground (arith, some_to) in
    rw can (rw filled (rw links' refl))
