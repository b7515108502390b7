-- ===== src/Client/FileParser/Addr.antt =====
-- client/src/fileparser.c against server/src/mail_writer.c: the host that the client reads from the
-- name that the server gives a file.
use pvs_kp.Base.{
  ℕ, zero, suc, ◌+◌, ◌-◌, ◌%◌, ◌≤◌, ◌<◌, ◌≡◌, ◌≢◌, refl, sym, ap, ◌∙◌, arith, false, some, List, [],
  ◌∷◌, ◌++◌, length, take, All, All-append, codes, ltb, le→ltb, ◌==◌, take-prefix, length-append,
  append_assoc, decimal, decimal-All,
}
use pvs_kp.Server.MailWriter.{
  MailWriter, Receiver, DomainType, ipv4, ipv6, host, type_number, text_of,
  generate_for_client_file_name,
}
use pvs_kp.Client.Memory.{Memory, rest, Plenty, Plenty-malloc}
use pvs_kp.Client.MString.Contents.{str_of}
use pvs_kp.Client.FileParser.{byte_at, meta_from, addr_before, get_addr}

abbrev pub NoDot : List ℕ → Type 0
NoDot text = All (λ c. c ≢ 46) text

byte_at-append : (pre ys : List ℕ) (k : ℕ) → byte_at (pre ++ ys) (length pre + k) ≡ byte_at ys k
byte_at-append [] ys k = ap (byte_at ys) (omega arith)
byte_at-append (c ∷ pre) ys k =
    let e : suc (length pre) + k ≡ suc (length pre + k) = omega arith in
    rw e (byte_at-append pre ys k)

byte_at-NoDot : (text : List ℕ) (k : ℕ) → NoDot text → (byte_at text k == 46) ≡ false
byte_at-NoDot [] k h = refl
byte_at-NoDot (c ∷ cs) zero h = no_dot c h.0
  where
    no_dot : (c : ℕ) → c ≢ 46 → (c == 46) ≡ false
    no_dot c h = ground arith
byte_at-NoDot (c ∷ cs) (suc k) h = byte_at-NoDot cs k h.1

-- The last dot stands before the part without one.
meta_from-append :
    (pre post : List ℕ) (k : ℕ)
    → NoDot post
    → meta_from (pre ++ 46 ∷ post) (suc (length pre) + k) ≡ some (length pre)
unfolding meta_from
meta_from-append pre post zero h =
    let e : suc (length pre) + 0 ≡ suc (length pre + 0) = omega arith in
    let same : length pre + 0 ≡ length pre = omega arith in
    rw e (rw (byte_at-append pre (46 ∷ post) 0) (rw same refl))
meta_from-append pre post (suc k) h =
    let e : suc (length pre) + suc k ≡ suc (length pre + suc k) = omega arith in
    let next : length pre + suc k ≡ suc (length pre) + k = omega arith in
    rw e (
      rw (byte_at-append pre (46 ∷ post) (suc k))
        (rw (byte_at-NoDot post k h) (rw next (meta_from-append pre post k h))))

addr_before_lem :
    (d behind : List ℕ) (c m : ℕ) (mem : Memory)
    → m ≡ length d + 2
    → 2 ≤ length d
    → Plenty mem
    → addr_before (d ++ 46 ∷ c ∷ behind) (some m) mem
      ≡ (some (d, (c + 4294967248) % 4294967296), rest mem)
addr_before_lem d behind c m mem e long plenty =
    let (b, l, found) = Plenty-malloc (m - 1) mem plenty in
    let enough : ltb m 4 ≡ false = le→ltb m 4 (omega arith) in
    let type_at : m - 1 ≡ length d + 1 = omega arith in
    let end_ : m - 2 ≡ length d = omega arith in
    rw enough (
      rw found (
        rw type_at (
          rw (byte_at-append d (46 ∷ c ∷ behind) 1)
            (rw end_ (rw (take-prefix d (46 ∷ c ∷ behind)) refl)))))

pub get_addr_lem :
    (d post : List ℕ) (c : ℕ) (mem : Memory)
    → NoDot post
    → 2 ≤ length d
    → Plenty mem
    → get_addr (str_of (d ++ 46 ∷ c ∷ 46 ∷ post)) mem
      ≡ (some (d, (c + 4294967248) % 4294967296), rest mem)
unfolding get_addr
get_addr_lem d post c mem h long plenty =
    let pre = d ++ 46 ∷ c ∷ [] in
    let tail = post ++ 0 ∷ [] in
    let whole : (d ++ 46 ∷ c ∷ 46 ∷ post) ++ 0 ∷ [] ≡ d ++ 46 ∷ c ∷ 46 ∷ tail =
      append_assoc d (46 ∷ c ∷ 46 ∷ post) (0 ∷ []) in
    let parts : d ++ 46 ∷ c ∷ 46 ∷ tail ≡ pre ++ 46 ∷ tail =
      sym (append_assoc d (46 ∷ c ∷ []) (46 ∷ tail)) in
    let front : length pre ≡ length d + 2 = omega (arith, length-append d (46 ∷ c ∷ [])) in
    let size : length (d ++ 46 ∷ c ∷ 46 ∷ post) + 1 ≡ suc (length pre) + (length post + 1) =
      omega (arith, length-append d (46 ∷ c ∷ 46 ∷ post), front) in
    let last_dot : meta_from (d ++ 46 ∷ c ∷ 46 ∷ tail) (suc (length pre) + (length post + 1))
        ≡ some (length pre) =
      ap (λ t. meta_from t (suc (length pre) + (length post + 1))) parts
      ∙ meta_from-append pre tail (length post + 1)
          (All-append (λ c. c ≢ 46) post (0 ∷ []) h ((λ e. cc), tt)) in
    rw whole
      (rw size (rw last_dot (addr_before_lem d (46 ∷ tail) c (length pre) mem front long plenty)))

-- The name before it is cut to 255 bytes.
abbrev pub full_name : MailWriter → Receiver → ℕ → ℕ → List ℕ
full_name mw receiver n t =
    text_of receiver.domain
    ++ (codes "."
        ++ (decimal (type_number receiver.domain_type)
            ++ (codes ".T"
                ++ (decimal mw.tid ++ (codes "N" ++ (decimal n ++ (codes "M" ++ decimal t)))))))

take_long : (n : ℕ) (xs : List ℕ) → length xs ≤ n → take n xs ≡ xs
take_long zero [] h = refl
take_long zero (x ∷ xs) h = absurd (omega arith)
take_long (suc n) [] h = refl
take_long (suc n) (x ∷ xs) h = ap (λ t. x ∷ t) (take_long n xs (omega arith))

digit-not_dot : (text : List ℕ) → All (λ c. 47 < c) text → NoDot text
digit-not_dot [] h = tt
digit-not_dot (c ∷ cs) h = (above c h.0, digit-not_dot cs h.1)
  where
    above : (c : ℕ) → 47 < c → c ≢ 46
    above c h e = absurd (omega arith)

-- From the name that the server gives the file of a mail for another host, the client reads the host
-- and the type of the host as the server knew them, if the name is not cut, the host has two bytes or
-- more, and malloc finds memory.
pub get_addr-generate_for_client_file_name :
    (mw : MailWriter) (receiver : Receiver) (n t : ℕ) (mem : Memory)
    → length (full_name mw receiver n t) < 256
    → 2 ≤ length (text_of receiver.domain)
    → Plenty mem
    → get_addr (str_of (generate_for_client_file_name mw receiver n t)) mem
      ≡ (some (text_of receiver.domain, type_number receiver.domain_type), rest mem)
unfolding generate_for_client_file_name decimal
get_addr-generate_for_client_file_name mw receiver n t mem fits long plenty =
    rw (take_long 255 (full_name mw receiver n t) (omega arith))
      (by_type receiver.domain_type (text_of receiver.domain) long)
  where
    meta : List ℕ
    meta = 84 ∷ (decimal mw.tid ++ (78 ∷ (decimal n ++ (77 ∷ decimal t))))

    meta-NoDot : NoDot meta
    meta-NoDot =
        let times =
          All-append (λ c. 47 < c) (decimal n) (77 ∷ decimal t) (decimal-All n)
            (omega arith, decimal-All t) in
        digit-not_dot meta (
          omega arith,
          All-append (λ c. 47 < c) (decimal mw.tid) (78 ∷ (decimal n ++ (77 ∷ decimal t)))
              (decimal-All mw.tid) (omega arith, times),
        )

    by_type :
        (type_ : DomainType) (d : List ℕ)
        → 2 ≤ length d
        → get_addr (str_of (d ++ 46 ∷ (decimal (type_number type_) ++ 46 ∷ meta))) mem
          ≡ (some (d, type_number type_), rest mem)
    by_type ipv4 d long = get_addr_lem d meta 48 mem meta-NoDot long plenty
    by_type ipv6 d long = get_addr_lem d meta 49 mem meta-NoDot long plenty
    by_type host d long = get_addr_lem d meta 50 mem meta-NoDot long plenty
