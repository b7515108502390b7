-- ===== src/Server/MailWriter.antt =====
-- server/src/mail_writer.c: a received mail is written to a file once, and linked into the maildir
-- of each local receiver and once into the client's queue for each other host. What the functions
-- do to the file system is the list of their calls, in order.
pub mod Links
pub mod Hosts
use pvs_kp.Base.{
  ℕ, ◌+◌, Bool, true, false, List, [], ◌∷◌, ◌++◌, not, ◌&&◌, ◌||◌, take, length, ◌==◌,
  if◌then◌else◌, codes, crlf, c_string, decimal, snprintf,
}
use pvs_kp.Server.ErrorCode.{ErrorCode, ce_success, ce_common}
use pvs_kp.Server.Msg.{Msg, bytes, msg_clean}

pub data DomainType : Type 0 where
  ipv4 ipv6 host : DomainType

pub record Receiver : Type 0 where
  pub local_part : Msg
  pub domain : Msg
  pub domain_type : DomainType

-- `N` is a pointer to the thread's counter, and stands in `World`.
pub record MailWriter : Type 0 where
  pub domain : List ℕ
  pub local_maildir : List ℕ
  pub client_maildir : List ℕ
  pub pid : ℕ
  pub tid : ℕ
  pub hostname : List ℕ

pub data FileOp : Type 0 where
  write_file : List ℕ → List ℕ → FileOp
  link : List ℕ → List ℕ → FileOp
  remove : List ℕ → FileOp

-- What the clients of a thread share: the counter of mails, the calls made so far, and whether the
-- program has read outside its memory, after which nothing is known of it.
pub record World : Type 0 where
  pub n : ℕ
  pub ops : List FileOp
  pub faulted : Bool

-- What the clock and the file system answer.
pub record Files : Type 0 where
  pub now : ℕ
  pub can_open : Bool

-- Where no zero byte stands in the buffer the code reads on behind it: write_mail and the callback
-- of MAIL mark that in `faulted`.
abbrev pub text_of : Msg → List ℕ
text_of m = c_string (bytes m.text)

-- memcmp(whole, part, strlen(part)) == 0 for C strings
unfoldable pub is_prefix : List ℕ → List ℕ → Bool
is_prefix [] whole = true
is_prefix (c ∷ part) [] = false
is_prefix (c ∷ part) (d ∷ whole) = c == d && is_prefix part whole

unfoldable pub list_eq : List ℕ → List ℕ → Bool
list_eq [] [] = true
list_eq (a ∷ as') (b ∷ bs) = a == b && list_eq as' bs
list_eq _ _ = false

-- The second memcmp compares the server's own domain too, over as many bytes as the receiver's has.
-- Two strings that have both ended count as equal.
unfoldable pub is_to_local : MailWriter → List ℕ → Bool
unfolding is_prefix list_eq
is_to_local mw domain =
    let n : ℕ = length domain in
    is_prefix domain mw.domain || list_eq (take n mw.domain) (take n (codes "[127.0.0.1]"))

unfoldable pub generate_local_file_name : MailWriter → ℕ → ℕ → List ℕ
generate_local_file_name mw n t = snprintf 256 (
    decimal t
    ++ (codes ".P"
        ++ (decimal mw.pid
            ++ (codes "T"
                ++ (decimal mw.tid ++ (codes "N" ++ (decimal n ++ (codes "." ++ mw.hostname))))))))

abbrev pub type_number : DomainType → ℕ
type_number ipv4 = 0
type_number ipv6 = 1
type_number host = 2

unfoldable pub generate_for_client_file_name : MailWriter → Receiver → ℕ → ℕ → List ℕ
generate_for_client_file_name mw receiver n t = snprintf 256 (
    text_of receiver.domain
    ++ (codes "."
        ++ (decimal (type_number receiver.domain_type)
            ++ (codes ".T"
                ++ (decimal mw.tid ++ (codes "N" ++ (decimal n ++ (codes "M" ++ decimal t))))))))

abbrev pub generate_file_path : List ℕ → List ℕ → List ℕ → List ℕ
generate_file_path path folder filename = snprintf 1000 (path ++ (folder ++ filename))

unfoldable pub create_link_to_file : MailWriter → ℕ → ℕ → List ℕ → List ℕ → Receiver → FileOp
create_link_to_file mw n t old_file_path local_filename receiver = link old_file_path (
    if is_to_local mw (text_of receiver.domain)
    then generate_file_path mw.local_maildir []
        (snprintf 256 (text_of receiver.local_part ++ (codes "/new/" ++ local_filename)))
    else generate_file_path mw.client_maildir [] (generate_for_client_file_name mw receiver n t))

abbrev pub in_brackets : DomainType → List ℕ → List ℕ
in_brackets ipv4 domain = codes "[" ++ (domain ++ codes "]")
in_brackets ipv6 domain = codes "[IPv6" ++ (domain ++ codes "]")
in_brackets host domain = domain

-- One receiver in the first line of the file: `ending` is a comma or the end of the line.
unfoldable pub x_to : List ℕ → Receiver → List ℕ
x_to ending r = snprintf 200 (
    codes " <"
    ++ (text_of r.local_part
        ++ (codes "@" ++ (in_brackets r.domain_type (text_of r.domain) ++ (codes ">" ++ ending)))))

unfoldable pub x_to_all : List Receiver → List ℕ
unfolding x_to
x_to_all [] = []
x_to_all (r ∷ []) = x_to crlf r
x_to_all (r ∷ rest) = x_to (codes ",") r ++ x_to_all rest

-- The test of the inner loop: same host as `r`, which is not local.
unfoldable pub same_host : MailWriter → Receiver → Receiver → Bool
unfolding is_to_local list_eq
same_host mw r s =
    not (is_to_local mw (text_of r.domain))
    && (r.domain.size == s.domain.size
        && list_eq (take r.domain.size (bytes r.domain.text))
            (take r.domain.size (bytes s.domain.text)))

-- The inner loop: a receiver at a host that has its link loses its domain.
unfoldable pub clean_same : MailWriter → Receiver → List Receiver → List Receiver
unfolding same_host
clean_same mw r [] = []
clean_same mw r (s ∷ rest) =
    (if same_host mw r s then record s { domain = msg_clean s.domain } else s)
    ∷ clean_same mw r rest

-- The outer loop, on the receivers that are left: the receivers as it leaves them, and the links.
-- The first number is how many rounds are left, as many as there are receivers.
unfoldable pub link_rounds :
    MailWriter → (Receiver → FileOp) → ℕ → List Receiver → List Receiver × List FileOp
unfolding clean_same
link_rounds mw link_for left [] = ([], [])
link_rounds mw link_for ℕ.zero (r ∷ rest) = (r ∷ rest, [])
link_rounds mw link_for (ℕ.suc left) (r ∷ rest) =
    let skipped = link_rounds mw link_for left rest in
    let linked = link_rounds mw link_for left (clean_same mw r rest) in
    if r.domain.size == 0 then (r ∷ skipped.0, skipped.1) else (r ∷ linked.0, link_for r ∷ linked.1)

-- The buffer holds a zero byte.
unfoldable pub is_ended : List ℕ → Bool
is_ended [] = false
is_ended (c ∷ cs) = c == 0 || is_ended cs

-- What is printed of the receivers ends inside their buffers.
unfoldable pub all_ended : List Receiver → Bool
unfolding is_ended
all_ended [] = true
all_ended (r ∷ rest) =
    (is_ended (bytes r.local_part.text) && is_ended (bytes r.domain.text)) && all_ended rest

-- With no receiver `to_count - 1` is SIZE_MAX, and the first loop reads far behind the array. One
-- time stands for what the calls of time(NULL) give.
unfoldable pub write_mail :
    Files → MailWriter → List Receiver → Msg → World → List Receiver × World × ErrorCode
unfolding generate_local_file_name create_link_to_file x_to_all link_rounds all_ended
write_mail files mw to text w =
    let local_filename = generate_local_file_name mw w.n files.now in
    let tmp_path = generate_file_path mw.local_maildir (codes "tmp/") local_filename in
    let lines = codes "X-mysmtp-to:" ++ (x_to_all to ++ take text.size (bytes text.text)) in
    let link_for = create_link_to_file mw w.n files.now tmp_path local_filename in
    let done = link_rounds mw link_for (length to) to in
    if not files.can_open
    then (to, w, ce_common)
    else if length to == 0
    then (to, record w { faulted = true }, ce_success)
    else (
      done.0,
      record {
        n = w.n + 1;
        faulted = w.faulted || not (all_ended to);
        ops = w.ops ++ (write_file tmp_path lines ∷ (done.1 ++ remove tmp_path ∷ []));
      },
      ce_success,
    )
