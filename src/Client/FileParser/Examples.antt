-- ===== src/Client/FileParser/Examples.antt =====
-- A receiver and the file of a mail, on which the theorems about the mail files are applied.
use pvs_kp.Base.{
  ℕ, ◌+◌, ◌≡◌, ◌≢◌, arith, Bool, true, not, ◌&&◌, some, List, [], ◌∷◌, ◌++◌, length, codes, crlf,
  ◌==◌, decimal, c_string,
}
use pvs_kp.Server.Msg.{Msg}
use pvs_kp.Server.MailWriter.{
  MailWriter, Receiver, host, type_number, text_of, generate_for_client_file_name,
}
use pvs_kp.Client.Examples.{memory, plenty, letter}
use pvs_kp.Client.Memory.{Memory, rest}
use pvs_kp.Client.MString.Contents.{str_of}
use pvs_kp.Client.FileParser.{get_addr}
use pvs_kp.Client.FileParser.Addr.{get_addr-generate_for_client_file_name}
use pvs_kp.Client.FileParser.Recipients.{NoComma}
use pvs_kp.Client.FileParser.File.{Source}

abbrev msg_of : List ℕ → Msg
msg_of text = record {
  text = some (text ++ 0 ∷ []);
  size = length text;
  max_size = length text + 1;
}

abbrev writer : MailWriter
writer = record {
  domain = codes "mysmtp.ru";
  local_maildir = codes "l/";
  client_maildir = codes "c/";
  pid = 5;
  tid = 1;
  hostname = codes "h";
}

abbrev receiver : Receiver
receiver = record {
  local_part = msg_of (codes "a");
  domain = msg_of (codes "c.ru");
  domain_type = host;
}

get_addr-generate_for_client_file_name_example :
    get_addr (str_of (generate_for_client_file_name writer receiver 3 7)) memory
    ≡ (some (text_of receiver.domain, type_number receiver.domain_type), rest memory)
unfolding decimal c_string
get_addr-generate_for_client_file_name_example =
    get_addr-generate_for_client_file_name writer receiver 3 7 memory (omega arith) (omega arith)
      plenty

abbrev pub no_commas : List ℕ → Bool
no_commas [] = true
no_commas (c ∷ cs) = not (c == 44) && no_commas cs

other_byte : (c : ℕ) (rest : Bool) → (not (c == 44) && rest) ≡ true → (c ≢ 44) × (rest ≡ true)
other_byte c rest h = ground arith

pub text-NoComma : (text : List ℕ) → no_commas text ≡ true → NoComma text
text-NoComma [] h = tt
text-NoComma (c ∷ cs) h =
    let (other, more) = other_byte c (no_commas cs) h in (other, text-NoComma cs more)

-- One of the receivers is of another host.
abbrev source : Source
source = record {
  fopen = λ path. some (
      (codes "X-mysmtp-to: <a@c.ru>, <b@d.ru>" ++ crlf)
      ∷ (codes "X-mysmtp-from: <e@f.ru>" ++ crlf)
      ∷ (codes "hi" ++ crlf)
      ∷ []);
  queue_dir = codes "q";
  max_attempts_time = 60;
  min_interval_between_attempts = 5;
  unset = letter [];
  behind = [];
  spare = λ n. true;
}
