-- ===== src/Client/Connection/Reply.antt =====
-- client/src/SMTP_connection.c: the code of a reply, and the event that it makes.
use pvs_kp.Base.{
  ℕ, ◌+◌, ◌-◌, ◌*◌, Bool, ◌&&◌, ◌||◌, List, [], ◌∷◌, ◌++◌, take, ltb, leb, ◌==◌, if◌then◌else◌,
}
use pvs_kp.Client.MString.{MString}
use pvs_kp.Client.Fsm.State.{
  FsmEvent, none_ev, response_2xx, response_3xx, response_4xx, response_502, response_5xx,
}

abbrev pub is_digit : ℕ → Bool
is_digit c = leb 48 c && leb c 57

abbrev is_space : ℕ → Bool
is_space c = c == 32 || (leb 9 c && leb c 13)

-- The number of the digits at the start of the list, behind the number that is read already.
unfoldable pub digits_from : ℕ → List ℕ → ℕ
digits_from n [] = n
digits_from n (c ∷ cs) =
    let rest = digits_from (10 * n + (c - 48)) cs in if is_digit c then rest else n

-- Behind white space and a plus sign. A number behind a minus sign, which no test of a code accepts,
-- is 0 here.
unfoldable pub atoi : List ℕ → ℕ
unfolding digits_from
atoi [] = 0
atoi (c ∷ cs) =
    let rest = atoi cs in
    if is_space c then rest else if c == 43 then digits_from 0 cs else digits_from 0 (c ∷ cs)

-- The three bytes are an array without a NUL: atoi reads on into what stands behind it in memory.
-- For a text that is too short, the code is -1, which no test accepts either.
unfoldable pub parse_response_code : List ℕ → MString → ℕ
unfolding atoi
parse_response_code behind response =
    if ltb response.size 3 then 0 else atoi (take 3 response.data_ ++ behind)

unfoldable pub response_event : ℕ → FsmEvent
response_event code =
    if leb 200 code && ltb code 300
    then response_2xx
    else if leb 300 code && ltb code 400
    then response_3xx
    else if leb 400 code && ltb code 500
    then response_4xx
    else if code == 502
    then response_502
    else if leb 500 code && ltb code 600
    then response_5xx
    else none_ev
