-- ===== src/Client/Connection/Pushed.antt =====
-- The copy of a mail into the queue of a connection: client/src/SMTP_message.c, client/src/queue.c.
use pvs_kp.Base.{
  ℕ, zero, suc, ◌+◌, ◌*◌, ◌≡◌, refl, true, false, some, List, [], ◌∷◌, ◌++◌, length, ◌==◌,
}
use pvs_kp.Client.Connection.Copy.{
  copy_rows, copy_lines, array_for, smtp_message_copy, push_message_back,
}
use pvs_kp.Client.Connection.Text.{lines_of}
use pvs_kp.Client.Errors.{success, queue_overflow}
use pvs_kp.Client.Memory.{Memory, rest, Plenty, Plenty-rest, Plenty-malloc}
use pvs_kp.Client.Message.{SmtpMessage}
use pvs_kp.Client.MString.Contents.{string_copy-Plenty}
use pvs_kp.Client.Queue.{Queue}

copy_rows-Plenty :
    (rows : List (List ℕ)) (mem : Memory)
    → Plenty mem
    → (mem' : Memory) × (copy_rows (length rows) rows mem ≡ some (rows, mem')) × Plenty mem'
unfolding copy_rows
copy_rows-Plenty [] mem plenty = (mem, refl, plenty)
copy_rows-Plenty (row ∷ rows) mem plenty =
    let (b, l, e) = Plenty-malloc (length row + 1) mem plenty in
    let (mem', run, more) = copy_rows-Plenty rows (rest mem) (Plenty-rest mem plenty) in
    (mem', rw e (rw run refl), more)

copy_lines-Plenty :
    (texts : List (List ℕ)) (mem : Memory)
    → Plenty mem
    → (mem' : Memory) × (copy_lines (length texts) (lines_of texts) mem
        ≡ some (lines_of texts, mem'))
      × Plenty mem'
unfolding copy_lines
copy_lines-Plenty [] mem plenty = (mem, refl, plenty)
copy_lines-Plenty (text ∷ texts) mem plenty =
    let copied = string_copy-Plenty text mem plenty in
    let (mem', run, more) = copy_lines-Plenty texts (rest (rest mem)) (λ n. plenty (suc (suc n))) in
    (mem', rw copied (rw run refl), more)

array_for-some :
    (n : ℕ) (b : List ℕ) (mem : Memory)
    → (array : List ℕ) × (array_for n (some b) mem ≡ some (array, mem))
array_for-some zero b mem = ([], refl)
array_for-some (suc n) b mem = (b, refl)

-- The mail as it is copied: the two times of its attempts are not.
abbrev pub copy_of : SmtpMessage → SmtpMessage → SmtpMessage
copy_of unset other = record other {
  attempt_start_time = unset.attempt_start_time;
  last_attempt_time = unset.last_attempt_time;
}

smtp_message_copy-Plenty :
    (unset other : SmtpMessage) (texts : List (List ℕ)) (mem : Memory)
    → other.recipients_count ≡ length other.recipients_addr
    → other.msg ≡ lines_of texts
    → other.msg_lines ≡ length texts
    → Plenty mem
    → (mem' : Memory) × (smtp_message_copy unset other mem
        ≡ some (some (copy_of unset other), mem'))
      × Plenty mem'
unfolding smtp_message_copy
smtp_message_copy-Plenty unset other texts mem count lines line_count plenty =
    let (b1, l1, e1) = Plenty-malloc 72 mem plenty in
    let mem1 = rest mem in
    let (b2, l2, e2) = Plenty-malloc (length other.from_addr + 1) mem1 (λ n. plenty (suc n)) in
    let mem2 = rest mem1 in
    let (b3, l3, e3) =
      Plenty-malloc (8 * other.recipients_count) mem2 (λ n. plenty (suc (suc n))) in
    let mem3 = rest mem2 in
    let (a3, f3) = array_for-some other.recipients_count b3 mem3 in
    let (mem4, copied, plenty4) =
      copy_rows-Plenty other.recipients_addr mem3 (λ n. plenty (suc (suc (suc n)))) in
    let rows : copy_rows other.recipients_count other.recipients_addr mem3
        ≡ some (other.recipients_addr, mem4) =
      rw count copied in
    let (b5, l5, e5) = Plenty-malloc (8 * other.msg_lines) mem4 plenty4 in
    let mem5 = rest mem4 in
    let (a5, f5) = array_for-some other.msg_lines b5 mem5 in
    let (mem6, copied6, plenty6) = copy_lines-Plenty texts mem5 (Plenty-rest mem4 plenty4) in
    let text : copy_lines other.msg_lines other.msg mem5 ≡ some (other.msg, mem6) =
      rw line_count (rw lines copied6) in
    (mem6, rw e1 (rw e2 (rw e3 (rw f3 (rw rows (rw e5 (rw f5 (rw text refl))))))), plenty6)

pub push_message_back-full :
    (unset : SmtpMessage) (queue : Queue SmtpMessage) (message : SmtpMessage) (mem : Memory)
    → (queue.size == queue.max_size) ≡ true
    → push_message_back unset queue message mem ≡ some ((queue, queue_overflow), mem)
unfolding push_message_back
push_message_back-full unset queue message mem full = rw full refl

-- A mail is copied behind the others of a queue that has room.
pub push_message_back-Plenty :
    (unset : SmtpMessage) (queue : Queue SmtpMessage) (message : SmtpMessage)
    (texts : List (List ℕ)) (mem : Memory)
    → (queue.size == queue.max_size) ≡ false
    → message.recipients_count ≡ length message.recipients_addr
    → message.msg ≡ lines_of texts
    → message.msg_lines ≡ length texts
    → Plenty mem
    → (mem' : Memory) × (push_message_back unset queue message mem
        ≡ some (
          (
            record queue {
              nodes = queue.nodes ++ copy_of unset message ∷ [];
              size = queue.size + 1;
            },
            success,
          ),
          mem',
        ))
      × Plenty mem'
unfolding push_message_back
push_message_back-Plenty unset queue message texts mem space count lines line_count plenty =
    let (b, l, e) = Plenty-malloc 8 mem plenty in
    let (mem', copied, more) =
      smtp_message_copy-Plenty unset message texts (rest mem) count lines line_count
        (Plenty-rest mem plenty) in
    (mem', rw space (rw e (rw copied refl)), more)
