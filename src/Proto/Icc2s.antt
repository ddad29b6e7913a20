-- ===== src/Proto/Icc2s.antt =====
-- src/ichat/proto/icc2s.c: [sender]\0[command]\0[receiver]\0[data]. A field of the struct that
-- points into the message is the bytes it spans; the getters copy them into a new buffer. Here
-- `none` is the null pointer of a malformed message.
use ichatd.Common.{
  ◌≡◌, ◌↔◌, ap, ◌∙◌, ◌∷◌, ◌++◌, Option, some, Bytes, ◌>>=◌, Lacks, >>=-eq-some, eq_of_some, subst,
}
use ichatd.Proto.Field.{next_field, next_field-append, next_field_inv}

-- `struct icc2s`.
pub record Icc2s : Type 0 where
  pub sender : Bytes
  pub command : Bytes
  pub receiver : Bytes
  pub msg_data : Bytes

-- `ichat_buffer_to_icc2s`. `b_size < 0` cannot be: the zero byte was inside.
unfoldable pub ichat_buffer_to_icc2s : Bytes → Option Icc2s
ichat_buffer_to_icc2s msg = do
  (sender, after_sender) ← next_field msg
  (command, after_command) ← next_field after_sender
  (receiver, rest) ← next_field after_command
  some (record { sender = sender; command = command; receiver = receiver; msg_data = rest })

-- `icc2s_sender`, `icc2s_command`, `icc2s_receiver` and `icc2s_data`.
abbrev pub icc2s_sender : Icc2s → Bytes
icc2s_sender m = m.sender

abbrev pub icc2s_command : Icc2s → Bytes
icc2s_command m = m.command

abbrev pub icc2s_receiver : Icc2s → Bytes
icc2s_receiver m = m.receiver

abbrev pub icc2s_data : Icc2s → Bytes
icc2s_data m = m.msg_data

-- The message with these fields.
abbrev pub icc2s_bytes : Icc2s → Bytes
icc2s_bytes m = m.sender ++ 0 ∷ (m.command ++ 0 ∷ (m.receiver ++ 0 ∷ m.msg_data))

-- No field but the data holds a zero byte.
pub record Separable (m : Icc2s) : Type 0 where
  pub sender_ok : Lacks 0 m.sender
  pub command_ok : Lacks 0 m.command
  pub receiver_ok : Lacks 0 m.receiver

parse_print : (m : Icc2s) → Separable m → ichat_buffer_to_icc2s (icc2s_bytes m) ≡ some m
unfolding ichat_buffer_to_icc2s
parse_print m ok = rw (
  next_field-append m.sender (m.command ++ 0 ∷ (m.receiver ++ 0 ∷ m.msg_data)) ok.sender_ok,
  next_field-append m.command (m.receiver ++ 0 ∷ m.msg_data) ok.command_ok,
  next_field-append m.receiver m.msg_data ok.receiver_ok,
)

parse_inv :
    (msg : Bytes) (m : Icc2s)
    → ichat_buffer_to_icc2s msg ≡ some m
    → (msg ≡ icc2s_bytes m) × Separable m
unfolding ichat_buffer_to_icc2s
parse_inv msg m h =
    let (f, e, h') = >>=-eq-some (next_field msg) _ h in
    let (g, e', h'') = >>=-eq-some (next_field f.1) _ h' in
    let (k, e'', last) = >>=-eq-some (next_field g.1) _ h'' in
    let (split, ok) = next_field_inv msg f.0 f.1 e in
    let (split', ok') = next_field_inv f.1 g.0 g.1 e' in
    let (split'', ok'') = next_field_inv g.1 k.0 k.1 e'' in
    let same : record { sender = f.0; command = g.0; receiver = k.0; msg_data = k.1 } ≡ m =
      eq_of_some last in
    subst (λ x. (msg ≡ icc2s_bytes x) × Separable x) same
      (
        split ∙ ap (λ x. f.0 ++ 0 ∷ x) (split' ∙ ap (λ x. g.0 ++ 0 ∷ x) split''),
        record { sender_ok = ok; command_ok = ok'; receiver_ok = ok'' },
      )

-- `ichat_buffer_to_icc2s` returns a struct exactly for the messages that are its fields, joined by
-- zero bytes, where no field but the data holds one: the reading is unique and loses nothing.
pub ichat_buffer_to_icc2s_iff :
    (msg : Bytes) (m : Icc2s)
    → (ichat_buffer_to_icc2s msg ≡ some m) ↔ ((msg ≡ icc2s_bytes m) × Separable m)
ichat_buffer_to_icc2s_iff msg m =
    (parse_inv msg m, λ p. ap ichat_buffer_to_icc2s p.0 ∙ parse_print m p.1)
