-- ===== src/Proto/Ics2s.antt =====
-- src/ichat/proto/ics2s.c: [sender]\0[timestamp]\0[command]\0[data]. A field of the struct that
-- points into the message is the bytes it spans; the getters copy them into a new buffer. Here
-- `none` is the null pointer of a malformed message.
use ichatd.Common.{
  ◌≡◌, ◌↔◌, ap, ◌∙◌, ◌∷◌, ◌++◌, Option, some, Bytes, ◌>>=◌, Lacks, >>=-eq-some, eq_of_some, subst,
}
use ichatd.Proto.Field.{next_field, next_field-append, next_field_inv}

-- `struct ics2s`.
pub record Ics2s : Type 0 where
  pub sender : Bytes
  pub timestamp : Bytes
  pub command : Bytes
  pub msg_data : Bytes

-- `ichat_buffer_to_ics2s`. `b_size < 0` cannot be: the zero byte was inside.
unfoldable pub ichat_buffer_to_ics2s : Bytes → Option Ics2s
ichat_buffer_to_ics2s msg = do
  (sender, after_sender) ← next_field msg
  (timestamp, after_timestamp) ← next_field after_sender
  (command, rest) ← next_field after_timestamp
  some (record { sender = sender; timestamp = timestamp; command = command; msg_data = rest })

-- `ics2s_sender`, `ics2s_timestamp`, `ics2s_command` and `ics2s_data`.
abbrev pub ics2s_sender : Ics2s → Bytes
ics2s_sender m = m.sender

abbrev pub ics2s_timestamp : Ics2s → Bytes
ics2s_timestamp m = m.timestamp

abbrev pub ics2s_command : Ics2s → Bytes
ics2s_command m = m.command

abbrev pub ics2s_data : Ics2s → Bytes
ics2s_data m = m.msg_data

-- The message with these fields.
abbrev pub ics2s_bytes : Ics2s → Bytes
ics2s_bytes m = m.sender ++ 0 ∷ (m.timestamp ++ 0 ∷ (m.command ++ 0 ∷ m.msg_data))

-- No field but the data holds a zero byte.
pub record Separable (m : Ics2s) : Type 0 where
  pub sender_ok : Lacks 0 m.sender
  pub timestamp_ok : Lacks 0 m.timestamp
  pub command_ok : Lacks 0 m.command

parse_print : (m : Ics2s) → Separable m → ichat_buffer_to_ics2s (ics2s_bytes m) ≡ some m
unfolding ichat_buffer_to_ics2s
parse_print m ok = rw (
  next_field-append m.sender (m.timestamp ++ 0 ∷ (m.command ++ 0 ∷ m.msg_data)) ok.sender_ok,
  next_field-append m.timestamp (m.command ++ 0 ∷ m.msg_data) ok.timestamp_ok,
  next_field-append m.command m.msg_data ok.command_ok,
)

parse_inv :
    (msg : Bytes) (m : Ics2s)
    → ichat_buffer_to_ics2s msg ≡ some m
    → (msg ≡ ics2s_bytes m) × Separable m
unfolding ichat_buffer_to_ics2s
parse_inv msg m h =
    let (f, e, h') = >>=-eq-some (next_field msg) _ h in
    let (g, e', h'') = >>=-eq-some (next_field f.1) _ h' in
    let (k, e'', last) = >>=-eq-some (next_field g.1) _ h'' in
    let (split, ok) = next_field_inv msg f.0 f.1 e in
    let (split', ok') = next_field_inv f.1 g.0 g.1 e' in
    let (split'', ok'') = next_field_inv g.1 k.0 k.1 e'' in
    let same : record { sender = f.0; timestamp = g.0; command = k.0; msg_data = k.1 } ≡ m =
      eq_of_some last in
    subst (λ x. (msg ≡ ics2s_bytes x) × Separable x) same
      (
        split ∙ ap (λ x. f.0 ++ 0 ∷ x) (split' ∙ ap (λ x. g.0 ++ 0 ∷ x) split''),
        record { sender_ok = ok; timestamp_ok = ok'; command_ok = ok'' },
      )

-- `ichat_buffer_to_ics2s` returns a struct exactly for the messages that are its fields, joined by
-- zero bytes, where no field but the data holds one: the reading is unique and loses nothing.
pub ichat_buffer_to_ics2s_iff :
    (msg : Bytes) (m : Ics2s)
    → (ichat_buffer_to_ics2s msg ≡ some m) ↔ ((msg ≡ ics2s_bytes m) × Separable m)
ichat_buffer_to_ics2s_iff msg m =
    (parse_inv msg m, λ p. ap ichat_buffer_to_ics2s p.0 ∙ parse_print m p.1)
