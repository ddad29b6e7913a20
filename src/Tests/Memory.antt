-- ===== src/Tests/Memory.antt =====
-- Shared buffers at concrete inputs.
use ichatd.Common.{
  true, false, ◌++◌, ℕ, zero, suc, ◌≡◌, refl, arith, List, [], ◌∷◌, none, some, Bytes, codes,
  length, replicate, length-replicate,
}
use ichatd.Buffer.{Buffer}
use ichatd.Queue.{Queue, count as written, buffer_queue_write}
use ichatd.Proto.Icc2s
use ichatd.Proto.Icc2s.{Icc2s, icc2s_bytes, ichat_buffer_to_icc2s, ichat_buffer_to_icc2s_iff}
use ichatd.Client.{ChatImpl, ichat_client_create_impl}
use ichatd.Client.Chat.{ichat_client_add_message, enqueue}
use ichatd.Memory.{Memory, update, count, CountedAt, Counted}
use ichatd.Memory.Queue.{Pointers, write_entries}
use ichatd.Memory.Refine.{Represents}
use ichatd.Memory.Write.{Wrote, write_entries_lem}
use ichatd.Memory.Impl.{Buffers, owned_all, chat_create, destroy_all}
use ichatd.Memory.Deliver.{chat, read_message}
use ichatd.Client.{Client, ichat_server, ichat_client}
use ichatd.Dispatch.{ichat_broadcast}
use ichatd.Memory.Deliver.{deliver}
use ichatd.Memory.Broadcast.{StandFor, nobody, socket, served, broadcast_ways}
use ichatd.Memory.Everyone.{Leaves, broadcast_lem}
use ichatd.Memory.Reading.{read_message_lem}
use ichatd.Memory.Life.{
  Life, start, chat_accepted, received, no_memory, Life-Counted, destroy_all-Life,
}

-- What new memory holds.
abbrev junk : ℕ → Bytes
junk n = replicate n 170

abbrev buffer : ℕ → Bytes → Buffer
buffer rc bytes = record { rc = rc; len = length bytes; capacity = 0; block = bytes }

-- One buffer that stands twice in the queue, and one that another reference holds too.
abbrev shared : Memory
shared = record {
  next = 3;
  cell =
      update (update (λ p. none) 1 (some (buffer 2 (codes "abc")))) 2
        (some (buffer 2 (codes "de")));
}

abbrev waiting : Pointers
waiting = record { entries = 1 ∷ 2 ∷ 1 ∷ []; offset = 1 }

shared-Counted : Counted shared (1 ∷ 2 ∷ 1 ∷ 2 ∷ [])
unfolding Counted
shared-Counted = (at, λ p h. ground arith)
  where
    at : (p : ℕ) → CountedAt (shared.cell p) (count p (1 ∷ 2 ∷ 1 ∷ 2 ∷ []))
    at zero = refl
    at (suc zero) = (refl, omega arith, omega arith)
    at (suc (suc zero)) = (refl, omega arith, omega arith)
    at (suc (suc (suc n))) = ground arith

abbrev waiting_bytes : Queue
waiting_bytes = record { entries = codes "abc" ∷ codes "de" ∷ codes "abc" ∷ []; offset = 1 }

shared-Represents : Represents shared waiting waiting_bytes
unfolding Represents
shared-Represents = (refl, refl)

-- Four of the seven bytes that wait are written.
four_written :
    buffer_queue_write waiting_bytes (written 4)
    ≡ some (written 4, record { entries = codes "abc" ∷ []; offset = 0 })
unfolding buffer_queue_write
four_written = refl

write_entries_lem_example :
    Wrote
      (write_entries waiting (written 4) shared)
      shared
      (written 4, record { entries = codes "abc" ∷ []; offset = 0 })
      (2 ∷ [])
write_entries_lem_example =
    write_entries_lem waiting waiting_bytes (written 4)
      (written 4, record { entries = codes "abc" ∷ []; offset = 0 }) (2 ∷ []) shared shared-Counted
      shared-Represents four_written

abbrev greeting : Icc2s
greeting = record {
  sender = codes "nick";
  command = codes "M";
  receiver = codes "*";
  msg_data = codes "hello everyone";
}

abbrev hello : Bytes
hello = icc2s_bytes greeting

greeting-Separable : Icc2s.Separable greeting
greeting-Separable = record {
  sender_ok = ground arith;
  command_ok = ground arith;
  receiver_ok = ground arith;
}

abbrev after_hello : ChatImpl
after_hello = record ichat_client_create_impl { bo = enqueue greeting ichat_client_create_impl.bo }

hello_sent : ichat_client_add_message hello ichat_client_create_impl ≡ some after_hello
unfolding ichat_client_add_message
hello_sent =
    let parsed : ichat_buffer_to_icc2s hello ≡ some greeting =
      (ichat_buffer_to_icc2s_iff hello greeting).1 (refl, greeting-Separable) in
    rw parsed refl

-- A listening socket, and a chat client whose buffers stand at 2 and 3; the message is at 1.
abbrev listener : Client
listener = record { ptr = 1; fd = some 3; corrupt = false; impl = ichat_server }

abbrev guest : ChatImpl → Client
guest i = record { ptr = 2; fd = some 9; corrupt = false; impl = ichat_client i }

abbrev one_message : Memory
one_message = record {
  next = 4;
  cell =
      update (update (update (λ p. none) 1 (some (buffer 1 hello))) 2 (some (buffer 1 []))) 3
        (some (buffer 1 []));
}

abbrev guest_buffers : Buffers
guest_buffers = record { bi = 2; bo = record { entries = []; offset = 0 }; sig = some 3 }

one_message-Counted : Counted one_message (owned_all (guest_buffers ∷ []) ++ 1 ∷ [])
unfolding Counted owned_all
one_message-Counted = (at, λ p h. ground arith)
  where
    at : (p : ℕ) → CountedAt (one_message.cell p) (count p (2 ∷ 3 ∷ 1 ∷ []))
    at zero = refl
    at (suc zero) = (refl, omega arith, omega arith)
    at (suc (suc zero)) = (refl, omega arith, omega arith)
    at (suc (suc (suc zero))) = (refl, omega arith, omega arith)
    at (suc (suc (suc (suc n)))) = ground arith

room : StandFor one_message (listener ∷ guest ichat_client_create_impl ∷ []) (guest_buffers ∷ [])
unfolding Represents
room = socket listener refl (
    served (guest ichat_client_create_impl) guest_buffers ichat_client_create_impl.bo refl
      (refl, refl) nobody)

abbrev no_stamp : ℕ → Bytes
no_stamp ptr = []

room_told :
    ichat_broadcast (codes "here") no_stamp 0 hello (listener ∷ guest ichat_client_create_impl ∷ [])
    ≡ some (listener ∷ guest after_hello ∷ [])
unfolding ichat_broadcast
room_told = rw hello_sent refl

broadcast_lem_example :
    Leaves
      (codes "here")
      no_stamp
      0
      junk
      (λ n. length-replicate n 170)
      1
      hello
      (deliver junk
        (broadcast_ways (codes "here") no_stamp 0 (listener ∷ guest ichat_client_create_impl ∷ []))
        1
        (guest_buffers ∷ [])
        one_message)
      one_message
      (1 ∷ [])
      (listener ∷ guest after_hello ∷ [])
broadcast_lem_example =
    broadcast_lem (codes "here") no_stamp 0 junk (λ n. length-replicate n 170) 1 hello
      (listener ∷ guest ichat_client_create_impl ∷ []) (listener ∷ guest after_hello ∷ [])
      (guest_buffers ∷ []) (1 ∷ []) one_message room one_message-Counted (omega arith) refl
      room_told

abbrev with_one : Memory
with_one = (chat_create no_memory).1

abbrev with_two : Memory
with_two = (chat_create with_one).1

abbrev first_client : Buffers
first_client = (chat_create no_memory).0

abbrev second_client : Buffers
second_client = (chat_create with_one).0

two_accepted : Life junk (second_client ∷ first_client ∷ []) with_two
two_accepted = chat_accepted (first_client ∷ []) with_one (chat_accepted [] no_memory start)

two-Counted : Counted with_two (owned_all (second_client ∷ first_client ∷ []))
two-Counted =
    Life-Counted junk (λ n. length-replicate n 170) (second_client ∷ first_client ∷ []) with_two
      two_accepted

-- The second client sends a message to both.
read_message_lem_example :
    (is : List Buffers) × (m' : Memory) × (read_message junk
        (chat ∷ chat ∷ [])
        true
        hello
        second_client
        (first_client ∷ [])
        with_two
      ≡ some (is, m'))
    × Counted m' (owned_all is)
read_message_lem_example =
    read_message_lem junk (λ n. length-replicate n 170) (chat ∷ chat ∷ []) true hello second_client
      (first_client ∷ []) with_two two-Counted (omega arith) (omega arith)

abbrev reading :
    (is : List Buffers) × (m' : Memory) × (read_message junk
        (chat ∷ chat ∷ [])
        true
        hello
        second_client
        (first_client ∷ [])
        with_two
      ≡ some (is, m'))
    × Counted m' (owned_all is)
reading =
    read_message_lem junk (λ n. length-replicate n 170) (chat ∷ chat ∷ []) true hello second_client
      (first_client ∷ []) with_two two-Counted (omega arith) (omega arith)

both_told : Life junk (reading.0) (reading.1)
both_told =
    received (chat ∷ chat ∷ []) true hello second_client (first_client ∷ []) with_two two_accepted
      (omega arith) (omega arith) (reading.2)

destroy_all-Life_example :
    (m' : Memory) × (destroy_all (reading.0) (reading.1) ≡ some m') × ((p : ℕ) → m'.cell p ≡ none)
destroy_all-Life_example =
    destroy_all-Life junk (λ n. length-replicate n 170) (reading.0) (reading.1) both_told
