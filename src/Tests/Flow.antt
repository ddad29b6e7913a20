-- ===== src/Tests/Flow.antt =====
-- Messages on their way through the server at concrete inputs.
use ichatd.Common.{
  ℕ, ◌≤◌, ◌≡◌, ◌↔◌, ◌⊎◌, refl, true, false, List, [], ◌∷◌, ◌++◌, none, some, arith, Bytes, codes,
  length,
}
use ichatd.Config.{config_alloc}
use ichatd.Proto.Icc2s.{Icc2s, ichat_buffer_to_icc2s, ichat_buffer_to_icc2s_iff, icc2s_bytes}
use ichatd.Proto.Ics2s.{ics2s_bytes}
use ichatd.Proto.Icc2s
use ichatd.Frame.{frame, next_frame, wait}
use ichatd.Queue.{Queue, Written, count, error, buffer_queue_alloc, buffer_queue_write}
use ichatd.Output.Empty.{enqueue_empty_data}
use ichatd.Queue.Stream
use ichatd.Queue.Stream.{stream, join}
use ichatd.Client.{
  Client, ctl_client, ichat_client, s2s_client, ctl_client_create_impl, ichat_client_create_impl,
  ChatImpl, S2sImpl, in_auth,
}
use ichatd.Client.Chat.{
  enqueue, ichat_client_add_message, ichat_client_add_message_lem, ichat_client_add_message_aborts,
  chat_body,
}
use ichatd.Client.S2s.{ichat_s2s_client_add_message, ichat_s2s_client_add_message_lem, forwarded}
use ichatd.Server.{Server, at_client, find_client}
use ichatd.Dispatch.{ichat_dispatch}
use ichatd.Dispatch.Delivery.{Sendable, Delivered, QueuesValid}
use ichatd.Dispatch.Routing.{ichat_dispatch_lem, dispatch_due}
use ichatd.Input.{read_loop, read_op, got, set_input}
use ichatd.Input.Messages.{read_loop_fuel, read_op_frames, in_turn, join_frames}
use ichatd.Input.Chat.{
  ichat_client_process_message, ichat_client_read_op, ichat_client_read_op_lem, with_sender,
}

abbrev pub time : Bytes
time = codes "20080708025348123"

abbrev pub stamp : ℕ → ℕ → Bytes
stamp n p = time

abbrev pub hello : Icc2s
hello = record {
  sender = codes "nick";
  command = codes "M";
  receiver = codes "*";
  msg_data = codes "hello everyone";
}

abbrev pub hello_msg : Bytes
hello_msg = icc2s_bytes hello

hello-Separable : Icc2s.Separable hello
hello-Separable = record {
  sender_ok = ground arith;
  command_ok = ground arith;
  receiver_ok = ground arith;
}

hello-parsed : ichat_buffer_to_icc2s hello_msg ≡ some hello
hello-parsed = (ichat_buffer_to_icc2s_iff hello_msg hello).1 (refl, hello-Separable)

hello-Sendable : Sendable hello_msg hello
hello-Sendable = record { parsed = hello-parsed; above = omega arith; below = omega arith }

stamp_size : (n p : ℕ) → length (stamp n p) ≡ 17
stamp_size n p = refl

abbrev chatter : Client
chatter = record {
  ptr = 1;
  fd = some 4;
  corrupt = false;
  impl = ichat_client ichat_client_create_impl;
}

abbrev peer_impl : S2sImpl
peer_impl = record {
  bi = [];
  bo = record { entries = []; offset = 0 };
  sig = [];
  auth_dir = in_auth;
  is_authenticated = false;
  my_name = codes "here";
  link_block = record { host = codes "there"; port = 6767; pass = codes "pw" };
}

abbrev peer : Client
peer = record { ptr = 2; fd = some 5; corrupt = false; impl = s2s_client peer_impl }

abbrev friend : Client
friend = record {
  ptr = 4;
  fd = some 6;
  corrupt = false;
  impl = s2s_client (record peer_impl { is_authenticated = true });
}

abbrev operator : Client
operator = record {
  ptr = 3;
  fd = some 7;
  corrupt = false;
  impl = ctl_client ctl_client_create_impl;
}

abbrev pub busy : Server
busy = record {
  config = config_alloc;
  clist = chatter ∷ peer ∷ friend ∷ operator ∷ [];
  task_queue = [];
  shutdown = false;
  next_ptr = 9;
  ticks = 0;
  closed = [];
}

busy-QueuesValid : QueuesValid busy.clist
busy-QueuesValid = (refl, (refl, (refl, (refl, tt))))

ichat_dispatch_lem_example :
    (cs : List Client) × (ichat_dispatch stamp busy 1 hello_msg
      ≡ some (record busy { clist = cs; ticks = 1 }))
    × Delivered
        (dispatch_due busy.config.s2s_me.host (stamp 0) 1 hello_msg hello busy.clist)
        busy.clist
        cs
ichat_dispatch_lem_example =
    ichat_dispatch_lem stamp busy 1 hello_msg hello hello-Sendable stamp_size busy-QueuesValid

no_frame : next_frame (codes "23") ≡ wait
unfolding next_frame
no_frame = refl

abbrev after_input : Server
after_input = at_client 1 (set_input (frame hello_msg ++ codes "23")) busy

ichat_client_read_op_lem_example :
    (cs : List Client) × (ichat_client_read_op stamp busy 1 (got (frame hello_msg ++ codes "23"))
      ≡ some (at_client 1 (set_input (codes "23")) (record busy { clist = cs; ticks = 1 })))
    × Delivered
        (dispatch_due busy.config.s2s_me.host
          (stamp 0)
          1
          hello_msg
          hello
          (with_sender after_input 1 hello))
        (with_sender after_input 1 hello)
        cs
unfolding find_client
ichat_client_read_op_lem_example =
    ichat_client_read_op_lem stamp busy 1 (frame hello_msg ++ codes "23") hello_msg hello
      (codes "23") hello-Sendable stamp_size busy-QueuesValid no_frame refl

abbrev two_frames : Bytes
two_frames = join_frames (hello_msg ∷ hello_msg ∷ []) (codes "23")

read_op_frames_example :
    read_op (ichat_client_process_message stamp) busy 1 (got two_frames)
    ≡ in_turn
        (ichat_client_process_message stamp)
        (at_client 1 (set_input two_frames) busy)
        1
        (hello_msg ∷ hello_msg ∷ [])
        (codes "23")
unfolding find_client
read_op_frames_example =
    read_op_frames (ichat_client_process_message stamp) busy 1 two_frames
      (hello_msg ∷ hello_msg ∷ []) (codes "23")
      (omega arith, omega arith, (omega arith, omega arith, tt)) no_frame refl

read_loop_fuel_example :
    read_loop (ichat_client_process_message stamp) 100 busy 1 hello_msg
    ≡ read_loop (ichat_client_process_message stamp) 200 busy 1 hello_msg
read_loop_fuel_example =
    read_loop_fuel (ichat_client_process_message stamp) 100 200 busy 1 hello_msg (omega arith)
      (omega arith)

ichat_client_add_message_lem_example :
    (i : ChatImpl) × (ichat_client_add_message hello_msg ichat_client_create_impl ≡ some i)
    × (stream i.bo ≡ [] ++ frame (chat_body hello))
    × Stream.IsValid i.bo
    × (i.sig ≡ [])
    × (i.bi ≡ [])
ichat_client_add_message_lem_example =
    ichat_client_add_message_lem hello_msg hello ichat_client_create_impl hello-parsed (omega arith)
      (omega arith) refl

ichat_client_add_message_aborts_example :
    (ichat_client_add_message (codes "a") ichat_client_create_impl ≡ none) ↔ (
      (ichat_buffer_to_icc2s (codes "a") ≡ none)
      ⊎ ((length (codes "a") ≤ 20) ⊎ (4192 ≤ length (codes "a"))))
ichat_client_add_message_aborts_example =
    ichat_client_add_message_aborts (codes "a") ichat_client_create_impl

ichat_s2s_client_add_message_lem_example :
    (i : S2sImpl) × (ichat_s2s_client_add_message (codes "here") time hello_msg peer_impl ≡ some i)
    × (stream i.bo ≡ [] ++ frame (ics2s_bytes (forwarded (codes "here") time hello_msg)))
    × Stream.IsValid i.bo
    × (i ≡ record peer_impl { bo = i.bo })
ichat_s2s_client_add_message_lem_example =
    ichat_s2s_client_add_message_lem (codes "here") time hello_msg peer_impl refl (omega arith)
      (omega arith) refl

abbrev silent : Icc2s
silent = record {
  sender = codes "nick";
  command = codes "refresh";
  receiver = codes "someone";
  msg_data = [];
}

enqueue_empty_data_example :
    let q = enqueue silent buffer_queue_alloc in
    (q' : Queue) × (buffer_queue_write q (count (length (stream q)))
      ≡ some (count (length (stream q)), q'))
    × (stream q' ≡ [])
    × ((answer : Written)
        → buffer_queue_write (enqueue hello q') answer ≡ some (error, enqueue hello q'))
enqueue_empty_data_example =
    enqueue_empty_data (codes "nick") (codes "refresh") (codes "someone") hello
