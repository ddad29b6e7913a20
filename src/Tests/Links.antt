-- ===== src/Tests/Links.antt =====
-- Links between servers and control clients at concrete inputs.
use ichatd.Common.{
  ◌↔◌, ◌⊎◌, ◌≢◌, inl, none, Bytes, ◌+◌, ◌≡◌, ◌∷◌, refl, true, false, [], ◌++◌, some, arith, codes,
  length, replicate,
}
use ichatd.Decimal.{decimal}
use ichatd.Proto.Ics2s.{Ics2s, ichat_buffer_to_ics2s, ichat_buffer_to_ics2s_iff, ics2s_bytes}
use ichatd.Proto.Icc2s.{Icc2s, icc2s_bytes, ichat_buffer_to_icc2s, ichat_buffer_to_icc2s_iff}
use ichatd.Input.S2s.Short.{short_forward}
use ichatd.Proto.Login.{login_body}
use ichatd.Client.S2s.{forwarded}
use ichatd.Server.{Server, at_client, find_client, update_client}
use ichatd.Proto.Signature.{ichat_sig_cmp, ichat_sig_is_broadcast}
use ichatd.Dispatch.{ichat_dispatch}
use ichatd.Input.{input_at, got, set_input, registered}
use ichatd.Config.{S2sBlock, config_alloc}
use ichatd.Queue.Stream.{stream}
use ichatd.Client.{s2s_client, S2sImpl, in_auth, out_auth}
use ichatd.Client.S2s.{ichat_s2s_client_create_impl}
use ichatd.Input.S2s.Handshake.{handshake}
use ichatd.Input.S2s.{
  ichat_s2s_client_read_op, ichat_s2s_client_process_message, is_authenticated, authenticated,
}
use ichatd.Input.S2s.Auth.{unauthenticated_message, authenticated_by_password, login_accepted}
use ichatd.Input.S2s.Forward.{forward_lem}
use ichatd.Ctl.{ctl_client_process_message, ctl_client_read_op, process_all}
use ichatd.Ctl.Lines.{ctl_client_read_op_lem}
use ichatd.Ctl.Commands.{Agrees, ctl_client_process_message_lem}
use ichatd.Tests.Flow.{time, stamp, hello_msg, busy}

abbrev smuggled : Ics2s
smuggled = forwarded (codes "there") time hello_msg

smuggled-parsed : ichat_buffer_to_ics2s (ics2s_bytes smuggled) ≡ some smuggled
smuggled-parsed = (ichat_buffer_to_ics2s_iff (ics2s_bytes smuggled) smuggled).1 (
  refl,
  record { sender_ok = ground arith; timestamp_ok = ground arith; command_ok = ground arith },
)

closed : is_authenticated (find_client 2 busy.clist) ≡ false
unfolding find_client
closed = refl

opened : is_authenticated (find_client 4 busy.clist) ≡ true
unfolding find_client
opened = refl

unauthenticated_message_example :
    ichat_s2s_client_process_message stamp busy 2 (ics2s_bytes smuggled)
    ≡ some (at_client 2 (registered (codes "there")) busy)
unauthenticated_message_example =
    unauthenticated_message stamp busy 2 (ics2s_bytes smuggled) smuggled smuggled-parsed
      (λ e. ground (arith, e)) closed

abbrev here : S2sBlock
here = record { host = codes "10.0.0.2"; port = 6767; pass = busy.config.s2s_me.pass }

abbrev new_link : S2sImpl
new_link = ichat_s2s_client_create_impl in_auth busy.config.s2s_me.host time busy.config.s2s_me

abbrev accepting : Server
accepting = record busy {
  clist =
      record { ptr = 9; fd = some 12; corrupt = false; impl = s2s_client new_link } ∷ busy.clist;
}

handshake_example :
    (s' : Server) × (ichat_s2s_client_read_op stamp accepting 9
        (got (stream (ichat_s2s_client_create_impl out_auth (codes "there") time here).bo))
      ≡ some s')
    × (is_authenticated (find_client 9 s'.clist) ≡ true)
    × (input_at (find_client 9 s'.clist) ≡ [])
unfolding find_client ichat_s2s_client_create_impl config_alloc
handshake_example =
    handshake stamp accepting 9 (codes "there") time here
      (record { ptr = 9; fd = some 12; corrupt = false; impl = s2s_client new_link }) new_link refl
      refl refl refl (ground arith) (ground arith) (omega arith) (omega arith)

abbrev welcomed : Server
welcomed = at_client 2 authenticated (at_client 2 (registered (codes "there")) busy)

welcomed_flag : is_authenticated (find_client 2 welcomed.clist) ≡ true
unfolding find_client update_client ichat_sig_cmp
welcomed_flag = refl

login_done :
    ichat_s2s_client_process_message stamp busy 2
      (login_body (codes "there") time busy.config.s2s_me.pass)
    ≡ some welcomed
login_done = login_accepted stamp busy 2 (codes "there") time (ground arith) (ground arith)

authenticated_by_password_example :
    (m : Ics2s) × (ichat_buffer_to_ics2s (login_body (codes "there") time busy.config.s2s_me.pass)
      ≡ some m)
    × (m.command ≡ codes "LOGIN")
    × (m.msg_data ≡ busy.config.s2s_me.pass)
authenticated_by_password_example =
    authenticated_by_password stamp busy welcomed 2
      (login_body (codes "there") time busy.config.s2s_me.pass) closed login_done welcomed_flag

forward_lem_example :
    ichat_s2s_client_process_message stamp busy 4 (ics2s_bytes smuggled)
    ≡ ichat_dispatch stamp
        (at_client 4 (registered (codes "there")) busy)
        4
        (hello_msg ++ replicate (length (decimal (length hello_msg)) + 1) 0)
forward_lem_example =
    forward_lem stamp busy 4 (codes "there") time hello_msg (ground arith) (ground arith) opened

-- A message that a chat client could not have sent, since it has 6 bytes.
abbrev tiny : Bytes
tiny =
    icc2s_bytes
      (record { sender = codes "a"; command = codes "b"; receiver = []; msg_data = codes "c" })

abbrev tiny_arrived : Icc2s
tiny_arrived = record {
  sender = codes "a";
  command = codes "b";
  receiver = [];
  msg_data = codes "c" ++ 0 ∷ 0 ∷ [];
}

tiny-parsed : ichat_buffer_to_icc2s (tiny ++ 0 ∷ 0 ∷ []) ≡ some tiny_arrived
tiny-parsed = (ichat_buffer_to_icc2s_iff (tiny ++ 0 ∷ 0 ∷ []) tiny_arrived).1 (
  refl,
  record { sender_ok = ground arith; command_ok = ground arith; receiver_ok = ground arith },
)

short_forward_example :
    ichat_s2s_client_process_message stamp busy 4
      (ics2s_bytes (forwarded (codes "there") time tiny))
    ≡ none
unfolding decimal ichat_sig_is_broadcast
short_forward_example =
    short_forward stamp busy 4 (codes "there") time tiny tiny_arrived (ground arith) (ground arith)
      opened tiny-parsed refl (omega arith) (inl tt)

ctl_client_read_op_lem_example :
    ctl_client_read_op busy 3 (got (codes "ab\ncd\n"))
    ≡ at_client 3 (set_input []) (
        process_all
          (at_client 3 (set_input (codes "ab\ncd\n")) busy)
          3
          (replicate 2 (codes "ab\n")))
unfolding find_client
ctl_client_read_op_lem_example =
    ctl_client_read_op_lem busy 3 2 0 (codes "ab\ncd\n") (codes "ab") (codes "cd\n") (ground arith)
      (omega arith) refl refl

abbrev stopped : Server
stopped = ctl_client_process_message busy 3 (codes "stop\n")

ctl_client_process_message_lem_example :
    ((stopped.shutdown ≡ true)
      ↔ ((false ≡ true) ⊎ ((codes "stop\n" ≢ []) × Agrees (codes "stop\n") (codes "stop"))))
    × (stopped.config ≡ busy.config)
    × (stopped.task_queue ≡ [])
ctl_client_process_message_lem_example = ctl_client_process_message_lem busy 3 (codes "stop\n")
