-- ===== src/Input/S2s.antt =====
-- `ichat_s2s_client_process_message` and `ichat_s2s_client_read_op` of
-- src/ichat/s2s_client/ichat_s2s_client_ops.c.
pub mod Auth
pub mod Forward
pub mod Handshake
pub mod Short
use ichatd.Common.{
  ℕ, ◌+◌, Bool, true, false, List, [], ◌∷◌, ◌++◌, Option, none, some, Bytes, codes, length, drop,
  eq_bytes, cut_at, if◌then◌else◌,
}
use ichatd.Buffer.{resized, write_at}
use ichatd.Proto.Ics2s.{Ics2s, ichat_buffer_to_ics2s, ics2s_sender, ics2s_command, ics2s_data}
use ichatd.Client.{
  Client, Impl, ctl_server, ichat_server, s2s_server, ctl_client, ichat_client, s2s_client,
}
use ichatd.Server.{Server, find_client, at_client, corrupted}
use ichatd.Dispatch.{ichat_dispatch}
use ichatd.Input.{Read, read_op, registered}

-- impl->is_authenticated = 1
abbrev authenticate : Impl → Impl
authenticate ctl_server = ctl_server
authenticate ichat_server = ichat_server
authenticate s2s_server = s2s_server
authenticate (ctl_client i) = ctl_client i
authenticate (ichat_client i) = ichat_client i
authenticate (s2s_client i) = s2s_client (record i { is_authenticated = true })

abbrev pub authenticated : Client → Client
authenticated c = record c { impl = authenticate c.impl }

-- impl->is_authenticated
abbrev pub is_authenticated : Option Client → Bool
is_authenticated none = false
is_authenticated (some c) = elim c.impl [
  | ctl_server ↦ false
  | ichat_server ↦ false
  | s2s_server ↦ false
  | ctl_client i ↦ false
  | ichat_client i ↦ false
  | s2s_client i ↦ i.is_authenticated
]

-- The message behind the size in the data of FORWARD: the new buffer has `buf_sz` bytes, of which
-- the first ones are written.
abbrev pub stripped : ℕ → Option (Bytes × Bytes) → Option Bytes
stripped buf_sz none = none
stripped buf_sz (some (_, rest)) = some (write_at 0 rest (resized buf_sz []))

abbrev pub dispatch_some : (ℕ → ℕ → Bytes) → Server → ℕ → Option Bytes → Option Server
dispatch_some stamp s ptr none = some s
dispatch_some stamp s ptr (some msg) = ichat_dispatch stamp s ptr msg

-- The commands LOGIN and FORWARD, and any other one.
unfoldable pub run_command : (ℕ → ℕ → Bytes) → Server → ℕ → Ics2s → Option Server
run_command stamp s ptr m =
    let clnt_msg = ics2s_data m in
    let dispatched = dispatch_some stamp s ptr (stripped (length clnt_msg) (cut_at 0 clnt_msg)) in
    if eq_bytes (ics2s_command m) (codes "LOGIN")
    then if eq_bytes clnt_msg s.config.s2s_me.pass
      then some (at_client ptr authenticated s)
      else some s
    else if eq_bytes (ics2s_command m) (codes "FORWARD")
    then if is_authenticated (find_client ptr s.clist) then dispatched else some s
    else some s

abbrev process_parsed : (ℕ → ℕ → Bytes) → Server → ℕ → Option Ics2s → Option Server
process_parsed stamp s ptr none = some (at_client ptr corrupted s)
process_parsed stamp s ptr (some m) =
    run_command stamp (at_client ptr (registered (ics2s_sender m)) s) ptr m

-- `ichat_s2s_client_process_message`.
unfoldable pub ichat_s2s_client_process_message :
    (ℕ → ℕ → Bytes) → Server → ℕ → Bytes → Option Server
ichat_s2s_client_process_message stamp s ptr msg =
    process_parsed stamp s ptr (ichat_buffer_to_ics2s msg)

-- `ichat_s2s_client_read_op`.
abbrev pub ichat_s2s_client_read_op : (ℕ → ℕ → Bytes) → Server → ℕ → Read → Option Server
ichat_s2s_client_read_op stamp = read_op (ichat_s2s_client_process_message stamp)
