-- ===== src/Input.antt =====
-- What a client's input does: the loop of `ichat_client_read_op` and `ichat_s2s_client_read_op`
-- (src/ichat/client/ichat_client_ops.c, src/ichat/s2s_client/ichat_s2s_client_ops.c) over the
-- function that processes a message. `none` is a failed assertion.
pub mod Messages
pub mod Chat
pub mod S2s
use ichatd.Common.{
  ℕ, zero, suc, ◌+◌, Bool, true, false, List, [], ◌∷◌, ◌++◌, Option, none, some, Bytes, length,
  ◌>>=◌, if◌then◌else◌,
}
use ichatd.Frame.{Round, wait, bad, message, next_frame}
use ichatd.Client.{
  Client, Impl, ctl_server, ichat_server, s2s_server, ctl_client, ichat_client, s2s_client,
}
use ichatd.Server.{Server, find_client, at_client, corrupted}
use ichatd.Dispatch.{same_sig}

-- What `buffer_read` gives: -1, 0 at the end of the input, or the bytes that came.
pub data Read : Type 0 where
  failed eof : Read
  got : Bytes → Read

-- The input buffer of a client; a listening socket has none.
abbrev pub input : Client → Bytes
input c = elim c.impl [
  | ctl_server ↦ []
  | ichat_server ↦ []
  | s2s_server ↦ []
  | ctl_client i ↦ i.bi
  | ichat_client i ↦ i.bi
  | s2s_client i ↦ i.bi
]

abbrev with_input : Bytes → Impl → Impl
with_input bi ctl_server = ctl_server
with_input bi ichat_server = ichat_server
with_input bi s2s_server = s2s_server
with_input bi (ctl_client i) = ctl_client (record i { bi = bi })
with_input bi (ichat_client i) = ichat_client (record i { bi = bi })
with_input bi (s2s_client i) = s2s_client (record i { bi = bi })

abbrev pub set_input : Bytes → Client → Client
set_input bi c = record c { impl = with_input bi c.impl }

-- if (ichat_sig_cmp (sig, impl->sig)) impl->sig = sig
abbrev with_sig : Bytes → Impl → Impl
with_sig sig ctl_server = ctl_server
with_sig sig ichat_server = ichat_server
with_sig sig s2s_server = s2s_server
with_sig sig (ctl_client i) = ctl_client i
with_sig sig (ichat_client i) =
    if same_sig sig i.sig then ichat_client i else ichat_client (record i { sig = sig })
with_sig sig (s2s_client i) =
    if same_sig sig i.sig then s2s_client i else s2s_client (record i { sig = sig })

abbrev pub registered : Bytes → Client → Client
registered sig c = record c { impl = with_sig sig c.impl }

abbrev pub input_at : Option Client → Bytes
input_at none = []
input_at (some c) = input c

module _ (process : Server → ℕ → Bytes → Option Server) where
  -- `for (;;)` over the input `p` of the client at `ptr`: what is left is moved to the front after
  -- each message.
  unfoldable pub read_loop : ℕ → Server → ℕ → Bytes → Option Server
  read_loop zero s ptr p = some s
  read_loop (suc fuel) s ptr p = elim (next_frame p) [
    | wait ↦ some s
    | bad ↦ some (at_client ptr corrupted s)
    | message msg rest ↦ (do
      s' ← process s ptr msg
      read_loop fuel (at_client ptr (set_input rest) s') ptr rest)
  ]

  -- The whole of the two functions. A round takes at least one byte, so the length of the input is
  -- enough fuel.
  unfoldable pub read_op : Server → ℕ → Read → Option Server
  read_op s ptr failed = some (at_client ptr corrupted s)
  read_op s ptr eof = some (at_client ptr corrupted s)
  read_op s ptr (got bytes) =
      let p = input_at (find_client ptr s.clist) ++ bytes in
      read_loop (length p + 1) (at_client ptr (set_input p) s) ptr p
