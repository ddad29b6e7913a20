-- ===== src/Client.antt =====
-- The clients of the server: src/client.h and src/client.c, with the private data of each kind of
-- client (`ichat_client_impl.h`, `ichat_s2s_client_impl.h`, `ctl_client_impl.h`). Buffers are their
-- bytes.
pub mod Chat
pub mod S2s
use ichatd.Common.{
  ◌%◌, ◌^◌, ℕ, Bool, true, false, List, [], ◌∷◌, Option, none, some, Bytes, ◌≡◌, ◌≢◌, ltb, ◌==◌,
  if◌then◌else◌, not,
}
use ichatd.Config.{S2sBlock}
use ichatd.Queue.{Queue, buffer_queue_alloc, buffer_queue_size}

-- `enum AUTH_DIR`.
pub data AuthDir : Type 0 where
  in_auth out_auth : AuthDir

-- `struct ichat_client_impl`.
pub record ChatImpl : Type 0 where
  pub bi : Bytes
  pub bo : Queue
  pub sig : Bytes

-- `struct ichat_s2s_client_impl`.
pub record S2sImpl : Type 0 where
  pub bi : Bytes
  pub bo : Queue
  pub sig : Bytes
  pub auth_dir : AuthDir
  pub is_authenticated : Bool
  pub my_name : Bytes
  pub link_block : S2sBlock

-- `struct ctl_client_impl`.
pub record CtlImpl : Type 0 where
  pub bi : Bytes
  pub bo : Queue

-- `enum CLIENT_TYPE`, each with what `impl` points to. The three listening sockets have no data.
pub data Impl : Type 0 where
  ctl_server ichat_server s2s_server : Impl
  ctl_client : CtlImpl → Impl
  ichat_client : ChatImpl → Impl
  s2s_client : S2sImpl → Impl

-- `struct client`; `ptr` is its address, by which the code tells clients apart, and `none` is the
-- descriptor -1. The table `op` follows from the type.
pub record Client : Type 0 where
  pub ptr : ℕ
  pub fd : Option ℕ
  pub corrupt : Bool
  pub impl : Impl

abbrev pub is_none : Option ℕ → Bool
is_none none = true
is_none (some fd) = false

-- `client_create`, at the address that `malloc` gives.
unfoldable pub client_create : ℕ → Option ℕ → Impl → Client
client_create ptr fd impl = record { ptr = ptr; fd = fd; corrupt = is_none fd; impl = impl }

-- `ichat_client_create_impl`.
abbrev pub ichat_client_create_impl : ChatImpl
ichat_client_create_impl = record { bi = []; bo = buffer_queue_alloc; sig = [] }

-- `ctl_client_create_impl`.
abbrev pub ctl_client_create_impl : CtlImpl
ctl_client_create_impl = record { bi = []; bo = buffer_queue_alloc }

abbrev nonzero : ℕ → Bool
nonzero n = ltb 0 n

-- The `can_read` operations: always for a listening socket, and for a client that is not corrupt.
abbrev ctl_server_can_read_op : Client → Bool
ctl_server_can_read_op c = true

abbrev ichat_server_can_read_op : Client → Bool
ichat_server_can_read_op c = true

abbrev ichat_s2s_server_can_read_op : Client → Bool
ichat_s2s_server_can_read_op c = true

abbrev ctl_client_can_read_op : Client → Bool
ctl_client_can_read_op c = not c.corrupt

abbrev ichat_client_can_read_op : Client → Bool
ichat_client_can_read_op c = not c.corrupt

abbrev ichat_s2s_client_can_read_op : Client → Bool
ichat_s2s_client_can_read_op c = not c.corrupt

-- `op.can_read`.
unfoldable pub can_read : Client → Bool
can_read c = elim c.impl [
  | ctl_server ↦ ctl_server_can_read_op c
  | ichat_server ↦ ichat_server_can_read_op c
  | s2s_server ↦ ichat_s2s_server_can_read_op c
  | ctl_client i ↦ ctl_client_can_read_op c
  | ichat_client i ↦ ichat_client_can_read_op c
  | s2s_client i ↦ ichat_s2s_client_can_read_op c
]

-- The `can_write` operations: the number of bytes that wait is returned as an `int`, of which 32 bits
-- are left, and tested against 0.
abbrev ctl_client_can_write_op : Client → CtlImpl → Bool
ctl_client_can_write_op c i = if c.corrupt then false else nonzero (buffer_queue_size i.bo % 2 ^ 32)

abbrev ichat_client_can_write_op : Client → ChatImpl → Bool
ichat_client_can_write_op c i =
    if c.corrupt then false else nonzero (buffer_queue_size i.bo % 2 ^ 32)

abbrev ichat_s2s_client_can_write_op : Client → S2sImpl → Bool
ichat_s2s_client_can_write_op c i =
    if c.corrupt then false else nonzero (buffer_queue_size i.bo % 2 ^ 32)

-- `op.can_write`, which is `NULL` for a listening socket.
unfoldable pub can_write : Client → Bool
can_write c = elim c.impl [
  | ctl_server ↦ false
  | ichat_server ↦ false
  | s2s_server ↦ false
  | ctl_client i ↦ ctl_client_can_write_op c i
  | ichat_client i ↦ ichat_client_can_write_op c i
  | s2s_client i ↦ ichat_s2s_client_can_write_op c i
]
