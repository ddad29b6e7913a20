-- ===== src/Server.antt =====
-- The state of the server (`struct server` of src/server.h) and its list of clients
-- (`server_add_client`, `server_remove_client` of src/server.c).
pub mod Clients
use ichatd.Common.{
  ℕ, ◌+◌, Bool, true, false, List, [], ◌∷◌, Option, none, some, Bytes, ◌==◌, if◌then◌else◌,
}
use ichatd.Config.{Config}
use ichatd.Task.{TimedTask}
use ichatd.Client.{Client}

-- `struct server`, without the name of the configuration file. `next_ptr` is the address that the
-- next new client gets; `ticks` counts the messages that were dispatched, the readings of the clock
-- and the links that were started, and so tells the questions to the system apart; `closed` holds the
-- descriptors that `client_destroy` has closed, in order.
pub record Server : Type 0 where
  pub config : Config
  pub clist : List Client
  pub task_queue : List TimedTask
  pub shutdown : Bool
  pub next_ptr : ℕ
  pub ticks : ℕ
  pub closed : List ℕ

-- `server_add_client`.
abbrev pub server_add_client : Client → Server → Server
server_add_client client server = record server { clist = client ∷ server.clist }

abbrev pub behind : Client → Option (Client × List Client) → Option (Client × List Client)
behind c none = none
behind c (some (d, ds)) = some (d, c ∷ ds)

-- The loop of `server_remove_client` over the places where the pointers stand.
unfoldable pub remove : ℕ → List Client → Option (Client × List Client)
remove ptr [] = none
remove ptr (c ∷ cs) = if c.ptr == ptr then some (c, cs) else behind c (remove ptr cs)

-- `server_remove_client`; `none` is the null pointer for a client that is not in the list.
abbrev pub with_rest : Server → Option (Client × List Client) → Option Client × Server
with_rest server none = (none, server)
with_rest server (some (c, cs)) = (some c, record server { clist = cs })

unfoldable pub server_remove_client : ℕ → Server → Option Client × Server
unfolding remove
server_remove_client ptr server = with_rest server (remove ptr server.clist)

-- The client at an address.
unfoldable pub find_client : ℕ → List Client → Option Client
find_client ptr [] = none
find_client ptr (c ∷ cs) = if c.ptr == ptr then some c else find_client ptr cs

-- A write through a client's address.
unfoldable pub update_client : ℕ → (Client → Client) → List Client → List Client
update_client ptr f [] = []
update_client ptr f (c ∷ cs) = if c.ptr == ptr then f c ∷ cs else c ∷ update_client ptr f cs

abbrev pub at_client : ℕ → (Client → Client) → Server → Server
at_client ptr f server = record server { clist = update_client ptr f server.clist }

-- client->corrupt = 1
abbrev pub corrupted : Client → Client
corrupted c = record c { corrupt = true }
