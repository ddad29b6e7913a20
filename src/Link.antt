-- ===== src/Link.antt =====
-- How clients come and go: `ichat_client_create`, `ctl_client_create`, `ichat_s2s_client_create`,
-- `start_ichat_s2s_link` (src/ichat/s2s_client/ichat_s2s_link.c), and `client_destroy` with the
-- destructors, of which `ichat_s2s_client_destroy_impl` asks for a new link. An address is never
-- given twice: nothing refers to a client that is gone.
use ichatd.Common.{
  as_list, List, ◌++◌, ℕ, ◌+◌, ◌*◌, Option, none, some, Bytes, codes, if◌then◌else◌,
}
use ichatd.Config.{S2sBlock, s2s_reconnect_delta}
use ichatd.Task.{Job, start_link, task_create, server_add_task}
use ichatd.Queue.{buffer_queue_append}
use ichatd.Sockets.{ic_nonblock_connect}
use ichatd.Client.{
  Client, ctl_server, ichat_server, s2s_server, ctl_client, ichat_client, s2s_client, AuthDir,
  in_auth, out_auth, CtlImpl, client_create, ichat_client_create_impl, ctl_client_create_impl,
}
use ichatd.Client.S2s.{ichat_s2s_client_create_impl}
use ichatd.Server.{Server, server_add_client}
use ichatd.World.{World}

-- `ichat_client_create`.
unfoldable pub ichat_client_create : ℕ → Option ℕ → Client
unfolding client_create
ichat_client_create ptr fd = client_create ptr fd (ichat_client ichat_client_create_impl)

abbrev pub def_ctl_banner : Bytes
def_ctl_banner =
    codes "Hi!\r\nYou've just connected to slyfox's ichatd ctl port!\r\nGo type here something\r\n"

abbrev with_banner : CtlImpl → CtlImpl
with_banner i = record i { bo = buffer_queue_append i.bo def_ctl_banner }

-- `ctl_client_create`: the banner waits for the new client.
unfoldable pub ctl_client_create : ℕ → Option ℕ → Client
unfolding client_create
ctl_client_create ptr fd = client_create ptr fd (ctl_client (with_banner ctl_client_create_impl))

-- `ichat_s2s_client_create`.
unfoldable pub ichat_s2s_client_create : ℕ → Option ℕ → AuthDir → Bytes → Bytes → S2sBlock → Client
unfolding client_create
ichat_s2s_client_create ptr fd auth_dir my_name timestamp b =
    client_create ptr fd (s2s_client (ichat_s2s_client_create_impl auth_dir my_name timestamp b))

-- `server_add_client` of a client that was just made at the next address.
abbrev pub join_client : Client → Server → Server
join_client client s = record (server_add_client client s) { next_ptr = s.next_ptr + 1 }

-- `task_create` and `server_add_task`.
unfoldable pub register_task : World → ℕ → Job → Server → Server
register_task w delta job s = record s {
  task_queue = server_add_task s.task_queue (task_create (w.clock s.ticks) delta job);
  ticks = s.ticks + 1;
}

-- `start_ichat_s2s_link`: where the connection fails, the client is made all the same, with the
-- descriptor -1, and its destructor tries again.
unfoldable pub start_ichat_s2s_link : World → S2sBlock → Server → Server
start_ichat_s2s_link w b s =
    let remote = (ic_nonblock_connect (w.sockets s.ticks b)).fd in
    let name = s.config.s2s_me.host in
    let time = w.stamp s.ticks s.next_ptr in
    let client = ichat_s2s_client_create s.next_ptr remote out_auth name time b in
    record (join_client client s) { ticks = s.ticks + 1 }

-- The link that a client keeps up: `link_block` where `auth_dir == OUT_AUTH`.
abbrev block_for : AuthDir → S2sBlock → Option S2sBlock
block_for in_auth b = none
block_for out_auth b = some b

abbrev pub link_of : Client → Option S2sBlock
link_of c = elim c.impl [
  | ctl_server ↦ none
  | ichat_server ↦ none
  | s2s_server ↦ none
  | ctl_client i ↦ none
  | ichat_client i ↦ none
  | s2s_client i ↦ block_for i.auth_dir i.link_block
]

-- `make_s2s_link_task` and `server_add_task`, unless the server stops.
abbrev pub reconnect : World → Server → Option S2sBlock → Server
reconnect w s none = s
reconnect w s (some b) =
    if s.shutdown then s else register_task w (1000 * s2s_reconnect_delta) (start_link b) s

-- The descriptor of a client; -1 is none.
abbrev pub descriptor : Client → List ℕ
descriptor c = as_list c.fd

-- close (client->fd), which does nothing for -1.
abbrev pub close_fd : Client → Server → Server
close_fd c s = record s { closed = s.closed ++ descriptor c }

-- `client_destroy`, for a client that is off the list: its descriptor is closed, and then the
-- destructor of a link to another server asks for a new link; the others only give up memory.
unfoldable pub client_destroy : World → Client → Server → Server
client_destroy w c s = reconnect w (close_fd c s) (link_of c)
