-- ===== src/Accept.antt =====
-- The three listening sockets: `ctl_server_read_op`, `ichat_server_read_op` and
-- `ichat_s2s_server_read_op`, and `server_bind_ports` of src/server.c.
use ichatd.Common.{ℕ, Option, none, some, ◌==◌, if◌then◌else◌}
use ichatd.Sockets.{BindAnswers, ic_bind_server_socket}
use ichatd.Client.{Client, ctl_server, ichat_server, s2s_server, in_auth, client_create}
use ichatd.Server.{Server}
use ichatd.World.{World}
use ichatd.Link.{ichat_client_create, ctl_client_create, ichat_s2s_client_create, join_client}

-- The `read` of a listening socket, with what `accept` gives. (The test behind the creation asks
-- for the listening client, which is there.)
abbrev pub ichat_server_read_op : Server → Option ℕ → Server
ichat_server_read_op s none = s
ichat_server_read_op s (some fd) = join_client (ichat_client_create s.next_ptr (some fd)) s

abbrev pub ctl_server_read_op : Server → Option ℕ → Server
ctl_server_read_op s none = s
ctl_server_read_op s (some fd) = join_client (ctl_client_create s.next_ptr (some fd)) s

abbrev pub incoming : World → Server → ℕ → Client
incoming w s fd =
    ichat_s2s_client_create s.next_ptr (some fd) in_auth s.config.s2s_me.host
      (w.stamp s.ticks s.next_ptr) s.config.s2s_me

abbrev pub ichat_s2s_server_read_op : World → Server → Option ℕ → Server
ichat_s2s_server_read_op w s none = s
ichat_s2s_server_read_op w s (some fd) = join_client (incoming w s fd) s

abbrev pub ctl_server_create : ℕ → ℕ → Client
ctl_server_create ptr fd = client_create ptr (some fd) ctl_server

abbrev pub ichat_server_create : ℕ → ℕ → Client
ichat_server_create ptr fd = client_create ptr (some fd) ichat_server

abbrev pub ichat_s2s_server_create : ℕ → ℕ → Client
ichat_s2s_server_create ptr fd = client_create ptr (some fd) s2s_server

-- The creation of a listener, and `list_prepend`.
abbrev pub listening : (ℕ → ℕ → Client) → ℕ → Server → Server
listening create fd s = join_client (create s.next_ptr fd) s

-- if (cli_server_fd > 0)
abbrev pub bound : (ℕ → ℕ → Client) → Server → Option ℕ → Server
bound create s none = s
bound create s (some fd) = if fd == 0 then s else listening create fd s

-- One of the three parts of `server_bind_ports`.
abbrev pub bind_port : (ℕ → ℕ → Client) → ℕ → BindAnswers → Server → Server
bind_port create port a s =
    if port == 0 then s else bound create s (ic_bind_server_socket port a).fd

-- `server_bind_ports`, with the answers for the three sockets.
unfoldable pub server_bind_ports : BindAnswers → BindAnswers → BindAnswers → Server → Server
server_bind_ports user s2s ctl s = bind_port ctl_server_create s.config.ctl_port ctl (
    bind_port ichat_s2s_server_create s.config.s2s_me.port s2s
      (bind_port ichat_server_create s.config.user_port user s))
