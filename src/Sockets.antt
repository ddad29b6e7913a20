-- ===== src/Sockets.antt =====
-- `IC_bind_server_socket` and `IC_nonblock_connect` of src/misc.c. The answers of the system's
-- calls are arguments; a descriptor of -1 is `none`.
pub mod Leaks
use ichatd.Common.{
  ℕ, Bool, true, false, List, [], ◌∷◌, Option, none, some, ◌||◌, ltb, if◌then◌else◌,
}

-- What the calls of `IC_bind_server_socket` answer; `bind` and `listen` are not asked.
pub record BindAnswers : Type 0 where
  pub socket : Option ℕ
  pub setsockopt : Bool
  pub inet_aton : Bool

-- What `connect` does.
pub data Connected : Type 0 where
  established in_progress refused : Connected

-- What the calls of `IC_nonblock_connect` answer.
pub record ConnectAnswers : Type 0 where
  pub socket : Option ℕ
  pub fcntl : Bool
  pub inet_aton : Bool
  pub connect : Connected

-- The descriptor that is returned, and the descriptors that were closed on the way.
pub record Outcome : Type 0 where
  pub fd : Option ℕ
  pub closed : List ℕ

abbrev no_sock : Outcome
no_sock = record { fd = none; closed = [] }

abbrev bad_init : ℕ → Outcome
bad_init s = record { fd = none; closed = s ∷ [] }

abbrev ready : ℕ → Outcome
ready s = record { fd = some s; closed = [] }

abbrev bind_on : Option ℕ → Bool → Bool → Outcome
bind_on none setsockopt inet_aton = no_sock
bind_on (some s) setsockopt inet_aton =
    if setsockopt then (if inet_aton then ready s else bad_init s) else bad_init s

-- `IC_bind_server_socket`, for a port that is not negative.
unfoldable pub ic_bind_server_socket : ℕ → BindAnswers → Outcome
ic_bind_server_socket port a =
    if ltb 65535 port then no_sock else bind_on a.socket a.setsockopt a.inet_aton

-- connect (s, …) < 0 && errno != EINPROGRESS; the shutdown goes before the close.
abbrev after_connect : ℕ → Connected → Outcome
after_connect s established = ready s
after_connect s in_progress = ready s
after_connect s refused = bad_init s

abbrev connect_on : Option ℕ → Bool → Bool → Connected → Outcome
connect_on none fcntl inet_aton connect = no_sock
connect_on (some s) fcntl inet_aton connect =
    if fcntl then (if inet_aton then after_connect s connect else bad_init s) else bad_init s

-- `IC_nonblock_connect`.
unfoldable pub ic_nonblock_connect : ConnectAnswers → Outcome
ic_nonblock_connect a = connect_on a.socket a.fcntl a.inet_aton a.connect
