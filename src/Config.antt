-- ===== src/Config.antt =====
-- src/config.h and src/config.c: the configuration and its default values. A C string is the bytes
-- before its zero byte.
pub mod Option
pub mod File
use ichatd.Common.{ℕ, zero, suc, ◌*◌, Bool, true, false, List, [], ◌∷◌, Bytes, codes}

-- `enum LOG_LEVEL` of src/log.h.
pub data LogLevel : Type 0 where
  none_level fatal_level warn_level note_level debug_level : LogLevel

-- `struct s2s_block`, without the link to the next block and to the server.
pub record S2sBlock : Type 0 where
  pub host : Bytes
  pub port : ℕ
  pub pass : Bytes

-- `struct config`.
pub record Config : Type 0 where
  pub foreground_mode : Bool
  pub user_port : ℕ
  pub ctl_port : ℕ
  pub log_file : Bytes
  pub log_level : LogLevel
  pub pid_file : Bytes
  pub null_clients : Bool
  pub max_msg_size : ℕ
  pub s2s_queue : List S2sBlock
  pub s2s_me : S2sBlock

-- The constants of src/config.h.
abbrev pub max_read_block : ℕ
max_read_block = 512

abbrev pub s2s_reconnect_delta : ℕ
s2s_reconnect_delta = 30

abbrev pub s2s_heartbeat_delta : ℕ
s2s_heartbeat_delta = 5 * 60

-- `config_alloc`, where no allocation fails.
unfoldable pub config_alloc : Config
config_alloc = record {
  foreground_mode = false;
  user_port = 6666;
  ctl_port = 7777;
  log_file = codes "./ichatd.log";
  log_level = note_level;
  pid_file = codes "./ichatd.pid";
  null_clients = true;
  max_msg_size = 8192;
  s2s_queue = [];
  s2s_me = record { host = codes "slyfox's ichatd"; port = 6767; pass = codes "hello world" };
}
