-- ===== src/Command/Valid.antt =====
-- Whatever the command line and the configuration file hold, the ports stay 16-bit numbers
-- (`server_configure` of src/server.c).
use ichatd.Common.{ℕ, Bool, true, false, List, [], ◌∷◌, Option, Bytes, arith}
use ichatd.Config.{config_alloc}
use ichatd.Config.File.Laws.{parse_config-IsValid}
use ichatd.Config.Option.Laws.{IsValid}
use ichatd.Command.{
  CommandOption, foreground, help, pid_file, config_file, unknown_option, Configured, server_ok,
  bad_config, bad_cmdarg, exited, Settings, read_options, behind_options, server_configure,
}

read_options-IsValid :
    (opts : List CommandOption) (s : Settings)
    → IsValid s.config
    → IsValid (read_options opts s).1.config
unfolding read_options
read_options-IsValid [] s v = v
read_options-IsValid (foreground ∷ opts) s v =
    read_options-IsValid opts (record s { config = record s.config { foreground_mode = true } })
      (record { user_ok = v.user_ok; ctl_ok = v.ctl_ok; me_ok = v.me_ok; queue_ok = v.queue_ok })
read_options-IsValid (pid_file name ∷ opts) s v =
    read_options-IsValid opts (record s { config = record s.config { pid_file = name } })
      (record { user_ok = v.user_ok; ctl_ok = v.ctl_ok; me_ok = v.me_ok; queue_ok = v.queue_ok })
read_options-IsValid (config_file name ∷ opts) s v =
    read_options-IsValid opts (record s { config_filename = name }) v
read_options-IsValid (help ∷ opts) s v = v
read_options-IsValid (unknown_option ∷ opts) s v = v

behind_options-IsValid :
    (files : Bytes → Option Bytes) (stale : ℕ → Bytes) (more : Bool) (r : Configured × Settings)
    → IsValid r.1.config
    → IsValid (behind_options files stale more r).1.config
behind_options-IsValid files stale true (server_ok, s) v = v
behind_options-IsValid files stale false (server_ok, s) v =
    parse_config-IsValid stale s.config (files s.config_filename) v
behind_options-IsValid files stale more (bad_config, s) v = v
behind_options-IsValid files stale more (bad_cmdarg, s) v = v
behind_options-IsValid files stale more (exited, s) v = v

pub server_configure-IsValid :
    (files : Bytes → Option Bytes) (stale : ℕ → Bytes) (opts : List CommandOption) (more : Bool)
    (s : Settings)
    → IsValid s.config
    → IsValid (server_configure files stale opts more s).1.config
unfolding server_configure
server_configure-IsValid files stale opts more s v =
    behind_options-IsValid files stale more (read_options opts s) (read_options-IsValid opts s v)

pub config_alloc-IsValid : IsValid config_alloc
unfolding config_alloc
config_alloc-IsValid = record {
  user_ok = omega arith;
  ctl_ok = omega arith;
  me_ok = omega arith;
  queue_ok = tt;
}
