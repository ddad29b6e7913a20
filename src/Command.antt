-- ===== src/Command.antt =====
-- `server_configure` of src/server.c: the command line, and then the configuration file. What
-- `getopt_long` finds is a list of options.
pub mod Valid
use ichatd.Common.{
  ℕ, Bool, true, false, List, [], ◌∷◌, Option, none, some, Bytes, codes, if◌then◌else◌, ◌≡◌, refl,
}
use ichatd.Config.{Config}
use ichatd.Config.File.{parse_config, ConfigStatus, config_ok, config_file_not_found, Complaint}

pub data CommandOption : Type 0 where
  foreground help : CommandOption
  pid_file config_file : Bytes → CommandOption
  unknown_option : CommandOption

abbrev pub def_config_file : Bytes
def_config_file = codes "./ichatd.conf"

-- `enum SERVER_STATUS`, as `server_configure` returns it, and `exit` behind --help.
pub data Configured : Type 0 where
  server_ok bad_config bad_cmdarg exited : Configured

-- What the loop over the options leaves: the configuration, and the name of its file.
pub record Settings : Type 0 where
  pub config : Config
  pub config_filename : Bytes

-- The loop: it goes on behind an option that is known.
unfoldable pub read_options : List CommandOption → Settings → Configured × Settings
read_options [] s = (server_ok, s)
read_options (foreground ∷ opts) s =
    read_options opts (record s { config = record s.config { foreground_mode = true } })
read_options (pid_file name ∷ opts) s =
    read_options opts (record s { config = record s.config { pid_file = name } })
read_options (config_file name ∷ opts) s = read_options opts (record s { config_filename = name })
read_options (help ∷ opts) s = (exited, s)
read_options (unknown_option ∷ opts) s = (bad_cmdarg, s)

abbrev status_of : ConfigStatus → Configured
status_of config_ok = server_ok
status_of config_file_not_found = bad_config

abbrev from_file : Settings → ConfigStatus × Config × List Complaint → Configured × Settings
from_file s (status, config, said) = (status_of status, record s { config = config })

-- Behind the options: further arguments are refused, and the file is read.
abbrev behind_options :
    (Bytes → Option Bytes) → (ℕ → Bytes) → Bool → Configured × Settings → Configured × Settings
behind_options files stale more (server_ok, s) =
    if more
    then (bad_cmdarg, s)
    else from_file s (parse_config stale s.config (files s.config_filename))
behind_options files stale more (bad_config, s) = (bad_config, s)
behind_options files stale more (bad_cmdarg, s) = (bad_cmdarg, s)
behind_options files stale more (exited, s) = (exited, s)

-- `server_configure`: `files` gives the file that `fopen` opens under a name, and `more` tells
-- whether arguments are left behind the options.
unfoldable pub server_configure :
    (Bytes → Option Bytes)
    → (ℕ → Bytes)
    → List CommandOption
    → Bool
    → Settings
    → Configured × Settings
server_configure files stale opts more s = behind_options files stale more (read_options opts s)
