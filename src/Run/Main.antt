-- ===== src/Run/Main.antt =====
-- The whole process, from the command line to its end: `main` of src/main.c.
use ichatd.Common.{
  ℕ, ◌≡◌, ◌≢◌, refl, arith, sym, subst, Bool, true, false, if◌then◌else◌, ◌==◌, List, [], Option,
  Bytes,
}
use ichatd.Config
use ichatd.Config.{config_alloc}
use ichatd.Config.Option.Laws
use ichatd.Sockets.{BindAnswers}
use ichatd.Server.{Server}
use ichatd.World.{World}
use ichatd.Command.{
  CommandOption, Configured, server_ok, bad_config, bad_cmdarg, exited, Settings, server_configure,
}
use ichatd.Command.Valid.{server_configure-IsValid, config_alloc-IsValid}
use ichatd.Poller.{Answers}
use ichatd.Config.{Config}
use ichatd.Daemon.{Forked, fork_failed, father, child, untouched, after_fork, detach}
use ichatd.Run.{
  father_left, behind_detach, MainLoop, stop_requested, running, aborted, Process, not_configured,
  ran, server_alloc, start_up, server_run, server_start_dispatcher, ended, run_configured,
  default_settings, main,
}
use ichatd.Run.Shutdown.{server_shutdown_lem}
use ichatd.Steps.Running.{Reached, server_start_dispatcher-Reached, start_up-Steps}
use ichatd.Steps.Invariant.{IsValid, Steps-IsValid}

-- How the process may stand: it was not configured; or it was to run in the background and the father
-- is gone; or the main loop goes on in a valid state; or it
-- was asked to stop, and has no client and no task left; or an assertion failed.
abbrev pub IsOrderly : Process → Type 0
IsOrderly (not_configured c) = c ≢ server_ok
IsOrderly (father_left c) = c.foreground_mode ≡ false
IsOrderly (ran (running s)) = IsValid s
IsOrderly (ran (stop_requested s)) = (s.clist ≡ []) × (s.task_queue ≡ []) × (s.shutdown ≡ true)
IsOrderly (ran aborted) = Unit {0}

ended-IsOrderly :
    (w : World) (s : Server) (m : MainLoop) → IsValid s → Reached s m → IsOrderly (ran (ended w m))
ended-IsOrderly w s (running t) v r = Steps-IsValid s t r v
ended-IsOrderly w s (stop_requested t) v (r, down) =
    subst (λ u. (u.clist ≡ []) × (u.task_queue ≡ []) × (u.shutdown ≡ true))
      (sym (server_shutdown_lem w t down).1) (refl, refl, down)
ended-IsOrderly w s aborted v r = tt

by_answers :
    (c : Config) (foreground orphan : Bool) (forked : Forked) (p : Process)
    → c.foreground_mode ≡ foreground
    → IsOrderly p
    → let d = if foreground then untouched else if orphan then untouched else after_fork forked in
      IsOrderly (behind_detach d.end c p)
by_answers c true orphan forked p e v = v
by_answers c false true forked p e v = v
by_answers c false false fork_failed p e v = v
by_answers c false false father p e v = e
by_answers c false false child p e v = v

behind_detach-IsOrderly :
    (c : Config) (ppid : ℕ) (forked : Forked) (p : Process)
    → IsOrderly p
    → IsOrderly (behind_detach (detach c ppid forked).end c p)
unfolding detach
behind_detach-IsOrderly c ppid forked p v =
    by_answers c c.foreground_mode (ppid == 1) forked p refl v

server_run-IsOrderly :
    (w : World) (fuel ppid : ℕ) (forked : Forked) (user s2s ctl : BindAnswers)
    (rounds : List Answers) (s : Server)
    → IsValid s
    → IsOrderly (server_run w fuel ppid forked user s2s ctl rounds s)
unfolding server_run
server_run-IsOrderly w fuel ppid forked user s2s ctl rounds s v =
    let t = start_up w user s2s ctl s in
    behind_detach-IsOrderly s.config ppid forked _ (
      ended-IsOrderly w t (server_start_dispatcher w fuel rounds t)
        (Steps-IsValid s t (start_up-Steps w user s2s ctl s) v)
        (server_start_dispatcher-Reached w fuel rounds t))

run_configured-IsOrderly :
    (w : World) (fuel ppid : ℕ) (forked : Forked) (user s2s ctl : BindAnswers)
    (rounds : List Answers) (r : Configured × Settings)
    → Config.Option.Laws.IsValid r.1.config
    → IsOrderly (run_configured w fuel ppid forked user s2s ctl rounds r)
unfolding server_alloc
run_configured-IsOrderly w fuel ppid forked user s2s ctl rounds (server_ok, s) v =
    server_run-IsOrderly w fuel ppid forked user s2s ctl rounds
      (record server_alloc { config = s.config })
      (record { clients = tt; sorted = tt; config_ok = v })
run_configured-IsOrderly w fuel ppid forked user s2s ctl rounds (bad_config, s) v =
    λ e. ground arith
run_configured-IsOrderly w fuel ppid forked user s2s ctl rounds (bad_cmdarg, s) v =
    λ e. ground arith
run_configured-IsOrderly w fuel ppid forked user s2s ctl rounds (exited, s) v = λ e. ground arith

-- Whatever stands on the command line and in the configuration file, whatever the clients send and
-- the system answers: the process is not configured; or, to run in the background, it has forked
-- and gone away; or its main loop goes on in a valid state; or it was asked to stop, and ends with
-- no client and no task left; or an assertion failed.
pub main-IsOrderly :
    (w : World) (fuel : ℕ) (files : Bytes → Option Bytes) (stale : ℕ → Bytes)
    (opts : List CommandOption) (more : Bool) (ppid : ℕ) (forked : Forked)
    (user s2s ctl : BindAnswers) (rounds : List Answers)
    → IsOrderly (main w fuel files stale opts more ppid forked user s2s ctl rounds)
unfolding main
main-IsOrderly w fuel files stale opts more ppid forked user s2s ctl rounds =
    run_configured-IsOrderly w fuel ppid forked user s2s ctl rounds
      (server_configure files stale opts more default_settings)
      (server_configure-IsValid files stale opts more default_settings config_alloc-IsValid)
