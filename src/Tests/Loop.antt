-- ===== src/Tests/Loop.antt =====
-- The main loop, its rounds and its tasks at concrete inputs.
use mathlib.Core.List.{Memᴰ}
use ichatd.Common.{
  Option, Bytes, ℕ, ◌+◌, ◌≤◌, ◌≡◌, refl, true, false, List, [], ◌∷◌, ◌++◌, none, some, codes, arith,
}
use ichatd.Config.{S2sBlock, config_alloc, debug_level, fatal_level}
use ichatd.Task.{heartbeat, start_link}
use ichatd.Queue.{count}
use ichatd.Sockets.{
  BindAnswers, ConnectAnswers, refused, ic_bind_server_socket, ic_nonblock_connect,
}
use ichatd.Sockets.Leaks.{Accounted, sockets-Accounted}
use ichatd.Client.{Client, ichat_client, client_create, out_auth, ichat_client_create_impl}
use ichatd.Input.{got}
use ichatd.Server.{Server}
use ichatd.World.{World}
use ichatd.Link.{ichat_s2s_client_create, client_destroy}
use ichatd.Schedule.{server_schedule}
use ichatd.Schedule.Enough.{Slow, IsQuiet, server_schedule_enough}
use ichatd.Poller.{Answers, ready, evict, server_poll}
use ichatd.Poller.Evict.{evict_lem, server_poll_no_fd}
use ichatd.Daemon.{child}
use ichatd.Run.{server_close_clients, server_shutdown, start_up, server_start_dispatcher, main}
use ichatd.Run.Shutdown.{server_shutdown_lem}
use ichatd.Run.Main.{IsOrderly, main-IsOrderly}
use ichatd.Steps.Running.{InState}
use ichatd.Steps.Links.{IsLinked}
use ichatd.Steps.Started.{server_start_dispatcher-IsLinked}
use ichatd.Steps.Heartbeat.{IsBeating, server_start_dispatcher-IsBeating}
use ichatd.Config.{note_level}
use ichatd.Log.Writer.{Log, initial_log}
use ichatd.Daemon.{detach_log, server_init_log_subsystem, server_close_log_subsystem}
use ichatd.Daemon.Quiet.{started, daemon_log}
use ichatd.Log.Writer.Filter.{Message, opened, print_all, lines_for}

-- A world in which the clock goes on by a millisecond at each reading, and no server answers.
abbrev no_answer : ConnectAnswers
no_answer = record { socket = some 7; fcntl = true; inet_aton = true; connect = refused }

abbrev pub alone : World
alone = record {
  clock = λ n. 5000 + n;
  stamp = λ n ptr. codes "20000101T00:00:00";
  sockets = λ n b. no_answer;
}

abbrev friend : S2sBlock
friend = record { host = codes "10.0.0.1"; port = 6767; pass = codes "secret" }

abbrev bound_at : ℕ → BindAnswers
bound_at fd = record { socket = some fd; setsockopt = true; inet_aton = true }

-- Every socket that is asked about is ready; the users' socket has a new connection.
abbrev busy : Answers
busy = record {
  select = λ i timeout. ready i;
  read = λ ptr. got (codes "help\n");
  accept = λ ptr. some 20;
  write = λ ptr. count 1;
}

abbrev linked : Server
linked = record {
  config = record config_alloc { s2s_queue = friend ∷ [] };
  clist = [];
  task_queue = [];
  shutdown = false;
  next_ptr = 1;
  ticks = 0;
  closed = [];
}

main-IsOrderly_example : IsOrderly (
    main alone 10
      (λ name. some (codes "server 10.0.0.1 6767 secret\n"))
      (λ n. [])
      []
      false
      77
      child
      (bound_at 3)
      (bound_at 4)
      (bound_at 5)
      (busy ∷ busy ∷ []))
main-IsOrderly_example =
    main-IsOrderly alone 10 (λ name. some (codes "server 10.0.0.1 6767 secret\n")) (λ n. []) []
      false 77 child (bound_at 3) (bound_at 4) (bound_at 5) (busy ∷ busy ∷ [])

server_start_dispatcher-IsLinked_example : InState (IsLinked friend) (
    server_start_dispatcher alone 10
      (busy ∷ busy ∷ [])
      (start_up alone (bound_at 3) (bound_at 4) (bound_at 5) linked))
server_start_dispatcher-IsLinked_example =
    server_start_dispatcher-IsLinked alone 10 (bound_at 3) (bound_at 4) (bound_at 5)
      (busy ∷ busy ∷ []) linked friend (Memᴰ.head refl) (ground arith)

server_start_dispatcher-IsBeating_example : InState IsBeating (
    server_start_dispatcher alone 10
      (busy ∷ busy ∷ [])
      (start_up alone (bound_at 3) (bound_at 4) (bound_at 5) linked))
server_start_dispatcher-IsBeating_example =
    server_start_dispatcher-IsBeating alone 10 (bound_at 3) (bound_at 4) (bound_at 5)
      (busy ∷ busy ∷ []) linked

-- A chat client, and two links that could not be connected.
abbrev chatting : Client
chatting = record {
  ptr = 1;
  fd = some 9;
  corrupt = false;
  impl = ichat_client ichat_client_create_impl;
}

abbrev unconnected : ℕ → Client
unconnected ptr = ichat_s2s_client_create ptr none out_auth [] (codes "20000101T00:00:00") friend

abbrev failing : Server
failing = record linked { clist = unconnected 3 ∷ unconnected 2 ∷ chatting ∷ []; next_ptr = 4 }

evict_lem_example :
    (evict alone failing
      ≡ client_destroy alone
          (unconnected 3)
          (record failing { clist = unconnected 2 ∷ chatting ∷ [] }))
    × ((evict alone failing).clist ≡ unconnected 2 ∷ chatting ∷ [])
unfolding ichat_s2s_client_create client_create
evict_lem_example =
    evict_lem alone failing [] (unconnected 3) (unconnected 2 ∷ chatting ∷ []) refl tt tt refl

server_poll_no_fd_example : server_poll alone busy failing ≡ none
unfolding ichat_s2s_client_create client_create
server_poll_no_fd_example =
    server_poll_no_fd alone busy failing [] (unconnected 3) (unconnected 2 ∷ chatting ∷ [])
      (unconnected 2) refl tt tt refl (Memᴰ.head refl) refl

abbrev stopping : Server
stopping = record failing {
  shutdown = true;
  task_queue = record { time = 7000; job = heartbeat } ∷ [];
}

server_shutdown_lem_example :
    (server_close_clients alone stopping ≡ record stopping { clist = []; closed = 9 ∷ [] })
    × (server_shutdown alone stopping
        ≡ record stopping { clist = []; task_queue = []; closed = 9 ∷ [] })
unfolding ichat_s2s_client_create client_create
server_shutdown_lem_example = server_shutdown_lem alone stopping refl

abbrev planned_twice : Server
planned_twice = record linked {
  task_queue =
      record { time = 4000; job = heartbeat }
      ∷ record { time = 5002; job = start_link friend }
      ∷ [];
}

alone-Slow : Slow alone 5000 0 4
alone-Slow = record {
  not_before = λ n a b. omega arith;
  not_after = λ n a b. omega arith;
  small = omega arith;
}

server_schedule_enough_example :
    (server_schedule alone (3 + 5) planned_twice ≡ server_schedule alone 3 planned_twice)
    × ((reading : ℕ) × (0 ≤ reading)
        × (reading ≤ 4)
        × IsQuiet (5000 + reading) (server_schedule alone 3 planned_twice).task_queue)
server_schedule_enough_example =
    server_schedule_enough alone 5000 3 5 planned_twice alone-Slow (omega arith)

sockets-Accounted_example :
    Accounted (some 3) (ic_bind_server_socket 6666 (bound_at 3))
    × Accounted (some 7) (ic_nonblock_connect no_answer)
sockets-Accounted_example = sockets-Accounted 6666 (bound_at 3) no_answer (omega arith)

abbrev two_messages : List Message
two_messages =
    record { ts = codes "Mon"; tid = codes "1"; level = debug_level; msg = codes "round" }
    ∷ record { ts = codes "Tue"; tid = codes "1"; level = fatal_level; msg = codes "out of memory" }
    ∷ []

abbrev old_log : Bytes → Option Bytes
old_log name = some (codes "old\n")

daemon_log_example :
    (print_all two_messages (
        detach_log
          (codes "Sun")
          (codes "1")
          config_alloc
          (server_init_log_subsystem (codes "Sun") (codes "1") old_log config_alloc initial_log))
      ≡ opened note_level false
          (codes "old\n" ++ lines_for note_level (started (codes "Sun") (codes "1") ∷ two_messages))
          (lines_for note_level (started (codes "Sun") (codes "1") ∷ [])))
    × ((l : Log)
        → print_all two_messages (server_close_log_subsystem (codes "Wed") (codes "1") l)
          ≡ server_close_log_subsystem (codes "Wed") (codes "1") l)
unfolding config_alloc
daemon_log_example =
    daemon_log (codes "Sun") (codes "1") (codes "Wed") old_log config_alloc (codes "old\n")
      two_messages two_messages refl refl
