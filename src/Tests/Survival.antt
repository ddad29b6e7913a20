-- ===== src/Tests/Survival.antt =====
-- Theorems on rounds that meet no assertion at concrete inputs.

use ichatd.Common.{
  List, ℕ, ◌+◌, ◌==◌, if◌then◌else◌, true, ◌≡◌, refl, false, [], ◌∷◌, ◌++◌, none, some, arith,
  codes,
}
use ichatd.Config.{config_alloc}
use ichatd.Queue.{error, count}
use ichatd.Command.Valid.{config_alloc-IsValid}
use ichatd.Frame.{frame, wait, next_frame}
use ichatd.Frame.RoundTrip.{next_frame-frame}
use ichatd.Client.{Client, ichat_client, ichat_client_create_impl}
use ichatd.Server.{Server, find_client, corrupted}
use ichatd.Input.{got, eof}
use ichatd.Input.Chat.{ichat_client_read_op}
use ichatd.Output.{set_queue}
use ichatd.Poller.{Answers, ready, Interest}
use ichatd.Link.{def_ctl_banner, ctl_client_create}
use ichatd.Steps.Invariant.{IsValid}
use ichatd.Steps.Total.{Tame, waits, sends, ichat_client_read_op-IsValid}
use ichatd.Tests.Flow.{hello_msg, stamp}

abbrev chatting : Client
chatting = record {
  ptr = 1;
  fd = some 9;
  corrupt = false;
  impl = ichat_client ichat_client_create_impl;
}

abbrev talking : Server
talking = record {
  config = config_alloc;
  clist = chatting ∷ [];
  task_queue = [];
  shutdown = false;
  next_ptr = 2;
  ticks = 0;
  closed = [];
}

talking-IsValid : IsValid talking
talking-IsValid = record {
  clients = (omega arith, refl, λ e. absurd (ground (arith, e)), tt);
  sorted = tt;
  config_ok = config_alloc-IsValid;
}

no_frame : next_frame (codes "23") ≡ wait
unfolding next_frame
no_frame = refl

hello-Tame : Tame (frame hello_msg ++ codes "23")
hello-Tame =
    sends hello_msg (codes "23")
      (next_frame-frame hello_msg (codes "23") (omega arith) (omega arith)) refl (waits no_frame)

ichat_client_read_op-IsValid_example :
    (s' : Server) × (ichat_client_read_op stamp talking 1 (got (frame hello_msg ++ codes "23"))
      ≡ some s')
    × IsValid s'
unfolding find_client
ichat_client_read_op-IsValid_example =
    ichat_client_read_op-IsValid stamp talking 1 (frame hello_msg ++ codes "23") hello-Tame
      talking-IsValid

-- A client that was corrupt before the round and comes second, and one that has something to send.
abbrev broken_before : ℕ → Client
broken_before ptr = record chatting { ptr = ptr; fd = some (ptr + 20); corrupt = true }

abbrev greeted : Client
greeted = ctl_client_create 4 (some 30)

abbrev welcomed : Client
welcomed = ctl_client_create 5 (some 31)

abbrev one_sent : Client
one_sent = set_queue (record { entries = def_ctl_banner ∷ []; offset = 1 }) welcomed

abbrev losing : Server
losing = record talking {
  clist = broken_before 3 ∷ broken_before 2 ∷ chatting ∷ greeted ∷ welcomed ∷ [];
  next_ptr = 6;
}

-- The sets are left as they were, the chat client has gone, and the control client cannot be
-- written to; another control client takes a byte, and so would a corrupt one.
abbrev all_set : Interest
all_set = record { rd = 22 ∷ 9 ∷ []; wr = 22 ∷ 9 ∷ 30 ∷ 31 ∷ []; ex = 22 ∷ 9 ∷ 30 ∷ [] }

abbrev gone : Answers
gone = record {
  select = λ asked timeout. ready all_set;
  read = λ ptr. eof;
  accept = λ ptr. none;
  write = λ ptr. if ptr == 4 then error else count 1;
}

abbrev asked_about : Interest
asked_about = record { rd = 9 ∷ 30 ∷ 31 ∷ []; wr = 30 ∷ 31 ∷ []; ex = 22 ∷ 9 ∷ 30 ∷ 31 ∷ [] }

abbrev unfortunate : List Client
unfortunate = broken_before 2 ∷ corrupted chatting ∷ corrupted greeted ∷ one_sent ∷ []
