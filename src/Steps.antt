-- ===== src/Steps.antt =====
-- The server as a state machine: what any operation may do to the state of the server, whatever the
-- clients send and the system answers. The children show that the code of src/server.c,
-- src/poller.c and of the clients' operations makes such steps only, and what they keep.
pub mod Clients
pub mod Messages
pub mod Reading
pub mod Rounds
pub mod Accepting
pub mod Polling
pub mod Running
pub mod Invariant
pub mod Links
pub mod Started
pub mod Heartbeat
pub mod Total
use ichatd.Common.{
  ℕ, ◌+◌, ◌≡◌, refl, ◌∙◌, Bool, true, false, List, [], ◌∷◌, Option, none, some, Bytes, ◌⊎◌,
}
use ichatd.Config.{S2sBlock}
use ichatd.Task.{Job, TimedTask, heartbeat, start_link, server_add_task}
use ichatd.Queue.Stream
use ichatd.Client.{Client}
use ichatd.Server.{Server, server_remove_client}
use ichatd.Dispatch.Delivery.{queue}
use ichatd.Link.{link_of}

-- What stays of a client as long as it is on the list: its address, its descriptor and the link that
-- it keeps up. It never stops being corrupt, and its queue stays valid.
pub record Kept (c c' : Client) : Type 0 where
  pub same_ptr : c'.ptr ≡ c.ptr
  pub same_fd : c'.fd ≡ c.fd
  pub same_link : link_of c' ≡ link_of c
  pub stays_corrupt : c.corrupt ≡ true → c'.corrupt ≡ true
  pub keeps_queue : Stream.IsValid (queue c) → Stream.IsValid (queue c')

abbrev pub AllKept : List Client → List Client → Type 0
AllKept [] [] = Unit {0}
AllKept [] (c' ∷ cs') = ⊥
AllKept (c ∷ cs) [] = ⊥
AllKept (c ∷ cs) (c' ∷ cs') = Kept c c' × AllKept cs cs'

-- The same clients, with other data; tasks and configuration as before.
pub record Touched (s s' : Server) : Type 0 where
  pub clients : AllKept s.clist s'.clist
  pub same_config : s'.config ≡ s.config
  pub same_tasks : s'.task_queue ≡ s.task_queue
  pub same_next : s'.next_ptr ≡ s.next_ptr
  pub stays_down : s.shutdown ≡ true → s'.shutdown ≡ true

-- A client as it is made: a valid queue, and corrupt if it has no descriptor.
pub record Newborn (c : Client) : Type 0 where
  pub valid : Stream.IsValid (queue c)
  pub broken : c.fd ≡ none → c.corrupt ≡ true

-- A new client at the next address.
pub record Joined (c : Client) (s s' : Server) : Type 0 where
  pub newborn : Newborn c
  pub address : c.ptr ≡ s.next_ptr
  pub clients : s'.clist ≡ c ∷ s.clist
  pub same_config : s'.config ≡ s.config
  pub same_tasks : s'.task_queue ≡ s.task_queue
  pub next_address : s'.next_ptr ≡ s.next_ptr + 1
  pub same_down : s'.shutdown ≡ s.shutdown

-- A new task.
pub record Planned (job : Job) (s s' : Server) : Type 0 where
  pub time : ℕ
  pub tasks : s'.task_queue ≡ server_add_task s.task_queue (record { time = time; job = job })
  pub same_clients : s'.clist ≡ s.clist
  pub same_config : s'.config ≡ s.config
  pub same_next : s'.next_ptr ≡ s.next_ptr
  pub same_down : s'.shutdown ≡ s.shutdown

-- What a client leaves: a link leaves the task to make it again, unless the server stops.
abbrev pub Replaced : Client → Server → Server → Type 0
Replaced c s s' =
    Touched s s' × ((link_of c ≡ none) ⊎ (s.shutdown ≡ true))
    ⊎ ((b : S2sBlock) × (link_of c ≡ some b) × Planned (start_link b) s s')

-- What a task does.
abbrev pub Done : Job → Server → Server → Type 0
Done heartbeat s s' = Planned heartbeat s s'
Done (start_link b) s s' = (c : Client) × (link_of c ≡ some b) × Joined c s s'

-- One step.
pub data Step (s s' : Server) : Type 0 where
  touched : Touched s s' → Step s s'
  accepted : (c : Client) → Joined c s s' → Step s s'
  planned : (job : Job) → Planned job s s' → Step s s'
  -- a client is taken off the list, and what it leaves is arranged
  left :
      (ptr : ℕ) (c : Client) (t : Server)
      → server_remove_client ptr s ≡ (some c, t)
      → Replaced c t s'
      → Step s s'
  -- the first task is taken off the queue and run
  ran :
      (task : TimedTask) (rest : List TimedTask) (t : Server)
      → s.task_queue ≡ task ∷ rest
      → t ≡ record s { task_queue = rest; ticks = t.ticks }
      → Done task.job t s'
      → Step s s'

pub data Steps (s : Server) : Server → Type 0 where
  here : Steps s s
  next : {t u : Server} → Steps s t → Step t u → Steps s u
