-- ===== src/Memory/Broadcast.antt =====
-- `ichat_broadcast` of src/ichat/proto/ichat_dispatch.c over shared buffers does what Dispatch says of the
-- queues of contents.
use ichatd.Common.{
  as_list, ℕ, ◌<◌, ◌≡◌, refl, sym, ◌∙◌, List, [], ◌∷◌, ◌++◌, Option, none, some, arith, Bytes,
  if◌then◌else◌,
}
use ichatd.Queue.{Queue}
use ichatd.Client.{
  Client, Impl, ctl_server, ichat_server, s2s_server, ctl_client, ichat_client, s2s_client,
}
use ichatd.Dispatch.{is_peer}
use ichatd.Memory.{Memory, count, Counted, Kept}
use ichatd.Memory.Counts.{count-append, Counted-reorder}
use ichatd.Memory.Queue.{Pointers}
use ichatd.Memory.Refine.{Represents, Follows, Kept-texts, Kept-sub}
use ichatd.Memory.Impl.{Buffers, owned, owned_all}
use ichatd.Memory.Deliver.{Way, chat, skip, link, requeued}
use ichatd.Memory.Sent.{moved}

abbrev pub queue_at : Impl → Option Queue
queue_at ctl_server = none
queue_at ichat_server = none
queue_at s2s_server = none
queue_at (ctl_client i) = some i.bo
queue_at (ichat_client i) = some i.bo
queue_at (s2s_client i) = some i.bo

-- The queue of a client; a listening socket has none.
abbrev pub queue_of : Client → Option Queue
queue_of c = queue_at c.impl

-- The clients of the server and their buffers: each buffer queue stands for the client's queue.
pub data StandFor (m : Memory) : List Client → List Buffers → Type 0 where
  nobody : StandFor m [] []
  socket :
      {cs : List Client} {is : List Buffers} (c : Client)
      → queue_of c ≡ none
      → StandFor m cs is
      → StandFor m (c ∷ cs) is
  served :
      {cs : List Client} {is : List Buffers} (c : Client) (i : Buffers) (v : Queue)
      → queue_of c ≡ some v
      → Represents m i.bo v
      → StandFor m cs is
      → StandFor m (c ∷ cs) (i ∷ is)

pub Kept-Represents :
    (m m' : Memory) (q : Pointers) (v : Queue) (all : List ℕ)
    → Kept m m' all
    → ((p : ℕ) → 0 < count p q.entries → 0 < count p all)
    → Represents m q v
    → Represents m' q v
unfolding Represents
Kept-Represents m m' q v all k sub (t, o) = (Kept-texts m m' q.entries all k sub ∙ t, o)

pub Kept-StandFor :
    (m m' : Memory) (cs : List Client) (is : List Buffers) (all : List ℕ)
    → Kept m m' all
    → ((p : ℕ) → 0 < count p (owned_all is) → 0 < count p all)
    → StandFor m cs is
    → StandFor m' cs is
unfolding owned_all
Kept-StandFor m m' cs is all k sub nobody = nobody
Kept-StandFor m m' cs is all k sub (socket {cs = ds} c e s) =
    socket c e (Kept-StandFor m m' ds is all k sub s)
Kept-StandFor m m' cs is all k sub (served {cs = ds} {is = js} c i v e r s) =
    served c i v e
      (Kept-Represents m m' i.bo v all k
        (λ p l. sub p (
          omega (
            arith,
            count-append p (owned i) (owned_all js),
            count-append p i.bo.entries (as_list i.sig),
          )))
        r)
      (Kept-StandFor m m' ds js all k
        (λ p l. sub p (omega (arith, count-append p (owned i) (owned_all js)))) s)

-- What a client is left with: its references and all others counted, its queue standing for `v`.
unfoldable pub Told : Option (Buffers × Memory) → Memory → Queue → List ℕ → Type 0
Told r m v held =
    (i : Buffers) × (m' : Memory) × (r ≡ some (i, m'))
    × Counted m' (owned i ++ held)
    × Kept m m' held
    × Represents m' i.bo v

pub requeued_lem :
    (i : Buffers) (f : Option (Pointers × Memory)) (m : Memory) (v : Queue) (held : List ℕ)
    → Follows f m v (i.bi ∷ (as_list i.sig ++ held))
    → Told (requeued i f) m v held
unfolding Follows Told
requeued_lem i f m v held (q, m', e, r) =
    let rest = i.bi ∷ (as_list i.sig ++ held) in
    (
      record i { bo = q },
      m',
      rw e refl,
      Counted-reorder m' (q.entries ++ rest) (owned (record i { bo = q }) ++ held)
          (λ p. sym (moved p q.entries i.bi (as_list i.sig) held)) r.counted,
      Kept-sub m m' rest held r.kept (λ p l. omega (arith, count-append p (as_list i.sig) held)),
      r.represents,
    )

abbrev pub add_way : Option Queue → Way → List Way → List Way
add_way none w ws = ws
add_way (some v) w ws = w ∷ ws

module _ (my_name : Bytes) (stamp : ℕ → Bytes) (origin : ℕ) where
  -- How `ichat_broadcast` sends to a client.
  abbrev pub broadcast_way : Client → Way
  broadcast_way c = elim c.impl [
    | ctl_server ↦ skip
    | ichat_server ↦ skip
    | s2s_server ↦ skip
    | ctl_client i ↦ skip
    | ichat_client i ↦ chat
    | s2s_client i ↦ if is_peer my_name stamp origin c i then link my_name (stamp c.ptr) else skip
  ]

  -- The ways for the clients that have buffers.
  unfoldable pub broadcast_ways : List Client → List Way
  broadcast_ways [] = []
  broadcast_ways (c ∷ cs) = add_way (queue_of c) (broadcast_way c) (broadcast_ways cs)
