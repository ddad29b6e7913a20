-- ===== src/Steps/Invariant.antt =====
-- What every step of the server keeps, and so every state of the main loop has.
use ichatd.Common.{
  ℕ, ◌+◌, ◌≤◌, ◌<◌, ◌==◌, ◌≡◌, ◌∙◌, refl, sym, ap, subst, true, List, [], ◌∷◌, Option, none, some,
  arith, Bool-cases, inl, inr, eq_of_some,
}
use ichatd.Config
use ichatd.Config.Option.Laws
use ichatd.Queue.Stream
use ichatd.Task.{Job, heartbeat, start_link}
use ichatd.Task.Order.{IsSorted, server_add_task-IsSorted}
use ichatd.Client.{Client}
use ichatd.Dispatch.Delivery.{queue}
use ichatd.Server.{Server, remove, behind, with_rest, server_remove_client}
use ichatd.Steps.{
  AllKept, Touched, Joined, Planned, Done, Replaced, Step, touched, accepted, planned, left, ran,
  Steps, here, next,
}

-- Addresses below `n`, later clients first, so no two have the same; valid queues; and a client
-- without a descriptor is corrupt.
abbrev pub Sound : ℕ → List Client → Type 0
Sound n [] = Unit {0}
Sound n (c ∷ cs) =
    (c.ptr < n) × Stream.IsValid (queue c) × (c.fd ≡ none → c.corrupt ≡ true) × Sound c.ptr cs

pub record IsValid (s : Server) : Type 0 where
  pub clients : Sound s.next_ptr s.clist
  pub sorted : IsSorted s.task_queue
  pub config_ok : Config.Option.Laws.IsValid s.config

Sound-weaken : (m n : ℕ) (cs : List Client) → m ≤ n → Sound m cs → Sound n cs
Sound-weaken m n [] h v = tt
Sound-weaken m n (c ∷ cs) h (a, q, b, v) = (omega arith, q, b, v)

Sound-Kept : (n : ℕ) (cs ds : List Client) → AllKept cs ds → Sound n cs → Sound n ds
Sound-Kept n [] [] k v = tt
Sound-Kept n [] (d ∷ ds) k v = absurd k
Sound-Kept n (c ∷ cs) [] k v = absurd k
Sound-Kept n (c ∷ cs) (d ∷ ds) (k, ks) (a, q, b, v) = (
  subst (λ p. p < n) (sym k.same_ptr) a,
  k.keeps_queue q,
  λ e. k.stays_corrupt (b (sym k.same_fd ∙ e)),
  subst (λ p. Sound p ds) (sym k.same_ptr) (Sound-Kept c.ptr cs ds ks v),
)

Sound-remove :
    (ptr n : ℕ) (cs : List Client) (c : Client) (ds : List Client)
    → remove ptr cs ≡ some (c, ds)
    → Sound n cs
    → Sound n ds
unfolding remove
Sound-remove ptr n [] c ds h v = cc
Sound-remove ptr n (x ∷ cs) c ds h (a, q, b, v) = elim (Bool-cases (x.ptr == ptr)) [
  | inl e ↦
      let same : cs ≡ ds = ap (λ r. r.1) (eq_of_some (rw e at h)) in
      subst (Sound n) same (Sound-weaken x.ptr n cs (omega arith) v)
  | inr e ↦ further (λ d es k. Sound-remove ptr x.ptr cs d es k v) (remove ptr cs) refl (rw e at h)
]
  where
    further :
        ((d : Client) (es : List Client) → remove ptr cs ≡ some (d, es) → Sound x.ptr es)
        → (o : Option (Client × List Client)) → remove ptr cs ≡ o
        → behind x o ≡ some (c, ds)
        → Sound n ds
    further ih none e k = cc
    further ih (some (d, es)) e k =
        let same : x ∷ es ≡ ds = ap (λ r. r.1) (eq_of_some k) in
        subst (Sound n) same (a, q, b, ih d es e)

-- What is left when a client is taken off the list.
pub removed_lem :
    (ptr : ℕ) (s : Server) (c : Client) (t : Server)
    → server_remove_client ptr s ≡ (some c, t)
    → (ds : List Client) × (remove ptr s.clist ≡ some (c, ds)) × (record s { clist = ds } ≡ t)
unfolding server_remove_client
removed_lem ptr s c t h = by_rest (remove ptr s.clist) refl h
  where
    by_rest :
        (o : Option (Client × List Client))
        → remove ptr s.clist ≡ o
        → with_rest s o ≡ (some c, t)
        → (ds : List Client) × (remove ptr s.clist ≡ some (c, ds)) × (record s { clist = ds } ≡ t)
    by_rest none e k = let n = ap (λ r. r.0) k in cc
    by_rest (some (d, ds)) e k =
        let same : d ≡ c = eq_of_some (ap (λ r. r.0) k) in
        (ds, e ∙ ap (λ x. some (x, ds)) same, ap (λ r. r.1) k)

pub Touched-IsValid : (s s' : Server) → Touched s s' → IsValid s → IsValid s'
Touched-IsValid s s' h v = record {
  clients =
      subst (λ n. Sound n s'.clist) (sym h.same_next)
        (Sound-Kept s.next_ptr s.clist s'.clist h.clients v.clients);
  sorted = subst IsSorted (sym h.same_tasks) v.sorted;
  config_ok = subst Config.Option.Laws.IsValid (sym h.same_config) v.config_ok;
}

Joined-IsValid : (c : Client) (s s' : Server) → Joined c s s' → IsValid s → IsValid s'
Joined-IsValid c s s' h v = record {
  clients =
      subst (λ n. Sound n s'.clist) (sym h.next_address)
        (subst (Sound (s.next_ptr + 1)) (sym h.clients) (
          omega (arith, h.address),
          h.newborn.valid,
          h.newborn.broken,
          subst (λ n. Sound n s.clist) (sym h.address) v.clients,
        ));
  sorted = subst IsSorted (sym h.same_tasks) v.sorted;
  config_ok = subst Config.Option.Laws.IsValid (sym h.same_config) v.config_ok;
}

Planned-IsValid : (job : Job) (s s' : Server) → Planned job s s' → IsValid s → IsValid s'
Planned-IsValid job s s' h v = record {
  clients =
      subst (λ n. Sound n s'.clist) (sym h.same_next)
        (subst (Sound s.next_ptr) (sym h.same_clients) v.clients);
  sorted = subst IsSorted (sym h.tasks) (server_add_task-IsSorted s.task_queue _ v.sorted);
  config_ok = subst Config.Option.Laws.IsValid (sym h.same_config) v.config_ok;
}

Done-IsValid : (job : Job) (s s' : Server) → Done job s s' → IsValid s → IsValid s'
Done-IsValid heartbeat s s' h v = Planned-IsValid heartbeat s s' h v
Done-IsValid (start_link b) s s' (c, l, h) v = Joined-IsValid c s s' h v

Replaced-IsValid : (c : Client) (s s' : Server) → Replaced c s s' → IsValid s → IsValid s'
Replaced-IsValid c s s' (inl (h, e)) v = Touched-IsValid s s' h v
Replaced-IsValid c s s' (inr (b, l, h)) v = Planned-IsValid (start_link b) s s' h v

pub Step-IsValid : (s s' : Server) → Step s s' → IsValid s → IsValid s'
Step-IsValid s s' (touched h) v = Touched-IsValid s s' h v
Step-IsValid s s' (accepted c h) v = Joined-IsValid c s s' h v
Step-IsValid s s' (planned job h) v = Planned-IsValid job s s' h v
Step-IsValid s s' (left ptr c t e h) v =
    let (ds, r, same) = removed_lem ptr s c t e in
    Replaced-IsValid c t s' h (
      subst IsValid same (record {
        clients = Sound-remove ptr s.next_ptr s.clist c ds r v.clients;
        sorted = v.sorted;
        config_ok = v.config_ok;
      }))
Step-IsValid s s' (ran task rest t e same h) v = Done-IsValid task.job t s' h (
    subst IsValid (sym same) (record {
      clients = v.clients;
      sorted = (subst IsSorted e v.sorted).1;
      config_ok = v.config_ok;
    }))

pub Steps-IsValid : (s s' : Server) → Steps s s' → IsValid s → IsValid s'
Steps-IsValid s s' here v = v
Steps-IsValid s s' (next {t = t} h k) v = Step-IsValid t s' k (Steps-IsValid s t h v)
