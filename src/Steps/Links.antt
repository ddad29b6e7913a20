-- ===== src/Steps/Links.antt =====
-- No link to a configured server is lost: it is a client, or a task that will make it again.
use ichatd.Common.{
  ℕ, ◌==◌, ◌≡◌, ◌∙◌, ◌⊎◌, refl, sym, ap, subst, true, List, [], ◌∷◌, Option, none, some, Bool-cases,
  inl, inr, eq_of_some,
}
use ichatd.Config.{S2sBlock}
use ichatd.Task.{Job, heartbeat, start_link}
use ichatd.Task.Jobs.{HasTask, add-HasTask}
use ichatd.Client.{Client}
use ichatd.Server.{Server, remove, behind}
use ichatd.Link.{link_of}
use ichatd.Steps.{
  AllKept, Touched, Joined, Planned, Done, Replaced, Step, touched, accepted, planned, left, ran,
  Steps, here, next,
}
use ichatd.Steps.Invariant.{removed_lem}

abbrev pub HasLink : S2sBlock → List Client → Type 0
HasLink b [] = ⊥
HasLink b (c ∷ cs) = (link_of c ≡ some b) ⊎ HasLink b cs

-- A client keeps the link up, or a task will, or the server stops.
abbrev pub IsLinked : S2sBlock → Server → Type 0
IsLinked b s = HasLink b s.clist ⊎ HasTask (start_link b) s.task_queue ⊎ (s.shutdown ≡ true)

HasLink-Kept : (b : S2sBlock) (cs ds : List Client) → AllKept cs ds → HasLink b cs → HasLink b ds
HasLink-Kept b [] ds k h = absurd h
HasLink-Kept b (c ∷ cs) [] k h = absurd k
HasLink-Kept b (c ∷ cs) (d ∷ ds) (k, ks) (inl e) = inl (k.same_link ∙ e)
HasLink-Kept b (c ∷ cs) (d ∷ ds) (k, ks) (inr h) = inr (HasLink-Kept b cs ds ks h)

HasLink-remove :
    (b : S2sBlock) (ptr : ℕ) (cs : List Client) (c : Client) (ds : List Client)
    → remove ptr cs ≡ some (c, ds)
    → HasLink b cs
    → (link_of c ≡ some b) ⊎ HasLink b ds
unfolding remove
HasLink-remove b ptr [] c ds r h = absurd h
HasLink-remove b ptr (x ∷ cs) c ds r h = elim (Bool-cases (x.ptr == ptr)) [
  | inl e ↦
      let same : (x, cs) ≡ (c, ds) = eq_of_some (rw e at r) in
      subst (λ p. (link_of p.0 ≡ some b) ⊎ HasLink b p.1) same h
  | inr e ↦
      further (λ d es k g. HasLink-remove b ptr cs d es k g) (remove ptr cs) refl (rw e at r) h
]
  where
    in_rest :
        (d : Client) (es : List Client)
        → (link_of d ≡ some b) ⊎ HasLink b es
        → (link_of d ≡ some b) ⊎ HasLink b (x ∷ es)
    in_rest d es (inl e) = inl e
    in_rest d es (inr g) = inr (inr g)

    further :
        ((d : Client) (es : List Client)
          → remove ptr cs ≡ some (d, es)
          → HasLink b cs
          → (link_of d ≡ some b) ⊎ HasLink b es)
        → (o : Option (Client × List Client)) → remove ptr cs ≡ o
        → behind x o ≡ some (c, ds)
        → HasLink b (x ∷ cs)
        → (link_of c ≡ some b) ⊎ HasLink b ds
    further ih none e k g = cc
    further ih (some (d, es)) e k (inl g) =
        subst (λ p. (link_of p.0 ≡ some b) ⊎ HasLink b p.1) (eq_of_some k) (inr (inl g))
    further ih (some (d, es)) e k (inr g) =
        subst (λ p. (link_of p.0 ≡ some b) ⊎ HasLink b p.1) (eq_of_some k)
          (in_rest d es (ih d es e g))

Touched-IsLinked : (b : S2sBlock) (s s' : Server) → Touched s s' → IsLinked b s → IsLinked b s'
Touched-IsLinked b s s' h (inl l) = inl (HasLink-Kept b s.clist s'.clist h.clients l)
Touched-IsLinked b s s' h (inr (inl t)) =
    inr (inl (subst (HasTask (start_link b)) (sym h.same_tasks) t))
Touched-IsLinked b s s' h (inr (inr d)) = inr (inr (h.stays_down d))

pub Joined-IsLinked :
    (b : S2sBlock) (c : Client) (s s' : Server)
    → Joined c s s'
    → (link_of c ≡ some b) ⊎ IsLinked b s
    → IsLinked b s'
Joined-IsLinked b c s s' h (inl e) = inl (subst (HasLink b) (sym h.clients) (inl e))
Joined-IsLinked b c s s' h (inr (inl l)) = inl (subst (HasLink b) (sym h.clients) (inr l))
Joined-IsLinked b c s s' h (inr (inr (inl t))) =
    inr (inl (subst (HasTask (start_link b)) (sym h.same_tasks) t))
Joined-IsLinked b c s s' h (inr (inr (inr d))) = inr (inr (h.same_down ∙ d))

Planned-task :
    (job : Job) (s s' : Server) (h : Planned job s s')
    → (j : Job) → (job ≡ j) ⊎ HasTask j s.task_queue
    → HasTask j s'.task_queue
Planned-task job s s' h j t = subst (HasTask j) (sym h.tasks) (add-HasTask j s.task_queue _ t)

Planned-IsLinked :
    (b : S2sBlock) (job : Job) (s s' : Server)
    → Planned job s s'
    → (job ≡ start_link b) ⊎ IsLinked b s
    → IsLinked b s'
Planned-IsLinked b job s s' h (inl e) = inr (inl (Planned-task job s s' h (start_link b) (inl e)))
Planned-IsLinked b job s s' h (inr (inl l)) = inl (subst (HasLink b) (sym h.same_clients) l)
Planned-IsLinked b job s s' h (inr (inr (inl t))) =
    inr (inl (Planned-task job s s' h (start_link b) (inr t)))
Planned-IsLinked b job s s' h (inr (inr (inr d))) = inr (inr (h.same_down ∙ d))

-- The link of a client that is gone is planned, unless the server stops.
Replaced-IsLinked :
    (b : S2sBlock) (c : Client) (s s' : Server)
    → Replaced c s s'
    → (link_of c ≡ some b) ⊎ IsLinked b s
    → IsLinked b s'
Replaced-IsLinked b c s s' (inl (h, inl n)) (inl e) = let k = sym n ∙ e in cc
Replaced-IsLinked b c s s' (inl (h, inr down)) (inl e) = inr (inr (h.stays_down down))
Replaced-IsLinked b c s s' (inl (h, e)) (inr l) = Touched-IsLinked b s s' h l
Replaced-IsLinked b c s s' (inr (d, n, h)) (inl e) =
    Planned-IsLinked b (start_link d) s s' h (inl (ap start_link (eq_of_some (sym n ∙ e))))
Replaced-IsLinked b c s s' (inr (d, n, h)) (inr l) =
    Planned-IsLinked b (start_link d) s s' h (inr l)

abbrev asked_for : Job → Option S2sBlock
asked_for heartbeat = none
asked_for (start_link b) = some b

Done-IsLinked :
    (b : S2sBlock) (job : Job) (s s' : Server)
    → Done job s s'
    → (job ≡ start_link b) ⊎ IsLinked b s
    → IsLinked b s'
Done-IsLinked b heartbeat s s' h l = Planned-IsLinked b heartbeat s s' h l
Done-IsLinked b (start_link d) s s' (c, n, h) (inl e) =
    Joined-IsLinked b c s s' h (inl (n ∙ ap asked_for e))
Done-IsLinked b (start_link d) s s' (c, n, h) (inr l) = Joined-IsLinked b c s s' h (inr l)

pub Step-IsLinked : (b : S2sBlock) (s s' : Server) → Step s s' → IsLinked b s → IsLinked b s'
Step-IsLinked b s s' (touched h) l = Touched-IsLinked b s s' h l
Step-IsLinked b s s' (accepted c h) l = Joined-IsLinked b c s s' h (inr l)
Step-IsLinked b s s' (planned job h) l = Planned-IsLinked b job s s' h (inr l)
Step-IsLinked b s s' (left ptr c t e h) l =
    let (ds, r, same) = removed_lem ptr s c t e in
    let v : Server = record s { clist = ds } in
    Replaced-IsLinked b c t s' h
      (subst (λ u. (link_of c ≡ some b) ⊎ IsLinked b u) same (without ds r l))
  where
    without :
        (ds : List Client)
        → remove ptr s.clist ≡ some (c, ds)
        → IsLinked b s
        → (link_of c ≡ some b) ⊎ IsLinked b (record s { clist = ds })
    without ds r (inl g) = elim (HasLink-remove b ptr s.clist c ds r g) [
      | inl e ↦ inl e
      | inr g' ↦ inr (inl g')
    ]
    without ds r (inr g) = inr (inr g)
Step-IsLinked b s s' (ran task rest t e same h) l =
    Done-IsLinked b task.job t s' h
      (subst (λ u. (task.job ≡ start_link b) ⊎ IsLinked b u) (sym same) (without l))
  where
    popped_state : Server
    popped_state = record s { task_queue = rest; ticks = t.ticks }

    first :
        HasTask (start_link b) (task ∷ rest) → (task.job ≡ start_link b) ⊎ IsLinked b popped_state
    first (inl g) = inl g
    first (inr g) = inr (inr (inl g))

    without : IsLinked b s → (task.job ≡ start_link b) ⊎ IsLinked b popped_state
    without (inl g) = inr (inl g)
    without (inr (inl g)) = first (subst (HasTask (start_link b)) e g)
    without (inr (inr d)) = inr (inr (inr d))

pub Steps-IsLinked : (b : S2sBlock) (s s' : Server) → Steps s s' → IsLinked b s → IsLinked b s'
Steps-IsLinked b s s' here l = l
Steps-IsLinked b s s' (next {t = t} h k) l = Step-IsLinked b t s' k (Steps-IsLinked b s t h l)
