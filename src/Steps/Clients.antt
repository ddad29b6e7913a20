-- ===== src/Steps/Clients.antt =====
-- Which changes of a client, and of the list, keep the clients.
use ichatd.Common.{
  ℕ, ◌≡◌, refl, ◌∙◌, sym, subst, List, [], ◌∷◌, some, arith, Bytes, ◌==◌, Bool-cases, inl, inr,
}
use ichatd.Queue.Stream
use ichatd.Client.{Client, Impl, ctl_client, ichat_client, s2s_client}
use ichatd.Server.{Server, find_client, update_client, at_client, corrupted}
use ichatd.Dispatch.{same_sig}
use ichatd.Input.{set_input, registered}
use ichatd.Input.Chat.{queue-registered, queue-set_input}
use ichatd.Input.S2s.{authenticated}
use ichatd.Link.{link_of}
use ichatd.Steps.{Kept, AllKept, Touched}

pub Kept-refl : (c : Client) → Kept c c
Kept-refl c = record {
  same_ptr = refl;
  same_fd = refl;
  same_link = refl;
  stays_corrupt = λ h. h;
  keeps_queue = λ v. v;
}

pub Kept-trans : (a b c : Client) → Kept a b → Kept b c → Kept a c
Kept-trans a b c h k = record {
  same_ptr = k.same_ptr ∙ h.same_ptr;
  same_fd = k.same_fd ∙ h.same_fd;
  same_link = k.same_link ∙ h.same_link;
  stays_corrupt = λ e. k.stays_corrupt (h.stays_corrupt e);
  keeps_queue = λ v. k.keeps_queue (h.keeps_queue v);
}

pub AllKept-refl : (cs : List Client) → AllKept cs cs
AllKept-refl [] = tt
AllKept-refl (c ∷ cs) = (Kept-refl c, AllKept-refl cs)

pub AllKept-trans : (xs bs cs : List Client) → AllKept xs bs → AllKept bs cs → AllKept xs cs
AllKept-trans [] [] cs h k = k
AllKept-trans [] (b ∷ bs) cs h k = absurd h
AllKept-trans (a ∷ xs) [] cs h k = absurd h
AllKept-trans (a ∷ xs) (b ∷ bs) [] h k = absurd k
AllKept-trans (a ∷ xs) (b ∷ bs) (c ∷ cs) h k =
    (Kept-trans a b c h.0 k.0, AllKept-trans xs bs cs h.1 k.1)

pub AllKept-update :
    (f : Client → Client) (ptr : ℕ) (cs : List Client)
    → ((c : Client) → Kept c (f c))
    → AllKept cs (update_client ptr f cs)
unfolding update_client
AllKept-update f ptr [] k = tt
AllKept-update f ptr (c ∷ cs) k = elim (Bool-cases (c.ptr == ptr)) [
  | inl e ↦ rw e (k c, AllKept-refl cs)
  | inr e ↦ rw e (Kept-refl c, AllKept-update f ptr cs k)
]

-- A write of a whole client at its address.
pub AllKept-put :
    (ptr : ℕ) (cs : List Client) (c c' : Client)
    → find_client ptr cs ≡ some c
    → Kept c c'
    → AllKept cs (update_client ptr (λ d. c') cs)
unfolding find_client update_client
AllKept-put ptr [] c c' h k = cc
AllKept-put ptr (d ∷ cs) c c' h k = elim (Bool-cases (d.ptr == ptr)) [
  | inl e ↦
      let same : d ≡ c = ground arith in rw e (subst (λ x. Kept x c') (sym same) k, AllKept-refl cs)
  | inr e ↦
      let further : find_client ptr cs ≡ some c = ground arith in
      rw e (Kept-refl d, AllKept-put ptr cs c c' further k)
]

pub Touched-refl : (s : Server) → Touched s s
Touched-refl s = record {
  clients = AllKept-refl s.clist;
  same_config = refl;
  same_tasks = refl;
  same_next = refl;
  stays_down = λ h. h;
}

pub Touched-trans : (s t u : Server) → Touched s t → Touched t u → Touched s u
Touched-trans s t u h k = record {
  clients = AllKept-trans s.clist t.clist u.clist h.clients k.clients;
  same_config = k.same_config ∙ h.same_config;
  same_tasks = k.same_tasks ∙ h.same_tasks;
  same_next = k.same_next ∙ h.same_next;
  stays_down = λ e. k.stays_down (h.stays_down e);
}

-- A list of kept clients in place of the list.
pub Touched-clients :
    (s : Server) (cs : List Client) (n : ℕ)
    → AllKept s.clist cs
    → Touched s (record s { clist = cs; ticks = n })
Touched-clients s cs n k = record {
  clients = k;
  same_config = refl;
  same_tasks = refl;
  same_next = refl;
  stays_down = λ h. h;
}

pub Touched-update :
    (f : Client → Client) (ptr : ℕ) (s : Server)
    → ((c : Client) → Kept c (f c))
    → Touched s (at_client ptr f s)
Touched-update f ptr s k =
    Touched-clients s (update_client ptr f s.clist) s.ticks (AllKept-update f ptr s.clist k)

pub corrupted-Kept : (c : Client) → Kept c (corrupted c)
corrupted-Kept c = record {
  same_ptr = refl;
  same_fd = refl;
  same_link = refl;
  stays_corrupt = λ h. refl;
  keeps_queue = λ v. v;
}

pub set_input-Kept : (bytes : Bytes) (c : Client) → Kept c (set_input bytes c)
set_input-Kept bytes c = record {
  same_ptr = refl;
  same_fd = refl;
  same_link = by_impl c.impl;
  stays_corrupt = λ h. h;
  keeps_queue = λ v. subst Stream.IsValid (sym (queue-set_input bytes c)) v;
}
  where
    by_impl :
        (impl : Impl)
        → let d : Client = record c { impl = impl } in link_of (set_input bytes d) ≡ link_of d
    by_impl (ctl_client i) = refl
    by_impl (ichat_client i) = refl
    by_impl (s2s_client i) = refl
    by_impl impl = refl

pub registered-Kept : (sig : Bytes) (c : Client) → Kept c (registered sig c)
registered-Kept sig c = record {
  same_ptr = refl;
  same_fd = refl;
  same_link = by_impl c.impl;
  stays_corrupt = λ h. h;
  keeps_queue = λ v. subst Stream.IsValid (sym (queue-registered sig c)) v;
}
  where
    by_impl :
        (impl : Impl)
        → let d : Client = record c { impl = impl } in link_of (registered sig d) ≡ link_of d
    by_impl (ichat_client i) = elim (Bool-cases (same_sig sig i.sig)) [
      | inl e ↦ rw e refl
      | inr e ↦ rw e refl
    ]
    by_impl (s2s_client i) = elim (Bool-cases (same_sig sig i.sig)) [
      | inl e ↦ rw e refl
      | inr e ↦ rw e refl
    ]
    by_impl impl = refl

pub authenticated-Kept : (c : Client) → Kept c (authenticated c)
authenticated-Kept c = by_impl c.impl
  where
    by_impl : (impl : Impl) → let d : Client = record c { impl = impl } in Kept d (authenticated d)
    by_impl (s2s_client i) = record {
      same_ptr = refl;
      same_fd = refl;
      same_link = refl;
      stays_corrupt = λ h. h;
      keeps_queue = λ v. v;
    }
    by_impl impl = Kept-refl (record c { impl = impl })
