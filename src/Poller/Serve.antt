-- ===== src/Poller/Serve.antt =====
-- The last loop of a round (src/poller.c) for one client whose connection breaks or rests.
use ichatd.Common.{
  ℕ, ◌≡◌, ◌∙◌, refl, sym, ap, ◌>>=◌, true, false, List, [], ◌∷◌, some, arith, ◌==◌, inl, inr,
}
use ichatd.Queue.{error, buffer_queue_size}
use ichatd.Client.{Client}
use ichatd.Server.{Server, find_client, update_client, at_client, corrupted}
use ichatd.Server.Clients.{find-update_self}
use ichatd.Dispatch.Delivery.{queue}
use ichatd.Output.{op_write}
use ichatd.World.{World}
use ichatd.Poller.{
  Interest, Answers, read_client, write_client, error_client, try_op, serve, is_set,
}
use ichatd.Steps.Polling.{op_write-Kept}
use ichatd.Poller.Operations.{
  IsBroken, IsConnection, skipped, called, read_client-broken, write_op-failed, error_client_lem,
}

-- What a round makes of a client with a descriptor, by the sets and the answers.
pub data Fate (a : Answers) (i : Interest) (c : Client) (fd : ℕ) : Client → Type 0 where
  -- nothing is done with a client that is corrupt
  was_corrupt : c.corrupt ≡ true → Fate a i c fd c
  -- a read that fails, or finds the end, corrupts the client, and nothing is written
  read_broken :
      c.corrupt ≡ false
      → is_set fd i.rd ≡ true
      → IsConnection c.impl
      → IsBroken (a.read c.ptr)
      → Fate a i c fd (corrupted c)
  -- so does a write that fails
  write_failed :
      c.corrupt ≡ false
      → is_set fd i.rd ≡ false
      → is_set fd i.wr ≡ true
      → IsConnection c.impl
      → (buffer_queue_size (queue c) == 0) ≡ false
      → a.write c.ptr ≡ error
      → Fate a i c fd (corrupted c)
  -- a write that does not fail does what the operation does
  written :
      {c' : Client}
      → c.corrupt ≡ false
      → is_set fd i.rd ≡ false
      → is_set fd i.wr ≡ true
      → is_set fd i.ex ≡ false
      → op_write c (a.write c.ptr) ≡ some c'
      → Fate a i c fd c'
  -- an exceptional condition corrupts the client
  exceptional :
      c.corrupt ≡ false
      → is_set fd i.rd ≡ false
      → is_set fd i.wr ≡ false
      → is_set fd i.ex ≡ true
      → Fate a i c fd (corrupted c)
  idle : is_set fd i.rd ≡ false → is_set fd i.wr ≡ false → is_set fd i.ex ≡ false → Fate a i c fd c

update_same :
    (ptr : ℕ) (cs : List Client) (c : Client)
    → find_client ptr cs ≡ some c
    → update_client ptr (λ d. c) cs ≡ cs
unfolding find_client update_client
update_same ptr [] c h = refl
update_same ptr (d ∷ cs) c h = ground (arith, update_same ptr cs c)

update_found :
    (ptr : ℕ) (f : Client → Client) (cs : List Client) (c : Client)
    → find_client ptr cs ≡ some c
    → update_client ptr f cs ≡ update_client ptr (λ d. f c) cs
unfolding find_client update_client
update_found ptr f [] c h = refl
update_found ptr f (d ∷ cs) c h = ground (arith, update_found ptr f cs c)

find_put :
    (ptr : ℕ) (cs : List Client) (c c' : Client)
    → find_client ptr cs ≡ some c
    → c'.ptr ≡ ptr
    → find_client ptr (update_client ptr (λ d. c') cs) ≡ some c'
unfolding find_client update_client
find_put ptr [] c c' h e = cc
find_put ptr (d ∷ cs) c c' h e = ground (arith, find_put ptr cs c c')

module _ (w : World) (a : Answers) where
  tried :
      (i : Interest) (ptr : ℕ) (s s₁ s₂ s₃ : Server)
      → try_op w a i.rd (read_client w a) ptr s ≡ some s₁
      → try_op w a i.wr (write_client w a) ptr s₁ ≡ some s₂
      → try_op w a i.ex (error_client w a) ptr s₂ ≡ some s₃
      → serve w a i ptr s ≡ some s₃
  unfolding serve
  tried i ptr s s₁ s₂ s₃ e₁ e₂ e₃ = rw (e₁, e₂) e₃

  pub serve-Fate :
      (i : Interest) (s : Server) (c c' : Client) (fd : ℕ)
      → find_client c.ptr s.clist ≡ some c
      → c.fd ≡ some fd
      → Fate a i c fd c'
      → serve w a i c.ptr s ≡ some (at_client c.ptr (λ d. c') s)
  serve-Fate i s c c' fd found has_fd fate = by_fate c' fate
    where
      t : Server
      t = at_client c.ptr corrupted s

      found_t : find_client c.ptr t.clist ≡ some (corrupted c)
      found_t = find-update_self c.ptr corrupted s.clist c (λ d. refl) found

      same : s ≡ at_client c.ptr (λ d. c) s
      same = ap (λ cs. record s { clist = cs }) (sym (update_same c.ptr s.clist c found))

      at_found : t ≡ at_client c.ptr (λ d. corrupted c) s
      at_found = ap (λ cs. record s { clist = cs }) (update_found c.ptr corrupted s.clist c found)

      by_fate :
          (c' : Client)
          → Fate a i c fd c'
          → serve w a i c.ptr s ≡ some (at_client c.ptr (λ d. c') s)
      by_fate c' (was_corrupt e) =
          tried i c.ptr s s s s (skipped w a i.rd (read_client w a) s c fd found has_fd (inr e))
            (skipped w a i.wr (write_client w a) s c fd found has_fd (inr e))
            (skipped w a i.ex (error_client w a) s c fd found has_fd (inr e))
          ∙ ap some same
      by_fate c' (read_broken fine rd k b) =
          tried i c.ptr s t t t
            (called w a i.rd (read_client w a) s c fd found has_fd rd fine
              ∙ read_client-broken w a s c k b)
            (skipped w a i.wr (write_client w a) t (corrupted c) fd found_t has_fd (inr refl))
            (skipped w a i.ex (error_client w a) t (corrupted c) fd found_t has_fd (inr refl))
          ∙ ap some at_found
      by_fate c' (write_failed fine rd wr k waits e) =
          let u = at_client c.ptr (λ d. corrupted c) s in
          tried i c.ptr s s u u (skipped w a i.rd (read_client w a) s c fd found has_fd (inl rd))
            (called w a i.wr (write_client w a) s c fd found has_fd wr fine
              ∙ rw (e, write_op-failed w a c k waits) refl)
            (skipped w a i.ex (error_client w a) u (corrupted c) fd
              (ap (λ v. find_client c.ptr v.clist) (sym at_found) ∙ found_t) has_fd (inr refl))
      by_fate c' (written fine rd wr ex e) =
          let u = at_client c.ptr (λ d. c') s in
          let kept = op_write-Kept c (a.write c.ptr) c' e in
          let here : find_client c'.ptr u.clist ≡ some c' =
            ap (λ ptr. find_client ptr u.clist) kept.same_ptr
            ∙ find_put c.ptr s.clist c c' found kept.same_ptr in
          tried i c.ptr s s u u (skipped w a i.rd (read_client w a) s c fd found has_fd (inl rd))
            (called w a i.wr (write_client w a) s c fd found has_fd wr fine
              ∙ ap (λ o. o >>= (λ d. some (at_client c.ptr (λ x. d) s))) e)
            (ap (λ ptr. try_op w a i.ex (error_client w a) ptr u) (sym kept.same_ptr)
              ∙ skipped w a i.ex (error_client w a) u c' fd here (kept.same_fd ∙ has_fd) (inl ex))
      by_fate c' (exceptional fine rd wr ex) =
          tried i c.ptr s s s t (skipped w a i.rd (read_client w a) s c fd found has_fd (inl rd))
            (skipped w a i.wr (write_client w a) s c fd found has_fd (inl wr))
            (called w a i.ex (error_client w a) s c fd found has_fd ex fine
              ∙ error_client_lem w a s c)
          ∙ ap some at_found
      by_fate c' (idle rd wr ex) =
          tried i c.ptr s s s s (skipped w a i.rd (read_client w a) s c fd found has_fd (inl rd))
            (skipped w a i.wr (write_client w a) s c fd found has_fd (inl wr))
            (skipped w a i.ex (error_client w a) s c fd found has_fd (inl ex))
          ∙ ap some same
