-- ===== src/Steps/Polling.antt =====
-- A round of the poller makes steps only: `server_poll` of src/poller.c.
use ichatd.Common.{
  ℕ, ◌==◌, ◌+◌, ◌≡◌, ◌∙◌, arith, refl, ap, subst, ◌&&◌, not, List, [], ◌∷◌, Option, none, some,
  >>=-eq-some, eq_of_some, Bool-cases, inl, inr, if◌then◌else◌,
}
use ichatd.Task.{TimedTask}
use ichatd.Client.{
  Client, Impl, ctl_server, ichat_server, s2s_server, ctl_client, ichat_client, s2s_client,
}
use ichatd.Server.{Server, find_client, update_client}
use ichatd.Input.Chat.{ichat_client_process_message}
use ichatd.Input.S2s.{ichat_s2s_client_process_message}
use ichatd.Output.{op_write}
use ichatd.Queue.{Written}
use ichatd.Errors.{op_error}
use ichatd.Steps.{Kept}
use ichatd.Steps.Clients.{Kept-refl}
use ichatd.World.{World}
use ichatd.Poller.{
  Interest, Answers, Selected, interrupted, failed_select, ready, evict, fill, timeout, read_client,
  write_client, error_client, try_op, on_set, serve, serve_all, server_poll, ptrs, is_set,
  clock_read, after_select,
}
use ichatd.Steps.{Steps, here}
use ichatd.Steps.Clients.{
  Touched-update, Touched-clients, AllKept-put, AllKept-refl, corrupted-Kept,
}
use ichatd.Steps.Accepting.{Touched-Step, accept_ichat, accept_ctl, accept_s2s}
use ichatd.Steps.Reading.{read_op-Touched, chat-Touches, s2s-Touches, ctl_client_read_op-Touched}
use ichatd.Steps.Rounds.{Steps-trans, write_op-Kept, evict-Steps}

find_client-ptr :
    (ptr : ℕ) (cs : List Client) (c : Client) → find_client ptr cs ≡ some c → c.ptr ≡ ptr
unfolding find_client
find_client-ptr ptr [] c h = cc
find_client-ptr ptr (d ∷ cs) c h = elim (Bool-cases (d.ptr == ptr)) [
  | inl e ↦ let same : d ≡ c = ground arith in ground arith
  | inr e ↦ find_client-ptr ptr cs c (rw e at h)
]

pub op_write-Kept :
    (c : Client) (answer : Written) (c' : Client) → op_write c answer ≡ some c' → Kept c c'
op_write-Kept c answer c' h = by_impl c.impl h
  where
    same : (d : Client) → some d ≡ some c' → Kept d c'
    same d e = subst (Kept d) (eq_of_some e) (Kept-refl d)

    by_impl :
        (impl : Impl)
        → let d : Client = record c { impl = impl } in op_write d answer ≡ some c' → Kept d c'
    by_impl (ctl_client i) e = write_op-Kept (record c { impl = ctl_client i }) answer c' e
    by_impl (ichat_client i) e = write_op-Kept (record c { impl = ichat_client i }) answer c' e
    by_impl (s2s_client i) e = write_op-Kept (record c { impl = s2s_client i }) answer c' e
    by_impl impl e = same (record c { impl = impl }) e

op_error-Kept : (impl : Impl) (c : Client) → Kept c (op_error impl c)
op_error-Kept ctl_server c = corrupted-Kept c
op_error-Kept ichat_server c = corrupted-Kept c
op_error-Kept s2s_server c = corrupted-Kept c
op_error-Kept (ctl_client i) c = corrupted-Kept c
op_error-Kept (ichat_client i) c = corrupted-Kept c
op_error-Kept (s2s_client i) c = corrupted-Kept c

module _ (w : World) (a : Answers) where
  read_client-Steps : (c : Client) (s s' : Server) → read_client w a s c ≡ some s' → Steps s s'
  read_client-Steps c s s' h = by_impl c.impl h
    where
      by_impl : (impl : Impl) → read_client w a s (record c { impl = impl }) ≡ some s' → Steps s s'
      by_impl ctl_server e = subst (Steps s) (eq_of_some e) (accept_ctl s (a.accept c.ptr))
      by_impl ichat_server e = subst (Steps s) (eq_of_some e) (accept_ichat s (a.accept c.ptr))
      by_impl s2s_server e = subst (Steps s) (eq_of_some e) (accept_s2s w s (a.accept c.ptr))
      by_impl (ctl_client i) e =
          subst (Steps s) (eq_of_some e)
            (Touched-Step s _ (ctl_client_read_op-Touched s c.ptr (a.read c.ptr)))
      by_impl (ichat_client i) e = Touched-Step s s' (
          read_op-Touched (ichat_client_process_message w.stamp) (chat-Touches w.stamp) s c.ptr
            (a.read c.ptr) s' e)
      by_impl (s2s_client i) e = Touched-Step s s' (
          read_op-Touched (ichat_s2s_client_process_message w.stamp) (s2s-Touches w.stamp) s c.ptr
            (a.read c.ptr) s' e)

  write_client-Steps :
      (ptr : ℕ) (c : Client) (s s' : Server)
      → find_client ptr s.clist ≡ some c
      → c.ptr ≡ ptr
      → write_client w a s c ≡ some s'
      → Steps s s'
  write_client-Steps ptr c s s' found same h =
      let (c', written, last) = >>=-eq-some (op_write c (a.write c.ptr)) _ h in
      let at : find_client c.ptr s.clist ≡ some c = ap (λ p. find_client p s.clist) same ∙ found in
      subst (Steps s) (eq_of_some last) (
        Touched-Step s _ (
          Touched-clients s (update_client c.ptr (λ d. c') s.clist) s.ticks
            (AllKept-put c.ptr s.clist c c' at (op_write-Kept c (a.write c.ptr) c' written))))

  error_client-Steps : (c : Client) (s s' : Server) → error_client w a s c ≡ some s' → Steps s s'
  error_client-Steps c s s' h =
      subst (Steps s) (eq_of_some h)
        (Touched-Step s _ (Touched-update (op_error c.impl) c.ptr s (op_error-Kept c.impl)))

  -- An operation that makes steps for the client at the address makes steps where it is tried.
  try_op-Steps :
      (fds : List ℕ) (op : Server → Client → Option Server) (ptr : ℕ) (s s' : Server)
      → ((c : Client) → find_client ptr s.clist ≡ some c → op s c ≡ some s' → Steps s s')
      → try_op w a fds op ptr s ≡ some s'
      → Steps s s'
  try_op-Steps fds op ptr s s' k h = by_client (find_client ptr s.clist) refl h
    where
      unchanged : some s ≡ some s' → Steps s s'
      unchanged e = subst (Steps s) (eq_of_some e) here

      by_client :
          (o : Option Client)
          → find_client ptr s.clist ≡ o
          → on_set w a fds op s o ≡ some s'
          → Steps s s'
      by_client none found e = unchanged e
      by_client (some c) found e = by_fd c.fd e
        where
          by_fd :
              (fd : Option ℕ)
              → elim fd [
                | none ↦ some s
                | some n ↦ if is_set n fds && not c.corrupt then op s c else some s
              ]
                ≡ some s'
              → Steps s s'
          by_fd none e = unchanged e
          by_fd (some n) e = elim (Bool-cases (is_set n fds && not c.corrupt)) [
            | inl b ↦ k c found (rw b at e)
            | inr b ↦ unchanged (rw b at e)
          ]

  serve-Steps : (i : Interest) (ptr : ℕ) (s s' : Server) → serve w a i ptr s ≡ some s' → Steps s s'
  unfolding serve
  serve-Steps i ptr s s' h =
      let (t, e, h') = >>=-eq-some (try_op w a i.rd (read_client w a) ptr s) _ h in
      let (u, e', e'') = >>=-eq-some (try_op w a i.wr (write_client w a) ptr t) _ h' in
      let read = try_op-Steps i.rd (read_client w a) ptr s t (λ c f. read_client-Steps c s t) e in
      let written =
        try_op-Steps i.wr (write_client w a) ptr t u
          (λ c f. write_client-Steps ptr c t u f (find_client-ptr ptr t.clist c f)) e' in
      let failed =
        try_op-Steps i.ex (error_client w a) ptr u s' (λ c f. error_client-Steps c u s') e'' in
      Steps-trans s t s' read (Steps-trans t u s' written failed)

  serve_all-Steps :
      (i : Interest) (ps : List ℕ) (s s' : Server) → serve_all w a i ps s ≡ some s' → Steps s s'
  unfolding serve_all
  serve_all-Steps i [] s s' h = subst (Steps s) (eq_of_some h) here
  serve_all-Steps i (ptr ∷ ps) s s' h =
      let (t, e, h') = >>=-eq-some (serve w a i ptr s) _ h in
      Steps-trans s t s' (serve-Steps i ptr s t e) (serve_all-Steps i ps t s' h')

  clock_read-Steps : (s : Server) → Steps s (clock_read w a s)
  clock_read-Steps s = by_tasks s.task_queue
    where
      by_tasks :
          (queue : List TimedTask)
          → Steps s (elim queue [ [] ↦ s | t ∷ ts ↦ record s { ticks = s.ticks + 1 } ])
      by_tasks [] = here
      by_tasks (t ∷ ts) =
          Touched-Step s _ (Touched-clients s s.clist (s.ticks + 1) (AllKept-refl s.clist))

  after_select-Steps :
      (asked : Interest) (answer : Selected) (s s' : Server)
      → after_select w a s asked answer ≡ some s'
      → Steps s s'
  after_select-Steps asked interrupted s s' h = serve_all-Steps asked (ptrs w a s.clist) s s' h
  after_select-Steps asked failed_select s s' h = subst (Steps s) (eq_of_some h) here
  after_select-Steps asked (ready i) s s' h = serve_all-Steps i (ptrs w a s.clist) s s' h

  -- A round in which no assertion fails makes steps only.
  pub server_poll-Steps : (s s' : Server) → server_poll w a s ≡ some s' → Steps s s'
  unfolding server_poll
  server_poll-Steps s s' h =
      let t = evict w s in
      let u = clock_read w a t in
      let (asked, filled, rest) = >>=-eq-some (fill t.clist) _ h in
      Steps-trans s t s' (evict-Steps w s) (
        Steps-trans t u s' (clock_read-Steps t) (
          after_select-Steps asked (a.select asked (timeout (w.clock t.ticks) t.task_queue)) u s'
            rest))
