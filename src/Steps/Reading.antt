-- ===== src/Steps/Reading.antt =====
-- Reading from a client touches the clients only (src/ichat/client/ichat_client_ops.c,
-- src/ichat/s2s_client/ichat_s2s_client_ops.c, src/ctl/client/ctl_client_ops.c).
use ichatd.Common.{
  ℕ, zero, suc, ◌+◌, ◌≡◌, refl, subst, true, List, [], ◌∷◌, ◌++◌, Option, none, some, Bytes, codes,
  length, cut_at, eq_bytes, Bool-cases, Option-cases, inl, inr, >>=-eq-some, eq_of_some, take,
}
use ichatd.Proto.Icc2s.{ichat_buffer_to_icc2s}
use ichatd.Proto.Ics2s.{Ics2s, ichat_buffer_to_ics2s}
use ichatd.Frame.{Round, wait, bad, message, next_frame}
use ichatd.Queue.Stream.{stream-append}
use ichatd.Client.{Client, Impl, ctl_client}
use ichatd.Server.{Server, find_client, at_client, corrupted}
use ichatd.Input.{Read, failed, eof, got, read_loop, read_op, set_input, input_at, registered}
use ichatd.Input.Chat.{ichat_client_process_message}
use ichatd.Input.S2s.{
  ichat_s2s_client_process_message, run_command, authenticated, is_authenticated, stripped,
  dispatch_some,
}
use ichatd.Ctl.{
  is_kw, ctl_client_add_message, ctl_client_process_message, process_all, ctl_client_read_op,
  read_lines, help_text, unknown_text,
}
use ichatd.Steps.{Kept, Touched}
use ichatd.Steps.Clients.{
  Kept-refl, AllKept-refl, Touched-refl, Touched-trans, Touched-update, corrupted-Kept,
  set_input-Kept, registered-Kept, authenticated-Kept,
}
use ichatd.Steps.Messages.{ichat_dispatch-Touched}

-- What the loop of a `read_op` needs of the function that processes a message.
abbrev Touches : (Server → ℕ → Bytes → Option Server) → Type 0
Touches process =
    (s : Server) (ptr : ℕ) (msg : Bytes) (s' : Server) → process s ptr msg ≡ some s' → Touched s s'

some-Touched : (s t s' : Server) → Touched s t → some t ≡ some s' → Touched s s'
some-Touched s t s' h e = subst (Touched s) (eq_of_some e) h

module _ (process : Server → ℕ → Bytes → Option Server) (touches : Touches process) where
  read_loop-Touched :
      (fuel : ℕ) (s : Server) (ptr : ℕ) (p : Bytes) (s' : Server)
      → read_loop process fuel s ptr p ≡ some s'
      → Touched s s'
  unfolding read_loop
  read_loop-Touched zero s ptr p s' h = some-Touched s s s' (Touched-refl s) h
  read_loop-Touched (suc fuel) s ptr p s' h =
      by_round (λ t rest e. read_loop-Touched fuel t ptr rest s' e) (next_frame p) refl
    where
      by_round :
          ((t : Server) (rest : Bytes) → read_loop process fuel t ptr rest ≡ some s' → Touched t s')
          → (r : Round) → next_frame p ≡ r
          → Touched s s'
      by_round ih wait e = some-Touched s s s' (Touched-refl s) (rw (read_loop, e) at h)
      by_round ih bad e =
          some-Touched s (at_client ptr corrupted s) s'
            (Touched-update corrupted ptr s corrupted-Kept) (rw (read_loop, e) at h)
      by_round ih (message msg rest) e =
          let (t, done, more) = >>=-eq-some (process s ptr msg) _ (rw (read_loop, e) at h) in
          let u = at_client ptr (set_input rest) t in
          Touched-trans s t s' (touches s ptr msg t done) (
            Touched-trans t u s' (Touched-update (set_input rest) ptr t (set_input-Kept rest))
              (ih u rest more))

  pub read_op-Touched :
      (s : Server) (ptr : ℕ) (answer : Read) (s' : Server)
      → read_op process s ptr answer ≡ some s'
      → Touched s s'
  unfolding read_op
  read_op-Touched s ptr failed s' h =
      some-Touched s (at_client ptr corrupted s) s' (Touched-update corrupted ptr s corrupted-Kept)
        h
  read_op-Touched s ptr eof s' h =
      some-Touched s (at_client ptr corrupted s) s' (Touched-update corrupted ptr s corrupted-Kept)
        h
  read_op-Touched s ptr (got bytes) s' h =
      let p = input_at (find_client ptr s.clist) ++ bytes in
      let t = at_client ptr (set_input p) s in
      Touched-trans s t s' (Touched-update (set_input p) ptr s (set_input-Kept p))
        (read_loop-Touched (length p + 1) t ptr p s' h)

pub chat-Touches : (stamp : ℕ → ℕ → Bytes) → Touches (ichat_client_process_message stamp)
unfolding ichat_client_process_message
chat-Touches stamp s ptr msg s' h = elim (Option-cases (ichat_buffer_to_icc2s msg)) [
  | inl e ↦
      some-Touched s (at_client ptr corrupted s) s' (Touched-update corrupted ptr s corrupted-Kept)
        (rw e at h)
  | inr (m, e) ↦
      let t = at_client ptr (registered m.sender) s in
      Touched-trans s t s' (Touched-update (registered m.sender) ptr s (registered-Kept m.sender))
        (ichat_dispatch-Touched stamp t ptr msg s' (rw e at h))
]

dispatch_some-Touched :
    (stamp : ℕ → ℕ → Bytes) (s : Server) (ptr : ℕ) (msg : Option Bytes) (s' : Server)
    → dispatch_some stamp s ptr msg ≡ some s'
    → Touched s s'
dispatch_some-Touched stamp s ptr none s' h = some-Touched s s s' (Touched-refl s) h
dispatch_some-Touched stamp s ptr (some msg) s' h = ichat_dispatch-Touched stamp s ptr msg s' h

run_command-Touched :
    (stamp : ℕ → ℕ → Bytes) (s : Server) (ptr : ℕ) (m : Ics2s) (s' : Server)
    → run_command stamp s ptr m ≡ some s'
    → Touched s s'
unfolding run_command
run_command-Touched stamp s ptr m s' h = elim (Bool-cases (eq_bytes m.command (codes "LOGIN"))) [
  | inl e ↦ elim (Bool-cases (eq_bytes m.msg_data s.config.s2s_me.pass)) [
    | inl e' ↦
        some-Touched s (at_client ptr authenticated s) s'
          (Touched-update authenticated ptr s authenticated-Kept) (rw (e, e') at h)
    | inr e' ↦ unchanged (rw (e, e') at h)
  ]
  | inr e ↦ elim (Bool-cases (eq_bytes m.command (codes "FORWARD"))) [
    | inl e' ↦ elim (Bool-cases (is_authenticated (find_client ptr s.clist))) [
      | inl e'' ↦
          dispatch_some-Touched stamp s ptr (stripped (length m.msg_data) (cut_at 0 m.msg_data)) s'
            (rw (e, e', e'') at h)
      | inr e'' ↦ unchanged (rw (e, e', e'') at h)
    ]
    | inr e' ↦ unchanged (rw (e, e') at h)
  ]
]
  where
    unchanged : some s ≡ some s' → Touched s s'
    unchanged e = some-Touched s s s' (Touched-refl s) e

pub s2s-Touches : (stamp : ℕ → ℕ → Bytes) → Touches (ichat_s2s_client_process_message stamp)
unfolding ichat_s2s_client_process_message
s2s-Touches stamp s ptr msg s' h = elim (Option-cases (ichat_buffer_to_ics2s msg)) [
  | inl e ↦
      some-Touched s (at_client ptr corrupted s) s' (Touched-update corrupted ptr s corrupted-Kept)
        (rw e at h)
  | inr (m, e) ↦
      let t = at_client ptr (registered m.sender) s in
      Touched-trans s t s' (Touched-update (registered m.sender) ptr s (registered-Kept m.sender))
        (run_command-Touched stamp t ptr m s' (rw e at h))
]

ctl_client_add_message-Kept : (msg : Bytes) (c : Client) → Kept c (ctl_client_add_message msg c)
ctl_client_add_message-Kept msg c = by_impl c.impl
  where
    by_impl :
        (impl : Impl)
        → let d : Client = record c { impl = impl } in Kept d (ctl_client_add_message msg d)
    by_impl (ctl_client i) = record {
      same_ptr = refl;
      same_fd = refl;
      same_link = refl;
      stays_corrupt = λ h. h;
      keeps_queue = λ v. (stream-append i.bo msg v).1;
    }
    by_impl impl = Kept-refl (record c { impl = impl })

answer-Touched :
    (ptr : ℕ) (s : Server) (msg : Bytes) → Touched s (at_client ptr (ctl_client_add_message msg) s)
answer-Touched ptr s msg =
    Touched-update (ctl_client_add_message msg) ptr s (ctl_client_add_message-Kept msg)

stopping-Touched : (s : Server) → Touched s (record s { shutdown = true })
stopping-Touched s = record {
  clients = AllKept-refl s.clist;
  same_config = refl;
  same_tasks = refl;
  same_next = refl;
  stays_down = λ h. refl;
}

command-Touched :
    (s : Server) (ptr : ℕ) (msg : Bytes) → Touched s (ctl_client_process_message s ptr msg)
unfolding ctl_client_process_message
command-Touched s ptr msg = elim (Bool-cases (is_kw msg (codes "echo"))) [
  | inl e ↦ rw e (answer-Touched ptr s msg)
  | inr e ↦ elim (Bool-cases (is_kw msg (codes "help"))) [
    | inl e' ↦ rw (e, e') (answer-Touched ptr s help_text)
    | inr e' ↦ elim (Bool-cases (is_kw msg (codes "exit"))) [
      | inl e'' ↦
          let t = at_client ptr corrupted s in
          rw (e, e', e'')
            (Touched-trans s t (at_client ptr (ctl_client_add_message []) t)
              (Touched-update corrupted ptr s corrupted-Kept) (answer-Touched ptr t []))
      | inr e'' ↦ elim (Bool-cases (is_kw msg (codes "stop"))) [
        | inl k ↦
            let t = record s { shutdown = true } in
            rw (e, e', e'', k)
              (Touched-trans s t (at_client ptr (ctl_client_add_message []) t) (stopping-Touched s)
                (answer-Touched ptr t []))
        | inr k ↦ rw (e, e', e'', k) (answer-Touched ptr s unknown_text)
      ]
    ]
  ]
]

process_all-Touched :
    (s : Server) (ptr : ℕ) (lines : List Bytes) → Touched s (process_all s ptr lines)
unfolding process_all
process_all-Touched s ptr [] = Touched-refl s
process_all-Touched s ptr (line ∷ others) =
    let t = ctl_client_process_message s ptr line in
    Touched-trans s t (process_all t ptr others) (command-Touched s ptr line)
      (process_all-Touched t ptr others)

pub ctl_client_read_op-Touched :
    (s : Server) (ptr : ℕ) (answer : Read) → Touched s (ctl_client_read_op s ptr answer)
unfolding ctl_client_read_op
ctl_client_read_op-Touched s ptr failed = Touched-update corrupted ptr s corrupted-Kept
ctl_client_read_op-Touched s ptr eof = Touched-update corrupted ptr s corrupted-Kept
ctl_client_read_op-Touched s ptr (got bytes) =
    let p = input_at (find_client ptr s.clist) ++ bytes in
    let (lines, left) = read_lines (length p + 1) p (length p) in
    let t = at_client ptr (set_input p) s in
    let u = process_all t ptr lines in
    Touched-trans s t (at_client ptr (set_input (take left p)) u)
      (Touched-update (set_input p) ptr s (set_input-Kept p))
      (Touched-trans t u (at_client ptr (set_input (take left p)) u)
        (process_all-Touched t ptr lines)
        (Touched-update (set_input (take left p)) ptr u (set_input-Kept (take left p))))
