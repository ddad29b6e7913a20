-- ===== src/Input/S2s/Auth.antt =====
-- Who is authenticated on a link between servers.
use ichatd.Common.{
  ℕ, ◌≡◌, ◌≢◌, refl, sym, ap, ◌∙◌, true, false, List, [], ◌∷◌, some, arith, Bytes, codes, eq_bytes,
  eq_bytes→eq, eq_bytes_refl, ◌==◌, Bool-cases, Option-cases, inl, inr, Lacks, eq_of_some,
}
use ichatd.Proto.Ics2s.{Ics2s, ichat_buffer_to_ics2s, ichat_buffer_to_ics2s_iff, Separable}
use ichatd.Proto.Login.{login_body}
use ichatd.Client.{Client, Impl, ichat_client, s2s_client}
use ichatd.Server.{Server, find_client, update_client, at_client, corrupted}
use ichatd.Dispatch.{same_sig}
use ichatd.Input.{registered}
use ichatd.Input.S2s.{
  ichat_s2s_client_process_message, run_command, is_authenticated, authenticated,
}

-- A change that keeps the address and the flag of every client keeps the flag at an address.
abbrev KeepsFlag : (Client → Client) → Type 0
KeepsFlag f =
    (c : Client) → ((f c).ptr ≡ c.ptr) × (is_authenticated (some (f c)) ≡ is_authenticated (some c))

pub is_authenticated-update :
    (f : Client → Client) (ptr : ℕ) (cs : List Client)
    → KeepsFlag f
    → is_authenticated (find_client ptr (update_client ptr f cs))
      ≡ is_authenticated (find_client ptr cs)
unfolding find_client update_client
is_authenticated-update f ptr [] k = refl
is_authenticated-update f ptr (c ∷ cs) k = elim (Bool-cases (c.ptr == ptr)) [
  | inl e ↦
      let e' : ((f c).ptr == ptr) ≡ true = ap (λ p. p == ptr) ((k c).0) ∙ e in rw (e, e') ((k c).1)
  | inr e ↦ rw (e, e) (is_authenticated-update f ptr cs k)
]

pub registered-keeps : (sig : Bytes) → KeepsFlag (registered sig)
registered-keeps sig c = (refl, by_impl c.impl)
  where
    by_impl :
        (impl : Impl)
        → let d : Client = record c { impl = impl } in
          is_authenticated (some (registered sig d)) ≡ is_authenticated (some d)
    by_impl (s2s_client i) = elim (Bool-cases (same_sig sig i.sig)) [
      | inl e ↦ rw e refl
      | inr e ↦ rw e refl
    ]
    by_impl (ichat_client i) = elim (Bool-cases (same_sig sig i.sig)) [
      | inl e ↦ rw e refl
      | inr e ↦ rw e refl
    ]
    by_impl impl = refl

corrupted-keeps : KeepsFlag corrupted
corrupted-keeps c = (refl, refl)

-- On a link that is not authenticated the commands do nothing but LOGIN.
run_command_unauthenticated :
    (stamp : ℕ → ℕ → Bytes) (s : Server) (ptr : ℕ) (m : Ics2s)
    → is_authenticated (find_client ptr s.clist) ≡ false
    → eq_bytes m.command (codes "LOGIN") ≡ false
    → run_command stamp s ptr m ≡ some s
unfolding run_command
run_command_unauthenticated stamp s ptr m closed other =
    rw (other, closed)
      (elim (Bool-cases (eq_bytes m.command (codes "FORWARD"))) [
        | inl e ↦ rw e refl
        | inr e ↦ rw e refl
      ])

-- The flag of the link when the sender's name was registered.
registered_flag :
    (s : Server) (ptr : ℕ) (sig : Bytes)
    → is_authenticated (find_client ptr s.clist) ≡ false
    → is_authenticated (find_client ptr (at_client ptr (registered sig) s).clist) ≡ false
registered_flag s ptr sig closed =
    is_authenticated-update (registered sig) ptr s.clist (registered-keeps sig) ∙ closed

-- On a link that is not authenticated, a readable message with any command but LOGIN, FORWARD
-- included, changes nothing but the name of the other server: nothing is passed on to any client.
pub unauthenticated_message :
    (stamp : ℕ → ℕ → Bytes) (s : Server) (ptr : ℕ) (msg : Bytes) (m : Ics2s)
    → ichat_buffer_to_ics2s msg ≡ some m
    → m.command ≢ codes "LOGIN"
    → is_authenticated (find_client ptr s.clist) ≡ false
    → ichat_s2s_client_process_message stamp s ptr msg
      ≡ some (at_client ptr (registered m.sender) s)
unfolding ichat_s2s_client_process_message
unauthenticated_message stamp s ptr msg m parsed other closed = rw parsed (
    run_command_unauthenticated stamp (at_client ptr (registered m.sender) s) ptr m
      (registered_flag s ptr m.sender closed)
      (elim (Bool-cases (eq_bytes m.command (codes "LOGIN"))) [
        | inl e ↦ absurd (other (eq_bytes→eq m.command (codes "LOGIN") e))
        | inr e ↦ e
      ]))

still_closed :
    (s s' : Server) (ptr : ℕ)
    → is_authenticated (find_client ptr s.clist) ≡ false
    → some s ≡ some s'
    → is_authenticated (find_client ptr s'.clist) ≡ true
    → ⊥
still_closed s s' ptr closed h opened =
    let same : is_authenticated (find_client ptr s.clist) ≡ true =
      ap (λ x. is_authenticated (find_client ptr x.clist)) (eq_of_some h) ∙ opened in
    cc

by_password :
    (stamp : ℕ → ℕ → Bytes) (s s' : Server) (ptr : ℕ) (m : Ics2s)
    → is_authenticated (find_client ptr s.clist) ≡ false
    → run_command stamp s ptr m ≡ some s'
    → is_authenticated (find_client ptr s'.clist) ≡ true
    → (m.command ≡ codes "LOGIN") × (m.msg_data ≡ s.config.s2s_me.pass)
unfolding run_command
by_password stamp s s' ptr m closed h opened =
    elim (Bool-cases (eq_bytes m.command (codes "LOGIN"))) [
      | inl e ↦ elim (Bool-cases (eq_bytes m.msg_data s.config.s2s_me.pass)) [
        | inl e' ↦ (eq_bytes→eq _ _ e, eq_bytes→eq _ _ e')
        | inr e' ↦
            let nothing : run_command stamp s ptr m ≡ some s = rw (e, e') refl in
            absurd (still_closed s s' ptr closed (sym nothing ∙ h) opened)
      ]
      | inr e ↦
          let nothing = run_command_unauthenticated stamp s ptr m closed e in
          absurd (still_closed s s' ptr closed (sym nothing ∙ h) opened)
    ]

-- A link that is not authenticated becomes so only by a message that can be read, whose command is
-- LOGIN and whose data are exactly the password of this server.
pub authenticated_by_password :
    (stamp : ℕ → ℕ → Bytes) (s s' : Server) (ptr : ℕ) (msg : Bytes)
    → is_authenticated (find_client ptr s.clist) ≡ false
    → ichat_s2s_client_process_message stamp s ptr msg ≡ some s'
    → is_authenticated (find_client ptr s'.clist) ≡ true
    → (m : Ics2s) × (ichat_buffer_to_ics2s msg ≡ some m)
      × (m.command ≡ codes "LOGIN")
      × (m.msg_data ≡ s.config.s2s_me.pass)
unfolding ichat_s2s_client_process_message
authenticated_by_password stamp s s' ptr msg closed h opened =
    elim (Option-cases (ichat_buffer_to_ics2s msg)) [
      | inl none_read ↦
          let dropped : ichat_s2s_client_process_message stamp s ptr msg
              ≡ some (at_client ptr corrupted s) =
            rw none_read refl in
          let closed' = is_authenticated-update corrupted ptr s.clist corrupted-keeps ∙ closed in
          absurd (still_closed (at_client ptr corrupted s) s' ptr closed' (sym dropped ∙ h) opened)
      | inr (m, parsed) ↦
          let s1 = at_client ptr (registered m.sender) s in
          let ran : ichat_s2s_client_process_message stamp s ptr msg ≡ run_command stamp s1 ptr m =
            rw parsed refl in
          let closed' = registered_flag s ptr m.sender closed in
          let (login, pass) = by_password stamp s1 s' ptr m closed' (sym ran ∙ h) opened in
          (m, parsed, login, pass)
    ]

-- A login message with this server's password, and with a name and a time without zero bytes, is
-- accepted on a link in any state: the link gets the name, and the flag.
pub login_accepted :
    (stamp : ℕ → ℕ → Bytes) (s : Server) (ptr : ℕ) (name time : Bytes)
    → Lacks 0 name
    → Lacks 0 time
    → ichat_s2s_client_process_message stamp s ptr (login_body name time s.config.s2s_me.pass)
      ≡ some (at_client ptr authenticated (at_client ptr (registered name) s))
unfolding ichat_s2s_client_process_message run_command
login_accepted stamp s ptr name time name_ok time_ok =
    let m : Ics2s = record {
      sender = name;
      timestamp = time;
      command = codes "LOGIN";
      msg_data = s.config.s2s_me.pass;
    } in
    let ok : Separable m = record {
      sender_ok = name_ok;
      timestamp_ok = time_ok;
      command_ok = ground arith;
    } in
    let parsed =
      (ichat_buffer_to_ics2s_iff (login_body name time s.config.s2s_me.pass) m).1 (refl, ok) in
    rw (parsed, eq_bytes_refl s.config.s2s_me.pass) refl
