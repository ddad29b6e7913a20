-- ===== src/Input/S2s/Handshake.antt =====
-- What a new link sends first, and what the server at its other end makes of it
-- (src/ichat/s2s_client/ichat_s2s_client_impl.c, src/ichat/s2s_client/ichat_s2s_client_ops.c).
use ichatd.Common.{
  ℕ, ◌≤◌, ◌≡◌, refl, sym, ap, subst, ◌∙◌, true, [], ◌∷◌, ◌++◌, append-nil, some, Bytes, length,
  Lacks, Bool-cases, inl, inr, ◌>>=◌,
}
use ichatd.Config.{S2sBlock}
use ichatd.Proto.Login.{login_body}
use ichatd.Frame.{frame, wait, next_frame}
use ichatd.Queue.Stream.{stream}
use ichatd.Client.{Client, s2s_client, S2sImpl, out_auth}
use ichatd.Client.S2s.{ichat_s2s_client_create_impl, ichat_s2s_client_create_impl_lem}
use ichatd.Server.{Server, find_client, update_client, at_client}
use ichatd.Server.Clients.{find-update_self}
use ichatd.Dispatch.{same_sig}
use ichatd.Input.{got, set_input, input_at, registered}
use ichatd.Input.Messages.{read_op_frames, in_turn, join_frames}
use ichatd.Input.S2s.{
  ichat_s2s_client_process_message, ichat_s2s_client_read_op, is_authenticated, authenticated,
}
use ichatd.Input.S2s.Auth.{login_accepted}

-- What the login makes of the link.
abbrev welcomed : Bytes → Bytes → Client → Client
welcomed name body c =
    set_input [] (authenticated (registered name (set_input (frame body ++ []) c)))

welcomed_lem :
    (name body : Bytes) (c : Client) (i : S2sImpl)
    → c.impl ≡ s2s_client i
    → (is_authenticated (some (welcomed name body c)) ≡ true)
      × (input_at (some (welcomed name body c)) ≡ [])
welcomed_lem name body c i e =
    let d : Client = record c { impl = s2s_client i } in
    subst
      (λ impl.
        let x : Client = record c { impl = impl } in
        (is_authenticated (some (welcomed name body x)) ≡ true)
        × (input_at (some (welcomed name body x)) ≡ []))
      (sym e)
      (elim (Bool-cases (same_sig name i.sig)) [
        | inl k ↦ rw k (refl, refl)
        | inr k ↦ rw k (refl, refl)
      ])

nothing_left : next_frame [] ≡ wait
unfolding next_frame
nothing_left = refl

module _ (stamp : ℕ → ℕ → Bytes) (s : Server) (ptr : ℕ) (name time : Bytes) (b : S2sBlock) where
  abbrev body : Bytes
  body = login_body name time b.pass

  -- The four writes to the link, one after the other.
  abbrev after_login : Server
  after_login = at_client ptr (set_input []) (
      at_client ptr authenticated
        (at_client ptr (registered name) (at_client ptr (set_input (frame body ++ [])) s)))

  login_read :
      Lacks 0 name
      → Lacks 0 time
      → 20 ≤ length body
      → length body ≤ 4192
      → b.pass ≡ s.config.s2s_me.pass
      → input_at (find_client ptr s.clist) ≡ []
      → ichat_s2s_client_read_op stamp s ptr (got (frame body)) ≡ some after_login
  unfolding in_turn
  login_read name_ok time_ok low high same empty =
      let process = ichat_s2s_client_process_message stamp in
      let t = at_client ptr (set_input (frame body ++ [])) s in
      let arrived : input_at (find_client ptr s.clist) ++ frame body ≡ join_frames (body ∷ []) [] =
        ap (λ x. x ++ frame body) empty ∙ sym (append-nil (frame body)) in
      let accepted : process t ptr body
          ≡ some (at_client ptr authenticated (at_client ptr (registered name) t)) =
        subst
          (λ p.
            process t ptr (login_body name time p)
            ≡ some (at_client ptr authenticated (at_client ptr (registered name) t)))
          (sym same) (login_accepted stamp t ptr name time name_ok time_ok) in
      read_op_frames process s ptr (frame body) (body ∷ []) [] (low, high, tt) nothing_left arrived
      ∙ ap (λ o. do s' ← o; in_turn process (at_client ptr (set_input []) s') ptr [] []) accepted

  after_login-client :
      (c : Client)
      → find_client ptr s.clist ≡ some c
      → find_client ptr after_login.clist ≡ some (welcomed name body c)
  after_login-client c h =
      let p = frame body ++ [] in
      let cs1 = update_client ptr (set_input p) s.clist in
      let cs2 = update_client ptr (registered name) cs1 in
      let cs3 = update_client ptr authenticated cs2 in
      find-update_self ptr (set_input []) cs3 (authenticated (registered name (set_input p c)))
        (λ d. refl)
        (find-update_self ptr authenticated cs2 (registered name (set_input p c)) (λ d. refl)
          (find-update_self ptr (registered name) cs1 (set_input p c) (λ d. refl)
            (find-update_self ptr (set_input p) s.clist c (λ d. refl) h)))

-- What the queue of a new outgoing link holds, when it arrives as a whole at a link of the other
-- server whose input is empty, authenticates that link, and leaves no input, provided that the
-- block of the one server has the password of the other, that the name and the time have no zero
-- byte, and that the login message has 20 to 4192 bytes.
pub handshake :
    (stamp : ℕ → ℕ → Bytes) (s : Server) (ptr : ℕ) (name time : Bytes) (b : S2sBlock) (c : Client)
    (i : S2sImpl)
    → find_client ptr s.clist ≡ some c
    → c.impl ≡ s2s_client i
    → i.bi ≡ []
    → b.pass ≡ s.config.s2s_me.pass
    → Lacks 0 name
    → Lacks 0 time
    → 20 ≤ length (login_body name time b.pass)
    → length (login_body name time b.pass) ≤ 4192
    → (s' : Server) × (ichat_s2s_client_read_op stamp s ptr
          (got (stream (ichat_s2s_client_create_impl out_auth name time b).bo))
        ≡ some s')
      × (is_authenticated (find_client ptr s'.clist) ≡ true)
      × (input_at (find_client ptr s'.clist) ≡ [])
handshake stamp s ptr name time b c i found kind empty same name_ok time_ok low high =
    let sent = ichat_s2s_client_create_impl_lem name time b in
    let t = after_login stamp s ptr name time b in
    let no_input : input_at (find_client ptr s.clist) ≡ [] =
      ap input_at found ∙ ap (λ m. input_at (some (record c { impl = m }))) kind ∙ empty in
    let read = login_read stamp s ptr name time b name_ok time_ok low high same no_input in
    let at = after_login-client stamp s ptr name time b c found in
    let (flag, left) = welcomed_lem name (login_body name time b.pass) c i kind in
    (
      t,
      ap (λ x. ichat_s2s_client_read_op stamp s ptr (got x)) sent.2 ∙ read,
      ap is_authenticated at ∙ flag,
      ap input_at at ∙ left,
    )
