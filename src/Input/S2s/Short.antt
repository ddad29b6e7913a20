-- ===== src/Input/S2s/Short.antt =====
-- A forwarded message that is too short for the chat clients: the size of what FORWARD carries is
-- not tested before it is dispatched (src/ichat/s2s_client/ichat_s2s_client_ops.c).
use ichatd.Common.{
  ℕ, ◌+◌, ◌≤◌, ◌==◌, ◌≡◌, ◌⊎◌, ◌∙◌, refl, true, false, List, [], ◌∷◌, ◌++◌, Option, none, some,
  arith, Bytes, length, replicate, Lacks, Bool-cases, inl, inr, ◌>>=◌,
}
use ichatd.Decimal.{decimal}
use ichatd.Proto.Icc2s.{Icc2s, ichat_buffer_to_icc2s}
use ichatd.Proto.Ics2s.{ics2s_bytes}
use ichatd.Proto.Signature.{ichat_sig_is_broadcast}
use ichatd.Client.{
  Client, Impl, ctl_server, ichat_server, s2s_server, ctl_client, ichat_client, s2s_client,
}
use ichatd.Client.Chat.{ichat_client_add_message, size_ok}
use ichatd.Client.S2s.{forwarded}
use ichatd.Server.{Server, find_client, update_client, at_client}
use ichatd.Dispatch.{same_sig, broadcast_one, ichat_broadcast, route, ichat_dispatch}
use ichatd.Input.{registered}
use ichatd.Input.S2s.{ichat_s2s_client_process_message, is_authenticated}
use ichatd.Input.S2s.Forward.{forward_lem}

abbrev IsChat : Impl → Type 0
IsChat (ichat_client i) = Unit {0}
IsChat impl = ⊥

-- There is a chat client on the list.
abbrev pub HasChat : List Client → Type 0
HasChat [] = ⊥
HasChat (c ∷ cs) = IsChat c.impl ⊎ HasChat cs

registered-IsChat : (sig : Bytes) (c : Client) → IsChat c.impl → IsChat (registered sig c).impl
registered-IsChat sig c h = by_impl c.impl h
  where
    by_impl :
        (impl : Impl)
        → IsChat impl
        → let d : Client = record c { impl = impl } in IsChat (registered sig d).impl
    by_impl (ichat_client i) h = elim (Bool-cases (same_sig sig i.sig)) [
      | inl e ↦ rw e tt
      | inr e ↦ rw e tt
    ]
    by_impl ctl_server h = h
    by_impl ichat_server h = h
    by_impl s2s_server h = h
    by_impl (ctl_client i) h = h
    by_impl (s2s_client i) h = absurd h

HasChat-update :
    (sig : Bytes) (ptr : ℕ) (cs : List Client)
    → HasChat cs
    → HasChat (update_client ptr (registered sig) cs)
unfolding update_client
HasChat-update sig ptr [] h = h
HasChat-update sig ptr (c ∷ cs) h =
    by_turn (λ k. HasChat-update sig ptr cs k) (Bool-cases (c.ptr == ptr)) h
  where
    by_turn :
        (HasChat cs → HasChat (update_client ptr (registered sig) cs))
        → ((c.ptr == ptr) ≡ true) ⊎ ((c.ptr == ptr) ≡ false)
        → HasChat (c ∷ cs)
        → HasChat (update_client ptr (registered sig) (c ∷ cs))
    by_turn ih (inl e) (inl k) = rw (update_client, e) (inl (registered-IsChat sig c k))
    by_turn ih (inl e) (inr k) = rw (update_client, e) (inr k)
    by_turn ih (inr e) (inl k) = rw (update_client, e) (inl k)
    by_turn ih (inr e) (inr k) = rw (update_client, e) (inr (ih k))

module _ (name : Bytes) (stamp : ℕ → Bytes) (origin : ℕ) (msg : Bytes)
    (wrong : size_ok msg ≡ false) where
  broadcast_one-none : (c : Client) → IsChat c.impl → broadcast_one name stamp origin msg c ≡ none
  unfolding ichat_client_add_message
  broadcast_one-none c h = by_impl c.impl h
    where
      by_impl :
          (impl : Impl)
          → IsChat impl
          → let d : Client = record c { impl = impl } in
            broadcast_one name stamp origin msg d ≡ none
      by_impl (ichat_client i) h = rw wrong refl
      by_impl ctl_server h = absurd h
      by_impl ichat_server h = absurd h
      by_impl s2s_server h = absurd h
      by_impl (ctl_client i) h = absurd h
      by_impl (s2s_client i) h = absurd h

  -- A broadcast of a message of a wrong size fails on the first chat client.
  ichat_broadcast-none :
      (cs : List Client) → HasChat cs → ichat_broadcast name stamp origin msg cs ≡ none
  unfolding ichat_broadcast
  ichat_broadcast-none [] h = absurd h
  ichat_broadcast-none (c ∷ cs) (inl h) = rw (broadcast_one-none c h) refl
  ichat_broadcast-none (c ∷ cs) (inr h) =
      by_first (broadcast_one name stamp origin msg c) (ichat_broadcast-none cs h)
    where
      by_first :
          (o : Option Client)
          → ichat_broadcast name stamp origin msg cs ≡ none
          → (do c' ← o; cs' ← ichat_broadcast name stamp origin msg cs; some (c' ∷ cs')) ≡ none
      by_first none e = refl
      by_first (some c') e = rw e refl

-- A message that an authenticated server forwards, in the form in which it is sent, fails an
-- assertion if, with the zero bytes that are put behind it, it can be read, is for everybody and
-- has at most 20 bytes, and there is a chat client to get it.
pub short_forward :
    (stamp : ℕ → ℕ → Bytes) (s : Server) (ptr : ℕ) (name time msg : Bytes) (m : Icc2s)
    → let arrived = msg ++ replicate (length (decimal (length msg)) + 1) 0 in
      Lacks 0 name
      → Lacks 0 time
      → is_authenticated (find_client ptr s.clist) ≡ true
      → ichat_buffer_to_icc2s arrived ≡ some m
      → ichat_sig_is_broadcast m.receiver ≡ true
      → length arrived ≤ 20
      → HasChat s.clist
      → ichat_s2s_client_process_message stamp s ptr (ics2s_bytes (forwarded name time msg)) ≡ none
unfolding ichat_dispatch route
short_forward stamp s ptr name time msg m name_ok time_ok opened parsed everybody short chat =
    let arrived = msg ++ replicate (length (decimal (length msg)) + 1) 0 in
    let t = at_client ptr (registered name) s in
    let wrong : size_ok arrived ≡ false = ground arith in
    let sent =
      ichat_broadcast-none s.config.s2s_me.host (stamp s.ticks) ptr arrived wrong t.clist
        (HasChat-update name ptr s.clist chat) in
    forward_lem stamp s ptr name time msg name_ok time_ok opened ∙ rw (parsed, everybody, sent) refl
