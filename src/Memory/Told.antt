-- ===== src/Memory/Told.antt =====
-- Each client that `ichat_broadcast` reaches, and all of them, over shared buffers.
use ichatd.Common.{
  as_list, ℕ, ◌<◌, ◌≡◌, refl, sym, subst, Bool, true, false, List, ◌∷◌, ◌++◌, Option, some, Bytes,
  length, if◌then◌else◌, >>=-eq-some, eq_of_some,
}
use ichatd.Queue.{Queue}
use ichatd.Client.{
  Client, ChatImpl, S2sImpl, Impl, ctl_server, ichat_server, s2s_server, ctl_client, ichat_client,
  s2s_client,
}
use ichatd.Client.Chat.{ichat_client_add_message}
use ichatd.Client.S2s.{ichat_s2s_client_add_message}
use ichatd.Dispatch.{to_chat, is_peer, to_peer, broadcast_one}
use ichatd.Memory.{Memory, text, count, Counted, Kept}
use ichatd.Memory.Counts.{Counted-reorder}
use ichatd.Memory.Refine.{Represents}
use ichatd.Memory.Sharing.{chat_add_message_lem, s2s_add_message_lem}
use ichatd.Memory.Impl.{Buffers, owned}
use ichatd.Memory.Deliver.{chat, skip, link, add_message}
use ichatd.Memory.Sent.{moved, in_held}
use ichatd.Memory.Broadcast.{queue_of, Told, requeued_lem, broadcast_way}

-- A client that is not sent anything.
skipped :
    (i : Buffers) (m : Memory) (v : Queue) (held : List ℕ)
    → Counted m (owned i ++ held)
    → Represents m i.bo v
    → Told (some (i, m)) m v held
unfolding Told Kept
skipped i m v held c r = (i, m, refl, c, λ p l. refl, r)

module _ (my_name : Bytes) (stamp : ℕ → Bytes) (origin : ℕ) (junk : ℕ → Bytes)
    (enough : (n : ℕ) → length (junk n) ≡ n) where
  -- What is left of a client that stood for `c` and is sent a message by `add`.
  unfoldable pub After : (Option (Buffers × Memory)) → Client → Memory → List ℕ → Type 0
  After r c' m held = (v' : Queue) × (queue_of c' ≡ some v') × Told r m v' held

  told_chat :
      (c c' : Client) (j : ChatImpl) (i : Buffers) (msg : ℕ) (bytes : Bytes) (held : List ℕ)
      (m : Memory)
      → Represents m i.bo j.bo
      → Counted m (owned i ++ held)
      → 0 < count msg held
      → text m msg ≡ some bytes
      → to_chat bytes c j ≡ some c'
      → After (add_message junk chat msg i m) c' m held
  unfolding After add_message
  told_chat c c' j i msg bytes held m r counted live read h =
      let rest = i.bi ∷ (as_list i.sig ++ held) in
      let c₁ =
        Counted-reorder m (owned i ++ held) (i.bo.entries ++ rest)
          (λ p. moved p i.bo.entries i.bi (as_list i.sig) held) counted in
      let (j', sent, e) = >>=-eq-some (ichat_client_add_message bytes j) _ h in
      let run =
        chat_add_message_lem junk enough msg bytes j j' i.bo rest m c₁ r
          (in_held msg i.bi (as_list i.sig) held live) read sent in
      (
        j'.bo,
        subst (λ x. queue_of x ≡ some (j'.bo)) (eq_of_some e) refl,
        requeued_lem i _ m (j'.bo) held run,
      )

  told_peer :
      (b : Bool) (c c' : Client) (j : S2sImpl) (i : Buffers) (msg : ℕ) (bytes : Bytes)
      (held : List ℕ) (m : Memory)
      → Represents m i.bo j.bo
      → Counted m (owned i ++ held)
      → 0 < count msg held
      → text m msg ≡ some bytes
      → (if b
          then to_peer my_name stamp origin bytes c j
          else some (record c { impl = s2s_client j }))
        ≡ some c'
      → After (add_message junk (if b then link my_name (stamp c.ptr) else skip) msg i m) c' m held
  unfolding After add_message
  told_peer true c c' j i msg bytes held m r counted live read h =
      let rest = i.bi ∷ (as_list i.sig ++ held) in
      let c₁ =
        Counted-reorder m (owned i ++ held) (i.bo.entries ++ rest)
          (λ p. moved p i.bo.entries i.bi (as_list i.sig) held) counted in
      let (j', sent, e) =
        >>=-eq-some (ichat_s2s_client_add_message my_name (stamp c.ptr) bytes j) _ h in
      let run =
        s2s_add_message_lem junk enough my_name (stamp c.ptr) msg bytes j j' i.bo rest m c₁ r
          (in_held msg i.bi (as_list i.sig) held live) read sent in
      (
        j'.bo,
        subst (λ x. queue_of x ≡ some (j'.bo)) (eq_of_some e) refl,
        requeued_lem i _ m (j'.bo) held run,
      )
  told_peer false c c' j i msg bytes held m r counted live read h = (
    j.bo,
    subst (λ x. queue_of x ≡ some (j.bo)) (eq_of_some h) refl,
    skipped i m (j.bo) held counted r,
  )

  pub told_by_impl :
      (impl : Impl) (c c' : Client) (v : Queue) (i : Buffers) (msg : ℕ) (bytes : Bytes)
      (held : List ℕ) (m : Memory)
      → queue_of (record c { impl = impl }) ≡ some v
      → Represents m i.bo v
      → Counted m (owned i ++ held)
      → 0 < count msg held
      → text m msg ≡ some bytes
      → broadcast_one my_name stamp origin bytes (record c { impl = impl }) ≡ some c'
      → After
          (add_message junk (broadcast_way my_name stamp origin (record c { impl = impl })) msg i m)
          c'
          m
          held
  unfolding After add_message
  told_by_impl ctl_server c c' v i msg bytes held m e r counted live read h = cc
  told_by_impl ichat_server c c' v i msg bytes held m e r counted live read h = cc
  told_by_impl s2s_server c c' v i msg bytes held m e r counted live read h = cc
  told_by_impl (ctl_client j) c c' v i msg bytes held m e r counted live read h =
      (v, subst (λ x. queue_of x ≡ some v) (eq_of_some h) e, skipped i m v held counted r)
  told_by_impl (ichat_client j) c c' v i msg bytes held m e r counted live read h =
      told_chat c c' j i msg bytes held m (subst (λ x. Represents m i.bo x) (sym (eq_of_some e)) r)
        counted live read h
  told_by_impl (s2s_client j) c c' v i msg bytes held m e r counted live read h =
      told_peer (is_peer my_name stamp origin c j) c c' j i msg bytes held m
        (subst (λ x. Represents m i.bo x) (sym (eq_of_some e)) r) counted live read h
