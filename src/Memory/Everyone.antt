-- ===== src/Memory/Everyone.antt =====
-- `ichat_broadcast` of src/ichat/proto/ichat_dispatch.c over shared buffers, for the whole list of clients.
use ichatd.Common.{
  as_list, ℕ, ◌<◌, ◌≡◌, refl, sym, ◌∙◌, ap, subst, List, [], ◌∷◌, ◌++◌, Option, none, some, arith,
  Bytes, length, >>=-eq-some, eq_of_some,
}
use ichatd.Queue.{Queue}
use ichatd.Client.{
  Client, Impl, ctl_server, ichat_server, s2s_server, ctl_client, ichat_client, s2s_client,
}
use ichatd.Dispatch.{broadcast_one, ichat_broadcast}
use ichatd.Memory.{Memory, text, count, Counted, Kept}
use ichatd.Memory.Counts.{count-append, Counted-reorder}
use ichatd.Memory.Refine.{Kept-trans}
use ichatd.Memory.Impl.{Buffers, owned, owned_all}
use ichatd.Memory.Deliver.{deliver}
use ichatd.Memory.Delivered.{deliver_both}
use ichatd.Memory.Broadcast.{
  queue_of, StandFor, nobody, socket, served, Kept-Represents, Kept-StandFor, Told, broadcast_way,
  broadcast_ways, add_way,
}
use ichatd.Memory.Told.{After, told_by_impl}

module _ (my_name : Bytes) (stamp : ℕ → Bytes) (origin : ℕ) where
  -- A listening socket is passed over.
  socket_passed :
      (impl : Impl) (c : Client) (bytes : Bytes)
      → queue_of (record c { impl = impl }) ≡ none
      → broadcast_one my_name stamp origin bytes (record c { impl = impl })
        ≡ some (record c { impl = impl })
  socket_passed ctl_server c bytes e = refl
  socket_passed ichat_server c bytes e = refl
  socket_passed s2s_server c bytes e = refl
  socket_passed (ctl_client j) c bytes e = cc
  socket_passed (ichat_client j) c bytes e = cc
  socket_passed (s2s_client j) c bytes e = cc

  ways_none :
      (c : Client) (cs : List Client)
      → queue_of c ≡ none
      → broadcast_ways my_name stamp origin (c ∷ cs) ≡ broadcast_ways my_name stamp origin cs
  unfolding broadcast_ways
  ways_none c cs e =
      ap
        (λ o.
          add_way o (broadcast_way my_name stamp origin c) (broadcast_ways my_name stamp origin cs))
        e

  ways_some :
      (c : Client) (cs : List Client) (v : Queue)
      → queue_of c ≡ some v
      → broadcast_ways my_name stamp origin (c ∷ cs)
        ≡ broadcast_way my_name stamp origin c ∷ broadcast_ways my_name stamp origin cs
  unfolding broadcast_ways
  ways_some c cs v e =
      ap
        (λ o.
          add_way o (broadcast_way my_name stamp origin c) (broadcast_ways my_name stamp origin cs))
        e

  -- The broadcast of the first client, and that of the others.
  broadcast_both :
      (c : Client) (cs cs' : List Client) (bytes : Bytes)
      → ichat_broadcast my_name stamp origin bytes (c ∷ cs) ≡ some cs'
      → (c' : Client) × (ds : List Client) × (broadcast_one my_name stamp origin bytes c ≡ some c')
        × (ichat_broadcast my_name stamp origin bytes cs ≡ some ds)
        × ((c' ∷ ds) ≡ cs')
  unfolding ichat_broadcast
  broadcast_both c cs cs' bytes h =
      let (c', one, h₁) = >>=-eq-some (broadcast_one my_name stamp origin bytes c) _ h in
      let (ds, more, h₂) = >>=-eq-some (ichat_broadcast my_name stamp origin bytes cs) _ h₁ in
      (c', ds, one, more, eq_of_some h₂)

  module _ (junk : ℕ → Bytes) (enough : (n : ℕ) → length (junk n) ≡ n) (msg : ℕ)
      (bytes : Bytes) where
    -- What the run leaves: a state that stands for the clients `cs`.
    unfoldable pub Leaves : Option (List Buffers × Memory) → Memory → List ℕ → List Client → Type 0
    Leaves r m held cs =
        (is : List Buffers) × (m' : Memory) × (r ≡ some (is, m'))
        × Counted m' (owned_all is ++ held)
        × Kept m m' held
        × StandFor m' cs is

    -- For clients whose buffer queues stand for their queues of contents, all references counted,
    -- and a message that something else refers to: where `ichat_broadcast` meets no failed
    -- assertion, the loop over shared buffers meets no fault. It leaves the clients with buffer
    -- queues that stand for the queues of `ichat_broadcast`, every reference counted, the new ones
    -- just those of the queues, and all others reading what they read.
    pub broadcast_lem :
        (cs cs' : List Client) (is : List Buffers) (held : List ℕ) (m : Memory)
        → StandFor m cs is
        → Counted m (owned_all is ++ held)
        → 0 < count msg held
        → text m msg ≡ some bytes
        → ichat_broadcast my_name stamp origin bytes cs ≡ some cs'
        → Leaves (deliver junk (broadcast_ways my_name stamp origin cs) msg is m) m held cs'
    unfolding Leaves ichat_broadcast broadcast_ways deliver owned_all Kept After Told
    broadcast_lem [] cs' [] held m nobody counted live read h =
        ([], m, refl, counted, λ q l. refl, subst (λ x. StandFor m x []) (eq_of_some h) nobody)
    broadcast_lem [] cs' (i ∷ is) held m s counted live read h = elim s [ ]
    broadcast_lem (c ∷ ds) cs' is held m (socket _ e s) counted live read h =
        let (c', ds', one, more, same) = broadcast_both c ds cs' bytes h in
        let (is', m', run, counted', kept, s') =
          broadcast_lem ds ds' is held m s counted live read more in
        let itself : c ≡ c' = eq_of_some (sym (socket_passed c.impl c bytes e) ∙ one) in
        (
          is',
          m',
          ap (λ w. deliver junk w msg is m) (ways_none c ds e) ∙ run,
          counted',
          kept,
          subst (λ x. StandFor m' x is') (ap (λ x. x ∷ ds') itself ∙ same) (socket c e s'),
        )
    broadcast_lem (c ∷ ds) cs' (i ∷ js) held m (served _ _ v e r s) counted live read h =
        let (c', ds', one, more, same) = broadcast_both c ds cs' bytes h in
        let rest = owned_all js ++ held in
        let c₁ =
          Counted-reorder m ((owned i ++ owned_all js) ++ held) (owned i ++ rest)
            (λ p. omega (
              arith,
              count-append p (owned i ++ owned_all js) held,
              count-append p (owned i) (owned_all js),
              count-append p (owned i) rest,
              count-append p (owned_all js) held,
            ))
            counted in
        let (v', e', told) =
          told_by_impl my_name stamp origin junk enough c.impl c c' v i msg bytes rest m e r c₁
            (omega (arith, count-append msg (owned_all js) held)) read one in
        let (i', m₁, run, c₂, k₁, r') = told in
        let all = owned i' ++ held in
        let c₃ =
          Counted-reorder m₁ (owned i' ++ rest) (owned_all js ++ all)
            (λ p. omega (
              arith,
              count-append p (owned i') rest,
              count-append p (owned_all js) held,
              count-append p (owned_all js) all,
              count-append p (owned i') held,
            ))
            c₂ in
        let s₁ =
          Kept-StandFor m m₁ ds js rest k₁
            (λ p l. omega (arith, count-append p (owned_all js) held)) s in
        let (js', m₂, run', c₄, k₂, s₂) =
          broadcast_lem ds ds' js all m₁ s₁ c₃ (omega (arith, count-append msg (owned i') held))
            (k₁ msg (omega (arith, count-append msg (owned_all js) held)) ∙ read) more in
        (
          i' ∷ js',
          m₂,
          ap (λ w. deliver junk w msg (i ∷ js) m) (ways_some c ds v e)
              ∙ deliver_both junk (broadcast_way my_name stamp origin c)
                  (broadcast_ways my_name stamp origin ds) msg i i' js js' m m₁ m₂ run run',
          Counted-reorder m₂ (owned_all js' ++ all) ((owned i' ++ owned_all js') ++ held)
              (λ p. omega (
                arith,
                count-append p (owned i' ++ owned_all js') held,
                count-append p (owned i') (owned_all js'),
                count-append p (owned_all js') all,
                count-append p (owned i') held,
              ))
              c₄,
          Kept-trans m m₁ m₂ rest all held k₁ k₂
              (λ p l. omega (arith, count-append p (owned_all js) held))
              (λ p l. omega (arith, count-append p (owned i') held)),
          subst (λ x. StandFor m₂ x (i' ∷ js')) same
              (served c' i' v' e'
                (Kept-Represents m₁ m₂ i'.bo v' all k₂
                  (λ p l. omega (
                    arith,
                    count-append p (owned i') held,
                    count-append p i'.bo.entries (as_list i'.sig),
                  ))
                  r')
                s₂),
        )
