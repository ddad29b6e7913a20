-- ===== src/Memory/Dispatched.antt =====
-- Registering a sender and dispatching a message over shared buffers, src/ichat/proto/ichat_dispatch.c:
-- what the runs of Deliver do to the references of all clients.
use ichatd.Common.{
  as_list, ℕ, ◌<◌, ◌≡◌, refl, ◌∙◌, Bool, true, false, List, [], ◌∷◌, ◌++◌, Option, some, arith,
  Bytes, length, ◌>>=◌, assert,
}
use ichatd.Proto.Icc2s.{Icc2s, ichat_buffer_to_icc2s, icc2s_receiver}
use ichatd.Client.Chat.{size_ok}
use ichatd.Memory.{Memory, text, count, Counted, Kept}
use ichatd.Memory.Counts.{count-append, Counted-reorder, ref_at_lem, unref_at_lem}
use ichatd.Memory.Refine.{Kept-trans, Kept-sub, free_entries_lem}
use ichatd.Memory.Fill.{new_buffer_lem}
use ichatd.Memory.Impl.{Buffers, owned_all}
use ichatd.Memory.Deliver.{Way, register, deliver_and_free, dispatch_rest, dispatch}
use ichatd.Memory.Delivered.{deliver_lem}

-- What a run over all clients answers: it meets no fault, and behind it the references of the clients
-- and the run's own are counted; what the run itself refers to reads what it read.
unfoldable pub Runs : Option (List Buffers × Memory) → Memory → List ℕ → Type 0
Runs r m own =
    (is : List Buffers) × (m' : Memory) × (r ≡ some (is, m'))
    × Counted m' (own ++ owned_all is)
    × Kept m m' own

-- The new signature of a client in place of the old one.
exchanged :
    (p sig bi : ℕ) (es old own rest : List ℕ)
    → count p (old ++ (own ++ ((bi ∷ (es ++ sig ∷ [])) ++ rest)))
      ≡ count p (sig ∷ (own ++ ((bi ∷ (es ++ old)) ++ rest)))
exchanged p sig bi es old own rest = omega (
  arith,
  count-append p old (own ++ ((bi ∷ (es ++ sig ∷ [])) ++ rest)),
  count-append p own ((bi ∷ (es ++ sig ∷ [])) ++ rest),
  count-append p (es ++ sig ∷ []) rest,
  count-append p es (sig ∷ []),
  count-append p own ((bi ∷ (es ++ old)) ++ rest),
  count-append p (es ++ old) rest,
  count-append p es old,
)

-- Two lists of references in the other order.
pub turned : (p : ℕ) (xs ys : List ℕ) → count p (xs ++ ys) ≡ count p (ys ++ xs)
turned p xs ys = omega (arith, count-append p xs ys, count-append p ys xs)

-- A step that answers, and what follows it.
pub after_run :
    {A : Type 0} {o : Option A} {a : A} (k : A → Option (List Buffers × Memory)) (m m₁ : Memory)
    (own all : List ℕ)
    → o ≡ some a
    → Kept m m₁ all
    → ((p : ℕ) → 0 < count p own → 0 < count p all)
    → Runs (k a) m₁ own
    → Runs (o >>= k) m own
unfolding Runs
after_run k m m₁ own all e kept sub (is, m₂, e₂, c, kept₂) =
    (is, m₂, rw e e₂, c, Kept-trans m m₁ m₂ all own own kept kept₂ sub (λ p l. l))

module _ (junk : ℕ → Bytes) (enough : (n : ℕ) → length (junk n) ≡ n) where
  pub register_lem :
      (changed : Bool) (sig : ℕ) (self : Buffers) (others : List Buffers) (own : List ℕ)
      (m : Memory)
      → Counted m (sig ∷ (own ++ owned_all (self ∷ others)))
      → (self' : Buffers) × (m' : Memory) × (register changed sig self m ≡ some (self', m'))
        × Counted m' (own ++ owned_all (self' ∷ others))
        × Kept m m' own
  unfolding register owned_all
  register_lem false sig self others own m c =
      let all = own ++ owned_all (self ∷ others) in
      let (m', e, c', k) = unref_at_lem sig m all c in
      (
        self,
        m',
        rw e refl,
        c',
        Kept-sub m m' all own k
            (λ p l. omega (arith, count-append p own (owned_all (self ∷ others)))),
      )
  register_lem true sig self others own m c =
      let self' = record self { sig = some sig } in
      let all = own ++ owned_all (self' ∷ others) in
      let c₁ =
        Counted-reorder m (sig ∷ (own ++ owned_all (self ∷ others))) (as_list self.sig ++ all)
          (λ p. exchanged p sig self.bi self.bo.entries (as_list self.sig) own (owned_all others))
          c in
      let (m', e, c', k) = free_entries_lem (as_list self.sig) all m c₁ in
      (
        self',
        m',
        rw e refl,
        c',
        Kept-sub m m' all own k
            (λ p l. omega (arith, count-append p own (owned_all (self' ∷ others)))),
      )

  -- The loops of the dispatcher, and the end of `ichat_dispatch`.
  dispatch_to :
      (ways : List Way) (p msg : ℕ) (bytes : Bytes) (icmsg : Icc2s) (is : List Buffers)
      (own : List ℕ) (m : Memory)
      → Counted m (p ∷ msg ∷ (own ++ owned_all is))
      → 0 < count msg own
      → text m msg ≡ some bytes
      → assert (size_ok bytes) ≡ some tt
      → ichat_buffer_to_icc2s bytes ≡ some icmsg
      → Runs (deliver_and_free junk ways p msg is m) m own
  unfolding deliver_and_free Runs
  dispatch_to ways p msg bytes icmsg is own m c live read ok parsed =
      let held = p ∷ msg ∷ own in
      let c₁ =
        Counted-reorder m (held ++ owned_all is) (owned_all is ++ held)
          (λ q. turned q (owned_all is) held) c in
      let (is', m₁, e₁, d₁, k₁) =
        deliver_lem junk enough ways msg bytes icmsg is held m c₁ (omega arith) read ok parsed in
      let c₂ =
        Counted-reorder m₁ (owned_all is' ++ held) (held ++ owned_all is')
          (λ q. turned q held (owned_all is')) d₁ in
      let (m₂, e₂, d₂, k₂) = free_entries_lem (p ∷ msg ∷ []) (own ++ owned_all is') m₁ c₂ in
      (
        is',
        m₂,
        rw (e₁, ◌>>=◌, e₂) refl,
        d₂,
        Kept-trans m m₁ m₂ held (own ++ owned_all is') own k₁ k₂ (λ q l. omega arith)
            (λ q l. omega (arith, count-append q own (owned_all is'))),
      )

  -- `ichat_dispatch` behind its reference to the message.
  pub dispatch_new :
      (ways : List Way) (msg : ℕ) (bytes : Bytes) (icmsg : Icc2s) (is : List Buffers) (own : List ℕ)
      (m : Memory)
      → Counted m (msg ∷ (own ++ owned_all is))
      → 0 < count msg own
      → text m msg ≡ some bytes
      → assert (size_ok bytes) ≡ some tt
      → ichat_buffer_to_icc2s bytes ≡ some icmsg
      → Runs (dispatch_rest junk ways msg icmsg is m) m own
  unfolding dispatch_rest Runs Kept
  dispatch_new ways msg bytes icmsg is own m c live read ok parsed =
      let all = own ++ owned_all is in
      let (p, m₁, e₁, f) = new_buffer_lem junk enough (icc2s_receiver icmsg) (msg ∷ all) m c in
      after_run _ m m₁ own (msg ∷ all) e₁ f.kept
        (λ q l. omega (arith, count-append q own (owned_all is)))
        (dispatch_to ways p msg bytes icmsg is own m₁ f.counted live
          (f.kept msg (omega (arith, count-append msg own (owned_all is))) ∙ read) ok parsed)

  pub dispatch_lem :
      (ways : List Way) (msg : ℕ) (bytes : Bytes) (icmsg : Icc2s) (is : List Buffers) (own : List ℕ)
      (m : Memory)
      → Counted m (own ++ owned_all is)
      → 0 < count msg own
      → text m msg ≡ some bytes
      → assert (size_ok bytes) ≡ some tt
      → ichat_buffer_to_icc2s bytes ≡ some icmsg
      → Runs (dispatch junk ways msg icmsg is m) m own
  unfolding dispatch Runs Kept
  dispatch_lem ways msg bytes icmsg is own m c live read ok parsed =
      let all = own ++ owned_all is in
      let (m₁, e₁, c₁, k₁) =
        ref_at_lem msg m all c (omega (arith, count-append msg own (owned_all is))) in
      after_run _ m m₁ own all e₁ k₁ (λ p l. omega (arith, count-append p own (owned_all is)))
        (dispatch_new ways msg bytes icmsg is own m₁ c₁ live
          (k₁ msg (omega (arith, count-append msg own (owned_all is))) ∙ read) ok parsed)
