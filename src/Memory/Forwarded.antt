-- ===== src/Memory/Forwarded.antt =====
-- What the runs of Forwarding do to the references of all clients: no fault, no leak.
use ichatd.Common.{
  ℕ, ◌<◌, ◌≡◌, refl, ◌∙◌, Bool, List, [], ◌∷◌, ◌++◌, Option, none, some, arith, Bytes, length,
  ◌>>=◌, assert,
}
use ichatd.Proto.Icc2s.{Icc2s, ichat_buffer_to_icc2s}
use ichatd.Proto.Ics2s.{Ics2s, ichat_buffer_to_ics2s, ics2s_sender, ics2s_command, ics2s_data}
use ichatd.Client.Chat.{size_ok}
use ichatd.Memory.{Memory, unref_at, text, count, Counted, Kept}
use ichatd.Memory.Counts.{count-append, ref_at_lem, unref_at_lem}
use ichatd.Memory.Refine.{Kept-trans, Kept-sub, free_entries_lem}
use ichatd.Memory.Fill.{new_buffer, new_buffer_lem}
use ichatd.Memory.Impl.{Buffers, owned_all}
use ichatd.Memory.Deliver.{Way}
use ichatd.Memory.Dispatched.{Runs, after_run, register_lem, dispatch_new}
use ichatd.Memory.Forwarding.{
  forwarded_part, dispatched, dispatch_any, forward_on, run_and_free, with_parts, s2s_processed,
  s2s_process_message, s2s_read_message,
}

-- A function's own references are among all.
own_of_all : (p : ℕ) (own all : List ℕ) → 0 < count p own → 0 < count p (own ++ all)
own_of_all p own all l = omega (arith, count-append p own all)

size_ok_of : (b : Bytes) → (20 < length b) × (length b < 4192) → assert (size_ok b) ≡ some tt
size_ok_of b (low, high) = ground arith

-- A run in which one reference, taken before, is given up at the end.
unref_last :
    (msg : ℕ) (own : List ℕ) (m : Memory) (r : Option (List Buffers × Memory))
    → Runs r m (msg ∷ own)
    → Runs (r >>= λ x. unref_at msg x.1 >>= λ m'. some (x.0, m')) m own
unfolding Runs
unref_last msg own m r (is, m₁, e, c, k) =
    let (m₂, e₂, c₂, k₂) = unref_at_lem msg m₁ (own ++ owned_all is) c in
    (
      is,
      m₂,
      rw (e, ◌>>=◌, e₂) refl,
      c₂,
      Kept-trans m m₁ m₂ (msg ∷ own) (own ++ owned_all is) own k k₂ (λ q l. omega arith)
          (λ q. own_of_all q own (owned_all is)),
    )

module _ (junk : ℕ → Bytes) (enough : (n : ℕ) → length (junk n) ≡ n) where
  new_run :
      (b : Bytes) (own : List ℕ) (is : List Buffers) (m : Memory)
      (k : ℕ × Memory → Option (List Buffers × Memory))
      → Counted m (own ++ owned_all is)
      → ((p : ℕ) (m' : Memory)
          → Counted m' ((p ∷ own) ++ owned_all is)
          → text m' p ≡ some b
          → Kept m m' own
          → Runs (k (p, m')) m' own)
      → Runs (new_buffer junk b m >>= k) m own
  new_run b own is m k c f =
      let (p, m₁, e, fr) = new_buffer_lem junk enough b (own ++ owned_all is) m c in
      let kept =
        Kept-sub m m₁ (own ++ owned_all is) own fr.kept (λ q. own_of_all q own (owned_all is)) in
      after_run k m m₁ own own e kept (λ q l. l) (f p m₁ fr.counted fr.reads kept)

  dispatched_lem :
      (ways : List Way) (msg : ℕ) (bytes : Bytes) (o : Option Icc2s) (is : List Buffers)
      (own : List ℕ) (m : Memory)
      → Counted m (msg ∷ (own ++ owned_all is))
      → 0 < count msg own
      → text m msg ≡ some bytes
      → assert (size_ok bytes) ≡ some tt
      → ichat_buffer_to_icc2s bytes ≡ o
      → Runs (dispatched junk ways msg is m o) m own
  unfolding Runs
  dispatched_lem ways msg bytes (some icmsg) is own m c live read ok parsed =
      dispatch_new junk enough ways msg bytes icmsg is own m c live read ok parsed
  dispatched_lem ways msg bytes none is own m c live read ok parsed =
      let (m₁, e₁, c₁, k₁) = unref_at_lem msg m (own ++ owned_all is) c in
      (
        is,
        m₁,
        rw e₁ refl,
        c₁,
        Kept-sub m m₁ (own ++ owned_all is) own k₁ (λ q. own_of_all q own (owned_all is)),
      )

  dispatch_any_lem :
      (ways : List Way) (msg : ℕ) (bytes : Bytes) (is : List Buffers) (own : List ℕ) (m : Memory)
      → Counted m (own ++ owned_all is)
      → 0 < count msg own
      → text m msg ≡ some bytes
      → assert (size_ok bytes) ≡ some tt
      → Runs (dispatch_any junk ways msg is m) m own
  unfolding dispatch_any Kept
  dispatch_any_lem ways msg bytes is own m c live read ok =
      let all = own ++ owned_all is in
      let there = own_of_all msg own (owned_all is) live in
      let (m₁, e₁, c₁, k₁) = ref_at_lem msg m all c there in
      after_run _ m m own own read (λ q l. refl) (λ q l. l)
        (after_run _ m m₁ own all e₁ k₁ (λ q. own_of_all q own (owned_all is))
          (dispatched_lem ways msg bytes (ichat_buffer_to_icc2s bytes) is own m₁ c₁ live
            (k₁ msg there ∙ read) ok refl))

  forward_on_lem :
      (ways : List Way) (inner : Option Bytes) (is : List Buffers) (own : List ℕ) (m : Memory)
      → Counted m (own ++ owned_all is)
      → ((bytes : Bytes) → inner ≡ some bytes → assert (size_ok bytes) ≡ some tt)
      → Runs (forward_on junk ways inner is m) m own
  unfolding forward_on Runs Kept
  forward_on_lem ways none is own m c ok = (is, m, refl, c, λ q l. refl)
  forward_on_lem ways (some bytes) is own m c ok = new_run bytes own is m _ c λ p m₁ c₁ read k₁.
      unref_last p own m₁ (dispatch_any junk ways p is m₁)
        (dispatch_any_lem ways p bytes is (p ∷ own) m₁ c₁ (ground arith) read (ok bytes refl))

  run_and_free_lem :
      (ways : List Way) (inner : Option Bytes) (cmd clnt_msg msg : ℕ) (is : List Buffers)
      (own : List ℕ) (m : Memory)
      → Counted m (cmd ∷ clnt_msg ∷ msg ∷ (own ++ owned_all is))
      → ((bytes : Bytes) → inner ≡ some bytes → assert (size_ok bytes) ≡ some tt)
      → Runs (run_and_free junk ways inner cmd clnt_msg msg is m) m own
  unfolding run_and_free Runs
  run_and_free_lem ways inner cmd clnt_msg msg is own m c ok =
      let own' = cmd ∷ clnt_msg ∷ msg ∷ own in
      let (is', m₁, e₁, c₁, k₁) = forward_on_lem ways inner is own' m c ok in
      let (m₂, e₂, c₂, k₂) =
        free_entries_lem (cmd ∷ clnt_msg ∷ msg ∷ []) (own ++ owned_all is') m₁ c₁ in
      (
        is',
        m₂,
        rw (e₁, ◌>>=◌, e₂) refl,
        c₂,
        Kept-trans m m₁ m₂ own' (own ++ owned_all is') own k₁ k₂ (λ q l. omega arith)
            (λ q. own_of_all q own (owned_all is')),
      )

  with_parts_lem :
      (ways : List Way) (authenticated : Bool) (msg : ℕ) (icmsg : Ics2s) (is : List Buffers)
      (own : List ℕ) (m : Memory)
      → Counted m (msg ∷ (own ++ owned_all is))
      → ((bytes : Bytes)
          → forwarded_part authenticated icmsg ≡ some bytes
          → assert (size_ok bytes) ≡ some tt)
      → Runs (with_parts junk ways authenticated msg icmsg is m) m own
  unfolding with_parts
  with_parts_lem ways authenticated msg icmsg is own m c ok =
      let all = msg ∷ (own ++ owned_all is) in
      let (p, m₁, e₁, f₁) = new_buffer_lem junk enough (ics2s_data icmsg) all m c in
      let (p', m₂, e₂, f₂) =
        new_buffer_lem junk enough (ics2s_command icmsg) (p ∷ all) m₁ f₁.counted in
      after_run _ m m₁ own all e₁ f₁.kept (λ q l. omega (arith, own_of_all q own (owned_all is)))
        (after_run _ m₁ m₂ own (p ∷ all) e₂ f₂.kept
          (λ q l. omega (arith, own_of_all q own (owned_all is)))
          (run_and_free_lem ways (forwarded_part authenticated icmsg) p' p msg is own m₂ f₂.counted
            ok))

  s2s_processed_lem :
      (ways : List Way) (changed authenticated : Bool) (msg : ℕ) (o : Option Ics2s) (self : Buffers)
      (others : List Buffers) (own : List ℕ) (m : Memory)
      → Counted m (msg ∷ (own ++ owned_all (self ∷ others)))
      → ((icmsg : Ics2s) (bytes : Bytes)
          → o ≡ some icmsg
          → forwarded_part authenticated icmsg ≡ some bytes
          → assert (size_ok bytes) ≡ some tt)
      → Runs (s2s_processed junk ways changed authenticated msg self others m o) m own
  unfolding Runs
  s2s_processed_lem ways changed authenticated msg none self others own m c ok =
      let all = own ++ owned_all (self ∷ others) in
      let (m₁, e₁, c₁, k₁) = unref_at_lem msg m all c in
      (
        self ∷ others,
        m₁,
        rw e₁ refl,
        c₁,
        Kept-sub m m₁ all own k₁ (λ q. own_of_all q own (owned_all (self ∷ others))),
      )
  s2s_processed_lem ways changed authenticated msg (some icmsg) self others own m c ok =
      let all = msg ∷ (own ++ owned_all (self ∷ others)) in
      let (p, m₁, e₁, f) = new_buffer_lem junk enough (ics2s_sender icmsg) all m c in
      let (self', m₂, e₂, c₂, k₂) =
        register_lem junk enough changed p self others (msg ∷ own) m₁ f.counted in
      after_run _ m m₁ own all e₁ f.kept
        (λ q l. omega (arith, own_of_all q own (owned_all (self ∷ others))))
        (after_run _ m₁ m₂ own (msg ∷ own) e₂ k₂ (λ q l. omega arith)
          (with_parts_lem ways authenticated msg icmsg (self' ∷ others) own m₂ c₂
            (λ b. ok icmsg b refl)))

  -- However the clients share their buffers, a message from another server is read, processed and, if
  -- the server is authenticated and the message is forwarded, delivered without a use of a buffer that
  -- is not there, provided that what is forwarded has a size that can be sent on. Behind it every
  -- buffer counts just the references that the clients hold.
  pub s2s_read_message_lem :
      (ways : List Way) (changed authenticated : Bool) (bytes : Bytes) (self : Buffers)
      (others : List Buffers) (m : Memory)
      → Counted m (owned_all (self ∷ others))
      → ((icmsg : Ics2s) (inner : Bytes)
          → ichat_buffer_to_ics2s bytes ≡ some icmsg
          → forwarded_part authenticated icmsg ≡ some inner
          → (20 < length inner) × (length inner < 4192))
      → (is : List Buffers) × (m' : Memory) × (s2s_read_message junk ways changed authenticated
            bytes self others m
          ≡ some (is, m'))
        × Counted m' (owned_all is)
  unfolding s2s_read_message s2s_process_message Runs Kept
  s2s_read_message_lem ways changed authenticated bytes self others m c sizes =
      let all = owned_all (self ∷ others) in
      let (p, m₁, e₁, f) = new_buffer_lem junk enough bytes all m c in
      let (m₂, e₂, c₂, k₂) = ref_at_lem p m₁ (p ∷ all) f.counted (ground arith) in
      let (is, m₃, e₃, c₃, k₃) =
        s2s_processed_lem ways changed authenticated p (ichat_buffer_to_ics2s bytes) self others
          (p ∷ []) m₂ c₂
          (λ icmsg inner parsed part. size_ok_of inner (sizes icmsg inner parsed part)) in
      let (m₄, e₄, c₄, k₄) = unref_at_lem p m₃ (owned_all is) c₃ in
      (is, m₄, rw (e₁, ◌>>=◌, f.reads, e₂, e₃, e₄) refl, c₄)
