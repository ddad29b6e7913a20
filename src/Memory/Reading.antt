-- ===== src/Memory/Reading.antt =====
-- A message from a chat client, from its buffer to the queues of all that get it: no fault, no leak.
use ichatd.Common.{
  ℕ, ◌<◌, ◌≡◌, refl, ◌∙◌, Bool, List, [], ◌∷◌, ◌++◌, Option, none, some, arith, Bytes, length,
  ◌>>=◌, assert,
}
use ichatd.Proto.Icc2s.{Icc2s, ichat_buffer_to_icc2s, icc2s_sender}
use ichatd.Client.Chat.{size_ok}
use ichatd.Memory.{Memory, text, count, Counted, Kept}
use ichatd.Memory.Counts.{count-append, ref_at_lem, unref_at_lem}
use ichatd.Memory.Refine.{Kept-trans, Kept-sub}
use ichatd.Memory.Fill.{new_buffer_lem}
use ichatd.Memory.Impl.{Buffers, owned_all}
use ichatd.Memory.Deliver.{
  Way, register_and_dispatch, process_read, processed, process_message, read_message,
}
use ichatd.Memory.Dispatched.{Runs, after_run, register_lem, dispatch_lem}

module _ (junk : ℕ → Bytes) (enough : (n : ℕ) → length (junk n) ≡ n) where
  -- `process_read` with the buffer of the new signature at hand.
  process_registered :
      (ways : List Way) (changed : Bool) (sig msg : ℕ) (bytes : Bytes) (icmsg : Icc2s)
      (self : Buffers) (others : List Buffers) (own : List ℕ) (m : Memory)
      → Counted m (sig ∷ msg ∷ (own ++ owned_all (self ∷ others)))
      → 0 < count msg own
      → text m msg ≡ some bytes
      → assert (size_ok bytes) ≡ some tt
      → ichat_buffer_to_icc2s bytes ≡ some icmsg
      → Runs (register_and_dispatch junk ways changed sig msg icmsg self others m) m own
  unfolding register_and_dispatch Runs Kept
  process_registered ways changed sig msg bytes icmsg self others own m c live read ok parsed =
      let both = msg ∷ own in
      let (self', m₁, e₁, c₁, k₁) = register_lem junk enough changed sig self others both m c in
      let (is, m₂, e₂, c₂, k₂) =
        dispatch_lem junk enough ways msg bytes icmsg (self' ∷ others) both m₁ c₁ (omega arith)
          (k₁ msg (ground arith) ∙ read) ok parsed in
      let (m₃, e₃, c₃, k₃) = unref_at_lem msg m₂ (own ++ owned_all is) c₂ in
      (
        is,
        m₃,
        rw (e₁, ◌>>=◌, e₂, e₃) refl,
        c₃,
        Kept-trans m m₂ m₃ both (own ++ owned_all is) own
            (Kept-trans m m₁ m₂ both both both k₁ k₂ (λ q l. l) (λ q l. l)) k₃ (λ q l. omega arith)
            (λ q l. omega (arith, count-append q own (owned_all is))),
      )

  process_read_lem :
      (ways : List Way) (changed : Bool) (msg : ℕ) (bytes : Bytes) (icmsg : Icc2s) (self : Buffers)
      (others : List Buffers) (own : List ℕ) (m : Memory)
      → Counted m (msg ∷ (own ++ owned_all (self ∷ others)))
      → 0 < count msg own
      → text m msg ≡ some bytes
      → assert (size_ok bytes) ≡ some tt
      → ichat_buffer_to_icc2s bytes ≡ some icmsg
      → Runs (process_read junk ways changed msg icmsg self others m) m own
  unfolding process_read Runs Kept
  process_read_lem ways changed msg bytes icmsg self others own m c live read ok parsed =
      let both = msg ∷ own in
      let all = own ++ owned_all (self ∷ others) in
      let (p, m₁, e₁, f) = new_buffer_lem junk enough (icc2s_sender icmsg) (msg ∷ all) m c in
      after_run _ m m₁ own (msg ∷ all) e₁ f.kept
        (λ q l. omega (arith, count-append q own (owned_all (self ∷ others))))
        (process_registered ways changed p msg bytes icmsg self others own m₁ f.counted live
          (f.kept msg (omega (arith, count-append msg own (owned_all (self ∷ others)))) ∙ read) ok
          parsed)

  processed_lem :
      (ways : List Way) (changed : Bool) (msg : ℕ) (bytes : Bytes) (o : Option Icc2s)
      (self : Buffers) (others : List Buffers) (own : List ℕ) (m : Memory)
      → Counted m (msg ∷ (own ++ owned_all (self ∷ others)))
      → 0 < count msg own
      → text m msg ≡ some bytes
      → assert (size_ok bytes) ≡ some tt
      → ichat_buffer_to_icc2s bytes ≡ o
      → Runs (processed junk ways changed msg self others m o) m own
  unfolding Runs
  processed_lem ways changed msg bytes (some icmsg) self others own m c live read ok parsed =
      process_read_lem ways changed msg bytes icmsg self others own m c live read ok parsed
  processed_lem ways changed msg bytes none self others own m c live read ok parsed =
      let all = own ++ owned_all (self ∷ others) in
      let (m₁, e₁, c₁, k₁) = unref_at_lem msg m all c in
      (
        self ∷ others,
        m₁,
        rw e₁ refl,
        c₁,
        Kept-sub m m₁ all own k₁
            (λ q l. omega (arith, count-append q own (owned_all (self ∷ others)))),
      )

  process_message_lem :
      (ways : List Way) (changed : Bool) (msg : ℕ) (bytes : Bytes) (self : Buffers)
      (others : List Buffers) (own : List ℕ) (m : Memory)
      → Counted m (own ++ owned_all (self ∷ others))
      → 0 < count msg own
      → text m msg ≡ some bytes
      → assert (size_ok bytes) ≡ some tt
      → Runs (process_message junk ways changed msg self others m) m own
  unfolding process_message Kept
  process_message_lem ways changed msg bytes self others own m c live read ok =
      let all = own ++ owned_all (self ∷ others) in
      let (m₁, e₁, c₁, k₁) =
        ref_at_lem msg m all c (omega (arith, count-append msg own (owned_all (self ∷ others)))) in
      let run =
        processed_lem ways changed msg bytes (ichat_buffer_to_icc2s bytes) self others own m₁ c₁
          live (k₁ msg (omega (arith, count-append msg own (owned_all (self ∷ others)))) ∙ read) ok
          refl in
      after_run _ m m own all read (λ q l. refl)
        (λ q l. omega (arith, count-append q own (owned_all (self ∷ others))))
        (after_run _ m m₁ own all e₁ k₁
          (λ q l. omega (arith, count-append q own (owned_all (self ∷ others)))) run)

  -- Where every buffer counts just the references that the clients hold, a message of a size
  -- strictly between the limits is read, processed and delivered without a use of a buffer that is
  -- not there, whether it can be parsed or not, whoever gets it, and whether or not the sender's
  -- signature changed; and behind it every buffer again counts just the references that the clients
  -- hold, so that none leaks.
  pub read_message_lem :
      (ways : List Way) (changed : Bool) (bytes : Bytes) (self : Buffers) (others : List Buffers)
      (m : Memory)
      → Counted m (owned_all (self ∷ others))
      → 20 < length bytes
      → length bytes < 4192
      → (is : List Buffers) × (m' : Memory) × (read_message junk ways changed bytes self others m
          ≡ some (is, m'))
        × Counted m' (owned_all is)
  unfolding read_message Runs
  read_message_lem ways changed bytes self others m c low high =
      let all = owned_all (self ∷ others) in
      let ok : assert (size_ok bytes) ≡ some tt = ground arith in
      let (p, m₁, e₁, f) = new_buffer_lem junk enough bytes all m c in
      let (is, m₂, e₂, c₂, k₂) =
        process_message_lem ways changed p bytes self others (p ∷ []) m₁ f.counted (ground arith)
          f.reads ok in
      let (m₃, e₃, c₃, k₃) = unref_at_lem p m₂ (owned_all is) c₂ in
      (is, m₃, rw (e₁, ◌>>=◌, e₂, e₃) refl, c₃)
