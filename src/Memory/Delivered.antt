-- ===== src/Memory/Delivered.antt =====
-- The loops of src/ichat/proto/ichat_dispatch.c over shared buffers: every client is sent the message,
-- and all references are counted.
use ichatd.Common.{
  ℕ, ◌<◌, ◌≡◌, refl, ◌∙◌, List, [], ◌∷◌, ◌++◌, some, arith, Bytes, length, ◌>>=◌, assert,
}
use ichatd.Proto.Icc2s.{Icc2s, ichat_buffer_to_icc2s}
use ichatd.Client.Chat.{size_ok}
use ichatd.Memory.{Memory, text, count, Counted, Kept}
use ichatd.Memory.Counts.{count-append, Counted-reorder}
use ichatd.Memory.Refine.{Kept-trans}
use ichatd.Memory.Impl.{Buffers, owned, owned_all}
use ichatd.Memory.Deliver.{Way, add_message, deliver}
use ichatd.Memory.Sent.{add_message_lem}

pub deliver_both :
    (junk : ℕ → Bytes) (way : Way) (ways : List Way) (msg : ℕ) (i i' : Buffers)
    (is is' : List Buffers) (m m₁ m₂ : Memory)
    → add_message junk way msg i m ≡ some (i', m₁)
    → deliver junk ways msg is m₁ ≡ some (is', m₂)
    → deliver junk (way ∷ ways) msg (i ∷ is) m ≡ some (i' ∷ is', m₂)
unfolding deliver
deliver_both junk way ways msg i i' is is' m m₁ m₂ e₁ e₂ = rw (e₁, ◌>>=◌, e₂) refl

module _ (junk : ℕ → Bytes) (enough : (n : ℕ) → length (junk n) ≡ n) where
  pub deliver_lem :
      (ways : List Way) (msg : ℕ) (bytes : Bytes) (icmsg : Icc2s) (is : List Buffers)
      (held : List ℕ) (m : Memory)
      → Counted m (owned_all is ++ held)
      → 0 < count msg held
      → text m msg ≡ some bytes
      → assert (size_ok bytes) ≡ some tt
      → ichat_buffer_to_icc2s bytes ≡ some icmsg
      → (is' : List Buffers) × (m' : Memory) × (deliver junk ways msg is m ≡ some (is', m'))
        × Counted m' (owned_all is' ++ held)
        × Kept m m' held
  unfolding deliver owned_all Kept
  deliver_lem ways msg bytes icmsg [] held m c live read ok parsed = ([], m, refl, c, λ q l. refl)
  deliver_lem [] msg bytes icmsg (i ∷ is) held m c live read ok parsed =
      (i ∷ is, m, refl, c, λ q l. refl)
  deliver_lem (way ∷ ways) msg bytes icmsg (i ∷ is) held m c live read ok parsed =
      let rest = owned_all is ++ held in
      let c₁ =
        Counted-reorder m ((owned i ++ owned_all is) ++ held) (owned i ++ rest)
          (λ p. omega (
            arith,
            count-append p (owned i ++ owned_all is) held,
            count-append p (owned i) (owned_all is),
            count-append p (owned i) rest,
            count-append p (owned_all is) held,
          ))
          c in
      let (i', m₁, e₁, d₁, k₁) =
        add_message_lem junk enough way msg bytes icmsg i rest m c₁
          (omega (arith, count-append msg (owned_all is) held)) read ok parsed in
      let all = owned i' ++ held in
      let c₂ =
        Counted-reorder m₁ (owned i' ++ rest) (owned_all is ++ all)
          (λ p. omega (
            arith,
            count-append p (owned i') rest,
            count-append p (owned_all is) held,
            count-append p (owned_all is) all,
            count-append p (owned i') held,
          ))
          d₁ in
      let read₁ = k₁ msg (omega (arith, count-append msg (owned_all is) held)) ∙ read in
      let (is', m₂, e₂, d₂, k₂) =
        deliver_lem ways msg bytes icmsg is all m₁ c₂
          (omega (arith, count-append msg (owned i') held)) read₁ ok parsed in
      (
        i' ∷ is',
        m₂,
        deliver_both junk way ways msg i i' is is' m m₁ m₂ e₁ e₂,
        Counted-reorder m₂ (owned_all is' ++ all) ((owned i' ++ owned_all is') ++ held)
            (λ p. omega (
              arith,
              count-append p (owned i' ++ owned_all is') held,
              count-append p (owned i') (owned_all is'),
              count-append p (owned_all is') all,
              count-append p (owned i') held,
            ))
            d₂,
        Kept-trans m m₁ m₂ rest all held k₁ k₂
            (λ p l. omega (arith, count-append p (owned_all is) held))
            (λ p l. omega (arith, count-append p (owned i') held)),
      )
