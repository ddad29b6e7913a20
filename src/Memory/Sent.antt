-- ===== src/Memory/Sent.antt =====
-- A client that is sent a shared message: the references of Deliver's `add_message`.
use ichatd.Common.{
  as_list, ℕ, ◌<◌, ◌≡◌, refl, sym, ap, ap₂, List, [], ◌∷◌, ◌++◌, map, Option, some, arith, Bytes,
  length, assert,
}
use mathlib.Core.Option
use ichatd.Buffer.{contents}
use ichatd.Proto.Icc2s.{Icc2s, ichat_buffer_to_icc2s}
use ichatd.Queue.{Queue}
use ichatd.Client.Chat.{size_ok, enqueue}
use ichatd.Client.S2s.{enqueue as s2s_enqueue}
use ichatd.Memory.{Memory, text, texts, count, Counted, Kept}
use ichatd.Memory.Counts.{count-append, Counted-reorder, held_cell}
use ichatd.Memory.Queue.{Pointers}
use ichatd.Memory.Refine.{Represents, Follows, Kept-sub}
use ichatd.Memory.Messages.{chat_add_message, s2s_add_message}
use ichatd.Memory.Sharing.{chat_pieces_lem, s2s_pieces_lem, after_step, ref_at-Made}
use ichatd.Memory.Impl.{Buffers, owned}
use ichatd.Memory.Deliver.{Way, chat, skip, link, requeued, add_message}

pub counted_text :
    (p : ℕ) (held : List ℕ) (m : Memory)
    → Counted m held
    → 0 < count p held
    → (b : Bytes) × (text m p ≡ some b)
unfolding Counted
counted_text p held m c live =
    let (b, here, _, _) = held_cell (m.cell p) (c.0 p) live in
    (contents b, ap (Option.map contents) here)

-- What is read of every counted reference.
represented :
    (ps held : List ℕ) (m : Memory)
    → Counted m held
    → ((p : ℕ) → 0 < count p ps → 0 < count p held)
    → (bs : List Bytes) × (texts m ps ≡ map some bs)
represented [] held m c sub = ([], refl)
represented (p ∷ ps) held m c sub =
    let (b, e) = counted_text p held m c (sub p (ground arith)) in
    let (bs, es) = represented ps held m c (λ q l. sub q (ground arith)) in
    (b ∷ bs, ap₂ (λ x y. x ∷ y) e es)

pub in_held : (p bi : ℕ) (sig held : List ℕ) → 0 < count p held → 0 < count p (bi ∷ (sig ++ held))
in_held p bi sig held live = omega (arith, count-append p sig held)

in_both :
    (p : ℕ) (ps : List ℕ) (bi : ℕ) (sig held : List ℕ)
    → 0 < count p held
    → 0 < count p (ps ++ (bi ∷ (sig ++ held)))
in_both p ps bi sig held live =
    omega (arith, count-append p ps (bi ∷ (sig ++ held)), in_held p bi sig held live)

-- What a run over the queue of a client does to the references of the client.
pub moved :
    (p : ℕ) (ps : List ℕ) (bi : ℕ) (sig held : List ℕ)
    → count p (ps ++ (bi ∷ (sig ++ held))) ≡ count p ((bi ∷ (ps ++ sig)) ++ held)
moved p ps bi sig held = omega (
  arith,
  count-append p ps (bi ∷ (sig ++ held)),
  count-append p sig held,
  count-append p (ps ++ sig) held,
  count-append p ps sig,
)

pub queued :
    (i : Buffers) (held : List ℕ) (m : Memory) (f : Option (Pointers × Memory))
    (change : Queue → Queue)
    → Counted m (owned i ++ held)
    → ((v : Queue)
        → Counted m (i.bo.entries ++ (i.bi ∷ (as_list i.sig ++ held)))
        → Represents m i.bo v
        → Follows f m (change v) (i.bi ∷ (as_list i.sig ++ held)))
    → (i' : Buffers) × (m' : Memory) × (requeued i f ≡ some (i', m'))
      × Counted m' (owned i' ++ held)
      × Kept m m' held
unfolding Follows Represents
queued i held m f change c run =
    let rest = i.bi ∷ (as_list i.sig ++ held) in
    let order = λ (ps : List ℕ) (p : ℕ). moved p ps i.bi (as_list i.sig) held in
    let c₁ = Counted-reorder m (owned i ++ held) (i.bo.entries ++ rest) (order i.bo.entries) c in
    let (bs, t) =
      represented i.bo.entries (i.bo.entries ++ rest) m c₁
        (λ p l. omega (arith, count-append p i.bo.entries rest)) in
    let (q, m', e, r) = run (record { entries = bs; offset = i.bo.offset }) c₁ (t, refl) in
    let i' = record i { bo = q } in
    (
      i',
      m',
      rw e refl,
      Counted-reorder m' (q.entries ++ rest) (owned i' ++ held) (λ p. sym (order q.entries p))
          r.counted,
      Kept-sub m m' rest held r.kept (λ p l. omega (arith, count-append p (as_list i.sig) held)),
    )

-- The client is sent a message that others refer to: every reference is still counted.
pub add_message_lem :
    (junk : ℕ → Bytes) (enough : (n : ℕ) → length (junk n) ≡ n) (w : Way) (msg : ℕ) (bytes : Bytes)
    (icmsg : Icc2s) (i : Buffers) (held : List ℕ) (m : Memory)
    → Counted m (owned i ++ held)
    → 0 < count msg held
    → text m msg ≡ some bytes
    → assert (size_ok bytes) ≡ some tt
    → ichat_buffer_to_icc2s bytes ≡ some icmsg
    → (i' : Buffers) × (m' : Memory) × (add_message junk w msg i m ≡ some (i', m'))
      × Counted m' (owned i' ++ held)
      × Kept m m' held
unfolding add_message chat_add_message s2s_add_message Kept
add_message_lem junk enough skip msg bytes icmsg i held m c live read ok parsed =
    (i, m, refl, c, λ q l. refl)
add_message_lem junk enough chat msg bytes icmsg i held m c live read ok parsed =
    queued i held m _ (enqueue icmsg) c λ v c₁ r.
      let rest = i.bi ∷ (as_list i.sig ++ held) in
      let (m₁, e₁, d₁) =
        ref_at-Made msg bytes m (i.bo.entries ++ rest) c₁
          (in_both msg i.bo.entries i.bi (as_list i.sig) held live) read in
      after_step _ m _ rest read (
        after_step _ m _ rest ok (
          after_step _ m _ rest e₁ (
            after_step _ m _ rest parsed (
              chat_pieces_lem junk enough msg bytes icmsg i.bo v rest m m₁ d₁ r
                (in_held msg i.bi (as_list i.sig) held live)))))
add_message_lem junk enough (link n t) msg bytes icmsg i held m c live read ok parsed =
    queued i held m _ (s2s_enqueue n t bytes) c λ v c₁ r.
      let rest = i.bi ∷ (as_list i.sig ++ held) in
      after_step _ m _ rest read (
        after_step _ m _ rest ok (
          s2s_pieces_lem junk enough n t bytes msg i.bo v rest m c₁ r
            (in_held msg i.bi (as_list i.sig) held live) read))
