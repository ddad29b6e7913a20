-- ===== src/Memory/Sharing.antt =====
-- The `add_message` operations over shared buffers send what Client.Chat and Client.S2s say, and give
-- up every reference of their own.
use ichatd.Common.{
  ℕ, ◌+◌, ◌<◌, ◌≡◌, refl, ◌∙◌, ap, ap₂, subst, List, [], ◌∷◌, ◌++◌, map, Option, none, some, arith,
  Bytes, length, ◌>>=◌, assert, >>=-eq-some, eq_of_some, get_or,
}
use ichatd.Memory.{Memory, alloc_at, ref_at, text, texts, count, Counted, Kept}
use ichatd.Memory.Counts.{count-append, ref_at_lem, unref_at_lem, alloc_at-Counted, alloc_at-Kept}
use ichatd.Memory.Queue.{Pointers}
use ichatd.Memory.Refine.{Represents, Follows, Kept-trans}
use ichatd.Memory.Write.{in_rest}
use ichatd.Memory.Fill.{new_buffer}
use ichatd.Memory.Messages.{
  chat_pieces, chat_add_message, s2s_pieces, s2s_add_message, ctl_respond, ctl_echo, head_text,
}
use ichatd.Memory.Send.{Made, send_lem, new_buffer-Made}
use ichatd.Proto.Icc2s.{Icc2s, ichat_buffer_to_icc2s, icc2s_command, icc2s_data}
use ichatd.Queue.{Queue, buffer_queue_append}
use ichatd.Client.{ChatImpl, S2sImpl}
use ichatd.Client.Chat.{size_ok, enqueue, ichat_client_add_message}
use ichatd.Client.S2s.{forward_cmd, enqueue as s2s_enqueue, ichat_s2s_client_add_message}

-- A function that has no reference of its own yet.
pub none_yet : (m : Memory) (held : List ℕ) → Counted m held → Made m m [] [] held
unfolding Kept
none_yet m held c = record { counted = c; kept = λ q l. refl; read = refl }

-- A reference is taken to a buffer that others refer to.
pub ref_at-Made :
    (p : ℕ) (b : Bytes) (m : Memory) (held : List ℕ)
    → Counted m held
    → 0 < count p held
    → text m p ≡ some b
    → (m' : Memory) × (ref_at p m ≡ some m') × Made m m' (p ∷ []) (b ∷ []) held
unfolding Kept
ref_at-Made p b m held c live read =
    let (m', e, c', k) = ref_at_lem p m held c live in
    (m', e, record { counted = c'; kept = k; read = ap (λ x. x ∷ []) (k p live ∙ read) })

-- A step that answers leaves the outcome to what follows.
pub after_step :
    {A : Type 0} {o : Option A} {a : A} (k : A → Option (Pointers × Memory)) (m : Memory)
    (v : Queue) (held : List ℕ)
    → o ≡ some a
    → Follows (k a) m v held
    → Follows (o >>= k) m v held
after_step k m v held e run = rw e run

-- The two lists of pieces of a message that a chat client is sent, in the order in which they are
-- made and in which they are queued.
chat_order :
    (m : Memory) (head cmd z rest msg : ℕ) (h c d y x : Bytes)
    → texts m (head ∷ rest ∷ z ∷ cmd ∷ msg ∷ []) ≡ map some (h ∷ d ∷ y ∷ c ∷ x ∷ [])
    → texts m (head ∷ cmd ∷ z ∷ rest ∷ []) ≡ map some (h ∷ c ∷ y ∷ d ∷ [])
chat_order m head cmd z rest msg h c d y x e =
    ap (λ r. get_or r 0 none ∷ get_or r 3 none ∷ get_or r 2 none ∷ get_or r 1 none ∷ []) e

s2s_order :
    (m : Memory) (head cmd msg : ℕ) (h c b : Bytes)
    → texts m (head ∷ cmd ∷ []) ≡ map some (h ∷ c ∷ [])
    → text m msg ≡ some b
    → texts m (head ∷ cmd ∷ msg ∷ []) ≡ map some (h ∷ c ∷ b ∷ [])
s2s_order m head cmd msg h c b e read =
    ap₂ (λ r x. get_or r 0 none ∷ get_or r 1 none ∷ x ∷ []) e read

module _ (junk : ℕ → Bytes) (enough : (n : ℕ) → length (junk n) ≡ n) where
  -- A new buffer, and what is done with it.
  new_then :
      (m₀ m : Memory) (own : List ℕ) (bs : List Bytes) (all : List ℕ) (b : Bytes)
      (k : ℕ × Memory → Option (Pointers × Memory)) (v : Queue) (held : List ℕ)
      → Made m₀ m own bs all
      → ((p : ℕ) (m' : Memory) → Made m₀ m' (p ∷ own) (b ∷ bs) all → Follows (k (p, m')) m₀ v held)
      → Follows (new_buffer junk b m >>= k) m₀ v held
  new_then m₀ m own bs all b k v held made f =
      let (p, m', e, d) = new_buffer-Made junk enough m₀ m own bs all b made in
      after_step k m₀ v held e (f p m' d)

  -- The run of `chat_add_message` behind its assertions.
  pub chat_pieces_lem :
      (msg : ℕ) (bytes : Bytes) (icmsg : Icc2s) (q : Pointers) (v : Queue) (held : List ℕ)
      (m m₁ : Memory)
      → Made m m₁ (msg ∷ []) (bytes ∷ []) (q.entries ++ held)
      → Represents m q v
      → 0 < count msg held
      → Follows (chat_pieces junk icmsg msg q m₁) m (enqueue icmsg v) held
  unfolding chat_pieces enqueue
  chat_pieces_lem msg bytes icmsg q v held m m₁ d₁ r live =
      let cmd = icc2s_command icmsg in
      let rest = icc2s_data icmsg in
      let all = q.entries ++ held in
      let head = head_text (length cmd + 1 + length rest) in
      new_then m m₁ (msg ∷ []) (bytes ∷ []) all cmd _ _ held d₁ λ p₂ m₂ d₂.
        new_then m m₂ _ _ all (0 ∷ []) _ _ held d₂ λ p₃ m₃ d₃.
          new_then m m₃ _ _ all rest _ _ held d₃ λ p₄ m₄ d₄.
            new_then m m₄ _ _ all head _ _ held d₄ λ p₅ m₅ d₅.
              send_lem (p₅ ∷ p₂ ∷ p₃ ∷ p₄ ∷ []) (p₅ ∷ p₄ ∷ p₃ ∷ p₂ ∷ msg ∷ [])
                (head ∷ cmd ∷ (0 ∷ []) ∷ rest ∷ []) _ q v held m m₅ d₅ r (λ x l. omega arith)
                (chat_order m₅ p₅ p₂ p₃ p₄ msg head cmd rest (0 ∷ []) bytes d₅.read)

  -- For a queue of pointers that stands for a client's queue of contents, with all references
  -- counted, and a message that others refer to: where `ichat_client_add_message` meets no failed
  -- assertion, the run over shared buffers meets no fault and leaves a queue that stands for the
  -- one of `ichat_client_add_message`: the new buffers have the references of the queue and no
  -- other, and every other reference stays counted and reads what it read.
  pub chat_add_message_lem :
      (msg : ℕ) (bytes : Bytes) (impl impl' : ChatImpl) (q : Pointers) (held : List ℕ) (m : Memory)
      → Counted m (q.entries ++ held)
      → Represents m q impl.bo
      → 0 < count msg held
      → text m msg ≡ some bytes
      → ichat_client_add_message bytes impl ≡ some impl'
      → Follows (chat_add_message junk msg q m) m impl'.bo held
  unfolding chat_add_message ichat_client_add_message
  chat_add_message_lem msg bytes impl impl' q held m c r live read sent =
      let (u, ok, sent₁) = >>=-eq-some (assert (size_ok bytes)) _ sent in
      let (icmsg, parsed, sent₂) = >>=-eq-some (ichat_buffer_to_icc2s bytes) _ sent₁ in
      let (m₁, e₁, d₁) =
        ref_at-Made msg bytes m (q.entries ++ held) c
          (omega (arith, count-append msg q.entries held)) read in
      let run = chat_pieces_lem msg bytes icmsg q impl.bo held m m₁ d₁ r live in
      subst (λ i. Follows (chat_add_message junk msg q m) m (i.bo) held) (eq_of_some sent₂)
        (after_step _ m _ held read
          (after_step _ m _ held ok (after_step _ m _ held e₁ (after_step _ m _ held parsed run))))

  -- The run of `s2s_add_message` behind its assertions.
  pub s2s_pieces_lem :
      (my_name timestamp bytes : Bytes) (msg : ℕ) (q : Pointers) (v : Queue) (held : List ℕ)
      (m : Memory)
      → Counted m (q.entries ++ held)
      → Represents m q v
      → 0 < count msg held
      → text m msg ≡ some bytes
      → Follows
          (s2s_pieces junk my_name timestamp bytes msg q m)
          m
          (s2s_enqueue my_name timestamp bytes v)
          held
  unfolding s2s_pieces s2s_enqueue Kept
  s2s_pieces_lem my_name timestamp bytes msg q v held m c r live read =
      let cmd = forward_cmd my_name timestamp (length bytes) in
      let head = head_text (length cmd + length bytes) in
      let all = q.entries ++ held in
      new_then m m [] [] all cmd _ _ held (none_yet m all c) λ p₁ m₁ d₁.
        new_then m m₁ _ _ all head _ _ held d₁ λ p₂ m₂ d₂.
          send_lem (p₂ ∷ p₁ ∷ msg ∷ []) (p₂ ∷ p₁ ∷ []) (head ∷ cmd ∷ bytes ∷ []) _ q v held m m₂ d₂
            r (λ x. in_rest msg x (p₂ ∷ p₁ ∷ []) held live)
            (s2s_order m₂ p₂ p₁ msg head cmd bytes d₂.read
              (d₂.kept msg (omega (arith, count-append msg q.entries held)) ∙ read))

  -- So it is for a message that goes to another server: the message itself is shared by the queue.
  pub s2s_add_message_lem :
      (my_name timestamp : Bytes) (msg : ℕ) (bytes : Bytes) (impl impl' : S2sImpl) (q : Pointers)
      (held : List ℕ) (m : Memory)
      → Counted m (q.entries ++ held)
      → Represents m q impl.bo
      → 0 < count msg held
      → text m msg ≡ some bytes
      → ichat_s2s_client_add_message my_name timestamp bytes impl ≡ some impl'
      → Follows (s2s_add_message junk my_name timestamp msg q m) m impl'.bo held
  unfolding s2s_add_message ichat_s2s_client_add_message
  s2s_add_message_lem my_name timestamp msg bytes impl impl' q held m c r live read sent =
      let (u, ok, sent₁) = >>=-eq-some (assert (size_ok bytes)) _ sent in
      let run = s2s_pieces_lem my_name timestamp bytes msg q impl.bo held m c r live read in
      subst (λ i. Follows (s2s_add_message junk my_name timestamp msg q m) m (i.bo) held)
        (eq_of_some sent₁) (after_step _ m _ held read (after_step _ m _ held ok run))

  -- A text of its own is put into the queue of a control client: the banner, or the answer to a
  -- command.
  pub ctl_respond_lem :
      (response : Bytes) (q : Pointers) (v : Queue) (held : List ℕ) (m : Memory)
      → Counted m (q.entries ++ held)
      → Represents m q v
      → Follows (ctl_respond junk response q m) m (buffer_queue_append v response) held
  unfolding ctl_respond
  ctl_respond_lem response q v held m c r =
      new_then m m [] [] (q.entries ++ held) response _ _ held (none_yet m (q.entries ++ held) c)
        λ p₁ m₁ d₁.
          send_lem (p₁ ∷ []) (p₁ ∷ []) (response ∷ []) _ q v held m m₁ d₁ r (λ x l. omega arith)
            d₁.read

-- The answer to `echo` is the message itself, shared by the queue; the buffer made before is gone.
pub ctl_echo_lem :
    (msg : ℕ) (bytes : Bytes) (q : Pointers) (v : Queue) (held : List ℕ) (m : Memory)
    → Counted m (q.entries ++ held)
    → Represents m q v
    → 0 < count msg held
    → text m msg ≡ some bytes
    → Follows (ctl_echo msg q m) m (buffer_queue_append v bytes) held
unfolding ctl_echo Kept
ctl_echo_lem msg bytes q v held m c r live read =
    let all = q.entries ++ held in
    let (m₂, e₂, c₂, k₂) =
      unref_at_lem ((alloc_at m).0) ((alloc_at m).1) all (alloc_at-Counted m all c) in
    let live' : 0 < count msg all = omega (arith, count-append msg q.entries held) in
    let k =
      Kept-trans m ((alloc_at m).1) m₂ all all all (alloc_at-Kept m all c) k₂ (λ x l. l)
        (λ x l. l) in
    let (m₃, e₃, d₃) = ref_at-Made msg bytes m₂ all c₂ live' (k msg live' ∙ read) in
    let d : Made m m₃ (msg ∷ []) (bytes ∷ []) all = record {
      counted = d₃.counted;
      kept = Kept-trans m m₂ m₃ all all all k d₃.kept (λ x l. l) (λ x l. l);
      read = d₃.read;
    } in
    after_step _ m _ held e₂ (
      after_step _ m _ held e₃ (
        send_lem (msg ∷ []) (msg ∷ []) (bytes ∷ []) _ q v held m m₃ d r (λ x l. omega arith)
          d₃.read))
