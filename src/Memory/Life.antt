-- ===== src/Memory/Life.antt =====
-- The buffers of the server through its life: clients are accepted and connected, their messages and
-- commands are read and delivered, their queues are written, and they end, in any order.
use ichatd.Common.{
  as_list, ℕ, ◌+◌, ◌<◌, ◌≡◌, refl, sym, ◌∙◌, subst, Bool, List, [], ◌∷◌, ◌++◌, none, some, arith,
  Bytes, length, eq_of_some,
}
use ichatd.Queue.{Written, buffer_queue_append}
use ichatd.Config.{S2sBlock}
use ichatd.Proto.Login.{s2s_make_login_msg}
use ichatd.Client.{AuthDir, in_auth, out_auth}
use ichatd.Memory.{Memory, alloc_at, count, Counted}
use ichatd.Memory.Counts.{count-append, Counted-reorder, alloc_at-Counted}
use ichatd.Memory.Queue.{Pointers, write_entries}
use ichatd.Memory.Messages.{ctl_respond}
use ichatd.Memory.Sharing.{ctl_respond_lem}
use ichatd.Memory.Impl.{
  Buffers, owned, owned_all, ctl_create, chat_create, s2s_create, create_with_banner, destroy,
  destroy_all, destroy_lem, destroy_all_lem,
}
use ichatd.Memory.Deliver.{Way, requeued, read_message}
use ichatd.Memory.Sent.{moved, queued}
use ichatd.Memory.Reading.{read_message_lem}
use ichatd.Memory.Forwarding.{forwarded_part, s2s_read_message}
use ichatd.Memory.Forwarded.{s2s_read_message_lem}
use ichatd.Memory.Control.{ctl_read, ctl_read_lem}
use ichatd.Proto.Ics2s.{Ics2s, ichat_buffer_to_ics2s}
use ichatd.Memory.Writing.{write_entries-Counted}

-- The memory before the first client.
abbrev pub no_memory : Memory
no_memory = record { next = 1; cell = λ p. none }

-- What the clients and their buffers may come to. `turned` says that any client may be the next one.
pub data Life (junk : ℕ → Bytes) : List Buffers → Memory → Type 0 where
  start : Life junk [] no_memory
  turned : (is js : List Buffers) {m : Memory} → Life junk (is ++ js) m → Life junk (js ++ is) m
  chat_accepted :
      (is : List Buffers) (m : Memory)
      → Life junk is m
      → Life junk ((chat_create m).0 ∷ is) ((chat_create m).1)
  ctl_accepted :
      (banner : Bytes) (m : Memory) {is : List Buffers} {m' : Memory} {i : Buffers}
      → Life junk is m
      → create_with_banner junk banner m ≡ some (i, m')
      → Life junk (i ∷ is) m'
  linked :
      (dir : AuthDir) (my_name timestamp : Bytes) (b : S2sBlock) (m : Memory) {is : List Buffers}
      {m' : Memory} {i : Buffers}
      → Life junk is m
      → s2s_create junk dir my_name timestamp b m ≡ some (i, m')
      → Life junk (i ∷ is) m'
  received :
      (ways : List Way) (changed : Bool) (bytes : Bytes) (self : Buffers) (is : List Buffers)
      (m : Memory) {js : List Buffers} {m' : Memory}
      → Life junk (self ∷ is) m
      → 20 < length bytes
      → length bytes < 4192
      → read_message junk ways changed bytes self is m ≡ some (js, m')
      → Life junk js m'
  passed_on :
      (ways : List Way) (changed authenticated : Bool) (bytes : Bytes) (self : Buffers)
      (is : List Buffers) (m : Memory) {js : List Buffers} {m' : Memory}
      → Life junk (self ∷ is) m
      → ((icmsg : Ics2s) (inner : Bytes)
          → ichat_buffer_to_ics2s bytes ≡ some icmsg
          → forwarded_part authenticated icmsg ≡ some inner
          → (20 < length inner) × (length inner < 4192))
      → s2s_read_message junk ways changed authenticated bytes self is m ≡ some (js, m')
      → Life junk js m'
  commanded :
      (line : Bytes) (i : Buffers) (m : Memory) {is : List Buffers} {m' : Memory} {i' : Buffers}
      → Life junk (i ∷ is) m
      → ctl_read junk line i m ≡ some (i', m')
      → Life junk (i' ∷ is) m'
  flushed :
      (answer w : Written) (i : Buffers) (q : Pointers) (is : List Buffers) (m m' : Memory)
      → Life junk (i ∷ is) m
      → write_entries i.bo answer m ≡ some (w, q, m')
      → Life junk (record i { bo = q } ∷ is) m'
  closed :
      (i : Buffers) (m : Memory) {is : List Buffers} {m' : Memory}
      → Life junk (i ∷ is) m
      → destroy i m ≡ some m'
      → Life junk is m'

chat_create-Counted :
    (held : List ℕ) (m : Memory)
    → Counted m held
    → Counted ((chat_create m).1) (owned ((chat_create m).0) ++ held)
unfolding chat_create
chat_create-Counted held m c =
    let (bi, m₁) = alloc_at m in
    let (sig, m₂) = alloc_at m₁ in
    let c₂ = alloc_at-Counted m₁ (bi ∷ held) (alloc_at-Counted m held c) in
    Counted-reorder m₂ (sig ∷ bi ∷ held) (bi ∷ sig ∷ held) (λ p. omega arith) c₂

ctl_create-Counted :
    (held : List ℕ) (m : Memory)
    → Counted m held
    → Counted ((ctl_create m).1) (owned ((ctl_create m).0) ++ held)
unfolding ctl_create
ctl_create-Counted held m c = alloc_at-Counted m held c

owned_all-append :
    (p : ℕ) (is js : List Buffers)
    → count p (owned_all (is ++ js)) ≡ count p (owned_all is) + count p (owned_all js)
unfolding owned_all
owned_all-append p [] js = omega arith
owned_all-append p (i ∷ is) js = omega (
  arith,
  count-append p (owned i) (owned_all (is ++ js)),
  count-append p (owned i) (owned_all is),
  owned_all-append p is js,
)

-- The references of all clients are counted.
AllCounted : List Buffers × Memory → Type 0
AllCounted x = Counted (x.1) (owned_all (x.0))

-- The references of a client and all others are counted.
ClientCounted : List ℕ → Buffers × Memory → Type 0
ClientCounted held x = Counted (x.1) (owned (x.0) ++ held)

module _ (junk : ℕ → Bytes) (enough : (n : ℕ) → length (junk n) ≡ n) where
  -- A client with a text in its queue.
  greeted :
      (i : Buffers) (text : Bytes) (held : List ℕ) (m : Memory) (x : Buffers × Memory)
      → Counted m (owned i ++ held)
      → requeued i (ctl_respond junk text i.bo m) ≡ some x
      → ClientCounted held x
  unfolding ClientCounted
  greeted i text held m x c h =
      let (i', m', e, c', k) =
        queued i held m (ctl_respond junk text i.bo m) (λ v. buffer_queue_append v text) c
          (λ v c₁ rep.
            ctl_respond_lem junk enough text i.bo v (i.bi ∷ (as_list i.sig ++ held)) m c₁ rep) in
      subst (ClientCounted held) (eq_of_some (sym e ∙ h)) c'

  s2s_create-Counted :
      (dir : AuthDir) (my_name timestamp : Bytes) (b : S2sBlock) (held : List ℕ) (m : Memory)
      (x : Buffers × Memory)
      → Counted m held
      → s2s_create junk dir my_name timestamp b m ≡ some x
      → ClientCounted held x
  unfolding s2s_create ClientCounted
  s2s_create-Counted in_auth my_name timestamp b held m x c h =
      subst (ClientCounted held) (eq_of_some h) (chat_create-Counted held m c)
  s2s_create-Counted out_auth my_name timestamp b held m x c h =
      greeted ((chat_create m).0) (s2s_make_login_msg my_name timestamp b.pass) held
        ((chat_create m).1) x (chat_create-Counted held m c) h

  -- Through the whole life of the server every buffer counts just the references that the clients hold.
  pub Life-Counted : (is : List Buffers) (m : Memory) → Life junk is m → Counted m (owned_all is)
  unfolding owned_all Counted ClientCounted AllCounted create_with_banner
  Life-Counted is m start = (λ p. refl, λ p h. refl)
  Life-Counted is m (turned xs ys l) =
      Counted-reorder m (owned_all (xs ++ ys)) (owned_all (ys ++ xs))
        (λ p. omega (arith, owned_all-append p xs ys, owned_all-append p ys xs))
        (Life-Counted (xs ++ ys) m l)
  Life-Counted is m (chat_accepted js m₀ l) =
      chat_create-Counted (owned_all js) m₀ (Life-Counted js m₀ l)
  Life-Counted is m (ctl_accepted banner m₀ {is = js} {i = i} l e) =
      greeted ((ctl_create m₀).0) banner (owned_all js) ((ctl_create m₀).1) (i, m)
        (ctl_create-Counted (owned_all js) m₀ (Life-Counted js m₀ l)) e
  Life-Counted is m (linked dir n t b m₀ {is = js} {i = i} l e) =
      s2s_create-Counted dir n t b (owned_all js) m₀ (i, m) (Life-Counted js m₀ l) e
  Life-Counted is m (received ways changed bytes self others m₀ l low high e) =
      let (js, m', e', c) =
        read_message_lem junk enough ways changed bytes self others m₀
          (Life-Counted (self ∷ others) m₀ l) low high in
      subst AllCounted (eq_of_some (sym e' ∙ e)) c
  Life-Counted is m (passed_on ways changed authenticated bytes self others m₀ l sizes e) =
      let (js, m', e', c) =
        s2s_read_message_lem junk enough ways changed authenticated bytes self others m₀
          (Life-Counted (self ∷ others) m₀ l) sizes in
      subst AllCounted (eq_of_some (sym e' ∙ e)) c
  Life-Counted is m (commanded line i m₀ {is = js} l e) =
      let (i', m', e', c) =
        ctl_read_lem junk enough line i (owned_all js) m₀ (Life-Counted (i ∷ js) m₀ l) in
      subst (ClientCounted (owned_all js)) (eq_of_some (sym e' ∙ e)) c
  Life-Counted is m (flushed answer w i q others m₀ m₁ l e) =
      let c = Life-Counted (i ∷ others) m₀ l in
      let rest = i.bi ∷ (as_list i.sig ++ owned_all others) in
      let c₁ =
        Counted-reorder m₀ (owned i ++ owned_all others) (i.bo.entries ++ rest)
          (λ p. moved p i.bo.entries i.bi (as_list i.sig) (owned_all others)) c in
      let c₂ = write_entries-Counted i.bo q answer w rest m₀ m₁ c₁ e in
      Counted-reorder m₁ (q.entries ++ rest) (owned (record i { bo = q }) ++ owned_all others)
        (λ p. sym (moved p q.entries i.bi (as_list i.sig) (owned_all others))) c₂
  Life-Counted is m (closed i m₀ l e) =
      let (m', e', c, k) = destroy_lem i (owned_all is) m₀ (Life-Counted (i ∷ is) m₀ l) in
      subst (λ x. Counted x (owned_all is)) (eq_of_some (sym e' ∙ e)) c

  -- At any time of the server's life, in which clients came and went, were sent messages of sizes
  -- strictly between the limits, and were written to in any order, closing all clients meets no
  -- fault and gives back every buffer.
  pub destroy_all-Life :
      (is : List Buffers) (m : Memory)
      → Life junk is m
      → (m' : Memory) × (destroy_all is m ≡ some m') × ((p : ℕ) → m'.cell p ≡ none)
  destroy_all-Life is m l = destroy_all_lem is m (Life-Counted is m l)
