-- ===== src/Memory/Impl.antt =====
-- The buffers in the private data of a client: src/ichat/client/ichat_client_impl.c,
-- src/ichat/s2s_client/ichat_s2s_client_impl.c and src/ctl/client/ctl_client_impl.c over shared
-- buffers, and the end of all clients in src/server.c. `malloc` is taken to succeed.
use ichatd.Common.{
  as_list, fun_ext, ℕ, ◌≡◌, refl, sym, ◌∙◌, ap, List, [], ◌∷◌, ◌++◌, append-nil, Option, none, some,
  arith, Bytes, ◌>>=◌,
}
use ichatd.Buffer.{Buffer}
use ichatd.Proto.Login.{s2s_make_login_msg}
use ichatd.Config.{S2sBlock}
use ichatd.Client.{AuthDir, in_auth, out_auth}
use ichatd.Memory.{Memory, alloc_at, unref_at, count, CountedAt, Counted, Kept}
use ichatd.Memory.Counts.{Counted-reorder}
use ichatd.Memory.Queue.{Pointers, free_entries}
use ichatd.Memory.Refine.{free_entries_lem}
use ichatd.Memory.Messages.{ctl_respond}

-- The buffers of `struct ichat_client_impl` and `struct ichat_s2s_client_impl`; a control client has
-- no `sig`.
pub record Buffers : Type 0 where
  pub bi : ℕ
  pub bo : Pointers
  pub sig : Option ℕ

-- `buffer_queue_alloc`.
abbrev pub empty_queue : Pointers
empty_queue = record { entries = []; offset = 0 }

-- `ctl_client_create_impl`.
unfoldable pub ctl_create : Memory → Buffers × Memory
ctl_create m = let (bi, m₁) = alloc_at m in (record { bi = bi; bo = empty_queue; sig = none }, m₁)

-- `ichat_client_create_impl`.
unfoldable pub chat_create : Memory → Buffers × Memory
chat_create m =
    let (bi, m₁) = alloc_at m in
    let (sig, m₂) = alloc_at m₁ in (record { bi = bi; bo = empty_queue; sig = some sig }, m₂)

-- The login message of an outgoing link: put into the queue and given up.
abbrev pub send_login :
    (ℕ → Bytes) → AuthDir → Bytes → Bytes → S2sBlock → Buffers × Memory → Option (Buffers × Memory)
send_login junk in_auth my_name timestamp b (i, m) = some (i, m)
send_login junk out_auth my_name timestamp b (i, m) = do
  (q, m') ← ctl_respond junk (s2s_make_login_msg my_name timestamp b.pass) i.bo m
  some (record i { bo = q }, m')

-- `ichat_s2s_client_create_impl`.
unfoldable pub s2s_create :
    (ℕ → Bytes) → AuthDir → Bytes → Bytes → S2sBlock → Memory → Option (Buffers × Memory)
unfolding chat_create
s2s_create junk dir my_name timestamp b m = send_login junk dir my_name timestamp b (chat_create m)

-- `ctl_client_create`: the banner waits in the queue.
unfoldable pub create_with_banner : (ℕ → Bytes) → Bytes → Memory → Option (Buffers × Memory)
unfolding ctl_create
create_with_banner junk banner m =
    let (i, m₁) = ctl_create m in
    do (q, m₂) ← ctl_respond junk banner i.bo m₁; some (record i { bo = q }, m₂)

-- The references of a client.
abbrev pub owned : Buffers → List ℕ
owned i = i.bi ∷ (i.bo.entries ++ as_list i.sig)

abbrev free_sig : Option ℕ → Memory → Option Memory
free_sig none m = some m
free_sig (some p) m = unref_at p m

-- `ichat_client_destroy_impl`, `ichat_s2s_client_destroy_impl` and `ctl_client_destroy_impl`.
unfoldable pub destroy : Buffers → Memory → Option Memory
destroy i m = do m₁ ← unref_at i.bi m; m₂ ← free_entries i.bo.entries m₁; free_sig i.sig m₂

unfoldable pub owned_all : List Buffers → List ℕ
owned_all [] = []
owned_all (i ∷ is) = owned i ++ owned_all is

-- The loop of `server_close_clients`.
unfoldable pub destroy_all : List Buffers → Memory → Option Memory
unfolding destroy
destroy_all [] m = some m
destroy_all (i ∷ is) m = do m' ← destroy i m; destroy_all is m'

bind_assoc :
    (o : Option Memory) (f g : Memory → Option Memory)
    → ((o >>= f) >>= g) ≡ (o >>= (λ m. f m >>= g))
bind_assoc none f g = refl
bind_assoc (some m) f g = refl

bind_some : (o : Option Memory) → (o >>= some) ≡ o
bind_some none = refl
bind_some (some m) = refl

bind_ext :
    (o : Option Memory) (f g : Memory → Option Memory)
    → ((m : Memory) → f m ≡ g m)
    → (o >>= f) ≡ (o >>= g)
bind_ext o f g e = ap (λ h. o >>= h) (fun_ext e)

free_entries-append :
    (ps qs : List ℕ) (m : Memory)
    → free_entries (ps ++ qs) m ≡ (free_entries ps m >>= free_entries qs)
unfolding free_entries
free_entries-append [] qs m = refl
free_entries-append (p ∷ ps) qs m =
    bind_ext (unref_at p m) _ _ (λ m'. free_entries-append ps qs m')
    ∙ sym (bind_assoc (unref_at p m) (free_entries ps) (free_entries qs))

free_sig-as_list : (sig : Option ℕ) (m : Memory) → free_sig sig m ≡ free_entries (as_list sig) m
unfolding free_entries
free_sig-as_list none m = refl
free_sig-as_list (some p) m = sym (bind_some (unref_at p m))

destroy-owned : (i : Buffers) (m : Memory) → destroy i m ≡ free_entries (owned i) m
unfolding destroy free_entries
destroy-owned i m = bind_ext (unref_at i.bi m) _ _ λ m₁.
    bind_ext (free_entries i.bo.entries m₁) _ _ (free_sig-as_list i.sig)
    ∙ sym (free_entries-append i.bo.entries (as_list i.sig) m₁)

destroy_all-owned :
    (is : List Buffers) (m : Memory) → destroy_all is m ≡ free_entries (owned_all is) m
unfolding destroy_all free_entries owned_all
destroy_all-owned [] m = refl
destroy_all-owned (i ∷ is) m =
    ap (λ o. o >>= destroy_all is) (destroy-owned i m)
    ∙ bind_ext (free_entries (owned i) m) _ _ (destroy_all-owned is)
    ∙ sym (free_entries-append (owned i) (owned_all is) m)

nothing_left : (o : Option Buffer) → CountedAt o 0 → o ≡ none
nothing_left none e = refl
nothing_left (some b) (_, live, _) = absurd (omega arith)

-- The end of a client gives up just the references of the client: it meets no fault, whatever shares
-- the buffers, and the others stay counted and read what they read.
pub destroy_lem :
    (i : Buffers) (held : List ℕ) (m : Memory)
    → Counted m (owned i ++ held)
    → (m' : Memory) × (destroy i m ≡ some m') × Counted m' held × Kept m m' held
destroy_lem i held m c =
    let (m', e, c', k) = free_entries_lem (owned i) held m c in (m', destroy-owned i m ∙ e, c', k)

-- When all clients are closed, no buffer is left: none leaks, and none is freed twice.
pub destroy_all_lem :
    (is : List Buffers) (m : Memory)
    → Counted m (owned_all is)
    → (m' : Memory) × (destroy_all is m ≡ some m') × ((p : ℕ) → m'.cell p ≡ none)
unfolding Counted
destroy_all_lem is m c =
    let (m', e, c', k) = free_entries_lem (owned_all is) [] m (
      Counted-reorder m (owned_all is) (owned_all is ++ [])
        (λ p. ap (count p) (append-nil (owned_all is))) c) in
    (m', destroy_all-owned is m ∙ e, λ p. nothing_left (m'.cell p) (c'.0 p))
