-- ===== src/Server/Clients.antt =====
-- The list of clients as a set of addresses.
use ichatd.Common.{ℕ, ◌≡◌, ◌≢◌, refl, List, [], ◌∷◌, ◌++◌, none, some, arith}
use ichatd.Client.{Client}
use ichatd.Server.{
  Server, server_add_client, remove, server_remove_client, find_client, update_client,
}

-- No client of the list is at this address.
abbrev pub Absent : ℕ → List Client → Type 0
Absent ptr [] = Unit {0}
Absent ptr (c ∷ cs) = (c.ptr ≢ ptr) × Absent ptr cs

-- All clients are at different addresses.
abbrev pub Distinct : List Client → Type 0
Distinct [] = Unit {0}
Distinct (c ∷ cs) = Absent c.ptr cs × Distinct cs

remove-Absent : (ptr : ℕ) (cs : List Client) → Absent ptr cs → remove ptr cs ≡ none
unfolding remove
remove-Absent ptr [] h = refl
remove-Absent ptr (c ∷ cs) h = ground (arith, remove-Absent ptr cs h.1)

remove_inserted :
    (before : List Client) (c : Client) (after : List Client)
    → Absent c.ptr before
    → remove c.ptr (before ++ c ∷ after) ≡ some (c, before ++ after)
unfolding remove
remove_inserted [] c after h = ground arith
remove_inserted (b ∷ before) c after h = ground (arith, remove_inserted before c after h.1)

-- `server_remove_client` takes exactly the first client at the address out of the list, keeps the
-- others in their order and the rest of the server; it returns null, and changes nothing, for an
-- address that is not in the list. A client that was added is found again.
pub server_remove_client_lem :
    (s : Server) (before : List Client) (c : Client) (after : List Client)
    → s.clist ≡ before ++ c ∷ after
    → Absent c.ptr before
    → (server_remove_client c.ptr s ≡ (some c, record s { clist = before ++ after }))
      × ((ptr : ℕ) → Absent ptr s.clist → server_remove_client ptr s ≡ (none, s))
      × ((d : Client) → server_remove_client d.ptr (server_add_client d s) ≡ (some d, s))
unfolding server_remove_client
server_remove_client_lem s before c after e h = (
  rw (e, remove_inserted before c after h),
  λ ptr absent. rw (remove-Absent ptr s.clist absent),
  λ d. rw (remove_inserted [] d s.clist tt),
)

pub find-update_self :
    (ptr : ℕ) (f : Client → Client) (cs : List Client) (c : Client)
    → ((d : Client) → (f d).ptr ≡ d.ptr)
    → find_client ptr cs ≡ some c
    → find_client ptr (update_client ptr f cs) ≡ some (f c)
unfolding find_client update_client
find-update_self ptr f [] c keep h = cc
find-update_self ptr f (d ∷ cs) c keep h = ground (arith, keep d, find-update_self ptr f cs c keep)

-- A write through one address does not change what stands at another.
pub find-update_ne :
    (ptr other : ℕ) (f : Client → Client) (cs : List Client)
    → ((d : Client) → (f d).ptr ≡ d.ptr)
    → ptr ≢ other
    → find_client other (update_client ptr f cs) ≡ find_client other cs
unfolding find_client update_client
find-update_ne ptr other f [] keep h = refl
find-update_ne ptr other f (d ∷ cs) keep h =
    ground (arith, keep d, find-update_ne ptr other f cs keep h)
