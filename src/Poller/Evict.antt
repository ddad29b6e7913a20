-- ===== src/Poller/Evict.antt =====
-- The first loop of `server_poll`, and the assertion of the second (src/poller.c).
use mathlib.Core.List.{Memᴰ}
use ichatd.Common.{
  ℕ, ◌≡◌, ◌∙◌, refl, sym, ap, Bool, true, false, List, [], ◌∷◌, ◌++◌, Option, none, some,
  if◌then◌else◌, ◌>>=◌,
}
use ichatd.Config.{S2sBlock}
use ichatd.Client.{Client}
use ichatd.Server.{Server}
use ichatd.Server.Clients.{Absent, server_remove_client_lem}
use ichatd.World.{World}
use ichatd.Link.{link_of, register_task, reconnect, client_destroy, close_fd}
use ichatd.Poller.{Answers, first_corrupt, destroy_removed, evict, fill, interested, server_poll}

abbrev pub NoneCorrupt : List Client → Type 0
NoneCorrupt [] = Unit {0}
NoneCorrupt (c ∷ cs) = (c.corrupt ≡ false) × NoneCorrupt cs

first_corrupt-found :
    (before : List Client) (c : Client) (after : List Client)
    → NoneCorrupt before
    → c.corrupt ≡ true
    → first_corrupt (before ++ c ∷ after) ≡ some c.ptr
unfolding first_corrupt
first_corrupt-found [] c after n e = rw e refl
first_corrupt-found (b ∷ before) c after n e = rw (n.0) (first_corrupt-found before c after n.1 e)

first_corrupt-none : (cs : List Client) → NoneCorrupt cs → first_corrupt cs ≡ none
unfolding first_corrupt
first_corrupt-none [] n = refl
first_corrupt-none (c ∷ cs) n = rw (n.0) (first_corrupt-none cs n.1)

client_destroy-clist :
    (w : World) (c : Client) (s : Server) → (client_destroy w c s).clist ≡ s.clist
unfolding client_destroy register_task
client_destroy-clist w c s = by_link (link_of c)
  where
    by_down :
        (b : S2sBlock) (down : Bool)
        → (if down
            then close_fd c s
            else register_task w 30000 (ichatd.Task.start_link b) (close_fd c s)).clist
          ≡ s.clist
    by_down b true = refl
    by_down b false = refl

    by_link : (o : Option S2sBlock) → (reconnect w (close_fd c s) o).clist ≡ s.clist
    by_link none = refl
    by_link (some b) = by_down b s.shutdown

-- Where no client before it has its address, the first client that is corrupt is taken off the list
-- and destroyed, and the others stay in their order, corrupt or not.
pub evict_lem :
    (w : World) (s : Server) (before : List Client) (c : Client) (after : List Client)
    → s.clist ≡ before ++ c ∷ after
    → Absent c.ptr before
    → NoneCorrupt before
    → c.corrupt ≡ true
    → (evict w s ≡ client_destroy w c (record s { clist = before ++ after }))
      × ((evict w s).clist ≡ before ++ after)
unfolding evict
evict_lem w s before c after e absent n k = (
  destroyed,
  ap (λ t. t.clist) destroyed ∙ client_destroy-clist w c (record s { clist = before ++ after }),
)
  where
    first : first_corrupt s.clist ≡ some c.ptr
    first = ap first_corrupt e ∙ first_corrupt-found before c after n k

    destroyed : evict w s ≡ client_destroy w c (record s { clist = before ++ after })
    destroyed =
        rw first (ap (destroy_removed w) (server_remove_client_lem s before c after e absent).0)

-- Where no client is corrupt, nothing happens.
pub evict-none : (w : World) (s : Server) → NoneCorrupt s.clist → evict w s ≡ s
unfolding evict
evict-none w s n = rw (first_corrupt-none s.clist n) refl

-- The loop that fills the sets fails on a client without a descriptor.
fill_no_fd : (cs : List Client) (d : Client) → Memᴰ d cs → d.fd ≡ none → fill cs ≡ none
unfolding fill
fill_no_fd [] d m h = elim m [ ]
fill_no_fd (c ∷ cs) d (Memᴰ.head e) h = rw (ap (λ x. x.fd) (sym e) ∙ h) refl
fill_no_fd (c ∷ cs) d (Memᴰ.tail m) h = by_fd c.fd (fill_no_fd cs d m h)
  where
    by_fd :
        (o : Option ℕ) → fill cs ≡ none → (do fd ← o; i ← fill cs; some (interested c fd i)) ≡ none
    by_fd none e = refl
    by_fd (some fd) e = rw e refl

-- A round fails an assertion where, behind the first corrupt client, which is destroyed, another
-- client has no descriptor: as after two links that could not be connected.
pub server_poll_no_fd :
    (w : World) (a : Answers) (s : Server) (before : List Client) (c : Client) (after : List Client)
    (d : Client)
    → s.clist ≡ before ++ c ∷ after
    → Absent c.ptr before
    → NoneCorrupt before
    → c.corrupt ≡ true
    → Memᴰ d (before ++ after)
    → d.fd ≡ none
    → server_poll w a s ≡ none
unfolding server_poll
server_poll_no_fd w a s before c after d e absent n k m h =
    let left = (evict_lem w s before c after e absent n k).1 in
    rw (ap fill left ∙ fill_no_fd (before ++ after) d m h) refl
