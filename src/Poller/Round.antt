-- ===== src/Poller/Round.antt =====
-- A round of the poller (src/poller.c) over connections that break or rest.
use ichatd.Common.{ℕ, ◌≡◌, List, [], ◌∷◌, Option, none, some}
use ichatd.Client.{Client}
use ichatd.Server.{Server}
use ichatd.Server.Clients.{Absent}
use ichatd.World.{World}
use ichatd.Poller.{Interest, Answers, Selected, interrupted, failed_select, ready}
use ichatd.Poller.Serve.{Fate}

-- The fates of all the clients, one by one.
abbrev pub Fates : Answers → Interest → List Client → List Client → Type 0
Fates a i [] [] = Unit {0}
Fates a i [] (c' ∷ cs') = ⊥
Fates a i (c ∷ cs) [] = ⊥
Fates a i (c ∷ cs) (c' ∷ cs') = ((fd : ℕ) × (c.fd ≡ some fd) × Fate a i c fd c') × Fates a i cs cs'

-- None of the clients has the address of one before.
abbrev Apart : List Client → List Client → Type 0
Apart before [] = Unit {0}
Apart before (c ∷ cs) = Absent c.ptr before × Apart before cs

-- The sets behind `select`, which leaves them as they were when it was interrupted.
abbrev pub sets_behind : Selected → Interest → Option Interest
sets_behind interrupted asked = some asked
sets_behind failed_select asked = none
sets_behind (ready i) asked = some i
