-- ===== src/Poller/Sets.antt =====
-- What `select` is asked about: the loop of `server_poll` that fills the sets (src/poller.c).
use mathlib.Core.List.{Memᴰ}
use ichatd.Common.{
  ℕ, ◌==◌, ◌≡◌, ◌≢◌, ◌∙◌, refl, sym, ap, subst, Bool, true, false, List, [], ◌∷◌, some, arith,
  eq_of_some, >>=-eq-some,
}
use ichatd.Client.{Client, can_read, can_write}
use ichatd.Poller.{Interest, set_if, interested, fill, is_set}

abbrev pub Unused : ℕ → List Client → Type 0
Unused fd [] = Unit {0}
Unused fd (c ∷ cs) = (c.fd ≢ some fd) × Unused fd cs

-- No two clients have the same descriptor.
abbrev pub DistinctFds : List Client → Type 0
DistinctFds [] = Unit {0}
DistinctFds (c ∷ cs) = ((fd : ℕ) → c.fd ≡ some fd → Unused fd cs) × DistinctFds cs

set_if_other :
    (b : Bool) (x fd : ℕ) (fds : List ℕ) → x ≢ fd → is_set fd (set_if b x fds) ≡ is_set fd fds
set_if_other true x fd fds n = let e : (x == fd) ≡ false = ground arith in rw e refl
set_if_other false x fd fds n = refl

set_if_same :
    (b : Bool) (fd : ℕ) (fds : List ℕ) → is_set fd fds ≡ false → is_set fd (set_if b fd fds) ≡ b
set_if_same true fd fds h = let e : (fd == fd) ≡ true = ground arith in rw e refl
set_if_same false fd fds h = h

-- What the sets say of a descriptor.
record Says (fd : ℕ) (i : Interest) (r w x : Bool) : Type 0 where
  rd : is_set fd i.rd ≡ r
  wr : is_set fd i.wr ≡ w
  ex : is_set fd i.ex ≡ x

interested_other :
    (c : Client) (x fd : ℕ) (i : Interest) (r w e : Bool)
    → x ≢ fd
    → Says fd i r w e
    → Says fd (interested c x i) r w e
interested_other c x fd i r w e n h = record {
  rd = set_if_other (can_read c) x fd i.rd n ∙ h.rd;
  wr = set_if_other (can_write c) x fd i.wr n ∙ h.wr;
  ex = set_if_other true x fd i.ex n ∙ h.ex;
}

fill-Unused :
    (fd : ℕ) (cs : List Client) (i : Interest)
    → Unused fd cs
    → fill cs ≡ some i
    → Says fd i false false false
unfolding fill
fill-Unused fd [] i u h =
    subst (λ j. Says fd j false false false) (eq_of_some h)
      (record { rd = refl; wr = refl; ex = refl })
fill-Unused fd (c ∷ cs) i u h =
    let (x, e, h') = >>=-eq-some c.fd _ h in
    let (j, filled, last) = >>=-eq-some (fill cs) _ h' in
    let other : x ≢ fd = λ k. u.0 (e ∙ ap some k) in
    subst (λ j. Says fd j false false false) (eq_of_some last)
      (interested_other c x fd j false false false other (fill-Unused fd cs j u.1 filled))

Unused-mem : (fd : ℕ) (cs : List Client) (c : Client) → Unused fd cs → Memᴰ c cs → c.fd ≢ some fd
Unused-mem fd [] c u m = elim m [ ]
Unused-mem fd (b ∷ cs) c u (Memᴰ.head e) = λ k. u.0 (ap (λ y. y.fd) (sym e) ∙ k)
Unused-mem fd (b ∷ cs) c u (Memᴰ.tail m) = Unused-mem fd cs c u.1 m

fill-Says :
    (cs : List Client) (i : Interest) (c : Client) (fd : ℕ)
    → DistinctFds cs
    → fill cs ≡ some i
    → Memᴰ c cs
    → c.fd ≡ some fd
    → Says fd i (can_read c) (can_write c) true
unfolding fill
fill-Says [] i c fd d h m o = elim m [ ]
fill-Says (b ∷ cs) i c fd d h m o =
    let (x, e, h') = >>=-eq-some b.fd _ h in
    let (j, filled, last) = >>=-eq-some (fill cs) _ h' in
    subst (λ j. Says fd j (can_read c) (can_write c) true) (eq_of_some last)
      (by_place x j e filled (λ m'. fill-Says cs j c fd d.1 filled m' o) m)
  where
    other : (x : ℕ) → b.fd ≡ some x → Memᴰ c cs → x ≢ fd
    other x e m' k = Unused-mem fd cs c (d.0 fd (e ∙ ap some k)) m' o

    by_place :
        (x : ℕ) (j : Interest)
        → b.fd ≡ some x
        → fill cs ≡ some j
        → (Memᴰ c cs → Says fd j (can_read c) (can_write c) true)
        → Memᴰ c (b ∷ cs)
        → Says fd (interested b x j) (can_read c) (can_write c) true
    by_place x j e filled ih (Memᴰ.head same) =
        let at : x ≡ fd = eq_of_some (sym e ∙ ap (λ y. y.fd) (sym same) ∙ o) in
        let none_behind = fill-Unused fd cs j (d.0 fd (e ∙ ap some at)) filled in
        subst (λ y. Says fd (interested b y j) (can_read c) (can_write c) true) (sym at)
          (subst (λ y. Says fd (interested b fd j) (can_read y) (can_write y) true) (sym same)
            (record {
              rd = set_if_same (can_read b) fd j.rd none_behind.rd;
              wr = set_if_same (can_write b) fd j.wr none_behind.wr;
              ex = set_if_same true fd j.ex none_behind.ex;
            }))
    by_place x j e filled ih (Memᴰ.tail m') =
        interested_other b x fd j (can_read c) (can_write c) true (other x e m') (ih m')

-- Where no two clients have the same descriptor and all have one, each client is set for reading
-- and for writing just as it asks to be, and for errors always.
pub fill_lem :
    (cs : List Client) (i : Interest) (c : Client) (fd : ℕ)
    → DistinctFds cs
    → fill cs ≡ some i
    → Memᴰ c cs
    → c.fd ≡ some fd
    → (is_set fd i.rd ≡ can_read c) × (is_set fd i.wr ≡ can_write c) × (is_set fd i.ex ≡ true)
fill_lem cs i c fd d h m o = let s = fill-Says cs i c fd d h m o in (s.rd, s.wr, s.ex)
