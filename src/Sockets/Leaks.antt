-- ===== src/Sockets/Leaks.antt =====
-- No descriptor is lost, and none that is returned is closed.
use ichatd.Common.{
  ℕ, ◌≤◌, ◌≡◌, refl, Bool, true, false, [], ◌∷◌, Option, none, some, arith, ltb, inl, inr, ◌⊎◌,
}
use ichatd.Sockets.{
  BindAnswers, ConnectAnswers, Outcome, Connected, established, in_progress, refused, bind_on,
  connect_on, ic_bind_server_socket, ic_nonblock_connect,
}

-- No socket was made; or it is returned and open; or it was closed exactly once and nothing is
-- returned.
abbrev pub Accounted : Option ℕ → Outcome → Type 0
Accounted made o =
    ((o.fd ≡ none) × (o.closed ≡ []) × (made ≡ none))
    ⊎ ((s : ℕ) × (made ≡ some s)
        × (((o.fd ≡ some s) × (o.closed ≡ [])) ⊎ ((o.fd ≡ none) × (o.closed ≡ s ∷ []))))

made_open : (s : ℕ) → Accounted (some s) (record { fd = some s; closed = [] })
made_open s = inr (s, refl, inl (refl, refl))

made_closed : (s : ℕ) → Accounted (some s) (record { fd = none; closed = s ∷ [] })
made_closed s = inr (s, refl, inr (refl, refl))

bind-Accounted : (made : Option ℕ) (opt aton : Bool) → Accounted made (bind_on made opt aton)
bind-Accounted none opt aton = inl (refl, refl, refl)
bind-Accounted (some s) true true = made_open s
bind-Accounted (some s) true false = made_closed s
bind-Accounted (some s) false aton = made_closed s

connect-Accounted :
    (made : Option ℕ) (fcntl aton : Bool) (c : Connected)
    → Accounted made (connect_on made fcntl aton c)
connect-Accounted none fcntl aton c = inl (refl, refl, refl)
connect-Accounted (some s) true true established = made_open s
connect-Accounted (some s) true true in_progress = made_open s
connect-Accounted (some s) true true refused = made_closed s
connect-Accounted (some s) true false c = made_closed s
connect-Accounted (some s) false aton c = made_closed s

-- Whatever the system's calls answer, a socket that `IC_bind_server_socket` (for a port below
-- 65536) or `IC_nonblock_connect` has made is either returned and open, or closed exactly once with
-- -1 returned; without a socket -1 is returned and nothing is closed.
pub sockets-Accounted :
    (port : ℕ) (a : BindAnswers) (b : ConnectAnswers)
    → port ≤ 65535
    → Accounted a.socket (ic_bind_server_socket port a) × Accounted b.socket (ic_nonblock_connect b)
unfolding ic_bind_server_socket ic_nonblock_connect
sockets-Accounted port a b h =
    let in_range : ltb 65535 port ≡ false = ground arith in
    (
      rw in_range (bind-Accounted a.socket a.setsockopt a.inet_aton),
      connect-Accounted b.socket b.fcntl b.inet_aton b.connect,
    )
