-- ===== src/Ctl/Commands.antt =====
-- What a line on the control port does to the server.
use ichatd.Common.{
  ℕ, ◌≡◌, ◌≢◌, ◌↔◌, ◌≤◌, refl, sym, ap, ◌∙◌, arith, Bool, true, false, ◌&&◌, ◌||◌, not, Bytes,
  codes, [], ◌∷◌, ◌++◌, leb, length, take, drop, eq_bytes, eq_bytes→eq, eq_bytes_refl,
  take-append_le, take-length, take-append-drop, Bool-cases, inl, inr, ◌⊎◌,
}
use ichatd.Server.{Server}
use ichatd.Ctl.{min, is_kw, ctl_client_process_message}

-- One of the two begins with the other.
abbrev pub Agrees : Bytes → Bytes → Type 0
Agrees msg keyword =
    ((rest : Bytes) × (msg ≡ keyword ++ rest)) ⊎ ((rest : Bytes) × (keyword ≡ msg ++ rest))

min_cases : (a b : ℕ) → ((min a b ≡ a) × (a ≤ b)) ⊎ ((min a b ≡ b) × (b ≤ a))
min_cases a b = elim (Bool-cases (leb a b)) [
  | inl e ↦ inl (rw e refl, ground arith)
  | inr e ↦ inr (rw e refl, ground arith)
]

eq_bytes-prefix :
    (a rest : Bytes) (n : ℕ) → n ≤ length a → eq_bytes (take n (a ++ rest)) (take n a) ≡ true
eq_bytes-prefix a rest n le = rw (take-append_le n a rest le) (eq_bytes_refl (take n a))

eq_bytes_sym : (a b : Bytes) → eq_bytes a b ≡ true → eq_bytes b a ≡ true
eq_bytes_sym a b e = rw (eq_bytes→eq a b e) (eq_bytes_refl b)

Agrees-is_kw : (msg keyword : Bytes) → Agrees msg keyword → is_kw msg keyword ≡ true
Agrees-is_kw msg keyword h = by_agreement (min (length msg) (length keyword)) (bounds _ _) h
  where
    bounds : (a b : ℕ) → (min a b ≤ a) × (min a b ≤ b)
    bounds a b = elim (min_cases a b) [
      | inl (e, le) ↦ (omega (arith, e), omega (arith, e, le))
      | inr (e, le) ↦ (omega (arith, e, le), omega (arith, e))
    ]

    by_agreement :
        (n : ℕ)
        → (n ≤ length msg) × (n ≤ length keyword)
        → Agrees msg keyword
        → eq_bytes (take n msg) (take n keyword) ≡ true
    by_agreement n (a, b) (inl (rest, e)) =
        ap (λ m. eq_bytes (take n m) (take n keyword)) e ∙ eq_bytes-prefix keyword rest n b
    by_agreement n (a, b) (inr (rest, e)) =
        eq_bytes_sym (take n keyword) (take n msg)
          (ap (λ k. eq_bytes (take n k) (take n msg)) e ∙ eq_bytes-prefix msg rest n a)

is_kw-Agrees : (msg keyword : Bytes) → is_kw msg keyword ≡ true → Agrees msg keyword
is_kw-Agrees msg keyword h =
    by_length (min (length msg) (length keyword)) (min_cases _ _) (eq_bytes→eq _ _ h)
  where
    by_length :
        (n : ℕ)
        → ((n ≡ length msg) × (length msg ≤ length keyword))
          ⊎ ((n ≡ length keyword) × (length keyword ≤ length msg))
        → take n msg ≡ take n keyword
        → Agrees msg keyword
    by_length n (inl (e, le)) same = inr (
      drop n keyword,
      sym (take-append-drop n keyword)
          ∙ ap (λ k. k ++ drop n keyword) (sym same ∙ take-length msg n e),
    )
    by_length n (inr (e, le)) same = inl (
      drop n msg,
      sym (take-append-drop n msg) ∙ ap (λ m. m ++ drop n msg) (same ∙ take-length keyword n e),
    )

-- Lines that are read as `stop`, and not as one of the commands before it.
abbrev is_stop : Bytes → Bool
is_stop msg =
    not (is_kw msg (codes "echo"))
    && not (is_kw msg (codes "help"))
    && not (is_kw msg (codes "exit"))
    && is_kw msg (codes "stop")

other_command : (x y : ℕ) (msg keyword : Bytes) → x ≢ y → is_kw (x ∷ msg) (y ∷ keyword) ≡ false
other_command x y msg keyword n = elim (Bool-cases (is_kw (x ∷ msg) (y ∷ keyword))) [
  | inl e ↦ absurd (n (by_agreement (is_kw-Agrees (x ∷ msg) (y ∷ keyword) e)))
  | inr e ↦ e
]
  where
    by_agreement : Agrees (x ∷ msg) (y ∷ keyword) → x ≡ y
    by_agreement (inl (rest, e)) = cc
    by_agreement (inr (rest, e)) = cc

first_byte : (x : ℕ) (msg : Bytes) → Agrees (x ∷ msg) (codes "stop") → x ≡ 115
first_byte x msg (inl (rest, e)) = cc
first_byte x msg (inr (rest, e)) = cc

is_stop_iff : (msg : Bytes) → (is_stop msg ≡ true) ↔ ((msg ≢ []) × Agrees msg (codes "stop"))
is_stop_iff [] = (λ e. ground (arith, e), λ (n, a). absurd (n refl))
is_stop_iff (x ∷ msg) = (
  λ e. (
    λ k. cc,
    is_kw-Agrees (x ∷ msg) (codes "stop") (
        last (is_kw (x ∷ msg) (codes "echo")) (is_kw (x ∷ msg) (codes "help"))
          (is_kw (x ∷ msg) (codes "exit")) _ e),
  ),
  λ (n, a).
      let other : (y : ℕ) (keyword : Bytes) → 115 ≢ y → is_kw (x ∷ msg) (y ∷ keyword) ≡ false =
        λ y keyword d. other_command x y msg keyword (λ e. d (sym (first_byte x msg a) ∙ e)) in
      rw
        (
          other 101 (codes "cho") (λ e. ground (arith, e)),
          other 104 (codes "elp") (λ e. ground (arith, e)),
          other 101 (codes "xit") (λ e. ground (arith, e)),
          Agrees-is_kw (x ∷ msg) (codes "stop") a,
        )
        refl,
)
  where
    last : (a b c d : Bool) → (not a && not b && not c && d) ≡ true → d ≡ true
    last true b c d e = ground (arith, e)
    last false true c d e = ground (arith, e)
    last false false true d e = ground (arith, e)
    last false false false d e = e

-- The five branches together: only the line that is read as `stop` sets the flag.
effects :
    (s : Server) (ptr : ℕ) (msg : Bytes)
    → let s' = ctl_client_process_message s ptr msg in
      (s'.shutdown ≡ s.shutdown || is_stop msg)
      × (s'.config ≡ s.config)
      × (s'.task_queue ≡ s.task_queue)
unfolding ctl_client_process_message
effects s ptr msg = elim (Bool-cases (is_kw msg (codes "echo"))) [
  | inl e ↦ rw e (keeps s.shutdown, refl, refl)
  | inr e ↦ rw e (elim (Bool-cases (is_kw msg (codes "help"))) [
    | inl e ↦ rw e (keeps s.shutdown, refl, refl)
    | inr e ↦ rw e (elim (Bool-cases (is_kw msg (codes "exit"))) [
      | inl e ↦ rw e (keeps s.shutdown, refl, refl)
      | inr e ↦ rw e (elim (Bool-cases (is_kw msg (codes "stop"))) [
        | inl e ↦ rw e (sets s.shutdown, refl, refl)
        | inr e ↦ rw e (keeps s.shutdown, refl, refl)
      ])
    ])
  ])
]
  where
    keeps : (b : Bool) → b ≡ b || false
    keeps true = refl
    keeps false = refl

    sets : (b : Bool) → true ≡ b || true
    sets true = refl
    sets false = refl

-- After a line on the control port the server is to stop if and only if it was to stop before, or
-- the line is not empty, and it begins with `stop` or `stop` begins with it; no line changes the
-- configuration or the tasks.
pub ctl_client_process_message_lem :
    (s : Server) (ptr : ℕ) (msg : Bytes)
    → let s' = ctl_client_process_message s ptr msg in
      ((s'.shutdown ≡ true) ↔ ((s.shutdown ≡ true) ⊎ ((msg ≢ []) × Agrees msg (codes "stop"))))
      × (s'.config ≡ s.config)
      × (s'.task_queue ≡ s.task_queue)
ctl_client_process_message_lem s ptr msg =
    let (down, same_config, same_tasks) = effects s ptr msg in
    let stops = is_stop_iff msg in
    (
      (
        λ e. elim (split s.shutdown (is_stop msg) (sym down ∙ e)) [
          | inl h ↦ inl h
          | inr h ↦ inr (stops.0 h)
        ],
        λ h.
            down
            ∙ join s.shutdown (is_stop msg) (elim h [ inl k ↦ inl k | inr k ↦ inr (stops.1 k) ]),
      ),
      same_config,
      same_tasks,
    )
  where
    split : (a b : Bool) → a || b ≡ true → (a ≡ true) ⊎ (b ≡ true)
    split true b e = inl refl
    split false b e = inr e

    join : (a b : Bool) → (a ≡ true) ⊎ (b ≡ true) → a || b ≡ true
    join true b h = refl
    join false b (inl e) = ground (arith, e)
    join false b (inr e) = e
