-- ===== src/Config/Option/Laws.antt =====
-- What `parse_option` and `parse_s2s` of src/config.c accept, and what they keep.
use ichatd.Common.{
  ℕ, ◌+◌, ◌^◌, ◌≤◌, ◌<◌, ◌≡◌, ◌≢◌, refl, sym, ap, subst, ◌∙◌, Bool, true, false, List, [], ◌∷◌,
  append-nil, Option, none, some, arith, Bytes, codes, if◌then◌else◌, eq_bytes, pos, Option-cases,
  inl, inr,
}
use ichatd.Decimal.{strtol, decimal, long_max}
use ichatd.Decimal.RoundTrip.{strtol-decimal}
use ichatd.Config.{LogLevel, S2sBlock, Config}
use ichatd.Config.Option.{
  read_port, parse_bool, parse_s2s, OptParse, opt_parsed, opt_unknown, opt_bad_val, Parsed,
  parse_option, BoolParse, bool_error, bool_true, bool_false, with_port, with_level, level_of,
  set_user_port, set_me_port, set_ctl_port, with_bool, with_block,
}

abbrev PortsBelow : List S2sBlock → Type 0
PortsBelow [] = Unit {0}
PortsBelow (b ∷ bs) = (b.port < 65536) × PortsBelow bs

-- Every port is a 16-bit number.
pub record IsValid (c : Config) : Type 0 where
  pub user_ok : c.user_port < 65536
  pub ctl_ok : c.ctl_port < 65536
  pub me_ok : c.s2s_me.port < 65536
  pub queue_ok : PortsBelow c.s2s_queue

read_port-lt : (value : Bytes) {port : ℕ} → read_port value ≡ some port → port < 65536
unfolding read_port
read_port-lt value h = ground arith

parse_s2s-lt :
    (behind value : Bytes) (b : S2sBlock) → parse_s2s behind value ≡ some b → b.port < 65536
unfolding parse_s2s read_port
parse_s2s-lt behind value b h = ground arith

-- The result keeps every port in range, and is the old configuration unless the option was parsed.
record Careful (c : Config) (r : Parsed) : Type 0 where
  keeps : IsValid c → IsValid r.1
  unparsed : r.0 ≢ opt_parsed → r.1 ≡ c

if-Careful :
    (c : Config) (b : Bool) (x y : Parsed)
    → Careful c x
    → Careful c y
    → Careful c (if b then x else y)
if-Careful c true x y hx hy = hx
if-Careful c false x y hx hy = hy

with_port-Careful :
    (c : Config) (set : ℕ → Config) (value : Bytes)
    → ((p : ℕ) → p < 65536 → IsValid c → IsValid (set p))
    → Careful c (with_port c set (read_port value))
with_port-Careful c set value ok = elim (Option-cases (read_port value)) [
  | inl e ↦ rw e (record { keeps = λ v. v; unparsed = λ h. refl })
  | inr (p, e) ↦
      rw e (record { keeps = ok p (read_port-lt value e); unparsed = λ h. absurd (h refl) })
]

-- Options that set no port.
parsed-Careful :
    (c c' : Config)
    → c'.user_port ≡ c.user_port
    → c'.ctl_port ≡ c.ctl_port
    → c'.s2s_me.port ≡ c.s2s_me.port
    → c'.s2s_queue ≡ c.s2s_queue
    → Careful c (opt_parsed, c')
parsed-Careful c c' p q r t = record {
  keeps = λ v. record {
    user_ok = omega arith;
    ctl_ok = omega arith;
    me_ok = omega arith;
    queue_ok = subst PortsBelow (sym t) v.queue_ok;
  };
  unparsed = λ h. absurd (h refl);
}

refused-Careful : (c : Config) (r : OptParse) → Careful c (r, c)
refused-Careful c r = record { keeps = λ v. v; unparsed = λ h. refl }

with_level-Careful : (c : Config) (level : Option LogLevel) → Careful c (with_level c level)
with_level-Careful c none = refused-Careful c opt_bad_val
with_level-Careful c (some level) = parsed-Careful c _ refl refl refl refl

with_bool-Careful : (c : Config) (b : BoolParse) → Careful c (with_bool c b)
with_bool-Careful c bool_true = parsed-Careful c _ refl refl refl refl
with_bool-Careful c bool_false = parsed-Careful c _ refl refl refl refl
with_bool-Careful c bool_error = refused-Careful c opt_bad_val

with_block-Careful :
    (c : Config) (behind value : Bytes) → Careful c (with_block c (parse_s2s behind value))
with_block-Careful c behind value = elim (Option-cases (parse_s2s behind value)) [
  | inl e ↦ rw e (refused-Careful c opt_bad_val)
  | inr (b, e) ↦ rw e (record {
    keeps = λ v. ground (arith, parse_s2s-lt behind value b e);
    unparsed = λ h. absurd (h refl);
  })
]

parse_option-Careful :
    (behind : Bytes) (c : Config) (name value : Bytes)
    → Careful c (parse_option behind c name value)
unfolding parse_option
parse_option-Careful behind c name value =
    if-Careful c (eq_bytes name (codes "port")) _ _
      (with_port-Careful c (set_user_port c) value (λ p h v. ground arith))
      (if-Careful c (eq_bytes name (codes "serverport")) _ _
        (with_port-Careful c (set_me_port c) value (λ p h v. ground arith))
        (if-Careful c (eq_bytes name (codes "controlport")) _ _
          (with_port-Careful c (set_ctl_port c) value (λ p h v. ground arith))
          (if-Careful c (eq_bytes name (codes "servername")) _ _
            (parsed-Careful c _ refl refl refl refl)
            (if-Careful c (eq_bytes name (codes "serverpassword")) _ _
              (parsed-Careful c _ refl refl refl refl)
              (if-Careful c (eq_bytes name (codes "logfile")) _ _
                (parsed-Careful c _ refl refl refl refl)
                (if-Careful c (eq_bytes name (codes "pidfile")) _ _
                  (parsed-Careful c _ refl refl refl refl)
                  (if-Careful c (eq_bytes name (codes "loglevel")) _ _
                    (with_level-Careful c (level_of value))
                    (if-Careful c (eq_bytes name (codes "nullclients")) _ _
                      (with_bool-Careful c (parse_bool value))
                      (if-Careful c (eq_bytes name (codes "server")) _ _
                        (with_block-Careful c behind value) (refused-Careful c opt_unknown))))))))))

-- `parse_option` keeps every port below 65536, whatever the option and its value.
pub parse_option-IsValid :
    (behind : Bytes) (c : Config) (name value : Bytes)
    → IsValid c
    → IsValid (parse_option behind c name value).1
parse_option-IsValid behind c name value = (parse_option-Careful behind c name value).keeps

-- An option that is not parsed leaves the configuration as it is.
pub parse_option_unchanged :
    (behind : Bytes) (c : Config) (name value : Bytes)
    → (parse_option behind c name value).0 ≢ opt_parsed
    → (parse_option behind c name value).1 ≡ c
parse_option_unchanged behind c name value = (parse_option-Careful behind c name value).unparsed

strtol-decimal_end :
    (n : ℕ)
    → n ≤ long_max
    → strtol (decimal n) ≡ record { value = pos n; used = true; erange = false }
strtol-decimal_end n h = ap strtol (sym (append-nil (decimal n))) ∙ strtol-decimal n [] h tt

pub read_port-decimal : (n : ℕ) → n < 65536 → read_port (decimal n) ≡ some n
unfolding read_port
read_port-decimal n h = rw (strtol-decimal_end n (omega arith)) (ground arith)

-- `port`, `serverport` and `controlport` take every decimal number below 65536 as the port that it
-- prints, and change nothing else.
pub parse_option_port :
    (behind : Bytes) (c : Config) (n : ℕ)
    → n < 65536
    → (parse_option behind c (codes "port") (decimal n) ≡ (opt_parsed, record c { user_port = n }))
      × (parse_option behind c (codes "controlport") (decimal n)
          ≡ (opt_parsed, record c { ctl_port = n }))
      × (parse_option behind c (codes "serverport") (decimal n)
          ≡ (opt_parsed, record c { s2s_me = record c.s2s_me { port = n } }))
unfolding parse_option
parse_option_port behind c n h =
    (rw (read_port-decimal n h), rw (read_port-decimal n h), rw (read_port-decimal n h))

-- The option `port` takes a number that is 2 ^ 32 above a port below 65536 as that port.
pub parse_option_wraps :
    (behind : Bytes) (c : Config) (n : ℕ)
    → n < 65536
    → parse_option behind c (codes "port") (decimal (n + 2 ^ 32))
      ≡ (opt_parsed, record c { user_port = n })
unfolding parse_option read_port
parse_option_wraps behind c n h = rw (strtol-decimal_end (n + 2 ^ 32) (omega arith)) (ground arith)
