-- ===== src/Proto/Field.antt =====
-- One field of a message, as `ichat_buffer_to_icc2s` and `ichat_buffer_to_ics2s` cut it off.
use ichatd.Common.{
  ◌≡◌, ◌∷◌, ◌++◌, Option, none, some, arith, Bytes, length, length-append, leb, if◌then◌else◌,
  cut_at, cut_at-append, cut_at_inv, Lacks,
}

-- A field of a message: `b_size <= 0` and a missing zero byte are refused; the rest is what stands
-- behind the zero byte.
unfoldable pub next_field : Bytes → Option (Bytes × Bytes)
next_field b_data = if leb (length b_data) 0 then none else cut_at 0 b_data

pub next_field-append : (a b : Bytes) → Lacks 0 a → next_field (a ++ 0 ∷ b) ≡ some (a, b)
unfolding next_field
next_field-append a b h = ground (arith, length-append a (0 ∷ b), cut_at-append 0 a b h)

pub next_field_inv : (s a b : Bytes) → next_field s ≡ some (a, b) → (s ≡ a ++ 0 ∷ b) × Lacks 0 a
unfolding next_field
next_field_inv s a b h = cut_at_inv 0 s a b (ground arith)
