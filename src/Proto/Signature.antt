-- ===== src/Proto/Signature.antt =====
-- `ichat_sig_cmp` of src/ichat/proto/icmisc.c, and `ichat_sig_is_broadcast` of
-- src/ichat/proto/ichat_dispatch.c.
use ichatd.Common.{
  ◌≡◌, ◌↔◌, refl, Bool, true, false, [], ◌∷◌, arith, Bytes, length, ltb, ◌==◌, if◌then◌else◌, ℤ,
  pos, negsuc,
}

-- memcmp (a, b, n) for two strings of n bytes. Of the result only the sign is specified.
memcmp : Bytes → Bytes → ℤ
memcmp [] b = pos 0
memcmp (x ∷ a) [] = pos 0
memcmp (x ∷ a) (y ∷ b) =
    let rest = memcmp a b in if ltb x y then negsuc 0 else if ltb y x then pos 1 else rest

-- `ichat_sig_cmp`.
unfoldable pub ichat_sig_cmp : Bytes → Bytes → ℤ
unfolding memcmp
ichat_sig_cmp sig1 sig2 =
    if ltb (length sig2) (length sig1)
    then pos 1
    else if ltb (length sig1) (length sig2)
    then negsuc 0
    else memcmp sig1 sig2

-- `ichat_sig_is_broadcast`: "" and "*".
unfoldable pub ichat_sig_is_broadcast : Bytes → Bool
ichat_sig_is_broadcast [] = true
ichat_sig_is_broadcast (c ∷ []) = c == b'*'
ichat_sig_is_broadcast (c ∷ d ∷ sig) = false

memcmp_refl : (a : Bytes) → memcmp a a ≡ pos 0
unfolding memcmp
memcmp_refl [] = refl
memcmp_refl (x ∷ a) = ground (arith, memcmp_refl a)

memcmp_zero : (a b : Bytes) → length a ≡ length b → memcmp a b ≡ pos 0 → a ≡ b
unfolding memcmp
memcmp_zero [] [] p h = refl
memcmp_zero [] (y ∷ b) p h = absurd (omega arith)
memcmp_zero (x ∷ a) [] p h = absurd (omega arith)
memcmp_zero (x ∷ a) (y ∷ b) p h = ground (arith, memcmp_zero a b)

-- `ichat_sig_cmp` returns 0 exactly for equal signatures.
pub ichat_sig_cmp_iff : (a b : Bytes) → (ichat_sig_cmp a b ≡ pos 0) ↔ (a ≡ b)
unfolding ichat_sig_cmp
ichat_sig_cmp_iff a b =
    (λ h. ground (arith, memcmp_zero a b), λ e. rw (← e) (ground (arith, memcmp_refl a)))

memcmp_swap : (a b : Bytes) → length a ≡ length b → (memcmp a b ≡ pos 1) ↔ (memcmp b a ≡ negsuc 0)
unfolding memcmp
memcmp_swap [] [] p = (λ h. ground arith, λ h. ground arith)
memcmp_swap [] (y ∷ b) p = absurd (omega arith)
memcmp_swap (x ∷ a) [] p = absurd (omega arith)
memcmp_swap (x ∷ a) (y ∷ b) p =
    (λ h. ground (arith, memcmp_swap a b), λ h. ground (arith, memcmp_swap a b))

-- Swapping the arguments of `ichat_sig_cmp` swaps "greater" and "less".
pub ichat_sig_cmp_swap :
    (a b : Bytes) → (ichat_sig_cmp a b ≡ pos 1) ↔ (ichat_sig_cmp b a ≡ negsuc 0)
unfolding ichat_sig_cmp
ichat_sig_cmp_swap a b =
    (λ h. ground (arith, memcmp_swap a b), λ h. ground (arith, memcmp_swap a b))
