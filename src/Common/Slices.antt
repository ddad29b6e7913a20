-- ===== src/Common/Slices.antt =====
-- More on parts of lists, for lists measured by native numbers.
use Prim.Native.Nat.{ℕ, zero, suc, ◌+◌, ◌-◌, ◌≤◌}
use mathlib.Core.Path.{◌≡◌, refl, sym, ap, ◌∙◌}
use mathlib.Core.List.{[], ◌∷◌, ◌++◌}
use native.Mathlib.Omega.{arith}
use ichatd.Common.ByteStrings.{Bytes}
use ichatd.Common.Lists.{length, take, drop}

pub drop-nil {ℓ} : {A : Type ℓ} (n : ℕ) → drop {A = A} n [] ≡ []
drop-nil zero = refl
drop-nil (suc n) = refl

pub drop-append_le : (n : ℕ) (a b : Bytes) → n ≤ length a → drop n (a ++ b) ≡ drop n a ++ b
drop-append_le zero a b h = refl
drop-append_le (suc n) [] b h = elim h [ ]
drop-append_le (suc n) (x ∷ a) b h = drop-append_le n a b (omega arith)

pub drop-append_ge : (n : ℕ) (a b : Bytes) → length a ≤ n → drop n (a ++ b) ≡ drop (n - length a) b
drop-append_ge n [] b h = ap (λ k. drop k b) (let e : n ≡ n - 0 = omega arith in e)
drop-append_ge zero (x ∷ a) b h = elim h [ ]
drop-append_ge (suc n) (x ∷ a) b h =
    let e : n - length a ≡ suc n - suc (length a) = omega arith in
    drop-append_ge n a b (omega arith) ∙ ap (λ k. drop k b) e

pub drop-drop : (m n : ℕ) (a : Bytes) → drop m (drop n a) ≡ drop (n + m) a
drop-drop m zero a = ap (λ k. drop k a) (let e : m ≡ 0 + m = omega arith in e)
drop-drop m (suc n) [] = drop-nil m ∙ sym (drop-nil (suc n + m))
drop-drop m (suc n) (x ∷ a) =
    let e : suc (n + m) ≡ suc n + m = omega arith in drop-drop m n a ∙ ap (λ k. drop k (x ∷ a)) e

pub take-append_le : (n : ℕ) (a b : Bytes) → n ≤ length a → take n (a ++ b) ≡ take n a
take-append_le zero a b h = refl
take-append_le (suc n) [] b h = elim h [ ]
take-append_le (suc n) (x ∷ a) b h = ap (λ r. x ∷ r) (take-append_le n a b (omega arith))

pub take-length : (a : Bytes) (n : ℕ) → n ≡ length a → take n a ≡ a
take-length [] zero h = refl
take-length [] (suc n) h = refl
take-length (x ∷ a) zero h = absurd (omega arith)
take-length (x ∷ a) (suc n) h = ap (λ r. x ∷ r) (take-length a n (omega arith))

pub take-length_le : (n : ℕ) (a : Bytes) → length a ≤ n → take n a ≡ a
take-length_le zero [] h = refl
take-length_le zero (x ∷ a) h = elim h [ ]
take-length_le (suc n) [] h = refl
take-length_le (suc n) (x ∷ a) h = ap (λ r. x ∷ r) (take-length_le n a (omega arith))

pub take-take : (m n : ℕ) (a : Bytes) → m ≤ n → take m (take n a) ≡ take m a
take-take zero n a h = refl
take-take (suc m) zero a h = elim h [ ]
take-take (suc m) (suc n) [] h = refl
take-take (suc m) (suc n) (x ∷ a) h = ap (λ r. x ∷ r) (take-take m n a (omega arith))

pub drop-length_le : (n : ℕ) (a : Bytes) → length a ≤ n → drop n a ≡ []
drop-length_le n [] h = drop-nil n
drop-length_le zero (x ∷ a) h = elim h [ ]
drop-length_le (suc n) (x ∷ a) h = drop-length_le n a (omega arith)
