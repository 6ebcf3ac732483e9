-- ===== src/Base/Numerals/RoundTrip.antt =====
-- Decimal text read back.
use Prim.Native.Nat.{ℕ, zero, suc, ◌+◌, ◌*◌, ◌-◌, ◌/◌, ◌%◌, ◌^◌, ◌≤◌, ◌<◌}
use mathlib.Core.Path.{◌≡◌, refl, ap, ◌∙◌}
use mathlib.Core.Logic.{inl, inr}
use mathlib.Core.List.{[], ◌∷◌, ◌++◌, append-nil}
use native.Mathlib.Omega.{arith}
use goafp.Base.Lists.{All}
use goafp.Base.Tests.{ltb, ltb→lt, Bool-cases}
use goafp.Base.Bytes.{Bytes}
use goafp.Base.Numerals.{digit, digits_rev, reverse_onto, decimal}

-- The number of the digits, the last one first.
value_rev : Bytes → ℕ
value_rev [] = 0
value_rev (c ∷ cs) = (c - b'0') + 10 * value_rev cs

unfoldable pub decimal_value : Bytes → ℕ
unfolding value_rev
decimal_value s = value_rev (reverse_onto s [])

digit-small : (d : ℕ) → d < 10 → digit d - b'0' ≡ d
digit-small d h = ground arith

halved : (k n : ℕ) → n < 2 ^ suc k → n / 10 < 2 ^ k
halved k n h = omega (arith, two_pow k)
  where
    two_pow : (k : ℕ) → 2 ^ suc k ≡ 2 * 2 ^ k
    two_pow k = omega arith

value_rev-digits_rev : (k n : ℕ) → n < 2 ^ k → value_rev (digits_rev k 10 n) ≡ n
unfolding value_rev digits_rev
value_rev-digits_rev zero n h = omega arith
value_rev-digits_rev (suc k) n h = elim (Bool-cases (ltb n 10)) [
  | inl last ↦ rw last (omega (arith, digit-small (n % 10) (omega arith), ltb→lt n 10 last))
  | inr more ↦ rw more (
      omega
        (arith, digit-small (n % 10) (omega arith), value_rev-digits_rev k (n / 10) (halved k n h)))
]

reverse_onto-reverse_onto :
    (xs ys zs : Bytes) → reverse_onto (reverse_onto xs ys) zs ≡ reverse_onto ys (xs ++ zs)
reverse_onto-reverse_onto [] ys zs = refl
reverse_onto-reverse_onto (x ∷ xs) ys zs = reverse_onto-reverse_onto xs (x ∷ ys) zs

pub decimal_value-decimal : (n : ℕ) → n < 2 ^ 64 → decimal_value (decimal n) ≡ n
unfolding decimal_value
decimal_value-decimal n h =
    ap value_rev
      (reverse_onto-reverse_onto (digits_rev 64 10 n) [] [] ∙ append-nil (digits_rev 64 10 n))
    ∙ value_rev-digits_rev 64 n h

abbrev pub IsDigit : ℕ → Type 0
IsDigit c = b'0' ≤ c

digits_rev-IsDigit : (k base n : ℕ) → All IsDigit (digits_rev k base n)
unfolding digits_rev
digits_rev-IsDigit zero base n = tt
digits_rev-IsDigit (suc k) base n = elim (Bool-cases (ltb n base)) [
  | inl last ↦ rw last (digit-IsDigit (n % base), tt)
  | inr more ↦ rw more (digit-IsDigit (n % base), digits_rev-IsDigit k base (n / base))
]
  where
    digit-IsDigit : (d : ℕ) → IsDigit (digit d)
    digit-IsDigit d = ground arith

reverse_onto-All :
    (xs out : Bytes) → All IsDigit xs → All IsDigit out → All IsDigit (reverse_onto xs out)
reverse_onto-All [] out h k = k
reverse_onto-All (x ∷ xs) out (h, hs) k = reverse_onto-All xs (x ∷ out) hs (h, k)

pub decimal-IsDigit : (n : ℕ) → All IsDigit (decimal n)
decimal-IsDigit n = reverse_onto-All (digits_rev 64 10 n) [] (digits_rev-IsDigit 64 10 n) tt
