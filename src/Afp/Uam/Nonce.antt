-- ===== src/Afp/Uam/Nonce.antt =====
-- internal/afp/uam.go: the arithmetic of the nonces.
use goafp.Base.{
  ℕ, zero, suc, ◌+◌, ◌-◌, ◌/◌, ◌%◌, ◌^◌, ◌≤◌, ◌<◌, ◌≡◌, refl, sym, ap, ◌∙◌, inl, inr, true, false,
  [], ◌∷◌, ◌++◌, append-nil, append_assoc, arith, ltb, ◌==◌, ltb→lt, Bool-cases, length, drop,
  replicate, length-append,
}
use goafp.Base.Bytes.{Bytes, IsBytes, be, from_be, length-be, from_be-be, from_be-snoc, from_be-lt}
use native.Mathlib.Nat.{pow-suc, mod-eq_of_lt, mod_self}
use goafp.Afp.Uam.{int_bytes, right_align, inc_nonce}

drop-snoc : (n : ℕ) (b : Bytes) (d : ℕ) → n ≤ length b → drop n (b ++ d ∷ []) ≡ drop n b ++ d ∷ []
drop-snoc zero b d h = refl
drop-snoc (suc n) [] d h = absurd (omega arith)
drop-snoc (suc n) (x ∷ b) d h = drop-snoc n b d (omega arith)

right_align-snoc :
    (n : ℕ) (b : Bytes) (d : ℕ) → right_align (suc n) (b ++ d ∷ []) ≡ right_align n b ++ d ∷ []
unfolding right_align
right_align-snoc n b d =
    let size : length (b ++ d ∷ []) ≡ length b + 1 = length-append b (d ∷ []) in
    elim (Bool-cases (ltb n (length b))) [
      | inl long ↦
          let long' : ltb (suc n) (length (b ++ d ∷ [])) ≡ true = ground arith in
          let over : length (b ++ d ∷ []) - suc n ≡ length b - n = ground arith in
          rw (long, long', over) (drop-snoc (length b - n) b d (omega arith))
      | inr short ↦
          let short' : ltb (suc n) (length (b ++ d ∷ [])) ≡ false = ground arith in
          let left : suc n - length (b ++ d ∷ []) ≡ n - length b = ground arith in
          rw (short, short', left) (sym (append_assoc (replicate (n - length b) 0) b (d ∷ [])))
    ]

zeros : ℕ → Bytes
zeros n = replicate n 0

zeros-snoc : (n : ℕ) → zeros n ++ 0 ∷ [] ≡ zeros (suc n)
unfolding zeros
zeros-snoc zero = refl
zeros-snoc (suc n) = ap (◌∷◌ 0) (zeros-snoc n)

be_zero : (n : ℕ) → be n 0 ≡ zeros n
unfolding zeros
be_zero zero = refl
be_zero (suc n) = ap (λ b. b ++ 0 ∷ []) (be_zero n) ∙ zeros-snoc n

right_align_zeros : (n : ℕ) → right_align n [] ≡ be n 0
unfolding right_align zeros
right_align_zeros n =
    let short : ltb n 0 ≡ false = ground arith in
    let all : n - 0 ≡ n = omega arith in rw (short, all, be_zero n) (append-nil (zeros n))

drop_all : (b : Bytes) → drop (length b) b ≡ []
drop_all [] = refl
drop_all (x ∷ b) = drop_all b

right_align_none : (b : Bytes) → right_align 0 b ≡ []
unfolding right_align
right_align_none [] = refl
right_align_none (x ∷ b) =
    let long : ltb 0 (length (x ∷ b)) ≡ true = ground arith in
    let all : length (x ∷ b) - 0 ≡ length (x ∷ b) = omega arith in rw (long, all) (drop_all (x ∷ b))

right_align-int_bytes : (n fuel v : ℕ) → v < 256 ^ fuel → right_align n (int_bytes fuel v) ≡ be n v
unfolding int_bytes
right_align-int_bytes zero fuel v h = right_align_none (int_bytes fuel v)
right_align-int_bytes (suc n) zero v h =
    let none_left : v ≡ 0 = omega (arith, h) in rw none_left (right_align_zeros (suc n))
right_align-int_bytes (suc n) (suc fuel) v h = elim (Bool-cases (v == 0)) [
  | inl nothing ↦
      let none_left : v ≡ 0 = ground arith in rw (nothing, none_left) (right_align_zeros (suc n))
  | inr something ↦
      let high : v / 256 < 256 ^ fuel = omega (arith, h, pow-suc 256 fuel) in
      rw something (
        right_align-snoc n (int_bytes fuel (v / 256)) (v % 256)
        ∙ ap (λ b. b ++ (v % 256) ∷ []) (right_align-int_bytes n fuel (v / 256) high))
]

from_be-be_wrap : (k : ℕ) → from_be (be k (256 ^ k)) ≡ 0
from_be-be_wrap zero = refl
from_be-be_wrap (suc k) =
    let high : 256 ^ suc k / 256 ≡ 256 ^ k = omega (arith, pow-suc 256 k) in
    let low : 256 ^ suc k % 256 ≡ 0 = omega (arith, pow-suc 256 k) in
    rw (high, low) (from_be-snoc (be k (256 ^ k)) 0 ∙ omega (arith, from_be-be_wrap k))

from_be_plus_one : (k v : ℕ) → v < 256 ^ k → from_be (be k (v + 1)) ≡ (v + 1) % 256 ^ k
from_be_plus_one k v h = elim (Bool-cases (ltb (v + 1) (256 ^ k))) [
  | inl fits ↦
      let small = ltb→lt (v + 1) (256 ^ k) fits in
      from_be-be k (v + 1) small ∙ sym (mod-eq_of_lt small)
  | inr wraps ↦
      let full : v + 1 ≡ 256 ^ k = ground arith in
      rw full (from_be-be_wrap k ∙ sym (mod_self (256 ^ k)))
]

one_more : (k : ℕ) → k + 1 ≡ suc k
one_more k = omega arith

plus_one : (k : ℕ) → 256 ^ (k + 1) ≡ 256 ^ suc k
plus_one k = ap (λ n. 256 ^ n) (one_more k)

-- For a nonce of bytes, `incNonce` returns as many bytes, and they spell the nonce's number plus
-- one, modulo 256 to the power of their count.
pub inc_nonce_lem :
    (nonce : Bytes)
    → IsBytes nonce
    → (length (inc_nonce nonce) ≡ length nonce)
      × (from_be (inc_nonce nonce) ≡ (from_be nonce + 1) % 256 ^ length nonce)
unfolding inc_nonce
inc_nonce_lem nonce h =
    let small : from_be nonce + 1 < 256 ^ (length nonce + 1) =
      omega (arith, from_be-lt nonce h, pow-suc 256 (length nonce), plus_one (length nonce)) in
    let e = right_align-int_bytes (length nonce) (length nonce + 1) (from_be nonce + 1) small in
    rw e (
      length-be (length nonce) (from_be nonce + 1),
      from_be_plus_one (length nonce) (from_be nonce) (from_be-lt nonce h),
    )
