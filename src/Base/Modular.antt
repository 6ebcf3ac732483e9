-- ===== src/Base/Modular.antt =====
-- Powers, and arithmetic modulo a number.
use goafp.Base.{ℕ, zero, suc, ◌+◌, ◌-◌, ◌*◌, ◌/◌, ◌%◌, ◌^◌, ◌<◌, ◌≡◌, sym, ap, ◌∙◌, arith}
use native.Mathlib.Nat.{
  pow-suc, pow-zero, mul-one, mul-suc, mul-zero, mul_assoc, mul_comm, add-mod-mod, mod-add-mod,
  mod-lt, div-add-mod, add-mul-mod_self_left,
}

pub mul-mod_left : (a b n : ℕ) → (a % n * b) % n ≡ (a * b) % n
mul-mod_left a zero n = ap (λ x. x % n) (mul-zero (a % n) ∙ sym (mul-zero a))
mul-mod_left a (suc b) n =
    ap (λ x. x % n) (mul-suc (a % n) b)
    ∙ add-mod-mod (a % n * b) a n
    ∙ sym (mod-add-mod (a % n * b) n a)
    ∙ ap (λ x. (x + a) % n) (mul-mod_left a b n)
    ∙ mod-add-mod (a * b) n a
    ∙ ap (λ x. x % n) (sym (mul-suc a b))

pub mul-mod_right : (a b n : ℕ) → (a * (b % n)) % n ≡ (a * b) % n
mul-mod_right a b n =
    ap (λ x. x % n) (mul_comm a (b % n)) ∙ mul-mod_left b a n ∙ ap (λ x. x % n) (mul_comm b a)

pub pow-mod : (a k n : ℕ) → (a % n) ^ k % n ≡ a ^ k % n
pow-mod a zero n = ap (λ x. x % n) (pow-zero (a % n) ∙ sym (pow-zero a))
pow-mod a (suc k) n =
    ap (λ x. x % n) (pow-suc (a % n) k)
    ∙ mul-mod_right ((a % n) ^ k) a n
    ∙ sym (mul-mod_left ((a % n) ^ k) a n)
    ∙ ap (λ x. (x * a) % n) (pow-mod a k n)
    ∙ mul-mod_left (a ^ k) a n
    ∙ ap (λ x. x % n) (sym (pow-suc a k))

add_suc : (a b : ℕ) → a + suc b ≡ suc (a + b)
add_suc a b = omega arith

add_zero : (a : ℕ) → a + zero ≡ a
add_zero a = omega arith

pub pow-add : (a m n : ℕ) → a ^ (m + n) ≡ a ^ m * a ^ n
pow-add a m zero =
    ap (λ k. a ^ k) (add_zero m) ∙ sym (ap (λ x. a ^ m * x) (pow-zero a) ∙ mul-one (a ^ m))
pow-add a m (suc n) =
    ap (λ k. a ^ k) (add_suc m n)
    ∙ pow-suc a (m + n)
    ∙ ap (λ x. x * a) (pow-add a m n)
    ∙ mul_assoc (a ^ m) (a ^ n) a
    ∙ ap (λ x. a ^ m * x) (sym (pow-suc a n))

pub pow-mul : (a m n : ℕ) → a ^ (m * n) ≡ (a ^ m) ^ n
pow-mul a m zero = ap (λ k. a ^ k) (mul-zero m) ∙ pow-zero a ∙ sym (pow-zero (a ^ m))
pow-mul a m (suc n) =
    ap (λ k. a ^ k) (mul-suc m n)
    ∙ pow-add a (m * n) m
    ∙ ap (λ x. x * a ^ m) (pow-mul a m n)
    ∙ sym (pow-suc (a ^ m) n)

-- What is added and taken away again, modulo n.
pub add-sub_mod : (y z n : ℕ) → 0 < n → (y + z + (n - y % n)) % n ≡ z % n
add-sub_mod y z n h =
    let split = div-add-mod y n in
    let low : y % n < n = mod-lt y h in
    let e : y + z + (n - y % n) ≡ z + n * (y / n + 1) =
      let block : n * (y / n + 1) ≡ n * (y / n) + n =
        ap (λ k. n * k) (add_suc (y / n) 0 ∙ ap suc (add_zero (y / n))) ∙ mul-suc n (y / n) in
      omega (arith, split, low, block) in
    ap (λ x. x % n) e ∙ add-mul-mod_self_left z n (y / n + 1)

pub pow-pow_comm : (g a b : ℕ) → (g ^ a) ^ b ≡ (g ^ b) ^ a
pow-pow_comm g a b = sym (pow-mul g a b) ∙ ap (λ k. g ^ k) (mul_comm a b) ∙ pow-mul g b a
