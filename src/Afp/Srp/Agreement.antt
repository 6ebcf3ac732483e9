-- ===== src/Afp/Srp/Agreement.antt =====
-- internal/afp/srp.go: the client's secret against the server's.
use goafp.Base.{ℕ, ◌+◌, ◌-◌, ◌*◌, ◌%◌, ◌^◌, ◌<◌, ◌≡◌, sym, ap, ◌∙◌}
use goafp.Base.Modular.{
  pow-pow_comm, mul-mod_left, mul-mod_right, pow-mod, pow-add, pow-mul, add-sub_mod,
}
use native.Mathlib.Nat.{mul_comm, mod-mod, mod-add-mod}
use goafp.Afp.Srp.{exp_mod, client_secret}

-- A server's side of SRP-6a: its public number, for the verifier `v` and its secret number, and its
-- secret, from the client's public number.
abbrev pub server_public : ℕ → ℕ → ℕ → ℕ → ℕ → ℕ
server_public n g k v secret = (k * v + exp_mod g secret n) % n

abbrev pub server_secret : ℕ → ℕ → ℕ → ℕ → ℕ → ℕ
server_secret n v u secret A = exp_mod (A * exp_mod v u n) secret n

-- Taking k*g^x away from the server's number leaves g^b.
base_lem :
    (n g k x secret : ℕ)
    → 0 < n
    → (server_public n g k (exp_mod g x n) secret + (n - (k * exp_mod g x n) % n)) % n
      ≡ exp_mod g secret n
base_lem n g k x secret h =
    let y = k * exp_mod g x n in
    let z = exp_mod g secret n in
    mod-add-mod (y + z) n (n - y % n) ∙ add-sub_mod y z n h ∙ mod-mod (g ^ secret) n

-- The server's base is g^(a + u*x).
server_base :
    (n g x a u : ℕ) → (exp_mod g a n * exp_mod (exp_mod g x n) u n) % n ≡ g ^ (a + u * x) % n
server_base n g x a u =
    let v_u : exp_mod (exp_mod g x n) u n ≡ (g ^ (u * x)) % n =
      pow-mod (g ^ x) u n
      ∙ ap (λ m. m % n) (sym (pow-mul g x u) ∙ ap (λ k. g ^ k) (mul_comm x u)) in
    ap (λ m. (exp_mod g a n * m) % n) v_u
    ∙ mul-mod_right (exp_mod g a n) (g ^ (u * x)) n
    ∙ mul-mod_left (g ^ a) (g ^ (u * x)) n
    ∙ ap (λ m. m % n) (sym (pow-add g a (u * x)))

-- For every positive modulus, generator, multiplier, password key, scrambler and secret numbers,
-- the secret S of the client is that of a server that has the verifier g^x mod N and has sent kv +
-- g^b mod N: (A v^u)^b mod N.
pub client_secret-server_secret :
    (n g k x u a secret : ℕ)
    → 0 < n
    → client_secret n g k x u a (server_public n g k (exp_mod g x n) secret)
      ≡ server_secret n (exp_mod g x n) u secret (exp_mod g a n)
unfolding client_secret
client_secret-server_secret n g k x u a secret h =
    let e = a + u * x in
    ap (λ m. exp_mod m e n) (base_lem n g k x secret h)
    ∙ pow-mod (g ^ secret) e n
    ∙ ap (λ m. m % n) (pow-pow_comm g secret e)
    ∙ sym (pow-mod (g ^ e) secret n)
    ∙ ap (λ m. exp_mod m secret n) (sym (server_base n g x a u))
    ∙ pow-mod (exp_mod g a n * exp_mod (exp_mod g x n) u n) secret n
