-- ===== src/Afp/Srp/Stretched.antt =====
-- internal/afp/srp.go: `mgf1SHA1` against the blocks it is made of.
use goafp.Base.{
  ℕ, zero, suc, ◌+◌, ◌≤◌, ◌<◌, ◌≡◌, refl, sym, ap, ◌∙◌, inl, inr, [], ◌∷◌, ◌++◌, append-nil,
  append_assoc, arith, ltb, Bool-cases, length, take, length-append, length-take,
}
use goafp.Base.Bytes.{Bytes, be}
use goafp.Afp.Srp.{mgf1_blocks, mgf1_sha1}

-- T = H(seed | 0) | H(seed | 1) | …, the blocks from number `c` on.
abbrev pub hash_stream : (Bytes → Bytes) → Bytes → ℕ → ℕ → Bytes
hash_stream sha1 seed zero c = []
hash_stream sha1 seed (suc n) c = sha1 (seed ++ be 4 c) ++ hash_stream sha1 seed n (c + 1)

module _ (sha1 : Bytes → Bytes) (positive : (b : Bytes) → 0 < length (sha1 b)) (seed : Bytes) where
  take-append_long : (n : ℕ) (xs ys : Bytes) → n ≤ length xs → take n (xs ++ ys) ≡ take n xs
  take-append_long zero xs ys h = refl
  take-append_long (suc n) [] ys h = absurd (omega arith)
  take-append_long (suc n) (x ∷ xs) ys h = ap (◌∷◌ x) (take-append_long n xs ys (omega arith))

  -- With fuel for what is missing, there is enough, and it starts as the stream does.
  mgf1_blocks_lem :
      (out_len fuel c : ℕ) (out : Bytes)
      → out_len ≤ length out + fuel
      → (out_len ≤ length (mgf1_blocks sha1 seed out_len fuel c out))
        × (take out_len (mgf1_blocks sha1 seed out_len fuel c out)
            ≡ take out_len (out ++ hash_stream sha1 seed fuel c))
  unfolding mgf1_blocks
  mgf1_blocks_lem out_len zero c out h = (omega arith, ap (take out_len) (sym (append-nil out)))
  mgf1_blocks_lem out_len (suc fuel) c out h = elim (Bool-cases (ltb (length out) out_len)) [
    | inl short ↦
        let block = sha1 (seed ++ be 4 c) in
        let grown : out_len ≤ length (out ++ block) + fuel =
          omega (arith, length-append out block, positive (seed ++ be 4 c)) in
        let (size, starts) = mgf1_blocks_lem out_len fuel (c + 1) (out ++ block) grown in
        rw short (
          size,
          starts ∙ ap (take out_len) (append_assoc out block (hash_stream sha1 seed fuel (c + 1))),
        )
    | inr enough ↦
        let long : out_len ≤ length out = ground arith in
        rw enough
          (long, sym (take-append_long out_len out (hash_stream sha1 seed (suc fuel) c) long))
  ]

  -- For every seed and length, and a hash that is never empty, `mgf1SHA1` ends with that many
  -- bytes: the first of the hashes of the seed and the counters 0, 1 and so on, one behind the
  -- other.
  pub mgf1_sha1-hash_stream :
      (out_len : ℕ)
      → (mgf1_sha1 sha1 seed out_len ≡ take out_len (hash_stream sha1 seed out_len 0))
        × (length (mgf1_sha1 sha1 seed out_len) ≡ out_len)
  unfolding mgf1_sha1
  mgf1_sha1-hash_stream out_len =
      let (size, starts) = mgf1_blocks_lem out_len out_len 0 [] (omega arith) in
      (
        starts,
        length-take out_len (mgf1_blocks sha1 seed out_len out_len 0 []) ∙ omega (arith, size),
      )
