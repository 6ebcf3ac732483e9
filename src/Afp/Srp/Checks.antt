-- ===== src/Afp/Srp/Checks.antt =====
-- internal/afp/srp.go: what the last reply of a login holds, and what a login that succeeds has seen.
use goafp.Base.{
  ℕ, zero, suc, ◌+◌, ◌^◌, ◌≤◌, ◌<◌, ◌≡◌, refl, sym, ap, ◌∙◌, ◌↔◌, ◌⊎◌, inl, inr, true, none, some,
  [], ◌∷◌, ◌++◌, arith, ltb, ◌==◌, ==_iff, Bool-cases, length, take, drop, length-take,
  take-append-drop,
}
use goafp.Base.Bytes.{Bytes, IsBytes, drop-IsBytes, be, from_be, length-be, be-from_be}
use goafp.Base.Outcome.{truncated, malformed, Outcome, ok, err}
use goafp.Afp.Text.{same, same_iff}
use goafp.Afp.Reader.{Reader, reader, uint, read, fail}
use goafp.Afp.Reader.Ahead.{
  Ahead, Ahead-length, moved, Ahead-reader, Ahead-moved, read_lem, uint_lem,
}
use goafp.Afp.Srp.{srp_server_proof, Proof, server_proof, verify_server}

-- A reader in front of `s` fails, or takes the first `n` bytes of it.
read_cases :
    (n : ℕ) (r : Reader) (s : Bytes)
    → Ahead r s
    → (read n r ≡ (none, fail r))
      ⊎ ((n ≤ length s) × (read n r ≡ (some (take n s), moved n r)) × Ahead (moved n r) (drop n s))
unfolding read
read_cases n r s a = elim (Bool-cases (ltb (length s) n)) [
  | inl short ↦
      let past : ltb (length r.b) (r.pos + n) ≡ true = ground (arith, Ahead-length r s a) in
      inl (ground (arith, past, a.fine))
  | inr room ↦
      let split = take-append-drop n s in
      let size : length (take n s) ≡ n = length-take n s ∙ ground arith in
      let a' : Ahead r (take n s ++ drop n s) = rw split a in
      inr (
        ground arith,
        read_lem n r (take n s) (drop n s) size a',
        Ahead-moved n r (take n s) (drop n s) size a',
      )
]

All-take : (n : ℕ) (s : Bytes) → IsBytes s → IsBytes (take n s)
All-take zero s h = tt
All-take (suc n) [] h = tt
All-take (suc n) (x ∷ s) (b, h) = (b, All-take n s h)

-- Bytes spell the number that is read from the first `k` of them, and go on.
spelled : (k : ℕ) (s : Bytes) → IsBytes s → k ≤ length s → be k (from_be (take k s)) ++ drop k s ≡ s
spelled k s h room =
    let size : length (take k s) ≡ k = length-take k s ∙ omega (arith, room) in
    let e : be k (from_be (take k s)) ≡ take k s =
      ap (λ n. be n (from_be (take k s))) (sym size) ∙ be-from_be (take k s) (All-take k s h) in
    rw e (take-append-drop k s)

module _ (sha1 : Bytes → Bytes) (p : Proof) where
  -- The last reply of a server that proves itself.
  abbrev pub proof_reply : Bytes → Bytes
  proof_reply rest =
      be 2 srp_server_proof
      ++ (be 2 (length (server_proof sha1 p)) ++ (server_proof sha1 p ++ rest))

  pub verify_server-proof_reply :
      (rest : Bytes)
      → length (server_proof sha1 p) < 2 ^ 16
      → verify_server sha1 p (proof_reply rest) ≡ ok tt
  unfolding verify_server
  verify_server-proof_reply rest small =
      let m2 = server_proof sha1 p in
      let r0 = reader (proof_reply rest) in
      let a0 = Ahead-reader (proof_reply rest) in
      let s1 = be 2 (length m2) ++ (m2 ++ rest) in
      let e0 = uint_lem 2 r0 srp_server_proof s1 (omega arith) a0 in
      let a1 = Ahead-moved 2 r0 (be 2 srp_server_proof) s1 (length-be 2 srp_server_proof) a0 in
      let e1 = uint_lem 2 (moved 2 r0) (length m2) (m2 ++ rest) small a1 in
      let a2 =
        Ahead-moved 2 (moved 2 r0) (be 2 (length m2)) (m2 ++ rest) (length-be 2 (length m2)) a1 in
      let e2 = read_lem (length m2) (moved 2 (moved 2 r0)) m2 rest refl a2 in
      let e3 = (same_iff m2 m2).1 refl in rw (e0, e1, e2, e3) refl

  -- The fields of a reply, put together again.
  reply-parts :
      (payload : Bytes)
      → IsBytes payload
      → from_be (take 2 payload) ≡ srp_server_proof
      → 2 ≤ length payload
      → 2 ≤ length (drop 2 payload)
      → from_be (take 2 (drop 2 payload)) ≤ length (drop 2 (drop 2 payload))
      → take (from_be (take 2 (drop 2 payload))) (drop 2 (drop 2 payload)) ≡ server_proof sha1 p
      → payload ≡ proof_reply (drop (from_be (take 2 (drop 2 payload))) (drop 2 (drop 2 payload)))
  reply-parts payload h marker room room1 room2 e =
      let s1 = drop 2 payload in
      let s2 = drop 2 s1 in
      let n = from_be (take 2 s1) in
      let size : n ≡ length (server_proof sha1 p) =
        sym (length-take n s2 ∙ omega (arith, room2)) ∙ ap length e in
      sym (
        ap
          (λ k.
            be 2 k ++ (be 2 (length (server_proof sha1 p)) ++ (server_proof sha1 p ++ drop n s2)))
          (sym marker)
        ∙ ap
            (λ k. be 2 (from_be (take 2 payload)) ++ (be 2 k ++ (server_proof sha1 p ++ drop n s2)))
            (sym size)
        ∙ ap (λ m. be 2 (from_be (take 2 payload)) ++ (be 2 n ++ (m ++ drop n s2))) (sym e)
        ∙ ap (λ m. be 2 (from_be (take 2 payload)) ++ (be 2 n ++ m)) (take-append-drop n s2)
        ∙ ap (λ m. be 2 (from_be (take 2 payload)) ++ m)
            (spelled 2 s1 (drop-IsBytes 2 payload h) room1)
        ∙ spelled 2 payload h room)

  -- What `verify_server` accepts is such a reply.
  verify_server-inv :
      (payload : Bytes)
      → IsBytes payload
      → verify_server sha1 p payload ≡ ok tt
      → (rest : Bytes) × (payload ≡ proof_reply rest)
  unfolding verify_server uint fail read
  verify_server-inv payload bytes h =
      let r0 = reader payload in
      let s1 = drop 2 payload in
      let s2 = drop 2 s1 in
      let n = from_be (take 2 s1) in
      elim (read_cases 2 r0 payload (Ahead-reader payload)) [
        | inl e ↦
            let refused : ◌≡◌ {A = Outcome (Unit {0})} (err malformed) (ok tt) = rw e at h in
            absurd cc
        | inr (room, e, a1) ↦ elim (Bool-cases (from_be (take 2 payload) == srp_server_proof)) [
          | inr other ↦
              let refused : ◌≡◌ {A = Outcome (Unit {0})} (err malformed) (ok tt) =
                rw (e, other) at h in
              absurd cc
          | inl marker ↦ elim (read_cases 2 (moved 2 r0) s1 a1) [
            | inl e1 ↦
                let refused : ◌≡◌ {A = Outcome (Unit {0})} (err truncated) (ok tt) =
                  rw (e, marker, e1) at h in
                absurd cc
            | inr (room1, e1, a2) ↦ elim (read_cases n (moved 2 (moved 2 r0)) s2 a2) [
              | inl e2 ↦
                  let refused : ◌≡◌ {A = Outcome (Unit {0})} (err truncated) (ok tt) =
                    rw (e, marker, e1, e2) at h in
                  absurd cc
              | inr (room2, e2, a3) ↦ elim (Bool-cases (same (take n s2) (server_proof sha1 p))) [
                | inr other ↦
                    let refused : ◌≡◌ {A = Outcome (Unit {0})} (err malformed) (ok tt) =
                      rw (e, marker, e1, e2, other) at h in
                    absurd cc
                | inl proved ↦ (
                  drop n s2,
                  reply-parts payload bytes
                      ((==_iff (from_be (take 2 payload)) srp_server_proof).0 marker) room room1
                      room2 ((same_iff (take n s2) (server_proof sha1 p)).0 proved),
                )
              ]
            ]
          ]
        ]
      ]

  -- On a last reply of bytes, where the hash is shorter than 65536 bytes, the check accepts just
  -- the replies that start with the step marker 4, the length of the hash of A, M1 and K, and that
  -- hash.
  pub verify_server_iff :
      (payload : Bytes)
      → IsBytes payload
      → length (server_proof sha1 p) < 2 ^ 16
      → (verify_server sha1 p payload ≡ ok tt) ↔ ((rest : Bytes) × (payload ≡ proof_reply rest))
  verify_server_iff payload bytes small =
      (verify_server-inv payload bytes, λ (rest, e). rw e (verify_server-proof_reply rest small))
