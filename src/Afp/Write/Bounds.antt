-- ===== src/Afp/Write/Bounds.antt =====
-- The size of a write request.
use goafp.Base.{
  ℕ, zero, suc, ◌+◌, ◌-◌, ◌≤◌, ◌<◌, inl, inr, List, [], ◌∷◌, arith, ltb, Bool-cases, length, drop,
  All, length-append, length-take,
}
use goafp.Base.Bytes.{Bytes}
use goafp.Afp.Fork.{Fork, Chunk, chunks_from}
use goafp.Afp.Write.{
  write_chunk_header_len, pieces, part, write_chunk_size, write_header, write_request,
}

-- The chunk size of writes is positive for every quantum and every fork, so that the loop that
-- cuts a buffer up goes on.
pub write_chunk_size-pos : (quantum : ℕ) (f : Fork) → 0 < write_chunk_size quantum f
unfolding write_chunk_size
write_chunk_size-pos quantum f = ground arith

write_chunk_size-le :
    (quantum : ℕ) (f : Fork)
    → write_chunk_header_len < quantum
    → 0 < f.chunk_size
    → write_chunk_size quantum f ≤ quantum - write_chunk_header_len
unfolding write_chunk_size
write_chunk_size-le quantum f h h' = ground arith

pieces-le :
    (fuel at total size : ℕ) → All (λ (c : Chunk). c.want ≤ size) (chunks_from fuel at total size)
unfolding chunks_from
pieces-le zero at total size = tt
pieces-le (suc fuel) at total size = elim (Bool-cases (ltb at total)) [
  | inl more ↦ rw more (ground arith, pieces-le fuel (at + size) total size)
  | inr done ↦ rw done tt
]

All-map {ℓ} :
    {A : Type ℓ} (P Q : A → Type 0) (xs : List A) → ((a : A) → P a → Q a) → All P xs → All Q xs
All-map P Q [] k h = tt
All-map P Q (x ∷ xs) k h = (k x h.0, All-map P Q xs k h.1)

-- If the server's quantum leaves room for data behind the command block and the chunk size of the
-- fork is positive, every request of a `WriteAt`, its command block included, stays within the
-- quantum.
pub write_request-le-quantum :
    (quantum : ℕ) (f : Fork) (p : Bytes) (off : ℕ)
    → write_chunk_header_len < quantum
    → 0 < f.chunk_size
    → All
        (λ (c : Chunk). length (write_request f (off + c.start) (part p c)) ≤ quantum)
        (pieces (length p) (write_chunk_size quantum f))
write_request-le-quantum quantum f p off h h' =
    All-map _ _ _
      (λ c small. omega (
        arith,
        length-append (write_header f (off + c.start) (length (part p c))) (part p c),
        length-take c.want (drop c.start p),
        write_chunk_size-le quantum f h h',
      ))
      (pieces-le (length p) 0 (length p) (write_chunk_size quantum f))
