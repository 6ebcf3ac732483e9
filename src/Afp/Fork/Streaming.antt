-- ===== src/Afp/Fork/Streaming.antt =====
-- internal/afp/fork.go: `WriteTo` against a server that holds a file.
use goafp.Base.{
  ℕ, zero, suc, ◌+◌, ◌-◌, ◌*◌, ◌%◌, ◌^◌, ◌≤◌, ◌<◌, ◌≡◌, refl, sym, ap, ◌∙◌, inl, inr, true, false,
  some, List, [], ◌∷◌, ◌++◌, append-nil, arith, leb, ◌==◌, Bool-cases, length, take, drop,
  replicate, length-append, length-take, length-drop, length-replicate, take-append_length,
  take_all,
}
use goafp.Base.Bytes.{Bytes}
use goafp.Base.Int.{ℤ, pos, signed64}
use goafp.Base.Outcome.{ok}
use mathlib.Core.Path.{subst}
use mathlib.Core.List.{Permᴰ}
use goafp.Dsi.Header.{cmd_command}
use goafp.Dsi.Conn.{Reply}
use goafp.Afp.Link.{M, Link}
use goafp.Afp.Reader.{slice}
use goafp.Afp.Fork.{
  Fork, Chunk, chunks, ReadResult, read_request, read_at, emit_read, write_to_from, write_to,
}
use goafp.Afp.Fork.Reassembly.{IsRead}
use goafp.Afp.Fork.Reads.{ReadAnswer, read_at-file}

zero_add_sym : (n : ℕ) → n ≡ 0 + n
zero_add_sym n = omega arith

suc_add : (m n : ℕ) → suc (m + n) ≡ suc m + n
suc_add m n = omega arith

take_nil : (n : ℕ) → take {A = ℕ} n [] ≡ []
take_nil zero = refl
take_nil (suc n) = refl

take-append_drop : (m n : ℕ) (xs : Bytes) → take m xs ++ take n (drop m xs) ≡ take (m + n) xs
take-append_drop zero n xs = ap (λ k. take k xs) (zero_add_sym n)
take-append_drop (suc m) n [] = take_nil n ∙ sym (take_nil (suc m + n))
take-append_drop (suc m) n (x ∷ xs) =
    ap (◌∷◌ x) (take-append_drop m n xs) ∙ ap (λ k. take k (x ∷ xs)) (suc_add m n)

-- The int64 that the length of the file wraps to.
abbrev pub total_of : Bytes → ℤ
total_of file = signed64 (length file % 2 ^ 64)

total_of-fits : (file : Bytes) → length file < 2 ^ 63 → total_of file ≡ pos (length file)
total_of-fits file h =
    let same : length file % 2 ^ 64 ≡ length file = omega (arith, h) in rw same (ground (arith, h))

pub empty : (xs : Bytes) → length xs ≡ 0 → xs ≡ []
empty [] h = refl
empty (x ∷ xs) h = absurd (omega (arith, h))

slice-read :
    (buf left : Bytes) (r : ReadResult)
    → IsRead [] buf left r
    → slice r.buffer 0 r.n ≡ ok (take (length buf) left)
unfolding slice
slice-read buf left r h =
    let t = take (length buf) left in
    let size : length r.buffer ≡ length t + length (drop (length left) buf) =
      ap length h.buffer_is ∙ length-append t (drop (length left) buf) in
    let all : r.n - 0 ≡ length t = omega (arith, h.n_is) in
    let low : leb 0 r.n ≡ true = ground arith in
    let high : leb r.n (length r.buffer) ≡ true = ground (arith, h.n_is, size) in
    rw (low, high, all, h.buffer_is) (ap ok (take-append_length t (drop (length left) buf)))

length-read :
    (buf left : Bytes) (r : ReadResult) → IsRead [] buf left r → length r.buffer ≡ length buf
length-read buf left r h =
    ap length h.buffer_is
    ∙ omega (
      arith,
      length-append (take (length buf) left) (drop (length left) buf),
      length-take (length buf) left,
      length-drop (length left) buf,
    )

module _ {W : Type 0} (link : Link W) (emit : Bytes → M W (Unit {0})) (f : Fork)
    (sched : ℕ → List Chunk) (P : Bytes → W → Type 0) (file : Bytes)
    (answers : (out : Bytes) (offset count : ℕ) (w : W)
      → offset + count < 2 ^ 64
      → P out w
      → (r : Reply) × (w' : W) × (link.request cmd_command 0 (read_request link f offset count) w
          ≡ (ok r, w'))
        × P out w'
        × ReadAnswer file offset count r)
    (takes : (out b : Bytes) (w : W)
      → P out w
      → (w' : W) × (emit b w ≡ (ok tt, w')) × P (out ++ b) w') where
  emit_read_lem :
      (out buf left : Bytes) (r : ReadResult) (w : W)
      → IsRead [] buf left r
      → P out w
      → (w' : W) × (emit_read link emit r w ≡ (ok tt, w')) × P (out ++ take (length buf) left) w'
  emit_read_lem out buf left r w h p = elim (Bool-cases (r.n == 0)) [
    | inl nothing ↦
        let none_left : take (length buf) left ≡ [] =
          empty (take (length buf) left) (ground (arith, h.n_is)) in
        (w, rw nothing, subst (λ b. P b w) (sym (append-nil out) ∙ ap (◌++◌ out) (sym none_left)) p)
    | inr something ↦
        let (w', e, p') = takes out (take (length buf) left) w p in
        (w', rw (something, slice-read buf left r h, e), p')
  ]

  -- The last window: the file ends in it.
  last_window :
      (fuel off : ℕ) (buf : Bytes) (w w1 w2 : W) (r : ReadResult)
      → off ≤ length file
      → read_at link f (sched off) buf off w ≡ (ok r, w1)
      → IsRead [] buf (drop off file) r
      → emit_read link emit r w1 ≡ (ok tt, w2)
      → r.eof_seen ≡ true
      → write_to_from link emit (suc fuel) sched f buf off w ≡ (ok (some (total_of file)), w2)
  unfolding write_to_from
  last_window fuel off buf w w1 w2 r inside read is out ended =
      let total : off + r.n ≡ length file = omega (
        arith,
        is.n_is,
        is.at_end ended,
        length-take (length buf) (drop off file),
        length-drop off file,
      ) in
      rw (read, out, ended, total)

  -- A full window, behind which the loop goes on.
  full_window :
      (fuel off : ℕ) (buf : Bytes) (w w1 w2 : W) (r : ReadResult)
      → 0 < r.n
      → read_at link f (sched off) buf off w ≡ (ok r, w1)
      → emit_read link emit r w1 ≡ (ok tt, w2)
      → r.eof_seen ≡ false
      → write_to_from link emit (suc fuel) sched f buf off w
        ≡ write_to_from link emit fuel sched f r.buffer (off + r.n) w2
  unfolding write_to_from
  full_window fuel off buf w w1 w2 r some_read read out more =
      let nonzero : (r.n == 0) ≡ false = ground arith in rw (read, out, more, nonzero)

  write_to_from_lem :
      (fuel off : ℕ) (buf : Bytes) (w : W)
      → 0 < f.chunk_size
      → 0 < length buf
      → ((at : ℕ) → Permᴰ (sched at) (chunks (length buf) f.chunk_size))
      → length file + length buf < 2 ^ 64
      → off ≤ length file
      → length file < fuel + off
      → P (take off file) w
      → (w' : W) × (write_to_from link emit fuel sched f buf off w
          ≡ (ok (some (total_of file)), w'))
        × P file w'
  unfolding write_to_from
  write_to_from_lem zero off buf w positive window perm fits inside enough p = absurd (omega arith)
  write_to_from_lem (suc fuel) off buf w positive window perm fits inside enough p =
      let left = drop off file in
      let (r, w1, read, p1, is) =
        read_at-file link f (P (take off file)) file (answers (take off file)) (sched off) buf off w
          positive (omega arith) (perm off) p in
      let (w2, out, p2) = emit_read_lem (take off file) buf left r w1 is p1 in
      let p3 = subst (λ b. P b w2) (take-append_drop off (length buf) file) p2 in
      let size = length-read buf left r is in
      let room = length-drop off file in
      elim (Bool-cases r.eof_seen) [
        | inl ended ↦ (
          w2,
          last_window fuel off buf w w1 w2 r inside read is out ended,
          subst (λ b. P b w2)
              (take_all (off + length buf) file (omega (arith, is.at_end ended, room))) p3,
        )
        | inr more ↦
            let n : r.n ≡ length buf =
              omega (arith, is.n_is, is.all_read more, length-take (length buf) left) in
            let (w3, runs, done) =
              write_to_from_lem fuel (off + r.n) r.buffer w2 positive (omega (arith, size))
                (λ at. subst (λ k. Permᴰ (sched at) (chunks k f.chunk_size)) (sym size) (perm at))
                (omega (arith, size)) (omega (arith, n, is.all_read more, room)) (omega (arith, n))
                (subst (λ k. P (take (off + k) file) w2) (sym n) p3) in
            (w3, full_window fuel off buf w w1 w2 r (omega (arith, n)) read out more ∙ runs, done)
      ]

  -- The same for longer files too: the bytes are right, and the total has wrapped.
  pub write_to-wraps :
      (fuel : ℕ) (w : W)
      → 0 < f.chunk_size
      → 0 < f.chunk_size * f.max_parallel
      → ((at : ℕ) → Permᴰ (sched at) (chunks (f.chunk_size * f.max_parallel) f.chunk_size))
      → length file + f.chunk_size * f.max_parallel < 2 ^ 64
      → length file < fuel
      → P [] w
      → (w' : W) × (write_to link emit fuel sched f w ≡ (ok (some (total_of file)), w')) × P file w'
  write_to-wraps fuel w positive window perm fits enough p =
      let size : length {A = ℕ} (replicate (f.chunk_size * f.max_parallel) 0)
          ≡ f.chunk_size * f.max_parallel =
        length-replicate (f.chunk_size * f.max_parallel) 0 in
      write_to_from_lem fuel 0 (replicate (f.chunk_size * f.max_parallel) 0) w positive
        (omega (arith, size, window))
        (λ at. subst (λ k. Permᴰ (sched at) (chunks k f.chunk_size)) (sym size) (perm at))
        (omega (arith, size, fits)) (omega arith) (omega (arith, enough)) p

  -- Let the server answer reads of the fork below 2^64 with the bytes of a file, and with no error
  -- or, where the read reaches the end of the file, with the end-of-fork code, and let the writer
  -- take all that it is given. Then, for a positive chunk size and a positive number of parallel
  -- reads, whatever the order of the reads of a window, if the file is shorter than 2^63 bytes and
  -- with a window more fits below 2^64, `WriteTo` ends, returns the length of the file, and the
  -- writer has got the file. Fuel above the file's length is enough.
  pub write_to-file :
      (fuel : ℕ) (w : W)
      → 0 < f.chunk_size
      → 0 < f.chunk_size * f.max_parallel
      → ((at : ℕ) → Permᴰ (sched at) (chunks (f.chunk_size * f.max_parallel) f.chunk_size))
      → length file < 2 ^ 63
      → length file + f.chunk_size * f.max_parallel < 2 ^ 64
      → length file < fuel
      → P [] w
      → (w' : W) × (write_to link emit fuel sched f w ≡ (ok (some (pos (length file))), w'))
        × P file w'
  write_to-file fuel w positive window perm small fits enough p =
      let (w', runs, done) = write_to-wraps fuel w positive window perm fits enough p in
      (w', runs ∙ ap (λ n. (ok (some n), w')) (total_of-fits file small), done)
