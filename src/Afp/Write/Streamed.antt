-- ===== src/Afp/Write/Streamed.antt =====
-- internal/afp/write.go: `ReadFrom` against a server that takes what it is sent.
use goafp.Base.{
  ℕ, zero, suc, ◌+◌, ◌-◌, ◌*◌, ◌^◌, ◌<◌, ◌≡◌, refl, sym, ap, ◌∙◌, inl, inr, true, false, none, some,
  List, [], ◌∷◌, ◌++◌, append_assoc, arith, ltb, ltb→lt, ltb→le, ◌==◌, if◌then◌else◌, Bool-cases,
  length, get_or, take, drop, length-append, length-take, length-drop, take-append-drop, take_all,
}
use goafp.Base.Bytes.{Bytes}
use goafp.Base.Outcome.{ok}
use mathlib.Core.Path.{subst, fun_ext}
use mathlib.Core.List.{Permᴰ}
use goafp.Dsi.Header.{cmd_write}
use goafp.Dsi.Conn.{Reply}
use goafp.Afp.Codes.{res_no_err}
use goafp.Afp.Link.{Link}
use goafp.Afp.Fork.{Fork, Chunk}
use goafp.Afp.Write.{
  pieces, write_header, write_request, write_chunk_size, write_at, full, ended, Filled,
  write_window, read_from_from, read_from,
}
use native.Mathlib.Nat.{mul-pos}
use goafp.Afp.Write.Bounds.{write_chunk_size-pos}
use goafp.Afp.Write.Contents.{Contents, put, write_at-file}

-- What `io.ReadFull` makes of a reader that has `left` left.
abbrev pub fill_of : ℕ → Bytes → Filled
fill_of n left = record { filled = take n left; end = if ltb (length left) n then ended else full }

get_or-append :
    (a b : Bytes) (i : ℕ)
    → get_or (a ++ b) i 0 ≡ (if ltb i (length a) then get_or a i 0 else get_or b (i - length a) 0)
get_or-append [] b i = ground arith
get_or-append (x ∷ a) b zero = ground arith
get_or-append (x ∷ a) b (suc i) = ground (arith, get_or-append a b i)

zero_add : (n : ℕ) → n ≡ 0 + n
zero_add n = omega arith

pub put-append :
    (off : ℕ) (a b : Bytes) (c : Contents)
    → put (off + length a) b (put off a c) ≡ put off (a ++ b) c
unfolding put
put-append off a b c = fun_ext λ i. ground (arith, get_or-append a b (i - off), length-append a b)

put_after : (a b : Bytes) (c : Contents) → put (length a) b (put 0 a c) ≡ put 0 (a ++ b) c
put_after a b c = ap (λ k. put k b (put 0 a c)) (zero_add (length a)) ∙ put-append 0 a b c

pub put_nothing : (off : ℕ) (c : Contents) → put off [] c ≡ c
unfolding put
put_nothing off c = fun_ext λ i. ground arith

module _ {W : Type 0} (link : Link W) (fill : ℕ → W → Filled × W) (f : Fork)
    (sched : ℕ → ℕ → List Chunk) (P : Contents → Bytes → W → Type 0)
    (fills : (n : ℕ) (c : Contents) (left : Bytes) (w : W)
      → P c left w
      → (w' : W) × (fill n w ≡ (fill_of n left, w')) × P c (drop n left) w')
    (takes : (left : Bytes) (offset : ℕ) (v : Bytes) (c : Contents) (w : W)
      → offset + length v < 2 ^ 64
      → P c left w
      → (r : Reply) × (w' : W) × (link.request cmd_write
            (length (write_header f offset (length v)))
            (write_request f offset v)
            w
          ≡ (ok r, w'))
        × (r.header.err_code ≡ res_no_err)
        × P (put offset v c) left w')
    (perms : (at n : ℕ) → Permᴰ (sched at n) (pieces n (write_chunk_size link.quantum f))) where
  window : ℕ
  window = write_chunk_size link.quantum f * f.max_parallel

  write_window-write_at :
      (v : Bytes) (at : ℕ) (w : W)
      → write_window link fill sched f v at w ≡ write_at link f (sched at (length v)) v at w
  unfolding write_window write_at
  write_window-write_at v at w = elim (Bool-cases (length v == 0)) [
    | inl nothing ↦ rw nothing refl
    | inr something ↦ rw something refl
  ]

  write_window_lem :
      (v left : Bytes) (at : ℕ) (c : Contents) (w : W)
      → at + length v < 2 ^ 64
      → P c left w
      → (w' : W) × (write_window link fill sched f v at w
          ≡ (ok (record { total = length v; first_err = none }), w'))
        × P (put at v c) left w'
  write_window_lem v left at c w fits h =
      let (w', run, h') =
        write_at-file link f (λ c. P c left) (takes left) (sched at (length v)) v at c w fits
          (perms at (length v)) h in
      (w', write_window-write_at v at w ∙ run, h')

  empty : (xs : Bytes) → length xs ≡ 0 → xs ≡ []
  empty [] e = refl
  empty (x ∷ xs) e = absurd (omega (arith, e))

  last_window :
      (fuel at : ℕ) (left : Bytes) (w w1 w2 : W)
      → fill window w ≡ (fill_of window left, w1)
      → write_window link fill sched f (take window left) at w1
        ≡ (ok (record { total = length (take window left); first_err = none }), w2)
      → ltb (length left) window ≡ true
      → read_from_from link fill (suc fuel) sched f at w
        ≡ (ok (some (record { total = at + length (take window left); first_err = none })), w2)
  unfolding read_from_from window
  last_window fuel at left w w1 w2 filled run last = rw (filled, last, run) refl

  full_window :
      (fuel at : ℕ) (left : Bytes) (w w1 w2 : W)
      → fill window w ≡ (fill_of window left, w1)
      → write_window link fill sched f (take window left) at w1
        ≡ (ok (record { total = length (take window left); first_err = none }), w2)
      → ltb (length left) window ≡ false
      → read_from_from link fill (suc fuel) sched f at w
        ≡ read_from_from link fill fuel sched f (at + length (take window left)) w2
  unfolding read_from_from window
  full_window fuel at left w w1 w2 filled run more = rw (filled, more, run) refl

  read_from_from_lem :
      (fuel : ℕ) (before left : Bytes) (c : Contents) (w : W)
      → 0 < window
      → length before + length left < 2 ^ 64
      → length left < fuel
      → P (put 0 before c) left w
      → (w' : W) × (read_from_from link fill fuel sched f (length before) w
          ≡ (ok (some (record { total = length before + length left; first_err = none })), w'))
        × P (put 0 (before ++ left) c) [] w'
  read_from_from_lem zero before left c w positive fits enough h = absurd (omega arith)
  read_from_from_lem (suc fuel) before left c w positive fits enough h =
      let v = take window left in
      let (w1, filled, h1) = fills window (put 0 before c) left w h in
      let size = length-take window left in
      let (w2, run, h2) =
        write_window_lem v (drop window left) (length before) (put 0 before c) w1
          (omega (arith, size)) h1 in
      let h3 = subst (λ d. P d (drop window left) w2) (put_after before v c) h2 in
      elim (Bool-cases (ltb (length left) window)) [
        | inl last ↦
            let short = ltb→lt (length left) window last in
            let all : v ≡ left = take_all window left (omega (arith, short)) in
            let none_left : drop window left ≡ [] =
              empty (drop window left) (omega (arith, length-drop window left, short)) in
            (
              w2,
              last_window fuel (length before) left w w1 w2 filled run last
                  ∙ ap
                      (λ x. (
                        ok (some (record { total = length before + length x; first_err = none })),
                        w2,
                      ))
                      all,
              subst (λ l. P (put 0 (before ++ left) c) l w2) none_left
                  (subst (λ x. P (put 0 (before ++ x) c) (drop window left) w2) all h3),
            )
        | inr more ↦
            let long = ltb→le (length left) window more in
            let sizes = length-append before v in
            let rest = length-drop window left in
            let (w3, runs, h4) =
              read_from_from_lem fuel (before ++ v) (drop window left) c w2 positive
                (omega (arith, sizes, size, rest)) (omega (arith, rest, positive, enough, long))
                h3 in
            (
              w3,
              full_window fuel (length before) left w w1 w2 filled run more
                  ∙ ap (λ n. read_from_from link fill fuel sched f n w2) (sym sizes)
                  ∙ runs
                  ∙ ap (λ n. (ok (some (record { total = n; first_err = none })), w3))
                      (omega (arith, sizes, size, rest, long)),
              subst (λ x. P (put 0 x c) [] w3)
                  (append_assoc before v (drop window left)
                    ∙ ap (λ x. before ++ x) (take-append-drop window left))
                  h4,
            )
      ]

  -- Let the server take each write of the fork that ends below 2^64, whatever the order of the
  -- pieces of a window, and let `io.ReadFull` fill buffers from a source of fewer than 2^63 bytes.
  -- Then, for a positive number of parallel writes, `ReadFrom` ends with the length of the source
  -- and no error, the source is used up, and the file holds it from offset 0 on and is elsewhere
  -- as it was. Fuel above the source's length is enough.
  pub read_from-file :
      (fuel : ℕ) (source : Bytes) (c : Contents) (w : W)
      → 0 < f.max_parallel
      → length source < 2 ^ 63
      → length source < fuel
      → P c source w
      → (w' : W) × (read_from link fill fuel sched f w
          ≡ (ok (some (record { total = length source; first_err = none })), w'))
        × P (put 0 source c) [] w'
  unfolding read_from window
  read_from-file fuel source c w positive fits enough h =
      let room = mul-pos (write_chunk_size-pos link.quantum f) positive in
      let (w', run, h') =
        read_from_from_lem fuel [] source c w room (omega (arith, fits)) enough
          (subst (λ d. P d source w) (sym (put_nothing 0 c)) h) in
      (
        w',
        run
            ∙ ap (λ n. (ok (some (record { total = n; first_err = none })), w'))
                (sym (zero_add (length source))),
        h',
      )
