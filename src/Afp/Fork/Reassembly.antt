-- ===== src/Afp/Fork/Reassembly.antt =====
-- The reassembly of chunks that may have come in any order.
use goafp.Base.{
  ℕ, zero, suc, ◌+◌, ◌-◌, ◌≤◌, ◌<◌, min, ◌≡◌, refl, sym, ap, ◌∙◌, inl, inr, true, false, some, List,
  [], ◌∷◌, ◌++◌, append_assoc, arith, ltb, if◌then◌else◌, ltb→lt, ltb→le, lt→ltb, le→ltb,
  Bool-cases, length, take, drop, All, length-append, length-take, length-drop, drop-drop,
  take-append_eq, drop-append_eq, take_all,
}
use goafp.Base.Bytes.{Bytes}
use goafp.Afp.Fork.{Chunk, chunks_from, Fetched, fetched_at, ReadResult, copy_at, reassemble}
use mathlib.Core.Path.{ap₂}
use native.Mathlib.Nat.{zero-add, suc-add}

pub take_add : (m n : ℕ) (xs : Bytes) → take (m + n) xs ≡ take m xs ++ take n (drop m xs)
take_add zero n xs = rw zero-add
take_add (suc m) zero [] = rw suc-add
take_add (suc m) (suc n) [] = rw suc-add
take_add (suc m) n (x ∷ xs) = rw suc-add (ap (◌∷◌ x) (take_add m n xs))

drop_nil : (n : ℕ) → drop {A = ℕ} n [] ≡ []
drop_nil zero = refl
drop_nil (suc n) = refl

drop_all : (n : ℕ) (xs : Bytes) → length xs ≤ n → drop n xs ≡ []
drop_all zero [] h = refl
drop_all zero (x ∷ xs) h = absurd (omega arith)
drop_all (suc n) [] h = refl
drop_all (suc n) (x ∷ xs) h = drop_all n xs (omega arith)

copy_at_lem :
    (front v q : Bytes) (start : ℕ)
    → length front ≡ start
    → length v ≤ length q
    → copy_at (front ++ q) start v ≡ (front ++ (v ++ drop (length v) q), length v)
unfolding copy_at
copy_at_lem front v q start e h =
    let size = length-append front q in
    let n : min (length (front ++ q) - start) (length v) ≡ length v = omega arith in
    rw (
      n,
      take-append_eq start front q e,
      take_all (length v) v (omega arith),
      ← drop-drop start (length v) (front ++ q),
      drop-append_eq start front q e,
    )

reassemble_short :
    (c : Chunk) (cs : List Chunk) (done : List (ℕ × Fetched)) (p : Bytes) (n : ℕ) (d : Fetched)
    → fetched_at c.start done ≡ some d
    → d.short ≡ true
    → reassemble (c ∷ cs) done p n ≡ record {
      buffer = (copy_at p c.start d.bytes_read).0;
      n = n + (copy_at p c.start d.bytes_read).1;
      eof_seen = true;
    }
unfolding reassemble
reassemble_short c cs done p n d e s = rw (e, s)

reassemble_full :
    (c : Chunk) (cs : List Chunk) (done : List (ℕ × Fetched)) (p : Bytes) (n : ℕ) (d : Fetched)
    → fetched_at c.start done ≡ some d
    → d.short ≡ false
    → reassemble (c ∷ cs) done p n
      ≡ reassemble cs done
          (copy_at p c.start d.bytes_read).0
          (n + (copy_at p c.start d.bytes_read).1)
unfolding reassemble
reassemble_full c cs done p n d e s = rw (e, s)

pub chunks_end : (fuel at total size : ℕ) → total ≤ at → chunks_from fuel at total size ≡ []
unfolding chunks_from
chunks_end zero at total size h = refl
chunks_end (suc fuel) at total size h = rw (le→ltb at total h)

chunks_next :
    (fuel at total size : ℕ)
    → at < total
    → chunks_from (suc fuel) at total size
      ≡ record { start = at; want = if ltb total (at + size) then total - at else size }
        ∷ chunks_from fuel (at + size) total size
unfolding chunks_from
chunks_next fuel at total size h = rw (lt→ltb at total h)

-- What the request for a chunk of the fork's bytes `fs` has brought.
pub record IsFetched (fs : Bytes) (done : List (ℕ × Fetched)) (c : Chunk) : Type 0 where
  pub got : Fetched
  pub found : fetched_at c.start done ≡ some got
  pub is_part : got.bytes_read ≡ take c.want (drop c.start fs)
  pub full : got.short ≡ false → length got.bytes_read ≡ c.want
  pub last : got.short ≡ true → length (drop c.start fs) ≤ c.want

-- The buffer holds `left` as far as that goes, and the flag tells whether it was all.
pub record IsRead (front q left : Bytes) (r : ReadResult) : Type 0 where
  pub buffer_is : r.buffer ≡ front ++ (take (length q) left ++ drop (length left) q)
  pub n_is : r.n ≡ length front + length (take (length q) left)
  pub all_read : r.eof_seen ≡ false → length q ≤ length left
  pub at_end : r.eof_seen ≡ true → length left ≤ length q

pub IsRead-end :
    (front left : Bytes) (n : ℕ)
    → length front ≡ n
    → IsRead front [] left (record { buffer = front ++ []; n = n; eof_seen = false })
IsRead-end front left n e = record {
  buffer_is = ap (◌++◌ front) (sym (drop_nil (length left)));
  n_is = omega arith;
  all_read = λ _. omega arith;
  at_end = λ h. cc;
}

reassemble_nil :
    (front left : Bytes) (done : List (ℕ × Fetched)) (n : ℕ)
    → length front ≡ n
    → IsRead front [] left (reassemble [] done (front ++ []) n)
unfolding reassemble
reassemble_nil front left done n e = IsRead-end front left n e

-- One full chunk in front of the rest.
IsRead-cons :
    (front v q left : Bytes) (n : ℕ) (r : ReadResult)
    → length v ≡ n
    → n ≤ length q
    → v ≡ take n left
    → IsRead (front ++ v) (drop n q) (drop n left) r
    → IsRead front q left r
IsRead-cons front v q left n r e small is h =
    let room : n ≤ length left = omega (arith, e, ap length is, length-take n left) in
    let dq = length-drop n q in
    let dl = length-drop n left in
    let T = take (length (drop n q)) (drop n left) in
    let D = drop (length (drop n left)) (drop n q) in
    let whole : length q ≡ n + length (drop n q) = omega arith in
    let whole' : length left ≡ n + length (drop n left) = omega arith in
    let tk : take (length q) left ≡ v ++ T =
      ap (λ k. take k left) whole
      ∙ take_add n (length (drop n q)) left
      ∙ ap (λ t. t ++ T) (sym is) in
    let dk : drop (length left) q ≡ D =
      ap (λ k. drop k q) whole' ∙ sym (drop-drop n (length (drop n left)) q) in
    record {
      buffer_is =
          h.buffer_is
          ∙ append_assoc front v (T ++ D)
          ∙ ap (◌++◌ front) (sym (append_assoc v T D))
          ∙ ap₂ (λ t d. front ++ (t ++ d)) (sym tk) (sym dk);
      n_is = omega (arith, h.n_is, ap length tk, length-append v T, length-append front v);
      all_read = λ f. omega (arith, h.all_read f);
      at_end = λ f. omega (arith, h.at_end f);
    }

IsRead-last :
    (front q left : Bytes) (n : ℕ)
    → length front ≡ n
    → length left ≤ length q
    → IsRead front q left (record {
      buffer = front ++ (left ++ drop (length left) q);
      n = n + length left;
      eof_seen = true;
    })
IsRead-last front q left n e h =
    let whole = take_all (length q) left h in
    record {
      buffer_is = rw whole refl;
      n_is = omega (arith, ap length whole);
      all_read = λ f. cc;
      at_end = λ _. h;
    }

reassemble_cons :
    (fs : Bytes) (done : List (ℕ × Fetched)) (c : Chunk) (cs : List Chunk) (front q left : Bytes)
    → length front ≡ c.start
    → left ≡ drop c.start fs
    → c.want ≤ length q
    → IsFetched fs done c
    → (length (take c.want left) ≡ c.want
        → IsRead
            (front ++ take c.want left)
            (drop c.want q)
            (drop c.want left)
            (reassemble cs done ((front ++ take c.want left) ++ drop c.want q) (c.start + c.want)))
    → IsRead front q left (reassemble (c ∷ cs) done (front ++ q) c.start)
reassemble_cons fs done c cs front q left e el small got k =
    let v = take c.want left in
    let d = got.got in
    let is : d.bytes_read ≡ v = got.is_part ∙ ap (take c.want) (sym el) in
    let fits : length v ≤ length q = omega (arith, length-take c.want left) in
    let copied = copy_at_lem front v q c.start e fits in
    elim (Bool-cases d.short) [
      | inl short ↦
          let all : length left ≤ c.want = rw el (got.last short) in
          let v_is : v ≡ left = take_all c.want left all in
          rw (reassemble_short c cs done (front ++ q) c.start d got.found short, is, copied, v_is)
            (IsRead-last front q left c.start e (omega arith))
      | inr long ↦
          let width : length v ≡ c.want = sym (ap length is) ∙ got.full long in
          let next = IsRead-cons front v q left c.want _ width small refl (k width) in
          rw
            (
              reassemble_full c cs done (front ++ q) c.start d got.found long,
              is,
              copied,
              width,
              ← append_assoc front v (drop c.want q),
            )
            next
    ]

module _ (fs : Bytes) (done : List (ℕ × Fetched)) (size total : ℕ) (pos : 0 < size) where
  pub reassemble_lem :
      (fuel at : ℕ) (front q : Bytes)
      → length front ≡ at
      → total ≡ at + length q
      → length q ≤ fuel
      → All (IsFetched fs done) (chunks_from fuel at total size)
      → IsRead front q
          (drop at fs)
          (reassemble (chunks_from fuel at total size) done (front ++ q) at)
  reassemble_lem fuel at front [] e t lt all =
      rw (chunks_end fuel at total size (omega arith)) (reassemble_nil front (drop at fs) done at e)
  reassemble_lem zero at front (x ∷ q) e t lt all = absurd (omega arith)
  reassemble_lem (suc fuel) at front (x ∷ q) e t lt all =
      let here : at < total = omega arith in
      let steps = chunks_next fuel at total size here in
      elim (Bool-cases (ltb total (at + size))) [
        | inl over ↦
            let none_left =
              chunks_end fuel (at + size) total size
                (omega (arith, ltb→lt total (at + size) over)) in
            let (got, _) = rw (steps, over, none_left) at all in
            let c : Chunk = record { start = at; want = total - at } in
            let gone : drop (total - at) (x ∷ q) ≡ [] =
              drop_all (total - at) (x ∷ q) (omega arith) in
            rw (steps, over, none_left)
              (reassemble_cons fs done c [] front (x ∷ q) (drop at fs) e refl (omega arith) got
                λ len. rw gone (
                  reassemble_nil (front ++ take (total - at) (drop at fs))
                    (drop (total - at) (drop at fs)) done (at + (total - at))
                    (omega (arith, length-append front (take (total - at) (drop at fs)), len))))
        | inr fits ↦
            let (got, more) = rw (steps, fits) at all in
            let c : Chunk = record { start = at; want = size } in
            let small : size ≤ length (x ∷ q) = omega (arith, ltb→le total (at + size) fits) in
            let width = length-drop size (x ∷ q) in
            rw (steps, fits)
              (reassemble_cons fs done c (chunks_from fuel (at + size) total size) front (x ∷ q)
                (drop at fs) e refl small got
                λ len. rw (drop-drop at size fs) (
                  reassemble_lem fuel (at + size) (front ++ take size (drop at fs))
                    (drop size (x ∷ q))
                    (omega (arith, length-append front (take size (drop at fs)), len)) (omega arith)
                    (omega arith) more))
      ]
