-- ===== src/Afp/Write/Contents.antt =====
-- internal/afp/write.go: `WriteAt` against a server that holds a file.
use goafp.Base.{
  ℕ, zero, suc, ◌+◌, ◌-◌, ◌^◌, ◌≤◌, ◌<◌, ◌≡◌, refl, ap, ◌∙◌, inl, inr, Bool, true, false, ◌&&◌,
  ◌||◌, Option, none, some, List, [], ◌∷◌, arith, ltb, leb, if◌then◌else◌, Bool-cases, length,
  get_or, take, drop, All, length-take, length-drop,
}
use goafp.Base.Bytes.{Bytes}
use goafp.Base.Outcome.{ok}
use mathlib.Core.Path.{fun_ext, ap₂, subst}
use mathlib.Core.List.{Permᴰ}
use mathlib.Core.List.Permᴰ
use goafp.Dsi.Conn.{Reply}
use goafp.Dsi.Header.{cmd_write}
use goafp.Afp.Codes.{result_err, res_no_err}
use goafp.Afp.Link.{Link, command_write}
use goafp.Afp.Write.Bounds.{write_chunk_size-pos}
use goafp.Afp.Fork.Reads.{All-perm, Inside, chunks_from-Inside, suc-ne-zero}
use goafp.Afp.Fork.{Fork, Chunk, chunks_from}
use goafp.Afp.Write.{
  pieces, part, write_header, write_request, write_chunk, write_group, write_at, write_chunk_size,
}

-- The contents of a file, byte by byte; where nothing is known the value is what was there.
abbrev pub Contents : Type 0
Contents = ℕ → Option ℕ

-- `v` written at `off`.
unfoldable pub put : ℕ → Bytes → Contents → Contents
put off v c i = if leb off i && ltb i (off + length v) then some (get_or v (i - off) 0) else c i

-- The byte `i` of the file is among those that the pieces cover.
covered : ℕ → ℕ → List Chunk → Bool
covered off i [] = false
covered off i (c ∷ cs) =
    (leb (off + c.start) i && ltb i (off + c.start + c.want)) || covered off i cs

within : ℕ → ℕ → Chunk → Bool
within off i c = leb (off + c.start) i && ltb i (off + c.start + c.want)

or_swap : (a b c : Bool) → (a || (b || c)) ≡ (b || (a || c))
or_swap a b c = ground arith

covered-perm : (off i : ℕ) {xs ys : List Chunk} → Permᴰ xs ys → covered off i xs ≡ covered off i ys
unfolding covered within
covered-perm off i Permᴰ.nil = refl
covered-perm off i (Permᴰ.cons e q) = ap₂ (λ c r. within off i c || r) e (covered-perm off i q)
covered-perm off i (Permᴰ.swap {a} {b} {a'} {b'} {l} e e') =
    or_swap (within off i a) (within off i b) (covered off i l)
    ∙ ap₂ (λ c d. within off i c || (within off i d || covered off i l)) e' e
covered-perm off i (Permᴰ.trans q r) = covered-perm off i q ∙ covered-perm off i r

covered-chunks :
    (fuel at total size off i : ℕ)
    → 0 < size
    → total ≤ at + fuel
    → covered off i (chunks_from fuel at total size) ≡ (leb (off + at) i && ltb i (off + total))
unfolding covered chunks_from
covered-chunks zero at total size off i h k = ground arith
covered-chunks (suc fuel) at total size off i h k =
    ground (arith, covered-chunks fuel (at + size) total size off i h)

-- The contents once the pieces are written, in the order of the list.
puts : ℕ → Bytes → List Chunk → Contents → Contents
puts off p [] c = c
puts off p (k ∷ ks) c = puts off p ks (put (off + k.start) (part p k) c)

get_or-take : (n : ℕ) (xs : Bytes) (j : ℕ) → j < n → get_or (take n xs) j 0 ≡ get_or xs j 0
get_or-take zero xs j h = absurd (omega arith)
get_or-take (suc n) [] j h = refl
get_or-take (suc n) (x ∷ xs) zero h = refl
get_or-take (suc n) (x ∷ xs) (suc j) h = get_or-take n xs j (omega arith)

suc_add : (m j : ℕ) → suc (m + j) ≡ suc m + j
suc_add m j = omega arith

get_or-drop : (m : ℕ) (xs : Bytes) (j : ℕ) → get_or (drop m xs) j 0 ≡ get_or xs (m + j) 0
get_or-drop zero xs j = ap (λ k. get_or xs k 0) (omega arith)
get_or-drop (suc m) [] j = refl
get_or-drop (suc m) (x ∷ xs) j = get_or-drop m xs j ∙ ap (λ k. get_or (x ∷ xs) k 0) (suc_add m j)

length-part : (p : Bytes) (k : Chunk) → Inside (length p) k → length (part p k) ≡ k.want
length-part p k h = omega (arith, length-take k.want (drop k.start p), length-drop k.start p)

get_or-part :
    (p : Bytes) (off i : ℕ) (k : Chunk)
    → within off i k ≡ true
    → get_or (part p k) (i - (off + k.start)) 0 ≡ get_or p (i - off) 0
unfolding within
get_or-part p off i k h =
    get_or-take k.want (drop k.start p) (i - (off + k.start)) (ground arith)
    ∙ get_or-drop k.start p (i - (off + k.start))
    ∙ ap (λ j. get_or p j 0) (ground arith)

put-part :
    (off : ℕ) (p : Bytes) (k : Chunk) (c : Contents) (i : ℕ)
    → Inside (length p) k
    → put (off + k.start) (part p k) c i
      ≡ (if within off i k then some (get_or p (i - off) 0) else c i)
unfolding put within
put-part off p k c i h = elim (Bool-cases (within off i k)) [
  | inl in_piece ↦ rw (length-part p k h, in_piece, get_or-part p off i k in_piece)
  | inr outside ↦ rw (length-part p k h, outside)
]

if_twice :
    {A : Type 0} (a b : Bool) (x y : A)
    → (if a then x else (if b then x else y)) ≡ (if b || a then x else y)
if_twice a b x y = ground arith

puts_lem :
    (off : ℕ) (p : Bytes) (ks : List Chunk) (c : Contents) (i : ℕ)
    → All (Inside (length p)) ks
    → puts off p ks c i ≡ (if covered off i ks then some (get_or p (i - off) 0) else c i)
unfolding puts covered within
puts_lem off p [] c i hs = refl
puts_lem off p (k ∷ ks) c i (h, hs) =
    puts_lem off p ks (put (off + k.start) (part p k) c) i hs
    ∙ ap (λ o. if covered off i ks then some (get_or p (i - off) 0) else o) (put-part off p k c i h)
    ∙ if_twice (covered off i ks) (within off i k) (some (get_or p (i - off) 0)) (c i)

wants : List Chunk → ℕ
wants [] = 0
wants (k ∷ ks) = k.want + wants ks

wants-perm : {xs ys : List Chunk} → Permᴰ xs ys → wants xs ≡ wants ys
unfolding wants
wants-perm Permᴰ.nil = refl
wants-perm (Permᴰ.cons e q) = ap₂ (λ k n. k.want + n) e (wants-perm q)
wants-perm (Permᴰ.swap {a} {b} {a'} {b'} {l} e e') =
    omega (arith, ap (λ k. k.want) e, ap (λ k. k.want) e')
wants-perm (Permᴰ.trans q r) = wants-perm q ∙ wants-perm r

wants-chunks :
    (fuel at total size : ℕ)
    → 0 < size
    → total ≤ at + fuel
    → wants (chunks_from fuel at total size) ≡ total - at
unfolding wants chunks_from
wants-chunks zero at total size h k = ground arith
wants-chunks (suc fuel) at total size h k =
    ground (arith, wants-chunks fuel (at + size) total size h)

plus_zero : (n : ℕ) → n + 0 ≡ n
plus_zero n = omega arith

puts-put :
    (off : ℕ) (p : Bytes) (sched : List Chunk) (c : Contents) (size : ℕ)
    → 0 < size
    → Permᴰ sched (pieces (length p) size)
    → puts off p sched c ≡ put off p c
unfolding put
puts-put off p sched c size positive perm =
    let total = length p in
    fun_ext λ i.
      puts_lem off p sched c i
        (All-perm (Inside total) (Permᴰ.symm perm) (chunks_from-Inside total 0 total size))
      ∙ ap (λ b. if b then some (get_or p (i - off) 0) else c i)
          (covered-perm off i perm ∙ covered-chunks total 0 total size off i positive (omega arith))
      ∙ ap (λ s. if leb s i && ltb i (off + total) then some (get_or p (i - off) 0) else c i)
          (plus_zero off)

no_pieces : Permᴰ [] (pieces 0 1)
unfolding chunks_from
no_pieces = Permᴰ.nil

module _ {W : Type 0} (link : Link W) (f : Fork) (P : Contents → W → Type 0)
    (takes : (offset : ℕ) (v : Bytes) (c : Contents) (w : W)
      → offset + length v < 2 ^ 64
      → P c w
      → (r : Reply) × (w' : W) × (link.request cmd_write
            (length (write_header f offset (length v)))
            (write_request f offset v)
            w
          ≡ (ok r, w'))
        × (r.header.err_code ≡ res_no_err)
        × P (put offset v c) w') where
  write_chunk_lem :
      (offset : ℕ) (v : Bytes) (c : Contents) (w : W)
      → offset + length v < 2 ^ 64
      → P c w
      → (w' : W) × (write_chunk link f offset v w ≡ (ok (length v), w')) × P (put offset v c) w'
  unfolding write_chunk command_write result_err
  write_chunk_lem offset v c w fits h =
      let (r, w', req, fine, h') = takes offset v c w fits h in (w', rw (req, fine), h')

  write_group_lem :
      (p : Bytes) (off : ℕ) (ks : List Chunk) (c : Contents) (w : W)
      → off + length p < 2 ^ 64
      → All (Inside (length p)) ks
      → P c w
      → (w' : W) × (write_group link f p off ks w
          ≡ (ok (record { total = wants ks; first_err = none }), w'))
        × P (puts off p ks c) w'
  unfolding write_group puts wants
  write_group_lem p off [] c w fits hs h = (w, refl, h)
  write_group_lem p off (k ∷ ks) c w fits (inside, hs) h =
      let (w1, first, h1) =
        write_chunk_lem (off + k.start) (part p k) c w
          (omega (arith, fits, inside, length-part p k inside)) h in
      let (w2, others, h2) =
        write_group_lem p off ks (put (off + k.start) (part p k) c) w1 fits hs h1 in
      (w2, rw (first, others, length-part p k inside), h2)

  -- Let the server take each write of the fork that ends below 2^64: it answers no error, and what
  -- was sent then stands in the file at the offset of the request. Then, in whatever order it
  -- takes the requests of one `WriteAt` whose range ends below 2^64, the call returns the length
  -- of the buffer and no error, and the file holds the buffer at the offset and is elsewhere as it
  -- was.
  pub write_at-file :
      (sched : List Chunk) (p : Bytes) (off : ℕ) (c : Contents) (w : W)
      → off + length p < 2 ^ 64
      → Permᴰ sched (pieces (length p) (write_chunk_size link.quantum f))
      → P c w
      → (w' : W) × (write_at link f sched p off w
          ≡ (ok (record { total = length p; first_err = none }), w'))
        × P (put off p c) w'
  unfolding write_at puts
  write_at-file sched [] off c w fits perm h =
      (w, refl, subst (λ d. P d w) (puts-put off [] [] c 1 (omega arith) no_pieces) h)
  write_at-file sched (x ∷ xs) off c w fits perm h =
      let p = x ∷ xs in
      let total = length p in
      let size = write_chunk_size link.quantum f in
      let positive = write_chunk_size-pos link.quantum f in
      let inside =
        All-perm (Inside total) (Permᴰ.symm perm) (chunks_from-Inside total 0 total size) in
      let (w', run, h') = write_group_lem p off sched c w fits inside h in
      let sum : wants sched ≡ total =
        omega (arith, wants-perm perm, wants-chunks total 0 total size positive (omega arith)) in
      (
        w',
        rw (suc-ne-zero (length xs), run, sum),
        subst (λ d. P d w') (puts-put off p sched c size positive perm) h',
      )
