-- ===== src/Afp/Fork/Reads.antt =====
-- internal/afp/fork.go: `ReadAt` against a server that holds a file.
use goafp.Base.{
  ℕ, zero, suc, ◌+◌, ◌-◌, ◌^◌, ◌≤◌, ◌<◌, ◌≡◌, refl, sym, ap, ◌∙◌, ◌≢◌, ◌⊎◌, inl, inr, Bool, true,
  false, ◌||◌, List, [], ◌∷◌, arith, ltb, ◌==◌, if◌then◌else◌, ltb→lt, ==_iff, Bool-cases, length,
  take, drop, All, length-take, length-drop, drop-drop,
}
use goafp.Base.Bytes.{Bytes}
use goafp.Base.Outcome.{ok}
use mathlib.Core.Path.{ap₂, subst}
use mathlib.Core.List.{Permᴰ}
use mathlib.Core.List.Permᴰ
use goafp.Dsi.Conn.{Reply}
use goafp.Dsi.Header.{cmd_command}
use goafp.Afp.Codes.{result_err, res_no_err, res_eof}
use goafp.Afp.Link.{Link, command}
use goafp.Afp.Fork.{
  Fork, Chunk, chunks_from, chunks, Fetched, ReadResult, read_request, read_chunk, fetch, read_at,
  reassemble,
}
use goafp.Afp.Fork.Reassembly.{IsFetched, IsRead, IsRead-end, reassemble_lem}

abbrev width : ℕ → ℕ → ℕ → ℕ
width total size start = if ltb total (start + size) then total - start else size

abbrev IsChunk : ℕ → ℕ → Chunk → Type 0
IsChunk total size c = c.want ≡ width total size c.start

chunks_from-IsChunk :
    (fuel at total size : ℕ) → All (IsChunk total size) (chunks_from fuel at total size)
unfolding chunks_from
chunks_from-IsChunk zero at total size = tt
chunks_from-IsChunk (suc fuel) at total size = elim (Bool-cases (ltb at total)) [
  | inl more ↦ rw more (refl, chunks_from-IsChunk fuel (at + size) total size)
  | inr done ↦ rw done tt
]

abbrev pub Inside : ℕ → Chunk → Type 0
Inside total c = c.start + c.want ≤ total

pub chunks_from-Inside :
    (fuel at total size : ℕ) → All (Inside total) (chunks_from fuel at total size)
unfolding chunks_from
chunks_from-Inside zero at total size = tt
chunks_from-Inside (suc fuel) at total size = elim (Bool-cases (ltb at total)) [
  | inl more ↦ rw more (ground arith, chunks_from-Inside fuel (at + size) total size)
  | inr done ↦ rw done tt
]

pub All-perm {ℓ} :
    {A : Type ℓ} (P : A → Type 0) {xs ys : List A} → Permᴰ xs ys → All P xs → All P ys
All-perm P Permᴰ.nil h = tt
All-perm P (Permᴰ.cons e q) h = (subst P e h.0, All-perm P q h.1)
All-perm P (Permᴰ.swap e e') h = (subst P e' h.1.0, (subst P e h.0, h.1.1))
All-perm P (Permᴰ.trans q r) h = All-perm P r (All-perm P q h)

-- What a server answers to a read of a file: the bytes that are there, and no error but the end of
-- the fork, and that only if the read reaches it.
pub record ReadAnswer (file : Bytes) (offset count : ℕ) (r : Reply) : Type 0 where
  pub part : r.payload ≡ take count (drop offset file)
  pub code :
      (r.header.err_code ≡ res_no_err)
      ⊎ ((r.header.err_code ≡ res_eof) × (length file ≤ offset + count))

record IsPiece (fs : Bytes) (c : Chunk) (d : Fetched) : Type 0 where
  is_part : d.bytes_read ≡ take c.want (drop c.start fs)
  full : d.short ≡ false → length d.bytes_read ≡ c.want
  last : d.short ≡ true → length (drop c.start fs) ≤ c.want

-- The chunks of a buffer agree if their starts do.
IsFetched-cons :
    (fs : Bytes) (done : List (ℕ × Fetched)) (total size : ℕ) (c c' : Chunk) (d : Fetched)
    → IsChunk total size c
    → IsChunk total size c'
    → IsPiece fs c d
    → (c.start ≢ c'.start → IsFetched fs done c')
    → IsFetched fs ((c.start, d) ∷ done) c'
IsFetched-cons fs done total size c c' d w w' h other = elim (Bool-cases (c.start == c'.start)) [
  | inl same ↦
      let es : c.start ≡ c'.start = (==_iff c.start c'.start).0 same in
      let ew : c.want ≡ c'.want = w ∙ ap (width total size) es ∙ sym w' in
      record {
        got = d;
        found = rw same;
        is_part = h.is_part ∙ ap₂ (λ s n. take n (drop s fs)) es ew;
        full = λ f. h.full f ∙ ew;
        last = λ f. omega (arith, h.last f, ap (λ s. length (drop s fs)) es);
      }
  | inr differ ↦
      let h' = other (ground arith) in
      record {
        got = h'.got;
        found = rw differ h'.found;
        is_part = h'.is_part;
        full = h'.full;
        last = h'.last;
      }
]

All-IsFetched :
    (fs : Bytes) (done : List (ℕ × Fetched)) (total size : ℕ) (c : Chunk) (d : Fetched)
    (cs : List Chunk)
    → IsChunk total size c
    → IsPiece fs c d
    → All (IsChunk total size) cs
    → All (IsFetched fs done) cs
    → All (IsFetched fs ((c.start, d) ∷ done)) cs
All-IsFetched fs done total size c d [] w h ws hs = tt
All-IsFetched fs done total size c d (c' ∷ cs) w h ws hs = (
  IsFetched-cons fs done total size c c' d w ws.0 h (λ _. hs.0),
  All-IsFetched fs done total size c d cs w h ws.1 hs.1,
)

piece_lem :
    (file : Bytes) (off : ℕ) (c : Chunk) (flag : Bool)
    → (flag ≡ true → length file ≤ off + c.start + c.want)
    → IsPiece (drop off file) c (record {
      bytes_read = take c.want (drop (off + c.start) file);
      short = flag || ltb (length (take c.want (drop (off + c.start) file))) c.want;
    })
piece_lem file off c flag over =
    let size = length-take c.want (drop (off + c.start) file) in
    let left = length-drop (off + c.start) file in
    let left' = length-drop c.start (drop off file) in
    let left'' = length-drop off file in
    record {
      is_part = ap (take c.want) (sym (drop-drop off c.start file));
      full = λ e. ground arith;
      last = λ e. elim (Bool-cases flag) [
        | inl t ↦ omega (arith, over t)
        | inr t ↦
            let e' : ltb (length (take c.want (drop (off + c.start) file))) c.want ≡ true =
              rw t at e in
            omega (arith, ltb→lt (length (take c.want (drop (off + c.start) file))) c.want e')
      ];
    }

pub suc-ne-zero : (n : ℕ) → (suc n == 0) ≡ false
suc-ne-zero n = ground arith

module _ {W : Type 0} (link : Link W) (f : Fork) (P : W → Type 0) (file : Bytes)
    (answers : (offset count : ℕ) (w : W)
      → offset + count < 2 ^ 64
      → P w
      → (r : Reply) × (w' : W) × (link.request cmd_command 0 (read_request link f offset count) w
          ≡ (ok r, w'))
        × P w'
        × ReadAnswer file offset count r) where
  read_chunk_lem :
      (offset count : ℕ) (w : W)
      → offset + count < 2 ^ 64
      → P w
      → (flag : Bool) × (w' : W) × (read_chunk link f offset count w
          ≡ (ok (take count (drop offset file), flag), w'))
        × P w'
        × (flag ≡ true → length file ≤ offset + count)
  unfolding read_chunk command result_err
  read_chunk_lem offset count w fits h =
      let (r, w', req, h', ans) = answers offset count w fits h in
      elim ans.code [
        | inl fine ↦ (false, w', rw (req, fine, ans.part), h', λ e. cc)
        | inr (eof_code, over) ↦ (true, w', rw (req, eof_code, ans.part), h', λ _. over)
      ]

  fetch_lem :
      (total size off : ℕ) (sched : List Chunk) (w : W)
      → off + total < 2 ^ 64
      → P w
      → All (IsChunk total size) sched
      → All (Inside total) sched
      → (done : List (ℕ × Fetched)) × (w' : W) × (fetch link f off sched w ≡ (ok done, w'))
        × P w'
        × All (IsFetched (drop off file) done) sched
  unfolding fetch
  fetch_lem total size off [] w fits h ws ins = ([], w, refl, h, tt)
  fetch_lem total size off (c ∷ cs) w fits h (wc, ws) (inside, ins) =
      let (flag, w1, first, h1, over) =
        read_chunk_lem (off + c.start) c.want w (omega (arith, inside, fits)) h in
      let (done, w2, others, h2, hs) = fetch_lem total size off cs w1 fits h1 ws ins in
      let got = take c.want (drop (off + c.start) file) in
      let d : Fetched = record { bytes_read = got; short = flag || ltb (length got) c.want } in
      let piece : IsPiece (drop off file) c d = piece_lem file off c flag over in
      (
        (c.start, d) ∷ done,
        w2,
        rw (first, others),
        h2,
        (
          IsFetched-cons (drop off file) done total size c c d wc wc piece (λ ne. absurd (ne refl)),
          All-IsFetched (drop off file) done total size c d cs wc piece ws hs,
        ),
      )

  -- Let the server answer every read of the fork below 2^64 with the bytes of a file that lie
  -- there, and with no error or, where the read reaches the end of the file, with the end-of-fork
  -- code. Then, in whatever order it takes the requests of one `ReadAt`, for a positive chunk size
  -- and a range that ends below 2^64, the call succeeds. The buffer is filled from the file at the
  -- offset as far as buffer and file go and keeps what it held behind that; that many bytes are
  -- reported, `io.EOF` only when the file ends within the buffer or at its end, and its absence
  -- only when the buffer is full.
  pub read_at-file :
      (sched : List Chunk) (p : Bytes) (off : ℕ) (w : W)
      → 0 < f.chunk_size
      → off + length p < 2 ^ 64
      → Permᴰ sched (chunks (length p) f.chunk_size)
      → P w
      → (r : ReadResult) × (w' : W) × (read_at link f sched p off w ≡ (ok r, w'))
        × P w'
        × IsRead [] p (drop off file) r
  unfolding read_at
  read_at-file sched [] off w positive fits perm h = (
    record { buffer = []; n = 0; eof_seen = false },
    w,
    refl,
    h,
    IsRead-end [] (drop off file) 0 refl,
  )
  read_at-file sched (x ∷ p) off w positive fits perm h =
      let total = length (x ∷ p) in
      let size = f.chunk_size in
      let ws = chunks_from-IsChunk total 0 total size in
      let (done, w', run, h', hs) =
        fetch_lem total size off sched w fits h (All-perm (IsChunk total size) (Permᴰ.symm perm) ws)
          (All-perm (Inside total) (Permᴰ.symm perm) (chunks_from-Inside total 0 total size)) in
      let all = All-perm (IsFetched (drop off file) done) perm hs in
      let read =
        reassemble_lem (drop off file) done size total positive total 0 [] (x ∷ p) refl
          (omega arith) (omega arith) all in
      (
        reassemble (chunks total size) done (x ∷ p) 0,
        w',
        rw (suc-ne-zero (length p), run),
        h',
        read,
      )
