-- ===== src/Nfsfs/File/Reading.antt =====
-- internal/nfsfs/file.go: `Read` against the bytes of a file that a server holds.
use goafp.Base.{
  ℕ, ◌+◌, ◌^◌, ◌≤◌, ◌<◌, ◌≡◌, refl, ap, ◌∙◌, inl, inr, true, some, List, [], ◌∷◌, map, arith, ◌==◌,
  Bool-cases, length, take, drop, length-take, take-append_eq,
}
use goafp.Base.Int.{pos, ◌+ℤ◌, low64, add64}
use goafp.Base.Bytes.{Bytes}
use goafp.Base.Outcome.{ok}
use mathlib.Core.Path.{ap₂}
use mathlib.Core.List.{Permᴰ}
use goafp.Dsi.Header.{cmd_command}
use goafp.Dsi.Conn.{Reply}
use goafp.Afp.Text.{Norm}
use goafp.Afp.Link.{M, ◌>>=◌, Link}
use goafp.Afp.Fork.{Fork, Chunk, chunks, ReadResult, read_request}
use goafp.Afp.Fork.Reassembly.{IsRead}
use goafp.Afp.Fork.Reads.{ReadAnswer, read_at-file}
use goafp.Nfsfs.Conn.{Live, ConnManager, Network, first_run, unless_dead, do_op}
use goafp.Nfsfs.File.{
  VolumeRef, Scope, eof_outcome, move_cursor, scoped, Around, open_or, open_file, on_fork,
  with_fork, read_body, afterwards, read,
}

pub low64-pos : (n : ℕ) → n < 2 ^ 64 → low64 (pos n) ≡ n
low64-pos n h = omega (arith, h)

pub add64-pos : (a b : ℕ) → a + b < 2 ^ 63 → add64 (pos a) (pos b) ≡ pos (a + b)
unfolding add64 ◌+ℤ◌
add64-pos a b h = ground arith

read_taken :
    (p left : Bytes) (r : ReadResult)
    → IsRead [] p left r
    → take r.n r.buffer ≡ take (length p) left
read_taken p left r is =
    let v = take (length p) left in
    ap (take r.n) is.buffer_is
    ∙ take-append_eq r.n v (drop (length left) p) (omega (arith, is.n_is))

-- Reading from a byte sequence: what the reads give, one after the other, from a position on.
unfoldable pub slices : Bytes → List ℕ → ℕ → List Bytes
slices bytes [] at = []
slices bytes (k ∷ ks) at = let v = take k (drop at bytes) in v ∷ slices bytes ks (at + length v)

-- The room in the buffers.
unfoldable pub total : List Bytes → ℕ
total [] = 0
total (p ∷ ps) = length p + total ps

module _ {W C : Type 0} (net : Network W C VolumeRef) (link : VolumeRef → Link W) (norm : Norm)
    (sched : ℕ → ℕ → List Chunk) where
  -- Several calls of `Read`: what stands in the first `n` bytes of each buffer.
  unfoldable pub reads : List Bytes → Around net link norm sched → List Bytes
  reads [] a = []
  reads (p ∷ ps) a =
      let (o, (m, s)) = read net link norm sched (λ _ a. a) p a in take s.n s.p ∷ reads ps (m, s)

  -- The file is open at a position, on the volume of a link that is alive.
  pub record IsOpenAt (l : Live C VolumeRef) (f : Fork) (P : W → Type 0) (at : ℕ)
      (a : Around net link norm sched) : Type 0 where
    pub live : a.0.live ≡ some l
    pub opened : a.1.file.fork ≡ some (f, l.vol.ref)
    pub placed : a.1.file.cursor ≡ pos at
    pub holds : P a.1.world

  -- A fork of the volume at hand is used as it is.
  pub on_fork-open :
      (l : Live C VolumeRef) (f : Fork) (fn : VolumeRef → Fork → M (Scope W) (Unit {0}))
      (s : Scope W)
      → s.file.fork ≡ some (f, l.vol.ref)
      → on_fork net link norm sched fn (some l.vol) s ≡ fn l.vol f s
  unfolding open_file
  on_fork-open l f fn s opened =
      let own : (l.vol.ref == l.vol.ref) ≡ true = ground arith in
      ap (λ o. (open_or net link norm sched l.vol o >>= fn l.vol) s) opened ∙ rw own

  module _ (l : Live C VolumeRef) (f : Fork) (P : W → Type 0) (bytes : Bytes)
      (positive : 0 < f.chunk_size)
      (perms : (total : ℕ) → Permᴰ (sched total f.chunk_size) (chunks total f.chunk_size))
      (alive : (w : W) → P w → net.is_alive l.conn w ≡ true)
      (answers : (offset count : ℕ) (w : W)
        → offset + count < 2 ^ 64
        → P w
        → (r : Reply) × (w' : W) × ((link l.vol).request cmd_command 0
              (read_request (link l.vol) f offset count)
              w
            ≡ (ok r, w'))
          × P w'
          × ReadAnswer bytes offset count r) where
    read_body_lem :
        (at : ℕ) (s : Scope W)
        → P s.world
        → at + length s.p < 2 ^ 63
        → (r : ReadResult) × (w : W) × (read_body net link norm sched (λ _ a. a) (pos at) l.vol f s
            ≡ (eof_outcome r, record s { world = w; n = r.n; p = r.buffer }))
          × P w
          × IsRead [] s.p (drop at bytes) r
    unfolding read_body
    read_body_lem at s h fits =
        let (r, w, run, h', is) =
          read_at-file (link l.vol) f P bytes answers (sched (length s.p) f.chunk_size) s.p at
            s.world positive (omega (arith, fits)) (perms (length s.p)) h in
        (r, w, rw (low64-pos at (omega (arith, fits)), run), h', is)

    -- A read on a live link ends with its first run, at the end of the file too.
    eof_afterwards :
        (fn : VolumeRef → Fork → M (Scope W) (Unit {0})) (m : ConnManager C VolumeRef) (s : Scope W)
        (r : ReadResult)
        → net.is_alive l.conn s.world ≡ true
        → afterwards net link norm sched
            (λ _ a. a)
            move_cursor
            (unless_dead
              (scoped net link norm sched)
              (on_fork net link norm sched fn)
              (λ _ a. a)
              m.gen
              l
              (eof_outcome r, (m, s)))
          ≡ (eof_outcome r, (m, move_cursor s))
    eof_afterwards fn m s r up = elim (Bool-cases r.eof_seen) [
      | inl ended ↦ rw (ended, up)
      | inr more ↦ rw more
    ]

    read_lem :
        (at : ℕ) (p : Bytes) (a : Around net link norm sched)
        → IsOpenAt l f P at a
        → at + length p < 2 ^ 63
        → (r : ReadResult) × (s : Scope W) × (read net link norm sched (λ _ a. a) p a
            ≡ (eof_outcome r, (a.0, s)))
          × (s.n ≡ r.n)
          × (s.p ≡ r.buffer)
          × IsOpenAt l f P (at + r.n) (a.0, s)
          × IsRead [] p (drop at bytes) r
    unfolding read with_fork do_op
    read_lem at p (m, s) h fits =
        let s0 = record s { n = 0; p = p } in
        let (r, w, body, holds, is) = read_body_lem at s0 h.holds fits in
        let s1 = record s0 { world = w; n = r.n; p = r.buffer } in
        let fn = λ (v : VolumeRef) (f : Fork) (s : Scope W).
          read_body net link norm sched (λ _ a. a) s.file.cursor v f s in
        let run : on_fork net link norm sched fn (some l.vol) s0 ≡ (eof_outcome r, s1) =
          on_fork-open l f fn s0 h.opened
          ∙ ap (λ c. read_body net link norm sched (λ _ a. a) c l.vol f s0) h.placed
          ∙ body in
        let small : r.n ≤ length p =
          omega (arith, is.n_is, length-take (length p) (drop at bytes)) in
        (
          r,
          move_cursor s1,
          ap
                (λ o.
                  afterwards net link norm sched (λ _ a. a) move_cursor
                    (first_run (scoped net link norm sched) (on_fork net link norm sched fn)
                      (λ _ a. a) m.gen o (m, s0)))
                h.live
              ∙ ap
                  (λ x.
                    afterwards net link norm sched (λ _ a. a) move_cursor
                      (unless_dead (scoped net link norm sched) (on_fork net link norm sched fn)
                        (λ _ a. a) m.gen l (x.0, (m, x.1))))
                  run
              ∙ eof_afterwards fn m s1 r (alive w holds),
          refl,
          refl,
          record {
            live = h.live;
            opened = h.opened;
            placed =
                ap (λ c. add64 c (pos r.n)) h.placed
                ∙ add64-pos at r.n (omega (arith, fits, small));
            holds = holds;
          },
          is,
        )

    -- Reading through a file handle is reading from a byte sequence. Let the file have a fork open
    -- on the volume of the live link, with a positive chunk size and its cursor at a position; let
    -- the server answer the reads of that fork below 2^64 with the bytes of a file and the right
    -- codes, whatever the order of the pieces, and keep the link alive. Then any calls of `Read`,
    -- one after the other, whose buffers fit between the position and 2^63, give successive slices
    -- of those bytes from the position on: each as long as its buffer, or what is left.
    pub reads-slices :
        (ps : List Bytes) (at : ℕ) (a : Around net link norm sched)
        → IsOpenAt l f P at a
        → at + total ps < 2 ^ 63
        → reads ps a ≡ slices bytes (map (λ p. length p) ps) at
    unfolding reads slices total
    reads-slices [] at a h fits = refl
    reads-slices (p ∷ ps) at a h fits =
        let (r, s, run, n_is, p_is, h', is) = read_lem at p a h (omega (arith, fits)) in
        let v = take (length p) (drop at bytes) in
        let count : r.n ≡ length v = omega (arith, is.n_is) in
        let small : r.n ≤ length p = omega (arith, count, length-take (length p) (drop at bytes)) in
        let rest = reads-slices ps (at + r.n) (a.0, s) h' (omega (arith, fits, small)) in
        ap (λ x. take x.1.1.n x.1.1.p ∷ reads ps x.1) run
        ∙ ap₂ (λ x y. take x y ∷ reads ps (a.0, s)) n_is p_is
        ∙ ap₂ (◌∷◌) (read_taken p (drop at bytes) r is)
            (rest ∙ ap (λ k. slices bytes (map (λ p. length p) ps) (at + k)) count)
