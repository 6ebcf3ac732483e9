-- ===== src/Nfsfs/File/Writing.antt =====
-- internal/nfsfs/file.go: `Write` against the contents of a file that a server holds.
use goafp.Base.{
  ℕ, ◌+◌, ◌^◌, ◌<◌, ◌≡◌, refl, sym, ap, ◌∙◌, inl, inr, some, List, [], ◌∷◌, ◌++◌, arith, Bool-cases,
  length, length-append,
}
use goafp.Base.Int.{pos, ltb_ℤ, add64}
use goafp.Base.Bytes.{Bytes}
use goafp.Base.Outcome.{ok}
use mathlib.Core.Path.{subst}
use mathlib.Core.List.{Permᴰ}
use goafp.Dsi.Header.{cmd_write}
use goafp.Dsi.Conn.{Reply}
use goafp.Afp.Codes.{res_no_err}
use goafp.Afp.Text.{Norm}
use goafp.Afp.Link.{M, ◌>>=◌, step, Link}
use goafp.Afp.Fork.{Fork, Chunk}
use goafp.Afp.Write.{pieces, write_header, write_request, write_chunk_size}
use goafp.Afp.Write.Contents.{Contents, put, write_at-file}
use goafp.Afp.Write.Streamed.{put-append, put_nothing}
use goafp.Nfsfs.Conn.{Live, ConnManager, Network, first_run, unless_dead, do_op}
use goafp.Nfsfs.File.{
  VolumeRef, Scope, move_cursor, grow, scoped, Around, on_fork, with_fork, write_body, afterwards,
  write,
}
use goafp.Nfsfs.File.Reading.{low64-pos, add64-pos, on_fork-open, total, IsOpenAt}

abbrev pub concat : List Bytes → Bytes
concat [] = []
concat (p ∷ ps) = p ++ concat ps

plus_zero : (n : ℕ) → n ≡ n + 0
plus_zero n = omega arith

module _ {W C : Type 0} (net : Network W C VolumeRef) (link : VolumeRef → Link W) (norm : Norm)
    (sched : ℕ → ℕ → List Chunk) where
  -- Several calls of `Write`, up to one that fails.
  unfoldable pub writes : List Bytes → M (Around net link norm sched) (Unit {0})
  writes [] a = (ok tt, a)
  writes (p ∷ ps) a = (write net link norm sched (λ _ a. a) p >>= λ _. writes ps) a

  grow-IsOpenAt :
      (l : Live C VolumeRef) (f : Fork) (P : W → Type 0) (at : ℕ) (m : ConnManager C VolumeRef)
      (s : Scope W)
      → IsOpenAt net link norm sched l f P at (m, s)
      → IsOpenAt net link norm sched l f P at (m, grow s)
  grow-IsOpenAt l f P at m s h = elim (Bool-cases (ltb_ℤ s.file.size s.file.cursor)) [
    | inl longer ↦
        rw longer (record { live = h.live; opened = h.opened; placed = h.placed; holds = h.holds })
    | inr within ↦ rw within h
  ]

  module _ (l : Live C VolumeRef) (f : Fork) (P : Contents → W → Type 0)
      (perms : (total : ℕ)
        → Permᴰ
            (sched total (write_chunk_size (link l.vol).quantum f))
            (pieces total (write_chunk_size (link l.vol).quantum f)))
      (takes : (offset : ℕ) (v : Bytes) (c : Contents) (w : W)
        → offset + length v < 2 ^ 64
        → P c w
        → (r : Reply) × (w' : W) × ((link l.vol).request cmd_write
              (length (write_header f offset (length v)))
              (write_request f offset v)
              w
            ≡ (ok r, w'))
          × (r.header.err_code ≡ res_no_err)
          × P (put offset v c) w') where
    write_body_lem :
        (at : ℕ) (c : Contents) (s : Scope W)
        → P c s.world
        → at + length s.p < 2 ^ 63
        → (w : W) × (write_body net link norm sched (λ _ a. a) (pos at) l.vol f s
            ≡ (ok tt, record s { world = w; n = length s.p }))
          × P (put at s.p c) w
    unfolding write_body
    write_body_lem at c s h fits =
        let (w, run, h') =
          write_at-file (link l.vol) f P takes
            (sched (length s.p) (write_chunk_size (link l.vol).quantum f)) s.p at c s.world
            (omega (arith, fits)) (perms (length s.p)) h in
        (w, rw (low64-pos at (omega (arith, fits)), run), h')

    write_lem :
        (at : ℕ) (c : Contents) (p : Bytes) (a : Around net link norm sched)
        → IsOpenAt net link norm sched l f (P c) at a
        → at + length p < 2 ^ 63
        → (s : Scope W) × (write net link norm sched (λ _ a. a) p a ≡ (ok tt, (a.0, s)))
          × IsOpenAt net link norm sched l f (P (put at p c)) (at + length p) (a.0, s)
    unfolding write with_fork do_op
    write_lem at c p (m, s) h fits =
        let s0 = record s { n = 0; p = p } in
        let (w, body, holds) = write_body_lem at c s0 h.holds fits in
        let s1 = record s0 { world = w; n = length p } in
        let fn = λ (v : VolumeRef) (f : Fork) (s : Scope W).
          write_body net link norm sched (λ _ a. a) s.file.cursor v f s in
        let run : on_fork net link norm sched fn (some l.vol) s0 ≡ (ok tt, s1) =
          on_fork-open net link norm sched l f fn s0 h.opened
          ∙ ap (λ c. write_body net link norm sched (λ _ a. a) c l.vol f s0) h.placed
          ∙ body in
        let after = afterwards net link norm sched (λ _ a. a) (λ s. grow (move_cursor s)) in
        (
          grow (move_cursor s1),
          ap
                (λ o. after (
                  first_run (scoped net link norm sched) (on_fork net link norm sched fn) (λ _ a. a)
                    m.gen o (m, s0)))
                h.live
              ∙ ap
                  (λ x. after (
                    unless_dead (scoped net link norm sched) (on_fork net link norm sched fn)
                      (λ _ a. a) m.gen l (x.0, (m, x.1))))
                  run,
          grow-IsOpenAt l f (P (put at p c)) (at + length p) m (move_cursor s1) (record {
            live = h.live;
            opened = h.opened;
            placed = ap (λ c. add64 c (pos (length p))) h.placed ∙ add64-pos at (length p) fits;
            holds = holds;
          }),
        )

    -- Writing through a file handle is writing to the contents of a file. Let the file have a fork
    -- open on the volume of the live link, with its cursor at a position; let the server take the
    -- writes of that fork below 2^64, whatever the order of the pieces. Then any calls of `Write`,
    -- one after the other, whose buffers fit between the position and 2^63, succeed: the contents
    -- hold the buffers, one behind the other, from the position on and are elsewhere as they were,
    -- the cursor stands behind them, and the file has its fork on the live link as before.
    pub writes-put :
        (ps : List Bytes) (at : ℕ) (c : Contents) (a : Around net link norm sched)
        → IsOpenAt net link norm sched l f (P c) at a
        → at + total ps < 2 ^ 63
        → (b : Around net link norm sched) × (writes ps a ≡ (ok tt, b))
          × IsOpenAt net link norm sched l f (P (put at (concat ps) c)) (at + length (concat ps)) b
    unfolding writes total
    writes-put [] at c a h fits = (
      a,
      refl,
      subst (λ n. IsOpenAt net link norm sched l f (P (put at [] c)) n a) (plus_zero at)
          (subst (λ d. IsOpenAt net link norm sched l f (P d) at a) (sym (put_nothing at c)) h),
    )
    writes-put (p ∷ ps) at c a h fits =
        let (s, run, h1) = write_lem at c p a h (omega (arith, fits)) in
        let (b, rest, h2) =
          writes-put ps (at + length p) (put at p c) (a.0, s) h1 (omega (arith, fits)) in
        (
          b,
          ap (λ x. step x.0 x.1 (λ _. writes ps)) run ∙ rest,
          subst (λ n. IsOpenAt net link norm sched l f (P (put at (p ++ concat ps) c)) n b)
              (omega (arith, length-append p (concat ps)))
              (subst
                (λ d. IsOpenAt net link norm sched l f (P d) (at + length p + length (concat ps)) b)
                (put-append at p (concat ps) c) h2),
        )
