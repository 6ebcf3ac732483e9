-- ===== src/Afp/Symlink.antt =====
-- internal/afp/symlink.go: symbolic links, which are files whose Finder type says so.
pub mod RoundTrip
use goafp.Base.{
  ℕ, false, none, some, List, [], ◌∷◌, leb, ◌==◌, if◌then◌else◌, length, take, replicate,
}
use goafp.Base.Bytes.{Bytes}
use goafp.Base.Outcome.{Outcome, ok, err, panic}
use goafp.Afp.Text.{Norm}
use goafp.Afp.Builder.{◌▷◌, bytes}
use goafp.Afp.Entry.{finder_info_bit}
use goafp.Afp.Link.{M, ◌>>=◌, ◌>>◌, lift, pure, Link, run}
use goafp.Afp.Volume.{Volume, write_params_header, create_file}
use goafp.Afp.Fork.{Fork, Chunk, ReadResult, open_fork_ro, open_fork_rw, close_fork, read_at}
use goafp.Afp.Write.{WriteResult, write_chunk_size, write_at}

-- "slnk", "rhap" and 24 zeros.
abbrev pub symlink_finder_info : Bytes
symlink_finder_info = 0x73 ∷ 0x6c ∷ 0x6e ∷ 0x6b ∷ 0x72 ∷ 0x68 ∷ 0x61 ∷ 0x70 ∷ replicate 24 0

-- `fork.Close(ctx); return o`: the outcome of the close is lost.
abbrev pub after_close : {A W : Type 0} → Outcome (Unit {0}) × W → Outcome A → Outcome A × W
after_close (ok _, w) o = (o, w)
after_close (err _, w) o = (o, w)
after_close (panic, w) o = (panic, w)

-- The error of `WriteAt`.
abbrev pub written : WriteResult → Outcome (Unit {0})
written r = elim r.first_err [ none ↦ ok tt | some e ↦ err e ]

-- `string(buf[:n])`: the slice bound is checked against the buffer's size.
abbrev pub as_target : ReadResult → Outcome Bytes
as_target r = if leb r.n (length r.buffer) then ok (take r.n r.buffer) else panic

module _ {W : Type 0} (link : Link W) (norm : Norm) where
  unfoldable pub set_finder_info : Volume → ℕ → Bytes → Bytes → M W (Unit {0})
  set_finder_info v dir_id p info =
      run link (write_params_header norm v finder_info_bit dir_id p ▷ bytes info)

  -- `defer fork.Close(ctx)` behind `body`.
  abbrev pub then_close : {A : Type 0} → Fork → Outcome A × W → Outcome A × W
  then_close f (o, w) = after_close (close_fork link f w) o

  -- The write of the target: an error of it closes the fork, and an error of the close is the call's.
  abbrev pub then_finish : Fork → Outcome (Unit {0}) × W → Outcome (Unit {0}) × W
  then_finish f (ok _, w) = close_fork link f w
  then_finish f (err e, w) = after_close (close_fork link f w) (err e)
  then_finish f (panic, w) = (panic, w)

  abbrev pub write_target : (ℕ → List Chunk) → Fork → Bytes → M W (Unit {0})
  write_target sched f target = do
    r ← write_at link f (sched (write_chunk_size link.quantum f)) target 0
    lift (written r)

  -- `Symlink`; `sched` is the order in which the server takes the pieces of the target, which are
  -- those of the chunk size of the fork.
  unfoldable pub symlink : (ℕ → List Chunk) → Volume → ℕ → Bytes → Bytes → M W (Unit {0})
  symlink sched v dir_id p target =
      create_file link norm v dir_id p false
      >> (open_fork_rw link norm v dir_id p >>= λ f.
          (λ w. then_finish f (write_target sched f target w))
          >> set_finder_info v dir_id p symlink_finder_info)

  abbrev pub read_target : (Fork → List Chunk) → Fork → M W Bytes
  read_target sched f = do r ← read_at link f (sched f) (replicate f.size 0) 0; lift (as_target r)

  -- `ReadLink`; `sched` is the order of the reads of the fork that the server has opened.
  unfoldable pub read_link : (Fork → List Chunk) → Volume → ℕ → Bytes → M W Bytes
  read_link sched v dir_id p = do
    f ← open_fork_ro link norm v dir_id p
    λ w. then_close f ((if f.size == 0 then pure [] else read_target sched f) w)
