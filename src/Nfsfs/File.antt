-- ===== src/Nfsfs/File.antt =====
-- internal/nfsfs/file.go: file handles, which outlive the forks that they have open.
pub mod Laws
pub mod Reading
pub mod Writing
use goafp.Base.{
  ℕ, zero, suc, ◌+◌, ◌-◌, ◌*◌, ◌/◌, ◌%◌, ◌^◌, ◌≤◌, ◌<◌, min, ◌≡◌, refl, sym, ap, ◌∙◌, ◌≢◌, ◌↔◌, ◌⊎◌,
  inl, inr, Bool, true, false, not, ◌&&◌, ◌||◌, Option, none, some, List, [], ◌∷◌, ◌++◌, map,
  append-nil, append_assoc, arith, bit_and, bit_or, ltb, leb, ◌==◌, if◌then◌else◌, ltb→lt, ltb→le,
  lt→ltb, le→ltb, ==_iff, Bool-cases, Option-cases, length, get_or, take, drop, replicate, All,
  length-append, take-append-drop, length-take, length-drop, length-replicate, take-append_length,
  drop-append_length, drop-drop, take-append_eq, get_or-append_length, drop-append_eq, All-append,
  take_all,
}
use goafp.Base.Int.{ℤ, pos, negsuc, ◌+ℤ◌, ◌-ℤ◌, ltb_ℤ, signed64, low64, add64}
use goafp.Base.Bytes.{
  Bytes, IsByte, IsBytes, be, from_be, length-be, be-IsBytes, from_be-be, from_be-lt, be-from_be,
}
use goafp.Base.Outcome.{
  Error, server, truncated, malformed, unsupported, auth_failed, eof, not_exist, permission, exist,
  closed, transport, Outcome, ok, err, panic, NoPanic,
}
use goafp.Afp.Text.{Norm}
use goafp.Afp.Entry.{root_dir_id}
use goafp.Afp.Link.{M, ◌>>=◌, ◌>>◌, step, lift, pure, Link}
use goafp.Afp.Volume.{Volume}
use goafp.Afp.Fork.{Fork, Chunk, ReadResult, open_fork_ro, open_fork_rw, close_fork, read_at}
use goafp.Afp.Write.{WriteResult, write_chunk_size, write_at, truncate}
use goafp.Nfsfs.Errors.{map_err}
use goafp.Nfsfs.Conn.{Live, ConnManager, Network, State, do_op}

-- A volume behind its pointer: `ref` tells the pointers apart.
pub record VolumeRef : Type 0 where
  pub ref : ℕ
  pub volume : Volume

-- The fork comes with the `ref` of `forkVol`. `cursor` and `size` are int64.
pub record File : Type 0 where
  pub path : Bytes
  pub writable : Bool
  pub fork : Option (Fork × ℕ)
  pub cursor : ℤ
  pub size : ℤ

-- What the closures of an operation share with it: the file, the count `n` and the buffer `p`.
pub record Scope (W : Type 0) : Type 0 where
  pub world : W
  pub file : File
  pub n : ℕ
  pub p : Bytes

module _ {W : Type 0} where
  -- An AFP call in a scope.
  abbrev pub within : {A : Type 0} → M W A → M (Scope W) A
  within m s = let (o, w) = m s.world in (o, record s { world = w })

  abbrev pub set_fork : Fork → ℕ → M (Scope W) (Unit {0})
  set_fork f ref s = (ok tt, record s { file = record s.file { fork = some (f, ref) } })

  abbrev pub move_cursor : Scope W → Scope W
  move_cursor s = record s { file = record s.file { cursor = add64 s.file.cursor (pos s.n) } }

  abbrev pub grow : Scope W → Scope W
  grow s =
      if ltb_ℤ s.file.size s.file.cursor
      then record s { file = record s.file { size = s.file.cursor } }
      else s

abbrev pub eof_outcome : ReadResult → Outcome (Unit {0})
eof_outcome r = if r.eof_seen then err eof else ok tt

abbrev pub write_outcome : WriteResult → Outcome (Unit {0})
write_outcome r = elim r.first_err [ none ↦ ok tt | some e ↦ err e ]

-- The third argument of `Seek`.
pub data Whence : Type 0 where
  seek_start seek_current seek_end other : Whence

unfoldable pub seek : ℤ → Whence → File → ℤ × File
seek offset seek_start f = (offset, record f { cursor = offset })
seek offset seek_current f = let c = add64 f.cursor offset in (c, record f { cursor = c })
seek offset seek_end f = let c = add64 f.size offset in (c, record f { cursor = c })
seek offset other f = (f.cursor, f)

-- The link of a volume is that of its session; `sched` is the order in which a server takes the
-- pieces of a transfer, by its length and the chunk size; `others` is as in `do_op`.
module _ {W C : Type 0} (net : Network W C VolumeRef) (link : VolumeRef → Link W) (norm : Norm)
    (sched : ℕ → ℕ → List Chunk) where
  -- The network, with a scope around its world.
  abbrev pub scoped : Network (Scope W) C VolumeRef
  scoped = record {
    dial = within net.dial;
    close = λ c s. record s { world = net.close c s.world };
    is_alive = λ c s. net.is_alive c s.world;
  }

  abbrev pub Around : Type 0
  Around = State scoped

  abbrev pub fork_of : VolumeRef → File → M W Fork
  fork_of v f =
      if f.writable
      then open_fork_rw (link v) norm v.volume root_dir_id f.path
      else open_fork_ro (link v) norm v.volume root_dir_id f.path

  abbrev pub reopen : VolumeRef → M (Scope W) Fork
  reopen v s = (within (fork_of v s.file) >>= λ f. set_fork f v.ref >> pure f) s

  abbrev pub open_or : VolumeRef → Option (Fork × ℕ) → M (Scope W) Fork
  open_or v none = reopen v
  open_or v (some (f, ref)) = if ref == v.ref then pure f else reopen v

  -- `File.open`.
  unfoldable pub open_file : VolumeRef → M (Scope W) Fork
  open_file v s = open_or v s.file.fork s

  -- The closure of `withFork`; an operation on a nil volume panics.
  abbrev pub on_fork :
      (VolumeRef → Fork → M (Scope W) (Unit {0})) → Option VolumeRef → M (Scope W) (Unit {0})
  on_fork fn none s = (panic, s)
  on_fork fn (some v) s = (open_file v >>= fn v) s

  module _ (others : ℕ → Around → Around) where
    unfoldable pub with_fork : (VolumeRef → Fork → M (Scope W) (Unit {0})) → M Around (Unit {0})
    with_fork fn = do_op scoped (on_fork fn) others

    -- The closures of `Read` and `ReadAt`: `n` and the buffer are set whatever comes of the call.
    abbrev pub note_read : Scope W → Outcome ReadResult × W → Outcome (Unit {0}) × Scope W
    note_read s (ok r, w) = (eof_outcome r, record s { world = w; n = r.n; p = r.buffer })
    note_read s (err e, w) = (err e, record s { world = w; n = 0 })
    note_read s (panic, w) = (panic, record s { world = w })

    unfoldable pub read_body : ℤ → VolumeRef → Fork → M (Scope W) (Unit {0})
    read_body off v f s =
        note_read s (read_at (link v) f (sched (length s.p) f.chunk_size) s.p (low64 off) s.world)

    abbrev pub note_written : Scope W → Outcome WriteResult × W → Outcome (Unit {0}) × Scope W
    note_written s (ok r, w) = (write_outcome r, record s { world = w; n = r.total })
    note_written s (err e, w) = (err e, record s { world = w; n = 0 })
    note_written s (panic, w) = (panic, record s { world = w })

    unfoldable pub write_body : ℤ → VolumeRef → Fork → M (Scope W) (Unit {0})
    write_body off v f s = note_written s (
        write_at (link v) f (sched (length s.p) (write_chunk_size (link v).quantum f)) s.p
          (low64 off) s.world)

    -- An operation starts with the count 0 and its buffer.
    abbrev pub begin : Bytes → Around → Around
    begin p (m, s) = (m, record s { n = 0; p = p })

    abbrev pub afterwards :
        (Scope W → Scope W) → Outcome (Unit {0}) × Around → Outcome (Unit {0}) × Around
    afterwards f (panic, s) = (panic, s)
    afterwards f (ok u, (m, s)) = (ok u, (m, f s))
    afterwards f (err e, (m, s)) = (err e, (m, f s))

    -- `Read`: the count and the bytes are in the scope that it leaves.
    unfoldable pub read : Bytes → M Around (Unit {0})
    read p a =
        afterwards move_cursor (with_fork (λ v f s. read_body s.file.cursor v f s) (begin p a))

    unfoldable pub read_at_offset : Bytes → ℤ → M Around (Unit {0})
    read_at_offset p off a = with_fork (read_body off) (begin p a)

    unfoldable pub write : Bytes → M Around (Unit {0})
    write p a =
        afterwards (λ s. grow (move_cursor s))
          (with_fork (λ v f s. write_body s.file.cursor v f s) (begin p a))

    abbrev pub truncated_to : ℤ → Outcome (Unit {0}) × Around → Outcome (Unit {0}) × Around
    truncated_to size (ok u, (m, s)) =
        (ok u, (m, record s { file = record s.file { size = size } }))
    truncated_to size (err e, a) = (err (map_err e), a)
    truncated_to size (panic, a) = (panic, a)

    unfoldable pub truncate_file : ℤ → M Around (Unit {0})
    truncate_file size a =
        truncated_to size (with_fork (λ v f. within (truncate (link v) f size)) a)

    -- The closure of `Close`, for a fork of the volume `ref`; it has no use of a nil volume.
    abbrev pub close_on : Fork → ℕ → Option VolumeRef → M (Scope W) (Unit {0})
    close_on f ref none = pure tt
    close_on f ref (some v) = if v.ref == ref then within (close_fork (link v) f) else pure tt

    abbrev pub close_open : Option (Fork × ℕ) → M Around (Unit {0})
    close_open none a = (ok tt, a)
    close_open (some (f, ref)) (m, s) =
        do_op scoped (close_on f ref) others (m, record s { file = record s.file { fork = none } })

    unfoldable pub close_file : M Around (Unit {0})
    close_file (m, s) = close_open s.file.fork (m, s)
