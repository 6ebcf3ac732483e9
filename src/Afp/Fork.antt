-- ===== src/Afp/Fork.antt =====
-- internal/afp/fork.go: open forks and the read path. The requests of one `ReadAt` are in flight
-- together; `sched` is the order in which the server happens to take them.
pub mod Failing
pub mod Opened
pub mod Reassembly
pub mod Reads
pub mod Streaming
use goafp.Base.{
  ℕ, zero, suc, ◌+◌, ◌-◌, ◌*◌, ◌/◌, ◌%◌, ◌^◌, ◌≤◌, ◌<◌, min, ◌≡◌, refl, sym, ap, ◌∙◌, ◌≢◌, ◌↔◌, ◌⊎◌,
  inl, inr, Bool, true, false, not, ◌&&◌, ◌||◌, Option, none, some, List, [], ◌∷◌, ◌++◌, map,
  append-nil, append_assoc, arith, bit_and, bit_or, ltb, leb, ◌==◌, if◌then◌else◌, ltb→lt, ltb→le,
  lt→ltb, le→ltb, ==_iff, Bool-cases, Option-cases, length, get_or, take, drop, replicate, All,
  length-append, take-append-drop, length-take, length-drop, length-replicate, take-append_length,
  drop-append_length, drop-drop, take-append_eq, get_or-append_length, drop-append_eq, All-append,
  take_all,
}
use goafp.Base.Int.{ℤ, pos, negsuc, ◌-ℤ◌, signed32, low32, signed64}
use goafp.Base.Bytes.{
  Bytes, IsByte, IsBytes, be, from_be, length-be, be-IsBytes, from_be-be, from_be-lt, be-from_be,
}
use goafp.Base.Outcome.{
  Error, server, truncated, malformed, unsupported, auth_failed, eof, not_exist, permission, exist,
  closed, transport, Outcome, ok, err, panic, NoPanic,
}
use goafp.Afp.Text.{Norm}
use goafp.Afp.Builder.{◌▷◌, u8, u16, u32, u64, bytes, path}
use goafp.Afp.Reader.{slice, Reader, reader, uint}
use goafp.Afp.Codes.{
  ResultCode, result_err, res_no_err, res_eof, cmd_open_fork, cmd_close_fork, cmd_read_ext,
}
use goafp.Afp.Entry.{ext_data_fork_len_bit}
use goafp.Afp.Volume.{Volume, need, bind}
use goafp.Afp.Link.{M, ◌>>=◌, ◌>>◌, lift, pure, check, Link, command, run, ask}

abbrev pub fork_read : ℕ
fork_read = 0x01

abbrev pub fork_write : ℕ
fork_write = 0x02

abbrev pub fork_type_data : ℕ
fork_type_data = 0x00

-- 128 KiB.
abbrev pub read_chunk_size : ℕ
read_chunk_size = 128 * 1024

abbrev pub max_concurrent_reads : ℕ
max_concurrent_reads = 8

pub record Fork : Type 0 where
  pub id : ℕ
  pub size : ℕ
  pub chunk_size : ℕ
  pub max_parallel : ℕ

-- The reply of FPOpenFork: the bitmap, the fork's number, its length.
unfoldable pub parse_fork : Bytes → Outcome Fork
parse_fork payload =
    let (_, r1) = uint 2 (reader payload) in
    let (id, r2) = uint 2 r1 in
    let (size, r3) = uint 8 r2 in
    bind (need r3) λ _. ok (record {
      id = id;
      size = size;
      chunk_size = read_chunk_size;
      max_parallel = max_concurrent_reads;
    })

-- The arguments are ints; here 0 stands for every value that is not positive.
unfoldable pub set_read_ahead : ℕ → ℕ → Fork → Fork
set_read_ahead chunk_size max_parallel f = record f {
  chunk_size = if ltb 0 chunk_size then chunk_size else f.chunk_size;
  max_parallel = if ltb 0 max_parallel then max_parallel else f.max_parallel;
}

-- `copy(p[start:], v)`: the buffer, and the number of bytes copied.
unfoldable pub copy_at : Bytes → ℕ → Bytes → Bytes × ℕ
copy_at p start v =
    let n = min (length p - start) (length v) in
    (take start p ++ (take n v ++ drop (start + n) p), n)

-- A piece of the caller's buffer: its start and the bytes wanted.
pub record Chunk : Type 0 where
  pub start : ℕ
  pub want : ℕ

-- The loop that cuts a buffer of `total` bytes up, at `at`; a round takes a byte at least.
unfoldable pub chunks_from : ℕ → ℕ → ℕ → ℕ → List Chunk
chunks_from zero at total size = []
chunks_from (suc fuel) at total size =
    let want = if ltb total (at + size) then total - at else size in
    let more = chunks_from fuel (at + size) total size in
    if ltb at total then record { start = at; want = want } ∷ more else []

abbrev pub chunks : ℕ → ℕ → List Chunk
chunks total size = chunks_from total 0 total size

-- What a request has brought: the data, and whether it is short.
pub record Fetched : Type 0 where
  pub bytes_read : Bytes
  pub short : Bool

abbrev pub fetched_at : ℕ → List (ℕ × Fetched) → Option Fetched
fetched_at k [] = none
fetched_at k ((j, d) ∷ m) = if j == k then some d else fetched_at k m

-- `copy` and the test of `c.short`, for one chunk.
pub record ReadResult : Type 0 where
  pub buffer : Bytes
  pub n : ℕ
  pub eof_seen : Bool

abbrev pub nothing_fetched : Fetched
nothing_fetched = record { bytes_read = []; short = false }

abbrev pub fetched_or : Option Fetched → Fetched
fetched_or none = nothing_fetched
fetched_or (some d) = d

-- The loop that puts the chunks together, in the order of the buffer.
unfoldable pub reassemble : List Chunk → List (ℕ × Fetched) → Bytes → ℕ → ReadResult
reassemble [] done p n = record { buffer = p; n = n; eof_seen = false }
reassemble (c ∷ cs) done p n =
    let d = fetched_or (fetched_at c.start done) in
    let (p', k) = copy_at p c.start d.bytes_read in
    let more = reassemble cs done p' (n + k) in
    if d.short then record { buffer = p'; n = n + k; eof_seen = true } else more

-- What a chunk has brought joins what the chunks behind it have; of two errors that of the goroutine
-- which returns first counts.
abbrev pub keep_chunk :
    Bool
    → Chunk
    → Outcome (Bytes × Bool)
    → Outcome (List (ℕ × Fetched))
    → Outcome (List (ℕ × Fetched))
keep_chunk sooner c (ok (got, eof_flag)) (ok rest) =
    ok ((c.start, record { bytes_read = got; short = eof_flag || ltb (length got) c.want }) ∷ rest)
keep_chunk sooner c (ok got) (err e) = err e
keep_chunk sooner c (ok got) panic = panic
keep_chunk sooner c (err e) (ok rest) = err e
keep_chunk sooner c (err e) (err e') = if sooner then err e else err e'
keep_chunk sooner c (err e) panic = panic
keep_chunk sooner c panic rest = panic

module _ {W : Type 0} (link : Link W) (norm : Norm) where
  unfoldable pub open_fork : Volume → ℕ → Bytes → ℕ → M W Fork
  open_fork v dir_id p mode = do
    payload ← ask link (
        []
        ▷ u8 cmd_open_fork
        ▷ u8 fork_type_data
        ▷ u16 v.id
        ▷ u32 dir_id
        ▷ u16 ext_data_fork_len_bit
        ▷ u16 mode
        ▷ path norm p)
    lift (parse_fork payload)

  abbrev pub open_fork_ro : Volume → ℕ → Bytes → M W Fork
  open_fork_ro v dir_id p = open_fork v dir_id p fork_read

  abbrev pub open_fork_rw : Volume → ℕ → Bytes → M W Fork
  open_fork_rw v dir_id p = open_fork v dir_id p (fork_read + fork_write)

module _ {W : Type 0} (link : Link W) where
  unfoldable pub close_fork : Fork → M W (Unit {0})
  close_fork f = run link ([] ▷ u8 cmd_close_fork ▷ u8 0 ▷ u16 f.id)

  abbrev pub read_request : Fork → ℕ → ℕ → Bytes
  read_request f offset count = [] ▷ u8 cmd_read_ext ▷ u8 0 ▷ u16 f.id ▷ u64 offset ▷ u64 count

  -- The data, and whether the server flagged the end of the fork.
  unfoldable pub read_chunk : Fork → ℕ → ℕ → M W (Bytes × Bool)
  read_chunk f offset count = do
    (payload, code) ← command link (read_request f offset count)
    if code == res_eof
        then pure (payload, true)
        else do check (result_err code); pure (payload, false)

  -- The group: `Wait` waits for every request, those after an error too; that the context is then
  -- cancelled shows in what the link answers them.
  unfoldable pub fetch : Fork → ℕ → List Chunk → M W (List (ℕ × Fetched))
  fetch f off [] w = (ok [], w)
  fetch f off (c ∷ cs) w =
      let (o, w1) = read_chunk f (off + c.start) c.want w in
      let (rest, w2) = fetch f off cs w1 in (keep_chunk (link.sooner w2) c o rest, w2)

  -- `ReadAt` on the buffer `p`. `io.EOF` is `eof_seen`, since bytes come with it.
  unfoldable pub read_at : Fork → List Chunk → Bytes → ℕ → M W ReadResult
  read_at f sched p off =
      if length p == 0
      then pure (record { buffer = p; n = 0; eof_seen = false })
      else do done ← fetch f off sched; pure (reassemble (chunks (length p) f.chunk_size) done p 0)

-- `WriteTo`; `emit` is the `Write` of the writer. Its `total` and its `off` are the same number, of
-- which a request has the low 64 bits; the result is the int64 that they spell.
module _ {W : Type 0} (link : Link W) (emit : Bytes → M W (Unit {0})) where
  -- `buf[:n]` goes out if there is anything in it.
  abbrev pub emit_read : ReadResult → M W (Unit {0})
  emit_read r = if r.n == 0 then pure tt else (lift (slice r.buffer 0 r.n) >>= emit)

  -- The loop of `writeTo`, by windows; `sched` gives the order of the reads of a window by its
  -- offset. `none` is no Go result: the fuel ran out.
  unfoldable pub write_to_from : ℕ → (ℕ → List Chunk) → Fork → Bytes → ℕ → M W (Option ℤ)
  write_to_from zero sched f buf off = pure none
  write_to_from (suc fuel) sched f buf off = do
    r ← read_at link f (sched off) buf off
    emit_read r
    if r.eof_seen || r.n == 0
        then pure (some (signed64 ((off + r.n) % 2 ^ 64)))
        else write_to_from fuel sched f r.buffer (off + r.n)

  abbrev pub write_to : ℕ → (ℕ → List Chunk) → Fork → M W (Option ℤ)
  write_to fuel sched f = write_to_from fuel sched f (replicate (f.chunk_size * f.max_parallel) 0) 0
