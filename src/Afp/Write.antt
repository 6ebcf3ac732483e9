-- ===== src/Afp/Write.antt =====
-- internal/afp/write.go: the write path. The requests of one `WriteAt` are in flight together;
-- `sched` is the order in which the server happens to take them.
pub mod Bounds
pub mod Contents
pub mod Streamed
use goafp.Base.{
  ℕ, zero, suc, ◌+◌, ◌-◌, ◌*◌, ◌/◌, ◌%◌, ◌^◌, ◌≤◌, ◌<◌, min, ◌≡◌, refl, sym, ap, ◌∙◌, ◌≢◌, ◌↔◌, ◌⊎◌,
  inl, inr, Bool, true, false, not, ◌&&◌, ◌||◌, Option, none, some, List, [], ◌∷◌, ◌++◌, map,
  append-nil, append_assoc, arith, bit_and, bit_or, ltb, leb, ◌==◌, if◌then◌else◌, ltb→lt, ltb→le,
  lt→ltb, le→ltb, ==_iff, Bool-cases, Option-cases, length, get_or, take, drop, replicate, All,
  length-append, take-append-drop, length-take, length-drop, length-replicate, take-append_length,
  drop-append_length, drop-drop, take-append_eq, get_or-append_length, drop-append_eq, All-append,
  take_all,
}
use goafp.Base.Int.{ℤ, pos, negsuc, ◌-ℤ◌, signed32, low32}
use goafp.Base.Int.{ℤ, pos, ltb_ℤ, low32, low64}
use goafp.Base.Bytes.{
  Bytes, IsByte, IsBytes, be, from_be, length-be, be-IsBytes, from_be-be, from_be-lt, be-from_be,
}
use goafp.Base.Outcome.{
  Error, server, truncated, malformed, unsupported, auth_failed, eof, not_exist, permission, exist,
  closed, transport, Outcome, ok, err, panic, NoPanic,
}
use goafp.Afp.Builder.{◌▷◌, u8, u16, u32, u64, bytes}
use goafp.Afp.Codes.{ResultCode, result_err, cmd_write_ext, cmd_set_fork_parms}
use goafp.Afp.Entry.{data_fork_len_bit, ext_data_fork_len_bit}
use goafp.Afp.Link.{M, ◌>>=◌, ◌>>◌, lift, pure, check, Link, command_write, run}
use goafp.Afp.Fork.{Fork, Chunk, chunks}

abbrev pub write_chunk_header_len : ℕ
write_chunk_header_len = 1 + 1 + 2 + 8 + 8

-- The pieces of `WriteAt`: `end - pos` is what is left, or the size, as in `ReadAt`.
abbrev pub pieces : ℕ → ℕ → List Chunk
pieces total size = chunks total size

abbrev pub part : Bytes → Chunk → Bytes
part p c = take c.want (drop c.start p)

-- Sizes are ints; here 0 stands for every value that is not positive.
unfoldable pub write_chunk_size : ℕ → Fork → ℕ
write_chunk_size quantum f =
    let room = quantum - write_chunk_header_len in
    let capped =
      if ltb 0 quantum && ltb 0 room && ltb room f.chunk_size then room else f.chunk_size in
    if capped == 0 then 32 * 1024 else capped

-- The command block of FPWriteExt, which stands before the data.
abbrev pub write_header : Fork → ℕ → ℕ → Bytes
write_header f offset count = [] ▷ u8 cmd_write_ext ▷ u8 0 ▷ u16 f.id ▷ u64 offset ▷ u64 count

abbrev pub write_request : Fork → ℕ → Bytes → Bytes
write_request f offset v = write_header f offset (length v) ▷ bytes v

-- The sum of `written`, and the error of the group.
pub record WriteResult : Type 0 where
  pub total : ℕ
  pub first_err : Option Error

-- How `io.ReadFull` ends: the buffer is full, the reader is at its end (EOF or UnexpectedEOF), or
-- it has failed otherwise.
pub data FillEnd : Type 0 where
  full ended : FillEnd
  failed : Error → FillEnd

pub record Filled : Type 0 where
  pub filled : Bytes
  pub end : FillEnd

module _ {W : Type 0} (link : Link W) where
  -- Writes are all or nothing: the count is that of the data.
  unfoldable pub write_chunk : Fork → ℕ → Bytes → M W ℕ
  write_chunk f offset v = do
    (_, code) ←
        command_write link (length (write_header f offset (length v))) (write_request f offset v)
    check (result_err code)
    pure (length v)

  -- Of two errors that of the goroutine which returns first counts.
  abbrev pub sooner_of : Bool → Error → Option Error → Error
  sooner_of sooner e none = e
  sooner_of sooner e (some e') = if sooner then e else e'

  -- A piece that fails writes nothing, and the other pieces are under way; that they are cancelled
  -- shows in what the link answers them.
  abbrev pub note_piece : Bool → Outcome ℕ → WriteResult → Outcome WriteResult
  note_piece sooner (ok n) r = ok (record r { total = n + r.total })
  note_piece sooner (err e) r = ok (record r { first_err = some (sooner_of sooner e r.first_err) })
  note_piece sooner panic r = panic

  abbrev pub then_note : Outcome ℕ → Outcome WriteResult × W → Outcome WriteResult × W
  then_note o (ok r, w) = (note_piece (link.sooner w) o r, w)
  then_note o (err e, w) = (err e, w)
  then_note o (panic, w) = (panic, w)

  unfoldable pub write_group : Fork → Bytes → ℕ → List Chunk → M W WriteResult
  write_group f p off [] w = (ok (record { total = 0; first_err = none }), w)
  write_group f p off (c ∷ cs) w =
      let (o, w') = write_chunk f (off + c.start) (part p c) w in
      then_note o (write_group f p off cs w')

  -- `WriteAt`.
  unfoldable pub write_at : Fork → List Chunk → Bytes → ℕ → M W WriteResult
  write_at f sched p off =
      if length p == 0
      then pure (record { total = 0; first_err = none })
      else write_group f p off sched

  module _ (fill : ℕ → W → Filled × W) where
    -- A window goes to the fork at the total of those before it; nothing is written of none.
    unfoldable pub write_window : (ℕ → ℕ → List Chunk) → Fork → Bytes → ℕ → M W WriteResult
    write_window sched f v total =
        if length v == 0
        then pure (record { total = 0; first_err = none })
        else write_at f (sched total (length v)) v total

    abbrev pub stop : ℕ → Option Error → M W (Option WriteResult)
    stop total e = pure (some (record { total = total; first_err = e }))

    abbrev pub after_window : FillEnd → ℕ → M W (Option WriteResult) → M W (Option WriteResult)
    after_window full total more = more
    after_window ended total more = stop total none
    after_window (failed e) total more = stop total (some e)

    abbrev pub unless_failed :
        Option Error → ℕ → M W (Option WriteResult) → M W (Option WriteResult)
    unless_failed none total more = more
    unless_failed (some e) total more = stop total (some e)

    -- The loop of `readFrom`: `fill` is `io.ReadFull` on a buffer of some size. Out of fuel is `none`.
    unfoldable pub read_from_from : ℕ → (ℕ → ℕ → List Chunk) → Fork → ℕ → M W (Option WriteResult)
    read_from_from zero sched f total w = (ok none, w)
    read_from_from (suc fuel) sched f total w =
        let (b, w') = fill (write_chunk_size link.quantum f * f.max_parallel) w in
        (write_window sched f b.filled total >>= λ r. unless_failed r.first_err total (
            after_window b.end (total + length b.filled)
              (read_from_from fuel sched f (total + length b.filled))))
          w'

    -- `ReadFrom`.
    unfoldable pub read_from : ℕ → (ℕ → ℕ → List Chunk) → Fork → M W (Option WriteResult)
    read_from fuel sched f = read_from_from fuel sched f 0

  -- The size is an int64. Up to 4 GiB the bit that every server takes, else the extended one.
  unfoldable pub truncate : Fork → ℤ → M W (Unit {0})
  truncate f size =
      let head = [] ▷ u8 cmd_set_fork_parms ▷ u8 0 ▷ u16 f.id in
      run link (
        if not (ltb_ℤ (pos 0xFFFFFFFF) size)
        then head ▷ u16 data_fork_len_bit ▷ u32 (low32 size)
        else head ▷ u16 ext_data_fork_len_bit ▷ u64 (low64 size))
