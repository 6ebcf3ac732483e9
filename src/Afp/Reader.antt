-- ===== src/Afp/Reader.antt =====
-- internal/afp/wire.go: the reader of reply payloads, and the strings at absolute offsets.
pub mod Ahead
pub mod Bounds
use goafp.Base.{
  ℕ, zero, suc, ◌+◌, ◌-◌, ◌*◌, ◌/◌, ◌%◌, ◌^◌, ◌≤◌, ◌<◌, min, ◌≡◌, refl, sym, ap, ◌∙◌, ◌≢◌, ◌↔◌, ◌⊎◌,
  inl, inr, Bool, true, false, not, ◌&&◌, ◌||◌, Option, none, some, List, [], ◌∷◌, ◌++◌, map,
  append-nil, append_assoc, arith, ltb, leb, ◌==◌, if◌then◌else◌, ltb→lt, ltb→le, lt→ltb, le→ltb,
  ==_iff, Bool-cases, Option-cases, length, get_or, take, drop, replicate, All, length-append,
  take-append-drop, length-take, length-drop, length-replicate, take-append_length,
  drop-append_length, drop-drop, take-append_eq, drop-append_eq, All-append, take_all,
}
use goafp.Base.Bytes.{
  Bytes, IsByte, IsBytes, be, from_be, length-be, be-IsBytes, from_be-be, from_be-lt, be-from_be,
}
use goafp.Base.Outcome.{
  Error, server, truncated, malformed, unsupported, auth_failed, eof, not_exist, permission, exist,
  closed, transport, Outcome, ok, err, panic, ◌>>=◌,
}

-- `b[i:j]`, which panics out of bounds.
unfoldable pub slice : Bytes → ℕ → ℕ → Outcome Bytes
slice b i j = if leb i j && leb j (length b) then ok (take (j - i) (drop i b)) else panic

-- `b[i]`, which panics out of bounds.
unfoldable pub index : Bytes → ℕ → Outcome ℕ
index b i = if ltb i (length b) then ok (get_or b i 0) else panic

-- `err` is `ok` for nil. A panic of an accessor stays there too, and comes out at the next look at
-- the error.
pub record Reader : Type 0 where
  pub b : Bytes
  pub pos : ℕ
  pub err : Outcome (Unit {0})

abbrev pub reader : Bytes → Reader
reader b = record { b = b; pos = 0; err = ok tt }

unfoldable pub fail : Reader → Reader
fail r = elim r.err [ ok _ ↦ record r { err = Outcome.err truncated } | err _ ↦ r | panic ↦ r ]

-- What `r.b[r.pos : r.pos+n]` comes to.
abbrev pub taken : ℕ → Reader → Outcome Bytes → Option Bytes × Reader
taken n r (ok v) = (some v, record r { pos = r.pos + n })
taken n r (err e) = (none, record r { err = Outcome.err e })
taken n r panic = (none, record r { err = panic })

-- `take`; `none` is Go's nil slice.
unfoldable pub read : ℕ → Reader → Option Bytes × Reader
unfolding fail slice
read n r = elim r.err [
  | err _ ↦ (none, r)
  | panic ↦ (none, r)
  | ok _ ↦
      if ltb (length r.b) (r.pos + n)
      then (none, fail r)
      else taken n r (slice r.b r.pos (r.pos + n))
]

abbrev pub or_empty : Option Bytes → Bytes
or_empty none = []
or_empty (some v) = v

-- `u8`, `u16`, `u32` and `u64`, at 1, 2, 4 and 8 bytes; a nil slice gives 0.
unfoldable pub uint : ℕ → Reader → ℕ × Reader
unfolding read
uint k r = let (v, r') = read k r in (from_be (or_empty v), r')

unfoldable pub pascal : Reader → Bytes × Reader
unfolding uint read
pascal r = let (n, r') = uint 1 r in let (v, r'') = read n r' in (or_empty v, r'')

-- Offsets come from unsigned numbers, so the test `off < 0` of the source never holds.
unfoldable pub pascal_at : Bytes → ℕ → Outcome Bytes
pascal_at b off = if leb (length b) off then err malformed else do
  n ← index b off
  if ltb (length b) (off + 1 + n) then err malformed else slice b (off + 1) (off + 1 + n)

unfoldable pub pascal2_at : Bytes → ℕ → Outcome Bytes
pascal2_at b off = if ltb (length b) (off + 2) then err malformed else do
  prefix ← slice b off (off + 2)
  let n = from_be prefix
  if ltb (length b) (off + 2 + n) then err malformed else slice b (off + 2) (off + 2 + n)
