-- ===== src/Afp/ServerInfo.antt =====
-- internal/afp/serverinfo.go: the FPGetSrvrInfo block.
pub mod Laws
use goafp.Base.{
  ℕ, zero, suc, ◌+◌, ◌-◌, ◌*◌, ◌/◌, ◌%◌, ◌^◌, ◌≤◌, ◌<◌, min, ◌≡◌, refl, sym, ap, ◌∙◌, ◌≢◌, ◌↔◌, ◌⊎◌,
  inl, inr, Bool, true, false, not, ◌&&◌, ◌||◌, Option, none, some, List, [], ◌∷◌, ◌++◌, map,
  append-nil, append_assoc, arith, bit_and, ltb, leb, ◌==◌, if◌then◌else◌, ltb→lt, ltb→le, lt→ltb,
  le→ltb, ==_iff, Bool-cases, Option-cases, length, get_or, take, drop, replicate, All,
  length-append, take-append-drop, length-take, length-drop, length-replicate, take-append_length,
  drop-append_length, drop-drop, take-append_eq, get_or-append_length, drop-append_eq, All-append,
  take_all,
}
use goafp.Base.Bytes.{
  Bytes, IsByte, IsBytes, be, from_be, length-be, be-IsBytes, from_be-be, from_be-lt, be-from_be,
}
use goafp.Base.Outcome.{
  Error, server, truncated, malformed, unsupported, auth_failed, eof, not_exist, permission, exist,
  closed, transport, Outcome, ok, err, panic, ◌>>=◌, NoPanic, NoPanic->>=,
}
use goafp.Afp.Reader.{slice, index}

pub record ServerInfo : Type 0 where
  pub server_name : Bytes
  pub machine_type : Bytes
  pub afp_versions : List Bytes
  pub uams : List Bytes
  pub flags : ℕ

-- Offsets come from unsigned numbers, so the test `off < 0` of the source never holds.
unfoldable pub pascal_string : Bytes → ℕ → Outcome (Bytes × ℕ)
pascal_string b off = if leb (length b) off then err malformed else do
  n ← index b off
  let end = off + 1 + n
  if ltb (length b) end then err malformed else (do s ← slice b (off + 1) end; ok (s, end))

-- The loop of `pascalList`, with the rounds that are left.
unfoldable pub pascal_strings : ℕ → Bytes → ℕ → List Bytes → Outcome (List Bytes)
pascal_strings zero b pos items = ok items
pascal_strings (suc n) b pos items = do
  (s, next) ← pascal_string b pos
  pascal_strings n b next (items ++ s ∷ [])

unfoldable pub pascal_list : Bytes → ℕ → Outcome (List Bytes)
pascal_list b off =
    if off == 0
    then ok []
    else if leb (length b) off
    then err malformed
    else do count ← index b off; pascal_strings count b (off + 1) []

-- `binary.BigEndian.Uint16(b[i:i+2])`.
unfoldable pub u16_at : Bytes → ℕ → Outcome ℕ
u16_at b i = do v ← slice b i (i + 2); ok (from_be v)

unfoldable pub parse_server_info : Bytes → Outcome ServerInfo
parse_server_info b = if ltb (length b) 11 then err malformed else do
  flags ← u16_at b 8
  (name, _) ← pascal_string b 10
  machine_at ← u16_at b 0
  (machine, _) ← pascal_string b machine_at
  versions_at ← u16_at b 2
  versions ← pascal_list b versions_at
  uams_at ← u16_at b 4
  uams ← pascal_list b uams_at
  ok (record {
    server_name = name;
    machine_type = machine;
    afp_versions = versions;
    uams = uams;
    flags = flags;
  })
