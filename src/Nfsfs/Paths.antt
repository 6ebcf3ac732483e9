-- ===== src/Nfsfs/Paths.antt =====
-- internal/nfsfs/fs.go: paths. `path.Join` and `path.Clean` are written out as Go documents them.
pub mod Resolved
use goafp.Base.{
  ℕ, zero, suc, ◌+◌, ◌-◌, ◌*◌, ◌/◌, ◌%◌, ◌^◌, ◌≤◌, ◌<◌, min, ◌≡◌, refl, sym, ap, ◌∙◌, ◌≢◌, ◌↔◌, ◌⊎◌,
  inl, inr, Bool, true, false, not, ◌&&◌, ◌||◌, Option, none, some, List, [], ◌∷◌, ◌++◌, map,
  append-nil, append_assoc, arith, bit_and, ltb, leb, ◌==◌, if◌then◌else◌, ltb→lt, ltb→le, lt→ltb,
  le→ltb, ==_iff, Bool-cases, Option-cases, length, get_or, take, drop, replicate, All,
  length-append, take-append-drop, length-take, length-drop, length-replicate, take-append_length,
  drop-append_length, drop-drop, take-append_eq, get_or-append_length, drop-append_eq, All-append,
  take_all,
}
use goafp.Base.Bytes.{
  Bytes, IsByte, IsBytes, be, from_be, length-be, be-IsBytes, from_be-be, from_be-lt, be-from_be,
}
use goafp.Base.Outcome.{
  Error, server, truncated, malformed, unsupported, auth_failed, eof, not_exist, permission, exist,
  closed, transport, Outcome, ok, err, panic, ◌>>=◌, NoPanic, NoPanic->>=,
}
use mathlib.Core.List.{reverse}
use goafp.Afp.Text.{slash, codes, same}

abbrev pub is_empty : Bytes → Bool
is_empty [] = true
is_empty (c ∷ cs) = false

abbrev pub onto_first : ℕ → List Bytes → List Bytes
onto_first c [] = (c ∷ []) ∷ []
onto_first c (p ∷ ps) = (c ∷ p) ∷ ps

-- `strings.Split(s, "/")`.
unfoldable pub split_slash : Bytes → List Bytes
split_slash [] = [] ∷ []
split_slash (c ∷ cs) =
    let parts = split_slash cs in if c == slash then [] ∷ parts else onto_first c parts

abbrev pub join_rest : List Bytes → Bytes
join_rest [] = []
join_rest (p ∷ ps) = slash ∷ (p ++ join_rest ps)

-- `strings.Join(parts, "/")`.
abbrev pub join_slash : List Bytes → Bytes
join_slash [] = []
join_slash (p ∷ ps) = p ++ join_rest ps

abbrev pub dot : Bytes
dot = codes "."

abbrev pub dot_dot : Bytes
dot_dot = codes ".."

-- A ".." takes the component before it away; at a root there is none, elsewhere ".." stays.
abbrev pub up : Bool → List Bytes → List Bytes
up rooted [] = if rooted then [] else dot_dot ∷ []
up rooted (p ∷ st) = if same p dot_dot then dot_dot ∷ p ∷ st else st

-- One component of the path; the components that stand before it are kept last first.
unfoldable pub clean_step : Bool → List Bytes → Bytes → List Bytes
clean_step rooted st part =
    if is_empty part || same part dot
    then st
    else if same part dot_dot
    then up rooted st
    else part ∷ st

unfoldable pub clean : Bool → List Bytes → List Bytes → List Bytes
clean rooted st [] = reverse st
clean rooted st (p ∷ ps) = clean rooted (clean_step rooted st p) ps

abbrev pub is_rooted : Bytes → Bool
is_rooted [] = false
is_rooted (c ∷ cs) = c == slash

abbrev pub or_dot : List Bytes → Bytes
or_dot [] = dot
or_dot (p ∷ ps) = join_slash (p ∷ ps)

-- `path.Clean`.
unfoldable pub clean_path : Bytes → Bytes
clean_path s =
    if is_rooted s
    then slash ∷ join_slash (clean true [] (split_slash s))
    else or_dot (clean false [] (split_slash s))

-- The buffer of `path.Join`: empty elements at the front leave no slash.
abbrev pub glue : Bytes → List Bytes → Bytes
glue buf [] = buf
glue buf (e ∷ es) = glue (if is_empty buf then e else buf ++ slash ∷ e) es

-- `path.Join`.
unfoldable pub path_join : List Bytes → Bytes
path_join es = let buf = glue [] es in if is_empty buf then [] else clean_path buf

-- `strings.TrimPrefix(p, "/")`.
abbrev pub trim_prefix : Bytes → Bytes
trim_prefix [] = []
trim_prefix (c ∷ cs) = if c == slash then cs else c ∷ cs

-- `Join` of the file system is `path.Join`.
abbrev pub join : List Bytes → Bytes
join elem = path_join elem

-- `FS.resolve`, by the base of the file system.
unfoldable pub resolve : Bytes → Bytes → Bytes
resolve base name = trim_prefix (path_join ((slash ∷ []) ∷ base ∷ name ∷ []))

-- `FS.Root`.
unfoldable pub root : Bytes → Bytes
root base = if is_empty base then slash ∷ [] else slash ∷ base
