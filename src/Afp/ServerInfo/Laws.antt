-- ===== src/Afp/ServerInfo/Laws.antt =====
-- internal/afp/serverinfo.go: the server info block, encoded and parsed.
use goafp.Base.{
  ℕ, zero, suc, ◌+◌, ◌^◌, ◌≤◌, ◌<◌, ◌≡◌, refl, sym, ap, ◌∙◌, ◌≢◌, inl, inr, List, [], ◌∷◌, ◌++◌,
  append-nil, append_assoc, arith, ltb, leb, ◌==◌, ltb→lt, ltb→le, le→ltb, Bool-cases, length,
  get_or, length-append, get_or-append_length,
}
use goafp.Base.Bytes.{Bytes, be, from_be-be}
use goafp.Base.Outcome.{ok, NoPanic, NoPanic->>=}
use goafp.Afp.Reader.Bounds.{index_lem, slice_lem, slice_mid}
use goafp.Afp.ServerInfo.{
  ServerInfo, pascal_string, pascal_strings, pascal_list, u16_at, parse_server_info,
}

pascal_string-NoPanic : (b : Bytes) (off : ℕ) → NoPanic (pascal_string b off)
unfolding pascal_string
pascal_string-NoPanic b off = elim (Bool-cases (leb (length b) off)) [
  | inl out ↦ rw out tt
  | inr inside ↦
      let n = get_or b off 0 in
      elim (Bool-cases (ltb (length b) (off + 1 + n))) [
        | inl over ↦ rw (inside, index_lem b off (ltb→lt off (length b) (ground arith)), over) tt
        | inr fits ↦
            let (v, e, _) = slice_lem b (off + 1) (off + 1 + n) (omega arith) (ground arith) in
            rw (inside, index_lem b off (ltb→lt off (length b) (ground arith)), fits, e) tt
      ]
]

pascal_strings-NoPanic :
    (n : ℕ) (b : Bytes) (pos : ℕ) (items : List Bytes) → NoPanic (pascal_strings n b pos items)
unfolding pascal_strings
pascal_strings-NoPanic zero b pos items = tt
pascal_strings-NoPanic (suc n) b pos items =
    NoPanic->>= (pascal_string b pos) _ (pascal_string-NoPanic b pos)
      λ r. pascal_strings-NoPanic n b r.1 (items ++ r.0 ∷ [])

pascal_list-NoPanic : (b : Bytes) (off : ℕ) → NoPanic (pascal_list b off)
unfolding pascal_list
pascal_list-NoPanic b off = elim (Bool-cases (off == 0)) [
  | inl absent ↦ rw absent tt
  | inr there ↦ elim (Bool-cases (leb (length b) off)) [
    | inl out ↦ rw (there, out) tt
    | inr inside ↦
        rw (there, inside, index_lem b off (ltb→lt off (length b) (ground arith)))
          (pascal_strings-NoPanic (get_or b off 0) b (off + 1) [])
  ]
]

u16_at-NoPanic : (b : Bytes) (i : ℕ) → i + 2 ≤ length b → NoPanic (u16_at b i)
unfolding u16_at
u16_at-NoPanic b i h = let (v, e, _) = slice_lem b i (i + 2) (omega arith) h in rw e tt

-- `ParseServerInfo` does not panic, whatever the block is.
pub parse_server_info-NoPanic : (b : Bytes) → NoPanic (parse_server_info b)
unfolding parse_server_info
parse_server_info-NoPanic b = elim (Bool-cases (ltb (length b) 11)) [
  | inl short ↦ rw short tt
  | inr long ↦
      let room = ltb→le (length b) 11 long in
      rw long (
        NoPanic->>= _ _ (u16_at-NoPanic b 8 (omega arith)) λ _.
          NoPanic->>= _ _ (pascal_string-NoPanic b 10) λ _.
            NoPanic->>= _ _ (u16_at-NoPanic b 0 (omega arith)) λ m.
              NoPanic->>= _ _ (pascal_string-NoPanic b m) λ _.
                NoPanic->>= _ _ (u16_at-NoPanic b 2 (omega arith)) λ v.
                  NoPanic->>= _ _ (pascal_list-NoPanic b v) λ _.
                    NoPanic->>= _ _ (u16_at-NoPanic b 4 (omega arith))
                      λ u. NoPanic->>= _ _ (pascal_list-NoPanic b u) λ _. tt)
]

-- Strings as they stand in the block.
abbrev pub encode_string : Bytes → Bytes
encode_string s = length s ∷ s

abbrev pub encode_strings : List Bytes → Bytes
encode_strings [] = []
encode_strings (s ∷ ss) = length s ∷ (s ++ encode_strings ss)

pascal_string_lem :
    (pre s post : Bytes) (off : ℕ)
    → length pre ≡ off
    → pascal_string (pre ++ length s ∷ (s ++ post)) off ≡ ok (s, off + 1 + length s)
unfolding pascal_string
pascal_string_lem pre s post off e =
    let b = pre ++ length s ∷ (s ++ post) in
    let n = get_or-append_length pre (s ++ post) (length s) 0 in
    let size = length-append pre (length s ∷ (s ++ post)) in
    let size' = length-append s post in
    let at = index_lem b off (omega arith) in
    let body =
      slice_mid (pre ++ length s ∷ []) s post (off + 1) (off + 1 + length s)
        (omega (arith, length-append pre (length s ∷ []))) refl in
    let whole = append_assoc pre (length s ∷ []) (s ++ post) in ground arith

pascal_strings_lem :
    (ss : List Bytes) (b pre post : Bytes) (off : ℕ) (items : List Bytes)
    → length pre ≡ off
    → b ≡ pre ++ (encode_strings ss ++ post)
    → pascal_strings (length ss) b off items ≡ ok (items ++ ss)
unfolding pascal_strings
pascal_strings_lem [] b pre post off items e eb = rw append-nil
pascal_strings_lem (s ∷ ss) b pre post off items e eb =
    let rest = encode_strings ss ++ post in
    let split : b ≡ pre ++ length s ∷ (s ++ rest) =
      eb ∙ ap (λ t. pre ++ length s ∷ t) (append_assoc s (encode_strings ss) post) in
    let first : pascal_string b off ≡ ok (s, off + 1 + length s) =
      rw split (pascal_string_lem pre s rest off e) in
    rw first (
      pascal_strings_lem ss b (pre ++ length s ∷ s) post (off + 1 + length s) (items ++ s ∷ [])
        (omega (arith, length-append pre (length s ∷ s)))
        (split ∙ sym (append_assoc pre (length s ∷ s) rest))
      ∙ ap ok (append_assoc items (s ∷ []) ss))

pascal_list_lem :
    (ss : List Bytes) (b pre post : Bytes) (off : ℕ)
    → length pre ≡ off
    → off ≢ 0
    → b ≡ pre ++ length ss ∷ (encode_strings ss ++ post)
    → pascal_list b off ≡ ok ss
unfolding pascal_list
pascal_list_lem ss b pre post off e ne eb =
    let rest = encode_strings ss ++ post in
    let size : length b ≡ off + 1 + length rest =
      ap length eb ∙ omega (arith, length-append pre (length ss ∷ rest)) in
    let count : get_or b off 0 ≡ length ss =
      rw (eb, ← e) (get_or-append_length pre rest (length ss) 0) in
    let at = index_lem b off (omega arith) in
    let strings =
      pascal_strings_lem ss b (pre ++ length ss ∷ []) post (off + 1) []
        (omega (arith, length-append pre (length ss ∷ [])))
        (eb ∙ sym (append_assoc pre (length ss ∷ []) rest)) in
    ground arith

-- The five numbers in front: the offsets of the machine type, the version list, the UAM list and
-- the icon, and the flags.
abbrev pub front : ℕ → ℕ → ℕ → ℕ → ℕ → Bytes
front machine versions uams icon flags =
    be 2 machine ++ be 2 versions ++ be 2 uams ++ be 2 icon ++ be 2 flags

u16_at_lem :
    (b pre post : Bytes) (v off : ℕ)
    → v < 2 ^ 16
    → length pre ≡ off
    → b ≡ pre ++ (be 2 v ++ post)
    → u16_at b off ≡ ok v
unfolding u16_at
u16_at_lem b pre post v off small e eb =
    rw (eb, slice_mid pre (be 2 v) post off (off + 2) e refl) (ap ok (from_be-be 2 v small))

-- A block of the documented form: the strings and the lists stand at the offsets that the block
-- begins with, in any order and with anything between them, and the name stands behind the flags.
pub record IsBlock (b : Bytes) (info : ServerInfo) : Type 0 where
  pub machine_at : ℕ
  pub versions_at : ℕ
  pub uams_at : ℕ
  pub icon_at : ℕ
  pub after_name : Bytes
  pub before_machine : Bytes
  pub after_machine : Bytes
  pub before_versions : Bytes
  pub after_versions : Bytes
  pub before_uams : Bytes
  pub after_uams : Bytes
  pub machine_at_lt : machine_at < 2 ^ 16
  pub versions_at_lt : versions_at < 2 ^ 16
  pub uams_at_lt : uams_at < 2 ^ 16
  pub flags_lt : info.flags < 2 ^ 16
  pub versions_there : versions_at ≢ 0
  pub uams_there : uams_at ≢ 0
  pub machine_place : length before_machine ≡ machine_at
  pub versions_place : length before_versions ≡ versions_at
  pub uams_place : length before_uams ≡ uams_at
  pub name_is :
      b
      ≡ front machine_at versions_at uams_at icon_at info.flags
        ++ length info.server_name ∷ (info.server_name ++ after_name)
  pub machine_is :
      b ≡ before_machine ++ length info.machine_type ∷ (info.machine_type ++ after_machine)
  pub versions_is :
      b
      ≡ before_versions
        ++ length info.afp_versions ∷ (encode_strings info.afp_versions ++ after_versions)
  pub uams_is : b ≡ before_uams ++ length info.uams ∷ (encode_strings info.uams ++ after_uams)

-- A block whose strings and lists stand at the nonzero offsets that it begins with, in any order
-- and with anything between them, and whose name stands behind the flags, is read back as name,
-- machine type, versions, UAMs and flags.
pub parse_server_info_lem :
    (b : Bytes) (info : ServerInfo) → IsBlock b info → parse_server_info b ≡ ok info
unfolding parse_server_info
parse_server_info_lem b info k =
    let five = front k.machine_at k.versions_at k.uams_at k.icon_at info.flags in
    let tail = length info.server_name ∷ (info.server_name ++ k.after_name) in
    let long : 11 ≤ length b = rw k.name_is (omega (arith, length-append five tail)) in
    let flags =
      u16_at_lem b (be 2 k.machine_at ++ be 2 k.versions_at ++ be 2 k.uams_at ++ be 2 k.icon_at)
        tail info.flags 8 k.flags_lt refl k.name_is in
    let machine_at = u16_at_lem b [] _ k.machine_at 0 k.machine_at_lt refl k.name_is in
    let versions_at =
      u16_at_lem b (be 2 k.machine_at) _ k.versions_at 2 k.versions_at_lt refl k.name_is in
    let uams_at =
      u16_at_lem b (be 2 k.machine_at ++ be 2 k.versions_at) _ k.uams_at 4 k.uams_at_lt refl
        k.name_is in
    let name = rw (← k.name_is) at (pascal_string_lem five info.server_name k.after_name 10 refl) in
    let machine = rw (← k.machine_is) at (
      pascal_string_lem k.before_machine info.machine_type k.after_machine k.machine_at
        k.machine_place) in
    let versions =
      pascal_list_lem info.afp_versions b k.before_versions k.after_versions k.versions_at
        k.versions_place k.versions_there k.versions_is in
    let uams =
      pascal_list_lem info.uams b k.before_uams k.after_uams k.uams_at k.uams_place k.uams_there
        k.uams_is in
    rw (
      le→ltb (length b) 11 long,
      flags,
      name,
      machine_at,
      machine,
      versions_at,
      versions,
      uams_at,
      uams,
    )
