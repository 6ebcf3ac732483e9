-- ===== src/Afp/Entry/RoundTrip.antt =====
-- internal/afp/entry.go: the decoder on blocks of the format.
use goafp.Base.{
  ℕ, ◌+◌, ◌^◌, ◌<◌, ◌≡◌, refl, ap, Bool, true, false, ◌++◌, arith, if◌then◌else◌, length,
}
use goafp.Base.Bytes.{Bytes, be, length-be}
use goafp.Base.Outcome.{Outcome, ok}
use goafp.Afp.Text.{Norm}
use goafp.Afp.Builder.{◌▷◌}
use goafp.Afp.Reader.{reader, pascal_at, pascal2_at}
use goafp.Afp.Reader.Ahead.{Ahead, Ahead-reader, Ahead-moved, read_lem, uint_lem}
use goafp.Afp.Entry.{
  has, long_name_bit, utf8_name_bit, unix_privs_bit, DirEntry, blank, set_name, set_size,
  set_node_id, set_parent_dir_id, set_offspring, set_create_time, set_mod_time, set_uid, set_gid,
  set_permissions, set_has_unix, note_finder_info, when, ignore, Parse, load, finder_info, named,
  long_name, utf8_name, dates_and_flags, dir_fields, file_fields, middle_fields, unix_fields,
  last_fields, when_ok, finish, parse_entry_params, to_nfc, has_not_failed,
}
use goafp.Afp.Entry.Format.{
  Params, IsValid, opt, encode_dates, encode_kind, encode_middle, encode_unix, encode_last,
  encode_params, dates_of, kind_of, middle_of, unix_of, entry_of,
}

-- The entry so far, and the bytes that are still to be read.
record At (e : DirEntry) (s : Bytes) (p : Parse) : Type 0 where
  entry : p.e ≡ e
  ahead : Ahead p.r s

At-load :
    (k : ℕ) (put : ℕ → DirEntry → DirEntry) (v : ℕ) (s : Bytes) {e : DirEntry} {p : Parse}
    → v < 256 ^ k
    → At e (be k v ++ s) p
    → At (put v e) s (load k put p)
unfolding load
At-load k put v s {e} {p} small a =
    let got = uint_lem k p.r v s small a.ahead in
    rw (got, a.entry)
      (record { entry = refl; ahead = Ahead-moved k p.r (be k v) s (length-be k v) a.ahead })

At-when :
    (b : Bool) (f : Parse → Parse) (g : DirEntry → DirEntry) (v s : Bytes) {e : DirEntry}
    {p : Parse}
    → (At e (v ++ s) p → At (g e) s (f p))
    → At e (opt b v ++ s) p
    → At (when b g e) s (when b f p)
At-when true f g v s h a = h a
At-when false f g v s h a = a

-- A number that is there if its bit is set.
At-field :
    (b : Bool) (k : ℕ) (put : ℕ → DirEntry → DirEntry) (v : ℕ) (s : Bytes) {e : DirEntry}
    {p : Parse}
    → v < 256 ^ k
    → At e (opt b (be k v) ++ s) p
    → At (when b (put v) e) s (when b (load k put) p)
At-field b k put v s small a = At-when b (load k put) (put v) (be k v) s (At-load k put v s small) a

when-ignore : (b : Bool) (v : ℕ) (e : DirEntry) → when b (ignore v) e ≡ e
when-ignore true v e = refl
when-ignore false v e = refl

At-skip :
    (b : Bool) (k v : ℕ) (s : Bytes) {e : DirEntry} {p : Parse}
    → v < 256 ^ k
    → At e (opt b (be k v) ++ s) p
    → At e s (when b (load k ignore) p)
At-skip b k v s {e} {p} small a = rw (when-ignore b v e) at (At-field b k ignore v s small a)

At-finder :
    (fi s : Bytes) {e : DirEntry} {p : Parse}
    → length fi ≡ 32
    → At e (fi ++ s) p
    → At (note_finder_info fi e) s (finder_info p)
unfolding finder_info
At-finder fi s {e} {p} size a =
    let got = read_lem 32 p.r fi s size a.ahead in
    rw (got, a.entry) (record { entry = refl; ahead = Ahead-moved 32 p.r fi s size a.ahead })

At-flag :
    (s : Bytes) {e : DirEntry} (p : Parse)
    → At e s p
    → At (set_has_unix true e) s (record { e = set_has_unix (has_not_failed p.r) p.e; r = p.r })
At-flag s {e} p a = record { entry = ground (arith, a.entry, a.ahead.fine); ahead = a.ahead }

module _ (bm : ℕ) (v : Params) (ok_v : IsValid v) where
  At-dates :
      (s : Bytes) {e : DirEntry} {p : Parse}
      → At e (encode_dates bm v s) p
      → At (dates_of bm v e) s (dates_and_flags bm p)
  unfolding dates_and_flags
  At-dates s a =
      At-when _ finder_info (note_finder_info v.finder) v.finder s
        (At-finder v.finder s ok_v.finder_length)
        (At-skip _ 4 v.backup_date _ ok_v.backup_date_lt (
          At-field _ 4 set_mod_time v.mod_date _ ok_v.mod_date_lt (
            At-field _ 4 set_create_time v.create_date _ ok_v.create_date_lt (
              At-field _ 4 set_parent_dir_id v.parent_dir_id _ ok_v.parent_dir_id_lt
                (At-skip _ 2 v.attributes _ ok_v.attributes_lt a)))))

  At-kind :
      (is_dir : Bool) (s : Bytes) {e : DirEntry} {p : Parse}
      → At e (encode_kind bm v is_dir s) p
      → At (kind_of bm v is_dir e) s ((if is_dir then dir_fields bm else file_fields bm) p)
  unfolding dir_fields file_fields
  At-kind true s a = At-skip _ 4 v.access s ok_v.access_lt (
      At-field _ 4 set_gid v.group _ ok_v.group_lt (
        At-field _ 4 set_uid v.owner _ ok_v.owner_lt
          (At-field _ 2 set_offspring v.offspring _ ok_v.offspring_lt a)))
  At-kind false s a = At-skip _ 2 v.launch_limit s ok_v.launch_limit_lt (
      At-field _ 8 set_size v.ext_data_len _ ok_v.ext_data_len_lt (
        At-skip _ 4 v.rsrc_len _ ok_v.rsrc_len_lt
          (At-field _ 4 set_size v.data_len _ ok_v.data_len_lt a)))

  At-middle :
      (is_dir : Bool) (s : Bytes) {e : DirEntry} {p : Parse}
      → At e (encode_middle bm v is_dir s) p
      → At (middle_of bm v is_dir e) s (middle_fields is_dir bm p)
  unfolding middle_fields
  At-middle is_dir s a = At-kind is_dir s (
      At-field _ 4 set_node_id v.node_id _ ok_v.node_id_lt
        (At-skip _ 2 v.short_name_offset _ ok_v.short_name_offset_lt a))

  At-unix :
      (s : Bytes) {e : DirEntry} {p : Parse}
      → At e (encode_unix bm v s) p
      → At (unix_of bm v e) s (unix_fields p)
  unfolding unix_fields
  At-unix s {e} {p} a =
      At-flag s (p ▷ load 4 set_uid ▷ load 4 set_gid ▷ load 4 set_permissions ▷ load 4 ignore) (
        At-load 4 ignore v.ua_permissions s ok_v.ua_permissions_lt (
          At-load 4 set_permissions v.permissions _ ok_v.permissions_lt
            (At-load 4 set_gid v.gid _ ok_v.gid_lt (At-load 4 set_uid v.uid _ ok_v.uid_lt a))))

  At-last :
      (is_dir : Bool) (s : Bytes) {e : DirEntry} {p : Parse}
      → At e (encode_last bm v is_dir s) p
      → At (when (has bm unix_privs_bit) (unix_of bm v) e) s (last_fields is_dir bm p)
  unfolding last_fields
  At-last is_dir s {e} {p} a =
      unix_part (has bm unix_privs_bit) (At-skip _ 8 v.ext_rsrc_len _ ok_v.ext_rsrc_len_lt a)
    where
      unix_part :
          (b : Bool) {p' : Parse}
          → At e (if b then encode_unix bm v s else s) p'
          → At (when b (unix_of bm v) e) s (when b unix_fields p')
      unix_part true h = At-unix s h
      unix_part false h = h

named_lem :
    (p : Parse) (name : Bytes) (o : Outcome Bytes)
    → o ≡ ok name
    → named p o ≡ ok (record { e = set_name name p.e; r = p.r })
named_lem p name o h = rw h

-- The long name is looked up in the block, and the reader goes on behind its offset.
long_name_lem :
    (b : Bool) (off : ℕ) (block long s : Bytes) {e : DirEntry} {p : Parse}
    → off < 256 ^ 2
    → (b ≡ true → pascal_at block off ≡ ok long)
    → At e (opt b (be 2 off) ++ s) p
    → (p' : Parse) × (when_ok b (long_name block) p ≡ ok p') × At (when b (set_name long) e) s p'
unfolding long_name
long_name_lem false off block long s {e} {p} small found a = (p, refl, a)
long_name_lem true off block long s {e} {p} small found a =
    let a' = At-load 2 ignore off s small a in
    let q = load 2 ignore p in
    (
      record { e = set_name long q.e; r = q.r },
      ground (
        arith,
        a'.ahead.fine,
        uint_lem 2 p.r off s small a.ahead,
        named_lem q long (pascal_at block off) (found refl),
      ),
      record { entry = ap (set_name long) a'.entry; ahead = a'.ahead },
    )

to_nfc_lem :
    (norm : Norm) (o : Outcome Bytes) (name : Bytes)
    → o ≡ ok name
    → to_nfc norm o ≡ ok (norm.nfc name)
to_nfc_lem norm o name h = rw h

utf8_name_lem :
    (b : Bool) (off pad : ℕ) (norm : Norm) (block name s : Bytes) {e : DirEntry} {p : Parse}
    → off < 256 ^ 2
    → pad < 256 ^ 4
    → (b ≡ true → pascal2_at block (off + 4) ≡ ok name)
    → At e (if b then be 2 off ++ (be 4 pad ++ s) else s) p
    → (p' : Parse) × (when_ok b (utf8_name norm block) p ≡ ok p')
      × At (when b (set_name (norm.nfc name)) e) s p'
unfolding utf8_name
utf8_name_lem false off pad norm block name s {e} {p} small small' found a = (p, refl, a)
utf8_name_lem true off pad norm block name s {e} {p} small small' found a =
    let a' = At-load 4 ignore pad s small' (At-load 2 ignore off (be 4 pad ++ s) small a) in
    let q = load 4 ignore (load 2 ignore p) in
    let looked = to_nfc_lem norm (pascal2_at block (off + 4)) name (found refl) in
    (
      record { e = set_name (norm.nfc name) q.e; r = q.r },
      ground (
        arith,
        a'.ahead.fine,
        uint_lem 2 p.r off (be 4 pad ++ s) small a.ahead,
        named_lem q (norm.nfc name) (to_nfc norm (pascal2_at block (off + 4))) looked,
      ),
      record { entry = ap (set_name (norm.nfc name)) a'.entry; ahead = a'.ahead },
    )

finish_lem : (e : DirEntry) (s : Bytes) (p : Parse) → At e s p → finish p ≡ ok e
finish_lem e s p a = ground (arith, a.entry, a.ahead.fine)

-- For every bitmap, for files and for directories: a block that holds the parameters that the
-- bitmap names, in the order of their bits, with values of their widths and with the names at the
-- offsets that it gives, is decoded to the entry that these values describe, its UTF-8 name in
-- composed form.
pub parse_entry_params-encode_params :
    (norm : Norm) (bm : ℕ) (is_dir : Bool) (v : Params) (rest long name : Bytes)
    → IsValid v
    → (has bm long_name_bit ≡ true
        → pascal_at (encode_params bm v is_dir rest) v.long_name_offset ≡ ok long)
    → (has bm utf8_name_bit ≡ true
        → pascal2_at (encode_params bm v is_dir rest) (v.utf8_offset + 4) ≡ ok name)
    → parse_entry_params norm (encode_params bm v is_dir rest) is_dir bm
      ≡ ok (entry_of bm v is_dir long (norm.nfc name))
unfolding parse_entry_params
parse_entry_params-encode_params norm bm is_dir v rest long name valid found found2 =
    let block = encode_params bm v is_dir rest in
    let start : At (blank is_dir) block (record { e = blank is_dir; r = reader block }) = record {
      entry = refl;
      ahead = Ahead-reader block;
    } in
    let (p1, e1, a1) =
      long_name_lem (has bm long_name_bit) v.long_name_offset block long _ valid.long_name_offset_lt
        found (At-dates bm v valid _ start) in
    let (p2, e2, a2) =
      utf8_name_lem (has bm utf8_name_bit) v.utf8_offset v.utf8_pad norm block name _
        valid.utf8_offset_lt valid.utf8_pad_lt found2 (At-middle bm v valid is_dir _ a1) in
    rw (e1, e2) (finish_lem _ rest _ (At-last bm v valid is_dir rest a2))
