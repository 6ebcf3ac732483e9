-- ===== src/Afp/Volume/Enumerate.antt =====
-- internal/afp/session.go: the reply of FPEnumerateExt2, encoded and parsed.
use goafp.Base.{
  ℕ, ◌+◌, ◌-◌, ◌^◌, ◌<◌, ◌≡◌, refl, ap, ◌∙◌, Bool, not, List, [], ◌∷◌, ◌++◌, append-nil,
  append_assoc, arith, ◌==◌, if◌then◌else◌, le→ltb, length,
}
use goafp.Base.Bytes.{Bytes, be, length-be}
use goafp.Base.Outcome.{ok}
use goafp.Afp.Text.{Norm}
use goafp.Afp.Reader.{Reader, reader}
use goafp.Afp.Reader.Ahead.{Ahead, moved, Ahead-reader, Ahead-moved, read_lem, uint_lem}
use goafp.Afp.Entry.{DirEntry, parse_entry_params}
use goafp.Afp.Volume.{need, read_entries, parse_enumerate_reply}

-- An entry as it stands in a reply.
pub record Raw : Type 0 where
  pub dir_flag : ℕ
  pub pad : ℕ
  pub block : Bytes

abbrev pub is_dir : Raw → Bool
is_dir x = not (x.dir_flag == 0)

abbrev pub encode_raw : Raw → Bytes → Bytes
encode_raw x rest =
    be 2 (length x.block + 4) ++ (be 1 x.dir_flag ++ (be 1 x.pad ++ (x.block ++ rest)))

abbrev pub encode_raws : List Raw → Bytes
encode_raws [] = []
encode_raws (x ∷ xs) = encode_raw x (encode_raws xs)

-- The reply: the two bitmaps, the count, the entries.
abbrev pub encode_reply : ℕ → ℕ → List Raw → Bytes
encode_reply fb db xs = be 2 fb ++ (be 2 db ++ (be 2 (length xs) ++ encode_raws xs))

-- Entry by entry: the widths are kept, and the block decodes to `e` under its bitmap.
abbrev pub Decodes : Norm → ℕ → ℕ → List Raw → List DirEntry → Type 0
Decodes norm fb db [] [] = Unit
Decodes norm fb db [] (e ∷ es) = ⊥
Decodes norm fb db (x ∷ xs) [] = ⊥
Decodes norm fb db (x ∷ xs) (e ∷ es) =
    (length x.block + 4 < 256 ^ 2)
    × (x.dir_flag < 256 ^ 1)
    × (x.pad < 256 ^ 1)
    × (parse_entry_params norm x.block (is_dir x) (if is_dir x then db else fb) ≡ ok e)
    × Decodes norm fb db xs es

need_lem : (r : Reader) → r.err ≡ ok tt → need r ≡ ok tt
need_lem r h = rw h

read_entries_lem :
    (norm : Norm) (fb db : ℕ) (xs : List Raw) (es acc : List DirEntry) (r : Reader)
    → Ahead r (encode_raws xs)
    → Decodes norm fb db xs es
    → read_entries norm fb db (length xs) r acc ≡ ok (acc ++ es)
unfolding read_entries
read_entries_lem norm fb db [] [] acc r a d = rw append-nil
read_entries_lem norm fb db [] (e ∷ es) acc r a d = absurd d
read_entries_lem norm fb db (x ∷ xs) [] acc r a d = absurd d
read_entries_lem norm fb db (x ∷ xs) (e ∷ es) acc r a (small, flag, pad, parsed, d) =
    let n = length x.block + 4 in
    let rest = encode_raws xs in
    let r1 = moved 2 r in
    let r2 = moved 1 r1 in
    let r3 = moved 1 r2 in
    let a1 = Ahead-moved 2 r (be 2 n) _ (length-be 2 n) a in
    let a2 = Ahead-moved 1 r1 (be 1 x.dir_flag) _ refl a1 in
    let a3 = Ahead-moved 1 r2 (be 1 x.pad) (x.block ++ rest) refl a2 in
    let width : length x.block ≡ n - 4 = omega arith in
    let a4 = Ahead-moved (n - 4) r3 x.block rest width a3 in
    rw
      (
        uint_lem 2 r n _ small a,
        uint_lem 1 r1 x.dir_flag _ flag a1,
        uint_lem 1 r2 x.pad _ pad a2,
        need_lem r3 a3.fine,
        le→ltb n 4 (omega arith),
        read_lem (n - 4) r3 x.block rest width a3,
        need_lem (moved (n - 4) r3) a4.fine,
        parsed,
      )
      (read_entries_lem norm fb db xs es (acc ++ e ∷ []) (moved (n - 4) r3) a4 d
        ∙ ap ok (append_assoc acc (e ∷ []) es))

-- An enumerate reply that holds two bitmaps and fewer than 65536 entries, each of its length, its
-- kind, a pad byte and a block that decodes under the bitmap of its kind, is parsed to the decoded
-- entries in their order.
pub parse_enumerate_reply_lem :
    (norm : Norm) (fb db : ℕ) (xs : List Raw) (es : List DirEntry)
    → fb < 256 ^ 2
    → db < 256 ^ 2
    → length xs < 256 ^ 2
    → Decodes norm fb db xs es
    → parse_enumerate_reply norm (encode_reply fb db xs) ≡ ok es
unfolding parse_enumerate_reply
parse_enumerate_reply_lem norm fb db xs es hf hd hn d =
    let b = encode_reply fb db xs in
    let r = reader b in
    let a = Ahead-reader b in
    let a1 = Ahead-moved 2 r (be 2 fb) _ (length-be 2 fb) a in
    let a2 = Ahead-moved 2 (moved 2 r) (be 2 db) _ (length-be 2 db) a1 in
    let a3 =
      Ahead-moved 2 (moved 2 (moved 2 r)) (be 2 (length xs)) (encode_raws xs)
        (length-be 2 (length xs)) a2 in
    rw
      (
        uint_lem 2 r fb _ hf a,
        uint_lem 2 (moved 2 r) db _ hd a1,
        uint_lem 2 (moved 2 (moved 2 r)) (length xs) _ hn a2,
      )
      (read_entries_lem norm fb db xs es [] (moved 2 (moved 2 (moved 2 r))) a3 d)
