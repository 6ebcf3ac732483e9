-- ===== src/Afp/Reader/Ahead.antt =====
-- A reader in front of known bytes, and what each accessor takes of them.
use goafp.Base.{
  ℕ, ◌+◌, ◌^◌, ◌≤◌, ◌<◌, ◌≡◌, refl, sym, ap, ◌∙◌, some, ◌++◌, arith, length, drop, length-append,
  length-drop, drop-drop, take-append_eq, drop-append_eq,
}
use goafp.Base.Bytes.{Bytes, be, length-be, from_be-be}
use goafp.Base.Outcome.{ok}
use goafp.Afp.Reader.{Reader, reader, read, uint}

-- The reader has not failed, and `s` is what it has not read.
pub record Ahead (r : Reader) (s : Bytes) : Type 0 where
  pub fine : r.err ≡ ok tt
  pub within : r.pos ≤ length r.b
  pub rest : drop r.pos r.b ≡ s

abbrev pub moved : ℕ → Reader → Reader
moved n r = record r { pos = r.pos + n }

pub Ahead-reader : (s : Bytes) → Ahead (reader s) s
Ahead-reader s = record { fine = refl; within = omega arith; rest = refl }

pub Ahead-length : (r : Reader) (s : Bytes) → Ahead r s → length r.b ≡ r.pos + length s
Ahead-length r s a = omega (arith, ap length a.rest, length-drop r.pos r.b, a.within)

pub Ahead-moved :
    (n : ℕ) (r : Reader) (v s : Bytes) → length v ≡ n → Ahead r (v ++ s) → Ahead (moved n r) s
Ahead-moved n r v s e a = record {
  fine = a.fine;
  within = omega (arith, Ahead-length r (v ++ s) a, length-append v s);
  rest = sym (drop-drop r.pos n r.b) ∙ rw a.rest (drop-append_eq n v s e);
}

-- `take` returns the bytes in front of the reader, and moves behind them.
pub read_lem :
    (n : ℕ) (r : Reader) (v s : Bytes)
    → length v ≡ n
    → Ahead r (v ++ s)
    → read n r ≡ (some v, moved n r)
unfolding read
read_lem n r v s e a =
    let room : r.pos + n ≤ length r.b =
      omega (arith, Ahead-length r (v ++ s) a, length-append v s) in
    ground (arith, a.fine, a.rest, take-append_eq n v s e)

-- A number written in `k` bytes is read back.
pub uint_lem :
    (k : ℕ) (r : Reader) (v : ℕ) (s : Bytes)
    → v < 256 ^ k
    → Ahead r (be k v ++ s)
    → uint k r ≡ (v, moved k r)
unfolding uint
uint_lem k r v s small a =
    ground (arith, read_lem k r (be k v) s (length-be k v) a, from_be-be k v small)
