-- ===== src/Afp/Entry/Bounds.antt =====
-- internal/afp/entry.go: the decoder on any block.
use goafp.Base.{ℕ, inl, inr}
use goafp.Base.Bytes.{Bytes}
use goafp.Base.Outcome.{Outcome, ok, err, panic, NoPanic}
use goafp.Afp.Reader.{pascal_at, pascal2_at}
use goafp.Afp.Reader.Bounds.{pascal_at-bounds, pascal2_at-bounds}
use goafp.Afp.Entry.{Parse}

pub pascal_at-NoPanic : (b : Bytes) (off : ℕ) → NoPanic (pascal_at b off)
pascal_at-NoPanic b off = elim (pascal_at-bounds b off) [
  | inl e ↦ rw e tt
  | inr (v, e, _, _) ↦ rw e tt
]

pub pascal2_at-NoPanic : (b : Bytes) (off : ℕ) → NoPanic (pascal2_at b off)
pascal2_at-NoPanic b off = elim (pascal2_at-bounds b off) [
  | inl e ↦ rw e tt
  | inr (v, e, _) ↦ rw e tt
]

-- No accessor has panicked so far.
record Sound (p : Parse) : Type 0 where
  calm : NoPanic p.r.err

abbrev Sounds : Outcome Parse → Type 0
Sounds (ok p) = Sound p
Sounds (err e) = Unit
Sounds panic = ⊥
