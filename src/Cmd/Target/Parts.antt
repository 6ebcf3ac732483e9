-- ===== src/Cmd/Target/Parts.antt =====
-- cmd/goafp/main.go: the volume and the path of a target.
use goafp.Base.{
  ℕ, ◌≡◌, refl, sym, ap, ◌⊎◌, inl, inr, not, Bool-cases, Option, none, some, [], ◌∷◌, ◌++◌, arith,
  ◌==◌, if◌then◌else◌,
}
use goafp.Base.Bytes.{Bytes}
use goafp.Base.Outcome.{Outcome, ok, err, panic, unsupported}
use mathlib.Core.Path.{subst}
use goafp.Afp.Text.{slash, codes, trim, same, same_iff}
use goafp.Afp.Volume.{bind}
use goafp.Afp.Volume.Paths.{NoSlash}
use goafp.Cmd.Target.{
  Url, Target, contains, extend_first, split_two, or_none, target_of, parse_target,
}

-- The string before the split.
abbrev pub whole : Bytes × Option Bytes → Bytes
whole (first, none) = first
whole (first, some rest) = first ++ slash ∷ rest

split_two_lem : (s : Bytes) → (whole (split_two s) ≡ s) × NoSlash (split_two s).0
unfolding split_two
split_two_lem [] = (refl, tt)
split_two_lem (c ∷ cs) =
    let (e, clean) = split_two_lem cs in cons c cs (split_two cs).0 (split_two cs).1 e clean
  where
    cons :
        (c : ℕ) (cs first : Bytes) (rest : Option Bytes)
        → whole (first, rest) ≡ cs
        → NoSlash first
        → (whole (if c == slash then ([], some cs) else extend_first c (first, rest)) ≡ c ∷ cs)
          × NoSlash (if c == slash then ([], some cs) else extend_first c (first, rest)).0
    cons c cs first none e clean = elim (Bool-cases (c == slash)) [
      | inl here ↦ rw here (ground arith, tt)
      | inr other ↦ rw other (ap (◌∷◌ c) e, (other, clean))
    ]
    cons c cs first (some r) e clean = elim (Bool-cases (c == slash)) [
      | inl here ↦ rw here (ground arith, tt)
      | inr other ↦ rw other (ap (◌∷◌ c) e, (other, clean))
    ]

-- Volume and path make the trimmed path of the URL up.
abbrev pub Parts : Bytes → Target → Type 0
Parts p t =
    NoSlash t.volume
    × (((t.path ≡ []) × (t.volume ≡ trim p)) ⊎ (t.volume ++ slash ∷ t.path ≡ trim p))

parts_lem :
    (p first : Bytes) (rest : Option Bytes)
    → whole (first, rest) ≡ p
    → ((or_none rest ≡ []) × (first ≡ p)) ⊎ (first ++ slash ∷ or_none rest ≡ p)
parts_lem p first none e = inl (refl, e)
parts_lem p first (some r) e = inr e

accepted :
    (o : Outcome Url) (t : Target)
    → bind o (λ u. if not (same u.scheme (codes "afp")) then err unsupported else ok (target_of u))
      ≡ ok t
    → (u : Url) × (o ≡ ok u) × (u.scheme ≡ codes "afp") × (t.host ≡ u.host) × Parts u.path t
accepted (err e) t h = absurd cc
accepted panic t h = absurd cc
accepted (ok u) t h = elim (Bool-cases (same u.scheme (codes "afp"))) [
  | inr other ↦
      let refused : ◌≡◌ {A = Outcome Target} (err unsupported) (ok t) = rw other at h in absurd cc
  | inl afp ↦
      let done : ◌≡◌ {A = Outcome Target} (ok (target_of u)) (ok t) = rw afp at h in
      let e : target_of u ≡ t = cc in
      let (split, clean) = split_two_lem (trim u.path) in
      (
        u,
        refl,
        (same_iff u.scheme (codes "afp")).0 afp,
        ap (λ t. t.host) (sym e),
        subst (Parts u.path) e (
          clean,
          parts_lem (trim u.path) (split_two (trim u.path)).0 (split_two (trim u.path)).1 split,
        ),
      )
]

-- A target that is parsed comes from a URL with the scheme afp, of the argument or of the argument
-- behind afp://: it has the URL's host, its volume holds no slash, and volume, slash and path make
-- up the URL's path without slashes at its ends, or the volume is all of that.
pub parse_target-Parts :
    (parse : Bytes → Outcome Url) (raw : Bytes) (t : Target)
    → parse_target parse raw ≡ ok t
    → (u : Url) × (parse (if contains (codes "://") raw then raw else codes "afp://" ++ raw) ≡ ok u)
      × (u.scheme ≡ codes "afp")
      × (t.host ≡ u.host)
      × Parts u.path t
unfolding parse_target
parse_target-Parts parse raw t h =
    accepted (parse (if contains (codes "://") raw then raw else codes "afp://" ++ raw)) t h
