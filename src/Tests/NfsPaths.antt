-- ===== src/Tests/NfsPaths.antt =====
-- internal/nfsfs/fs.go: paths, and directories on a server that counts them.
use goafp.Base.{
  ℕ, zero, suc, ◌+◌, ◌≤◌, ◌≡◌, refl, inl, inr, some, List, [], ◌∷◌, ◌++◌, true, length, take, arith,
  All, length-append,
}
use goafp.Base.Bytes.{Bytes}
use goafp.Base.Outcome.{ok}
use goafp.Dsi.Conn.{Reply}
use goafp.Afp.Text.{codes, same}
use goafp.Afp.Codes.{res_object_exists}
use goafp.Afp.Link.{Link}
use goafp.Nfsfs.Conn.{Live, Network}
use goafp.Nfsfs.File.{VolumeRef}
use goafp.Nfsfs.Paths.{join_slash, split_slash, resolve}
use goafp.Nfsfs.Paths.Resolved.{IsComponent, resolve-resolve, resolve-below, resolve_escapes}
use goafp.Nfsfs.Fs.Dirs.{mkdir_all}
use goafp.Nfsfs.Fs.Dirs.Made.{Made, mkdir_all-Made}
use goafp.Tests.Parsers.{plain}
use goafp.Tests.Files.{with_code, volume}

resolve-resolve_example :
    resolve (resolve (codes "a") (codes "b")) (codes "../c") ≡ resolve (codes "a") (codes "b/../c")
resolve-resolve_example = resolve-resolve (codes "a") (codes "b") (codes "../c")

resolve-below_example :
    (cs rest : List Bytes) × (resolve (codes "a") [] ≡ join_slash cs)
    × (resolve (codes "a") (codes "./b//c") ≡ join_slash (cs ++ rest))
unfolding split_slash same
resolve-below_example =
    resolve-below (codes "a") (codes "./b//c") (refl, (refl, (refl, (refl, tt))))

resolve_escapes_example : resolve (codes "a") (codes "../b") ≡ resolve [] (codes "b")
unfolding same
resolve_escapes_example =
    resolve_escapes (codes "a") (codes "b")
      (record { there = refl; no_dot = refl; no_dot_dot = refl; no_slash = (refl, tt) })

abbrev here : VolumeRef
here = record { ref = 7; volume = volume }

abbrev link : Live ℕ VolumeRef
link = record { conn = 3; vol = here }

abbrev network : Network ℕ ℕ VolumeRef
network = record { dial = λ w. (ok link, w); close = λ c w. w; is_alive = λ c w. true }

-- The first directory is new, and those behind it are there already: the world counts the requests.
abbrev made : ℕ → Reply
made zero = with_code 0 []
made (suc n) = with_code res_object_exists []

abbrev server : VolumeRef → Link ℕ
server v = record { request = λ _ _ _ w. (ok (made w), w + 1); quantum = 1024; sooner = λ _. true }

made-Made : (w : ℕ) → Made (made w)
made-Made zero = inl refl
made-Made (suc n) = inr refl

mkdir_all-Made_example :
    (cs : List Bytes) × (w' : ℕ) × (resolve [] (codes "a/b") ≡ join_slash cs)
    × All IsComponent cs
    × (mkdir_all network server plain
          (λ _ _. [])
          (λ _ s. s)
          []
          (codes "a/b")
          (record { gen = 1; live = some link }, 0)
        ≡ (ok tt, (record { gen = 1; live = some link }, w')))
    × ((n : ℕ) → length (take n cs) ≤ w')
mkdir_all-Made_example =
    mkdir_all-Made network server plain (λ _ _. []) [] (record { gen = 1; live = some link }) link
      refl (λ q w. length q ≤ w) (λ w _. refl)
      (λ q c w _ le. (
        made w,
        w + 1,
        refl,
        made-Made w,
        omega (arith, le, length-append q (c ∷ [])),
        λ p there. omega (arith, there),
      ))
      (codes "a/b") 0 (omega arith)
