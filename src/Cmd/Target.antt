-- ===== src/Cmd/Target.antt =====
-- cmd/goafp/main.go: the target of a command. `url.Parse` is a parameter.
pub mod Parts
use goafp.Base.{
  ℕ, Bool, true, false, not, ◌&&◌, ◌||◌, Option, none, some, [], ◌∷◌, ◌++◌, ◌==◌, if◌then◌else◌,
}
use goafp.Base.Bytes.{Bytes}
use goafp.Base.Outcome.{Outcome, ok, err, unsupported}
use goafp.Afp.Text.{slash, codes, trim, same}
use goafp.Afp.Volume.{bind}

-- What is used of a `url.URL`; a user has a name, and a password or none.
pub record Url : Type 0 where
  pub scheme : Bytes
  pub host : Bytes
  pub user : Option (Bytes × Option Bytes)
  pub path : Bytes

pub record Target : Type 0 where
  pub host : Bytes
  pub username : Bytes
  pub password : Bytes
  pub volume : Bytes
  pub path : Bytes

abbrev pub starts_with : Bytes → Bytes → Bool
starts_with [] s = true
starts_with (x ∷ p) [] = false
starts_with (x ∷ p) (y ∷ s) = x == y && starts_with p s

-- `strings.Contains`.
unfoldable pub contains : Bytes → Bytes → Bool
contains p [] = starts_with p []
contains p (x ∷ s) = starts_with p (x ∷ s) || contains p s

abbrev pub extend_first : ℕ → Bytes × Option Bytes → Bytes × Option Bytes
extend_first c (first, rest) = (c ∷ first, rest)

-- `strings.SplitN(s, "/", 2)`: the second part, if there is one.
unfoldable pub split_two : Bytes → Bytes × Option Bytes
split_two [] = ([], none)
split_two (c ∷ cs) =
    let parts = split_two cs in if c == slash then ([], some cs) else extend_first c parts

abbrev pub or_none : Option Bytes → Bytes
or_none none = []
or_none (some s) = s

abbrev pub user_name : Option (Bytes × Option Bytes) → Bytes
user_name none = []
user_name (some (name, password)) = name

abbrev pub user_password : Option (Bytes × Option Bytes) → Bytes
user_password none = []
user_password (some (name, password)) = or_none password

abbrev pub target_of : Url → Target
target_of u =
    let (volume, path) = split_two (trim u.path) in
    record {
      host = u.host;
      username = user_name u.user;
      password = user_password u.user;
      volume = volume;
      path = or_none path;
    }

unfoldable pub parse_target : (Bytes → Outcome Url) → Bytes → Outcome Target
parse_target parse raw =
    bind (parse (if contains (codes "://") raw then raw else codes "afp://" ++ raw))
      λ u. if not (same u.scheme (codes "afp")) then err unsupported else ok (target_of u)
