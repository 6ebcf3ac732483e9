-- ===== src/Tests/Cmd.antt =====
-- cmd/goafp/main.go: a command on a server that takes guests, in a world that counts connections.
use goafp.Base.{
  true, ℕ, suc, ◌+◌, ◌-◌, ◌∙◌, ◌≡◌, refl, ap, none, List, [], ◌∷◌, ◌++◌, arith, length, ◌==◌,
  if◌then◌else◌,
}
use goafp.Base.Bytes.{Bytes}
use goafp.Base.Outcome.{Outcome, ok}
use goafp.Dsi.Header.{cmd_get_status, cmd_open_session}
use goafp.Dsi.Setup.{Transport, get_status, open_session}
use goafp.Dsi.Conn.{Reply}
use goafp.Afp.Link.{pure, command, run, ask}
use goafp.Afp.Link.Frames.{run-Keeps}
use goafp.Afp.Text.{codes, same}
use goafp.Afp.Volume.{mkdir, open_volume, parse_volume, close_volume}
use goafp.Afp.Session.{
  pick_version, first_offered, offers, choose_method, login_guest, login, logout, login_with,
}
use goafp.Afp.ServerInfo.{parse_server_info, u16_at, pascal_string, pascal_list, pascal_strings}
use goafp.Afp.Reader.{uint, read, slice, index}
use goafp.Afp.Builder.{path, pascal}
use goafp.Afp.Codes.{result_err}
use goafp.Afp.Entry.{has}
use goafp.Dsi.Options.{read_options}
use goafp.Cmd.Target.{Url, Target, contains, split_two, parse_target}
use goafp.Cmd.Target.Parts.{Parts, parse_target-Parts}
use goafp.Cmd.Connect.{Secrets, fetch_status, connect}
use goafp.Cmd.Commands.{with_volume}
use goafp.Cmd.Closed.{Settles, with_volume-Settles}
use goafp.Tests.Parsers.{plain}
use goafp.Tests.Files.{with_code}

abbrev pub url : Url
url = record {
  scheme = codes "afp";
  host = codes "server";
  user = none;
  path = codes "/Volume/a/b/";
}

abbrev pub parse : Bytes → Outcome Url
parse raw = ok url

abbrev pub there : Target
there = record {
  host = codes "server";
  username = [];
  password = [];
  volume = codes "Volume";
  path = codes "a/b";
}

parse_target-Parts_example :
    (u : Url) × (parse (codes "afp://server/Volume/a/b/") ≡ ok u)
    × (u.scheme ≡ codes "afp")
    × (there.host ≡ u.host)
    × Parts u.path there
unfolding parse_target contains same split_two
parse_target-Parts_example = parse_target-Parts parse (codes "server/Volume/a/b/") there refl

abbrev pub status : Bytes
status =
    0
    ∷ 12
    ∷ 0
    ∷ 14
    ∷ 0
    ∷ 22
    ∷ 0
    ∷ 0
    ∷ 0
    ∷ 3
    ∷ 1
    ∷ 83
    ∷ 1
    ∷ 77
    ∷ 1
    ∷ 6
    ∷ (codes "AFP3.4" ++ 1 ∷ 15 ∷ codes "No User Authent")

abbrev answer : ℕ → Reply
answer cmd =
    if cmd == cmd_get_status
    then with_code 0 status
    else if cmd == cmd_open_session
    then with_code 0 []
    else with_code 0 (0 ∷ 33 ∷ 0 ∷ 0 ∷ 0 ∷ 7 ∷ [])

-- The world is the number of open connections.
abbrev net : Transport ℕ (Unit {0})
net = record {
  sooner = λ _. true;
  dial = λ host w. (ok tt, w + 1);
  request = λ c cmd offset payload w. (ok (answer cmd), w);
  close = λ c w. w - 1;
}

abbrev secrets : Secrets ℕ
secrets = record {
  crypto = record { md5 = λ b. b; encrypt = λ _ _ b. b; decrypt = λ _ _ b. b };
  sha1 = λ b. b;
  rand = λ n. pure [];
}

abbrev Open : List (Unit {0}) → ℕ → Type 0
Open cs w = w ≡ length cs

one_more : (n : ℕ) → n + 1 ≡ suc n
one_more n = omega arith

one_less : (n : ℕ) → suc n - 1 ≡ n
one_less n = omega arith

with_volume-Settles_example :
    Settles
      (Open [])
      (λ _. Open [])
      (with_volume net secrets plain parse
        (codes "server/Volume/a/b")
        (λ link v t. mkdir link plain v 2 t.path)
        0)
unfolding mkdir
with_volume-Settles_example =
    with_volume-Settles net secrets plain parse Open
      (λ cs host w e. ap (λ n. n + 1) e ∙ one_more (length cs)) (λ cs c cmd offset payload w e. e)
      (λ cs c w e. ap (λ n. n - 1) e ∙ one_less (length cs)) (λ cs n w e. e) []
      (codes "server/Volume/a/b") (λ link v t. mkdir link plain v 2 t.path) 0
      (λ v t cs link keeps. run-Keeps (Open cs) link keeps _) refl

-- The command runs to its end.
mkdir_run :
    with_volume net secrets plain parse
      (codes "server/Volume/a/b")
      (λ link v t. mkdir link plain v 2 t.path)
      0
    ≡ (ok tt, 0)
unfolding with_volume parse_target contains same split_two connect fetch_status get_status
    open_session read_options parse_server_info u16_at slice index pascal_string pascal_list
    pascal_strings login_with pick_version first_offered offers choose_method login_guest login
    command run ask result_err open_volume parse_volume uint read mkdir path logout close_volume
    pascal has
mkdir_run = refl
