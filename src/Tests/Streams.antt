-- ===== src/Tests/Streams.antt =====
-- cmd/goafp/main.go: `goafp cat` on a server with a file, in a world that is what is on the standard
-- output.
use goafp.Base.{true, ℕ, ◌*◌, false, [], ◌∷◌, ◌++◌, ◌==◌, if◌then◌else◌, get_or, take, drop}
use goafp.Base.Bytes.{Bytes, be, from_be}
use goafp.Base.Outcome.{Outcome, ok, eof}
use mathlib.Core.List.{Permᴰ}
use mathlib.Core.List.Permᴰ
use goafp.Dsi.Header.{cmd_get_status, cmd_open_session}
use goafp.Dsi.Setup.{Transport}
use goafp.Dsi.Conn.{Reply}
use goafp.Afp.Link.{pure}
use goafp.Afp.Text.{codes}
use goafp.Afp.Volume.{Volume}
use goafp.Afp.Codes.{cmd_open_fork, cmd_read_ext}
use goafp.Afp.Fork.{Fork, chunks}
use goafp.Cmd.Connect.{Secrets}
use goafp.Cmd.Main.{Host, Orders}
use goafp.Tests.Files.{with_code, read_reply}
use goafp.Tests.Cmd.{status}

abbrev pub command_reply : ℕ → Bytes → Reply
command_reply cmd payload =
    if cmd == cmd_open_fork
    then with_code 0 (be 2 0x800 ++ (be 2 1 ++ be 8 5))
    else if cmd == cmd_read_ext
    then read_reply (from_be (take 8 (drop 4 payload))) (from_be (take 8 (drop 12 payload)))
    else with_code 0 (0 ∷ 33 ∷ 0 ∷ 0 ∷ 0 ∷ 7 ∷ [])

abbrev pub answer : ℕ → Bytes → Reply
answer cmd payload =
    if cmd == cmd_get_status
    then with_code 0 status
    else if cmd == cmd_open_session
    then with_code 0 []
    else command_reply (get_or payload 0 0) payload

abbrev net : Transport Bytes (Unit {0})
net = record {
  sooner = λ _. true;
  dial = λ host w. (ok tt, w);
  request = λ c cmd offset payload w. (ok (answer cmd payload), w);
  close = λ c w. w;
}

abbrev secrets : Secrets Bytes
secrets = record {
  crypto = record { md5 = λ b. b; encrypt = λ _ _ b. b; decrypt = λ _ _ b. b };
  sha1 = λ b. b;
  rand = λ n. pure [];
}

abbrev host : Host Bytes (Unit {0}) (Unit {0})
host = record {
  print = λ b w. w ++ b;
  log = λ b w. w;
  stdout = λ b w. (ok tt, w ++ b);
  create = λ name. pure ((λ b. pure tt), pure tt);
  open_local = λ name w. (Outcome.err eof, w);
  sort = λ vols. vols;
  show_time = λ t. [];
  show_err = λ e. [];
  quoted = λ s. s;
  darwin = false;
  alive = λ c w. false;
  new_ref = pure 0;
  listen = λ addr. pure tt;
  address = λ l. record { text = []; ip = []; port = 0 };
  serve = λ l base n. pure tt;
}

abbrev orders : Orders
orders = record {
  reads = λ f at. chunks (f.chunk_size * f.max_parallel) f.chunk_size;
  writes = λ f at n. chunks n f.chunk_size;
}

abbrev pub opened : Fork
opened = record { id = 1; size = 5; chunk_size = 0x20000; max_parallel = 8 }

abbrev pub vol : Volume
vol = record { id = 7; name = codes "Volume"; attributes = 0 }

abbrev pub raw : Bytes
raw = codes "server/Volume/a/b"
