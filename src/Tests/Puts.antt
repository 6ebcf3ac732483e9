-- ===== src/Tests/Puts.antt =====
-- cmd/goafp/main.go: `goafp put` on a server that takes files, in a world that is the file of the
-- server and what is left of the local one.
use goafp.Base.{
  true, ℕ, ◌+◌, ◌^◌, ◌<◌, ◌≡◌, refl, sym, ap, false, none, some, [], ◌∷◌, arith, ◌==◌,
  if◌then◌else◌, length, take, drop,
}
use goafp.Base.Bytes.{Bytes, from_be, from_be-be}
use goafp.Base.Outcome.{ok}
use mathlib.Core.Path.{ap₂}
use mathlib.Core.List.Permᴰ
use goafp.Dsi.Header.{cmd_write}
use goafp.Dsi.Setup.{Transport, get_status, open_session, link_of}
use goafp.Dsi.Conn.{Reply}
use goafp.Dsi.Options.{read_options}
use goafp.Afp.Link.{pure, command, run, ask, Link}
use goafp.Afp.Text.{codes, same}
use goafp.Afp.Volume.{open_volume, parse_volume, create_file, close_volume}
use goafp.Afp.Session.{
  pick_version, first_offered, offers, choose_method, login_guest, login, login_with, logout,
}
use goafp.Afp.ServerInfo.{parse_server_info, u16_at, pascal_string, pascal_list, pascal_strings}
use goafp.Afp.Reader.{uint, read, slice, index}
use goafp.Afp.Builder.{path, pascal}
use goafp.Afp.Codes.{result_err, res_no_err}
use goafp.Afp.Entry.{has}
use goafp.Afp.Fork.{open_fork, parse_fork, close_fork}
use goafp.Afp.Write.{pieces, write_header, write_request, write_chunk_size}
use goafp.Afp.Write.Contents.{Contents, put}
use goafp.Cmd.Target.{contains, split_two, parse_target}
use goafp.Cmd.Connect.{Secrets, fetch_status, connect}
use goafp.Cmd.Main.{Host, Orders, main}
use goafp.Cmd.Uploads.{Creates, main-put}
use goafp.Tests.Parsers.{plain}
use goafp.Tests.Files.{with_code}
use goafp.Tests.Cmd.{parse, there}
use goafp.Tests.Streams.{answer, opened, vol, raw}
use goafp.Tests.Uploads.{Uploading, fill}

abbrev net : Transport Uploading (Unit {0})
net = record {
  sooner = λ _. true;
  dial = λ host w. (ok tt, w);
  request = λ c cmd offset payload (file, left). (
    ok (answer cmd payload),
    (
      if cmd == cmd_write
          then put (from_be (take 8 (drop 4 payload))) (drop 20 payload) file
          else file,
      left,
    ),
  );
  close = λ c w. w;
}

abbrev secrets : Secrets Uploading
secrets = record {
  crypto = record { md5 = λ b. b; encrypt = λ _ _ b. b; decrypt = λ _ _ b. b };
  sha1 = λ b. b;
  rand = λ n. pure [];
}

abbrev host : Host Uploading (Unit {0}) (Unit {0})
host = record {
  print = λ b w. w;
  log = λ b w. w;
  stdout = λ b w. (ok tt, w);
  create = λ name. pure ((λ b. pure tt), pure tt);
  open_local = λ name. pure (fill, pure tt);
  sort = λ vols. vols;
  show_time = λ t. [];
  show_err = λ e. [];
  quoted = λ s. s;
  darwin = false;
  alive = λ c w. false;
  new_ref = pure 0;
  listen = λ addr. pure tt;
  address = λ l. record { text = []; ip = []; port = 0 };
  serve = λ l base n. pure tt;
}

abbrev server : Link Uploading
server = link_of net tt 0

abbrev orders : Orders
orders = record { reads = λ f at. []; writes = λ f at n. pieces n (write_chunk_size 0 f) }

abbrev nothing : Contents
nothing i = none

abbrev source : Bytes
source = 5 ∷ 6 ∷ 7 ∷ []

creates :
    Creates net secrets plain parse host
      (codes "local")
      raw
      (nothing, source)
      fill
      (pure tt)
      tt
      server
      vol
      opened
      (nothing, source)
unfolding parse_target contains same split_two connect fetch_status get_status open_session
    read_options parse_server_info u16_at slice index pascal_string pascal_list pascal_strings
    login_with pick_version first_offered offers choose_method login_guest login command run ask
    result_err open_volume parse_volume uint read path pascal has open_fork parse_fork create_file
creates = record {
  t = there;
  w1 = (nothing, source);
  w2 = (nothing, source);
  w3 = (nothing, source);
  w4 = (nothing, source);
  is_parsed = refl;
  names_file = refl;
  opens_local = refl;
  connects = refl;
  opens_volume = refl;
  creates = refl;
  opens_fork = refl;
}

takes :
    (left : Bytes) (offset : ℕ) (v : Bytes) (c : Contents) (w : Uploading)
    → offset + length v < 2 ^ 64
    → (c, left) ≡ w
    → (r : Reply) × (w' : Uploading) × (server.request cmd_write
          (length (write_header opened offset (length v)))
          (write_request opened offset v)
          w
        ≡ (ok r, w'))
      × (r.header.err_code ≡ res_no_err)
      × ((put offset v c, left) ≡ w')
takes left offset v c w fits e = (
  with_code 0 (0 ∷ 33 ∷ 0 ∷ 0 ∷ 0 ∷ 7 ∷ []),
  (put offset v c, left),
  ap₂ (λ o x. (ok (with_code 0 (0 ∷ 33 ∷ 0 ∷ 0 ∷ 0 ∷ 7 ∷ [])), (put o v x.0, x.1)))
      (from_be-be 8 offset (omega (arith, fits))) (sym e),
  refl,
  refl,
)

abbrev Done : Contents → Bytes → Uploading → Type 0
Done c left w = (c, left) ≡ w

main-put_example :
    (w'' : Uploading) × (main net secrets plain parse host 4 orders
        (codes "goafp" ∷ codes "put" ∷ codes "local" ∷ raw ∷ [])
        (nothing, source)
      ≡ (some 0, w''))
    × Done (put 0 source nothing) [] w''
unfolding close_fork close_volume logout run command result_err
main-put_example =
    main-put net secrets plain parse host Done source nothing fill (pure tt) server opened orders
      (λ n c left w e. ((c, drop n left), ap (fill n) (sym e), refl)) takes (λ w e. e) (λ v w e. e)
      (λ w e. e) (λ text w e. e) (λ c w e. e) (λ w e. e) 4 (codes "goafp") (codes "local") raw [] tt
      vol (nothing, source) (nothing, source) creates
      (λ at n. Permᴰ.refl (pieces n (write_chunk_size 0 opened))) (omega arith) (omega arith) refl
