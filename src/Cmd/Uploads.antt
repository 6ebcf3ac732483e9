-- ===== src/Cmd/Uploads.antt =====
-- cmd/goafp/main.go: `goafp put` from end to end.
use goafp.Base.{ℕ, ◌+◌, ◌^◌, ◌<◌, ◌≡◌, true, false, ◌||◌, some, List, [], ◌∷◌, arith, length, drop}
use goafp.Base.Bytes.{Bytes}
use goafp.Base.Int.{pos}
use goafp.Base.Outcome.{Outcome, ok}
use mathlib.Core.List.{Permᴰ}
use goafp.Dsi.Header.{cmd_write}
use goafp.Dsi.Conn.{Reply}
use goafp.Dsi.Setup.{Transport}
use goafp.Afp.Text.{Norm, codes, same}
use goafp.Afp.Codes.{res_no_err}
use goafp.Afp.Link.{M, Link}
use goafp.Afp.Link.Frames.{Keeps}
use goafp.Afp.Session.{logout}
use goafp.Afp.Entry.{root_dir_id}
use goafp.Afp.Volume.{Volume, open_volume, close_volume, create_file}
use goafp.Afp.Fork.{fork_read, fork_write, Fork, open_fork_rw, close_fork}
use goafp.Afp.Fork.Opened.{open_fork-sizes}
use goafp.Afp.Write.{Filled, pieces, write_header, write_request, write_chunk_size}
use goafp.Afp.Write.Contents.{Contents, put}
use goafp.Afp.Write.Streamed.{fill_of, read_from-file}
use goafp.Cmd.Target.{Url, Target, parse_target}
use goafp.Cmd.Connect.{Secrets, connect, quietly}
use goafp.Cmd.Output.{wrote_text}
use goafp.Cmd.Commands.{is_empty, run_put}
use goafp.Cmd.Main.{Host, Orders, main}

module _ {W C L : Type 0} (net : Transport W C) (secrets : Secrets W) (norm : Norm)
    (parse : Bytes → Outcome Url) (host : Host W C L) where
  -- The way to an open fork: the target, the local file, the login, the volume, the new file, the
  -- fork.
  pub record Creates (local raw : Bytes) (w : W) (fill : ℕ → W → Filled × W)
      (close_local : M W (Unit {0})) (c : C) (link : Link W) (v : Volume) (f : Fork) (w' : W)
      : Type 0 where
    pub t : Target
    pub w1 : W
    pub w2 : W
    pub w3 : W
    pub w4 : W
    pub is_parsed : parse_target parse raw ≡ ok t
    pub names_file : (is_empty t.volume || is_empty t.path) ≡ false
    pub opens_local : host.open_local local w ≡ (ok (fill, close_local), w1)
    pub connects : connect net secrets t w1 ≡ (ok (c, link), w2)
    pub opens_volume : open_volume link norm t.volume w2 ≡ (ok v, w3)
    pub creates : create_file link norm v root_dir_id t.path true w3 ≡ (ok tt, w4)
    pub opens_fork : open_fork_rw link norm v root_dir_id t.path w4 ≡ (ok f, w')

  -- The server takes the writes, the local file has a source to give, and what is deferred leaves
  -- the file of the server alone.
  module _ (P : Contents → Bytes → W → Type 0) (source : Bytes) (c0 : Contents)
      (fill : ℕ → W → Filled × W) (close_local : M W (Unit {0})) (link : Link W) (f : Fork)
      (orders : Orders)
      (fills : (n : ℕ) (c : Contents) (left : Bytes) (w : W)
        → P c left w
        → (w' : W) × (fill n w ≡ (fill_of n left, w')) × P c (drop n left) w')
      (takes : (left : Bytes) (offset : ℕ) (v : Bytes) (c : Contents) (w : W)
        → offset + length v < 2 ^ 64
        → P c left w
        → (r : Reply) × (w' : W) × (link.request cmd_write
              (length (write_header f offset (length v)))
              (write_request f offset v)
              w
            ≡ (ok r, w'))
          × (r.header.err_code ≡ res_no_err)
          × P (put offset v c) left w')
      (fork_close : Keeps (P (put 0 source c0) []) (close_fork link f))
      (volume_close : (v : Volume) → Keeps (P (put 0 source c0) []) (close_volume link norm v))
      (log_out : Keeps (P (put 0 source c0) []) (logout link))
      (logs : (text : Bytes) (w : W)
        → P (put 0 source c0) [] w
        → P (put 0 source c0) [] (host.log text w))
      (closes : (c : C) (w : W) → P (put 0 source c0) [] w → P (put 0 source c0) [] (net.close c w))
      (closes_local : Keeps (P (put 0 source c0) []) close_local) where
    -- What is deferred, in its order.
    abbrev settled : C → Volume → W → W
    settled c v w = quietly close_local (
        net.close c (
          quietly (logout link)
            (quietly (close_volume link norm v) (quietly (close_fork link f) w))))

    settled-keeps :
        (c : C) (v : Volume) (w : W)
        → P (put 0 source c0) [] w
        → P (put 0 source c0) [] (settled c v w)
    settled-keeps c v w done =
        closes_local _ (closes c _ (log_out _ (volume_close v _ (fork_close w done))))

    -- Let `goafp put` come as far as an open fork: the URL names a volume and a file, the local
    -- file opens, and connecting, the login, the volume, the creation of the file and its fork
    -- succeed. Let the server then take the writes of that fork below 2^64, whatever the order of
    -- the pieces, let reads of the local file fill buffers from a source of fewer than 2^63 bytes,
    -- and let the closes, the logout and the prints leave the file of the server alone. Then
    -- `main` ends with status 0, the source is used up, and the file of the server holds it from
    -- offset 0 on and is elsewhere as it was when the fork was opened. Fuel above the source's
    -- length is enough.
    pub main-put :
        (fuel : ℕ) (program local raw : Bytes) (rest : List Bytes) (c : C) (v : Volume) (w w' : W)
        → Creates local raw w fill close_local c link v f w'
        → ((at n : ℕ) → Permᴰ (orders.writes f at n) (pieces n (write_chunk_size link.quantum f)))
        → length source < 2 ^ 63
        → length source < fuel
        → P c0 source w'
        → (w'' : W) × (main net secrets norm parse host fuel orders
              (program ∷ codes "put" ∷ local ∷ raw ∷ rest)
              w
            ≡ (some 0, w''))
          × P (put 0 source c0) [] w''
    unfolding main same run_put
    main-put fuel program local raw rest c v w w' o perms fits enough p =
        let (_, parallel) =
          open_fork-sizes link norm v root_dir_id o.t.path (fork_read + fork_write) f o.w4 w'
            o.opens_fork in
        let (w5, runs, done) =
          read_from-file link fill f (orders.writes f) P fills takes perms fuel source c0 w'
            (omega (arith, parallel)) fits enough p in
        let w6 = host.log (wrote_text o.t.path (pos (length source))) w5 in
        (
          settled c v w6,
          rw (
            o.is_parsed, o.names_file, o.opens_local, o.connects, o.opens_volume, o.creates,
            o.opens_fork, runs,
          ),
          settled-keeps c v w6 (logs (wrote_text o.t.path (pos (length source))) w5 done),
        )
