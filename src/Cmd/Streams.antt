-- ===== src/Cmd/Streams.antt =====
-- cmd/goafp/main.go: commands on a fork from end to end.
use goafp.Base.{◌≡◌, false, ◌||◌, List}
use goafp.Base.Bytes.{Bytes}
use goafp.Base.Outcome.{Outcome, ok}
use goafp.Dsi.Setup.{Transport}
use goafp.Afp.Text.{Norm}
use goafp.Afp.Link.{Link}
use goafp.Afp.Session.{logout}
use goafp.Afp.Entry.{root_dir_id}
use goafp.Afp.Volume.{Volume, open_volume, close_volume}
use goafp.Afp.Fork.{Fork, open_fork_ro, close_fork}
use goafp.Cmd.Target.{Url, Target, parse_target}
use goafp.Cmd.Connect.{Secrets, connect, quietly}
use goafp.Cmd.Commands.{is_empty}

module _ {W C : Type 0} (net : Transport W C) (secrets : Secrets W) (norm : Norm)
    (parse : Bytes → Outcome Url) where
  -- The way to an open fork: the target, the login, the volume, the fork.
  pub record Opens (raw : Bytes) (w : W) (c : C) (link : Link W) (v : Volume) (f : Fork) (w' : W)
      : Type 0 where
    pub t : Target
    pub w1 : W
    pub w2 : W
    pub is_parsed : parse_target parse raw ≡ ok t
    pub names_file : (is_empty t.volume || is_empty t.path) ≡ false
    pub connects : connect net secrets t w ≡ (ok (c, link), w1)
    pub opens_volume : open_volume link norm t.volume w1 ≡ (ok v, w2)
    pub opens_fork : open_fork_ro link norm v root_dir_id t.path w2 ≡ (ok f, w')

  -- What is deferred, in its order.
  abbrev left_behind : C → Link W → Volume → Fork → W → W
  left_behind c link v f w =
      net.close c
        (quietly (logout link) (quietly (close_volume link norm v) (quietly (close_fork link f) w)))
