-- ===== src/App/Started.antt =====
-- The state that the program starts in.
use raag.Prelude.{◌≡◌, Str, ok, arith}
use raag.Prelude.Int.{pos}
use raag.Auth.{Crypto}
use raag.Config.{Config, Viper, load_config}
use raag.Discovery.World.{World}
use raag.Library.{new_library}
use raag.Library.Index.{TitlesByHash, IsGood, new_library-IsGood}
use raag.Player.{Float, new_player}
use raag.Player.Queue.{InQueue}
use raag.Player.Volume.{set_volume}
use raag.Song.{Reader}
use raag.App.{App, Startup, new_app}

module _ {x : Float} {w : World} {k : Crypto} (r : Reader) (s : Startup x w k) (cfg : Config)
    (a : App x w k) (started : new_app x w k r s cfg ≡ ok a) where
  pub started-InQueue : InQueue a.player
  unfolding new_app set_volume new_player
  started-InQueue = ground (arith, started)

  started-lib : new_library s.made r s.stat s.walked cfg.music_dir ≡ ok a.lib
  unfolding new_app
  started-lib = ground (arith, started)

  pub started-IsGood :
      (title_of : Str → Str) (faithful : TitlesByHash r title_of) → IsGood title_of r faithful a.lib
  started-IsGood title_of faithful =
      new_library-IsGood title_of r faithful s.made s.stat s.walked cfg.music_dir a.lib started-lib

  -- The player starts at volume 0 with every configuration that was loaded, whatever is in it.
  pub started_silent :
      (y : Viper) (env : Str) (v : y.V)
      → load_config y env v ≡ ok cfg
      → a.player.volume
        ≡ x.mul
            (x.minus (x.div (x.of_ℤ (pos 0)) (x.of_ℤ (pos 100))) (x.of_ℤ (pos 1)))
            (x.of_ℤ (pos 10))
  unfolding new_app set_volume new_player load_config
  started_silent y env v loaded = ground (arith, started, loaded)
