-- ===== src/Tests/Shown.antt =====
-- The settings: the first start with no file, a save and the next start; and what a client is shown right
-- after a start.
use raag.Config.{Value, save_config}
use raag.Prelude.{Str, Bool, is_some}
use raag.Prelude.Dict.{Dict}
use raag.Tests.App.{settings}
use raag.Prelude.{◌≡◌, refl, codes, false, [], none, some, Result, ok, err, ◌==◌, ◌>>=◌}
use raag.Prelude.Int.{pos}
use raag.Prelude.Dict.{get, put}
use raag.Config.{number, default_config, dir, file_path, music_dir_path, set_defaults, load_config}
use raag.Config.Start.{Setup, no_user_dir, missing, StartError, init_viper, bind_flags}
use raag.Network.Calls.{network_state}
use raag.Player.{get_queue}
use raag.Player.Volume.{set_volume}
use raag.Rpc.Overview.{get_full_state, config_get}
use raag.Rpc.Peers.{network_status}
use raag.Rpc.Playback.{show_queue}
use raag.Tests.App.{app, viper}

queue_shown : (get_full_state 0 app).queue ≡ some (record { songs = []; current = pos 0 })
unfolding get_full_state show_queue get_queue set_volume raag.Player.new_player
queue_shown = refl

offline_shown :
    (get_full_state 0
      (record app { net_mgr = record app.net_mgr { has_discovery = false } })).network
    ≡ none
unfolding get_full_state network_status network_state
offline_shown = refl

volume_shown : get (codes "volume") (config_get app) ≡ some (number (pos 0))
unfolding config_get get ◌==◌ default_config
volume_shown = refl

-- No flag is given.
abbrev pub setup : Setup viper
setup = record {
  fresh = [];
  set_config_file = λ path v. v;
  read_in_config = λ file v. some file;
  write_as_fails = λ path v. false;
  bind_flag = λ key name v. v;
}

abbrev first_start : Result StartError viper.V
first_start = init_viper viper setup (λ d name. name) (some (codes "/home")) false missing []

default_loaded :
    (first_start >>= λ v. elim (load_config viper [] v) [ err e ↦ err no_user_dir | ok c ↦ ok c ])
    ≡ ok (record (default_config (some (codes "music"))) { volume = pos 0; log_level = [] })
unfolding init_viper bind_flags dir file_path music_dir_path set_defaults load_config default_config
    get put ◌==◌
default_loaded = refl

no_home : init_viper viper setup (λ d name. name) none false missing [] ≡ err no_user_dir
unfolding init_viper dir
no_home = refl

abbrev is_put : Str → Dict Value → Bool
is_put k v = is_some (get k v)

abbrev written : Dict Value
written = (save_config viper settings [] none).0
