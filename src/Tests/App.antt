-- ===== src/Tests/App.antt =====
-- The program as a whole at concrete settings, files and songs.
use raag.Prelude.{
  ◌≡◌, refl, Str, codes, ◌==◌, Bool, true, false, List, [], ◌∷◌, Option, some, none, ok, to_lower,
  lower_byte, has_prefix, has_suffix, arith,
}
use raag.Prelude.Int.{ℤ, pos}
use raag.Prelude.Dict.{Dict, get, put, get-put}
use raag.App.{App, Startup, new_app}
use raag.App.Started.{started_silent}
use raag.Config.{
  Config, Value, Viper, text, number, flag, texts, default_config, config_map, load_config,
  save_config,
}
use raag.Config.Documented.{IsViper}
use raag.Library.{a_directory, entry, is_audio_file, new_library, empty_library, scan_music_library}
use raag.Network.Identity.{
  KeyLib, Machine, IsWorking, rsa, load_or_generate_identity, identity_kept,
}
use raag.Player.{Opening, new_player}
use raag.Player.Volume.{set_volume}
use raag.Playlist
use raag.Song.{extract_metadata}
use raag.Storage.Playlists.{load_playlists}
use raag.Tests.Library.{reader, own, a}
use raag.Tests.Player.{whole}
use raag.Tests.Playlist.{codec, reads}
use raag.Tests.Samples.{crypto}
use raag.Tests.World.{world, made}

abbrev value_of : Option Value → Value
value_of none = text []
value_of (some x) = x

abbrev string_of : Value → Str
string_of (text s) = s
string_of _ = []

abbrev int_of : Value → ℤ
int_of (number n) = n
int_of _ = pos 0

abbrev bool_of : Value → Bool
bool_of (flag b) = b
bool_of _ = false

abbrev strings_of : Value → Option (List Str)
strings_of (texts ss) = some ss
strings_of _ = none

abbrev pub viper : Viper
viper = record {
  V = Dict Value;
  File = Dict Value;
  value = λ k v. value_of (get k v);
  set = put;
  set_default = put;
  to_string = string_of;
  to_int = int_of;
  to_bool = bool_of;
  to_strings = strings_of;
  write_config = λ v file. (some v, false);
}

pub viper-IsViper : IsViper viper
viper-IsViper = record {
  value-set = λ j k x v known key. ground (arith, get-put j k x v);
  strings = λ s. refl;
  ints = λ n. refl;
  bools = λ b. refl;
  slices = λ ss. refl;
}

abbrev pub opening : Opening
opening = record {
  no_dir = false;
  no_root = false;
  no_rel = false;
  no_file = false;
  no_decode = false;
  handle = 1;
  len = 100;
  rate = 10;
  channel = 1;
}

abbrev pub settings : Config
settings = record (default_config (some (codes "/music"))) { tracker_url = codes "http://t" }

abbrev key_lib : KeyLib
key_lib = record {
  PrivKey = Str;
  marshal = some;
  unmarshal = some;
  to_json = λ sk. sk.key_data;
  from_json = λ s. some (rsa s);
}

abbrev machine : Machine
machine = record {
  no_path = false;
  no_dir = false;
  no_root = false;
  no_rel = false;
  no_read = false;
  no_mkdir = false;
  no_write = false;
  partial = none;
}

machine-IsWorking : IsWorking machine
machine-IsWorking = record {
  path = refl;
  dir = refl;
  root = refl;
  rel = refl;
  read = refl;
  mkdir = refl;
  write = refl;
}

identity_kept_example :
    let (disk', first) =
      load_or_generate_identity key_lib (some (codes "k")) machine (codes "/key") [] in
    (first ≡ ok (codes "k"))
    × (load_or_generate_identity key_lib (some (codes "l")) machine (codes "/key") disk'
        ≡ (disk', ok (codes "k")))
unfolding get
identity_kept_example =
    identity_kept key_lib (codes "k") (codes "k") (some (codes "l")) machine machine (codes "/key")
      [] (record { marshalled = refl; back = refl; json_back = refl }) machine-IsWorking
      machine-IsWorking refl

abbrev startup : Startup whole world crypto
startup = record {
  no_storage = false;
  made = true;
  stat = a_directory;
  walked = entry a a false ∷ [];
  no_player = false;
  network = some (record { manager = made; has_discovery = true });
  codec = codec;
  lookup = reads (codes "[mix]");
  now = 0;
}

abbrev loaded : Config
loaded = record settings { volume = pos 0; log_level = [] }

-- The program after its start.
abbrev pub app : App whole world crypto
app = record {
  cfg = loaded;
  lib =
      (scan_music_library (reader own) a_directory (entry a a false ∷ [])
        (empty_library (codes "/music"))).0;
  player = (set_volume (pos 0) (new_player whole)).0;
  net_mgr = record { manager = made; has_discovery = true };
  pm = (load_playlists codec (reads (codes "[mix]")) Playlist.new_manager).0;
  start_time = 0;
}

starts : new_app whole world crypto (reader own) startup loaded ≡ ok app
unfolding new_app new_library scan_music_library set_volume default_config is_audio_file has_suffix
    to_lower lower_byte has_prefix extract_metadata put
starts = refl

loads : load_config viper (codes "http://t") (save_config viper settings [] none).0 ≡ ok loaded
unfolding load_config save_config config_map default_config get put ◌==◌
loads = refl

started_silent_example : app.player.volume ≡ pos 0
unfolding set_volume
started_silent_example =
    started_silent (reader own) startup loaded app starts viper (codes "http://t")
      (save_config viper settings [] none).0 loads
