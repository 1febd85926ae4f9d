-- ===== src/Config.antt =====
-- internal/config: the configuration, its file and the paths of the program's files. Viper, which
-- keeps the values and the file, and filepath.Join are parameters.
pub mod Documented
pub mod SaveLoad
pub mod Start
use raag.Prelude.{
  ℕ, Str, codes, Bool, true, false, ◌||◌, List, [], ◌∷◌, Option, none, some, Result, ok, err,
  is_empty, if◌then◌else◌,
}
use raag.Prelude.Int.{ℤ, pos, ltb_ℤ}

-- The fields that are set at startup are the last five.
pub record Config : Type 0 where
  pub host : Str
  pub port : ℤ
  pub rendezvous : Str
  pub relay_address : Str
  pub tracker_url : Str
  pub dht_enabled : Bool
  pub max_peers : ℤ
  pub bootstrap_peers : Option (List Str)
  pub mdns_enabled : Bool
  pub mdns_service_name : Str
  pub auth_secret : Str
  pub music_dir : Str
  pub network : Bool
  pub force_relay : Bool
  pub volume : ℤ
  pub tui : Bool
  pub log_level : Str

-- A value that Viper keeps.
pub data Value : Type 0 where
  text : Str → Value
  number : ℤ → Value
  flag : Bool → Value
  texts : List Str → Value

-- `value` is Get, `set` is Set, and the others are the casts of GetString, GetInt, GetBool and
-- GetStringSlice; a nil slice is none. `write_config` is WriteConfig: from the values and the file,
-- if there is one, the file after it, and whether an error is returned.
pub record Viper : Type 1 where
  pub V : Type 0
  pub File : Type 0
  pub value : Str → V → Value
  pub set : Str → Value → V → V
  pub set_default : Str → Value → V → V
  pub to_string : Value → Str
  pub to_int : Value → ℤ
  pub to_bool : Value → Bool
  pub to_strings : Value → Option (List Str)
  pub write_config : V → Option File → Option File × Bool

pub data Error : Type 0 where
  invalid_port : ℤ → Error
  not_written no_config_dir : Error

module _ (join : Str → Str → Str) where
  -- `config_dir` is os.UserConfigDir.
  unfoldable pub dir : Option Str → Option Str
  dir none = none
  dir (some config_dir) = some (join config_dir (codes "raag"))

  in_dir : Str → Option Str → Option Str
  unfolding dir
  in_dir name config_dir = elim (dir config_dir) [ none ↦ none | some d ↦ some (join d name) ]

  unfoldable pub file_path : Option Str → Option Str
  unfolding in_dir
  file_path = in_dir (codes "config.yaml")

  unfoldable pub peer_persistence_path : Option Str → Option Str
  unfolding in_dir
  peer_persistence_path = in_dir (codes "peers.json")

  unfoldable pub state_path : Option Str → Option Str
  unfolding in_dir
  state_path = in_dir (codes "state.json")

  unfoldable pub playlists_path : Option Str → Option Str
  unfolding in_dir
  playlists_path = in_dir (codes "playlists.json")

  unfoldable pub identity_key_path : Option Str → Option Str
  unfolding in_dir
  identity_key_path = in_dir (codes "identity.key")

  unfoldable pub music_dir_path : Option Str → Option Str
  unfolding in_dir
  music_dir_path = in_dir (codes "music")

  unfoldable pub socket_path : Option Str → Str
  unfolding in_dir
  socket_path config_dir = elim (in_dir (codes "daemon.sock") config_dir) [
    | none ↦ codes "/tmp/raag-daemon.sock"
    | some path ↦ path
  ]

-- `music_dir` is the answer of MusicDir.
unfoldable pub default_config : Option Str → Config
default_config music_dir = record {
  host = codes "0.0.0.0";
  port = pos 45678;
  rendezvous = codes "raag-music-share";
  relay_address = [];
  tracker_url = [];
  dht_enabled = true;
  max_peers = pos 100;
  bootstrap_peers = some [];
  mdns_enabled = true;
  mdns_service_name = [];
  auth_secret = [];
  music_dir = elim music_dir [ none ↦ codes "./music" | some d ↦ d ];
  network = false;
  force_relay = false;
  volume = pos 50;
  tui = false;
  log_level = codes "info";
}

or_else : Str → Str → Str
or_else [] other = other
or_else (c ∷ s) other = c ∷ s

texts_or_nil : Option (List Str) → Option Value
texts_or_nil none = none
texts_or_nil (some ss) = some (texts ss)

-- What encoding/json makes of the tags: a value for each key, or none for null.
unfoldable pub config_map : Config → List (Str × Option Value)
unfolding texts_or_nil
config_map c =
    (codes "network.host", some (text c.host))
    ∷ ((codes "network.port", some (number c.port))
        ∷ ((codes "network.rendezvous", some (text c.rendezvous))
            ∷ ((codes "network.relay_address", some (text c.relay_address))
                ∷ ((codes "discovery.tracker_url", some (text c.tracker_url))
                    ∷ ((codes "discovery.dht_enabled", some (flag c.dht_enabled))
                        ∷ ((codes "discovery.max_peers", some (number c.max_peers))
                            ∷ ((codes "discovery.bootstrap_peers", texts_or_nil c.bootstrap_peers)
                                ∷ ((codes "discovery.mdns_enabled", some (flag c.mdns_enabled))
                                    ∷ ((
                                      codes "discovery.mdns_service_name",
                                      some (text c.mdns_service_name),
                                    )
                                        ∷ ((codes "playback.music_dir", some (text c.music_dir))
                                            ∷ []))))))))))

module _ (y : Viper) where
  open y use {
    V, File, value, set, set_default, to_string, to_int, to_bool, to_strings, write_config,
  }

  -- `auth_secret` is the variable AUTH_SECRET.
  unfoldable pub set_defaults : Option Str → Str → V → V
  unfolding default_config
  set_defaults music_dir auth_secret v =
      let d = default_config music_dir in
      set_default (codes "playback.music_dir") (text d.music_dir) (
        set_default (codes "discovery.auth_secret") (text auth_secret) (
          set_default (codes "discovery.mdns_service_name") (text d.mdns_service_name) (
            set_default (codes "discovery.mdns_enabled") (flag d.mdns_enabled) (
              set_default (codes "discovery.bootstrap_peers") (texts []) (
                set_default (codes "discovery.max_peers") (number d.max_peers) (
                  set_default (codes "discovery.dht_enabled") (flag d.dht_enabled) (
                    set_default (codes "discovery.tracker_url") (text d.tracker_url) (
                      set_default (codes "network.force_relay") (flag d.force_relay) (
                        set_default (codes "network.relay_address") (text d.relay_address) (
                          set_default (codes "network.rendezvous") (text d.rendezvous) (
                            set_default (codes "network.port") (number d.port)
                              (set_default (codes "network.host") (text d.host) v))))))))))))

  read_config : Str → V → Config
  unfolding or_else
  read_config tracker_env v = record {
    host = to_string (value (codes "network.host") v);
    port = to_int (value (codes "network.port") v);
    rendezvous = to_string (value (codes "network.rendezvous") v);
    relay_address = to_string (value (codes "network.relay_address") v);
    tracker_url = or_else (to_string (value (codes "discovery.tracker_url") v)) tracker_env;
    dht_enabled = to_bool (value (codes "discovery.dht_enabled") v);
    max_peers = to_int (value (codes "discovery.max_peers") v);
    bootstrap_peers = to_strings (value (codes "discovery.bootstrap_peers") v);
    mdns_enabled = to_bool (value (codes "discovery.mdns_enabled") v);
    mdns_service_name = to_string (value (codes "discovery.mdns_service_name") v);
    auth_secret = to_string (value (codes "discovery.auth_secret") v);
    music_dir = to_string (value (codes "playback.music_dir") v);
    network = false;
    force_relay = to_bool (value (codes "network.force_relay") v);
    volume = pos 0;
    tui = false;
    log_level = [];
  }

  -- `tracker_env` is the variable TRACKER_URL; the default after it is empty too.
  unfoldable pub load_config : Str → V → Result Error Config
  unfolding read_config
  load_config tracker_env v =
      let c = read_config tracker_env v in
      if ltb_ℤ c.port (pos 0) || ltb_ℤ (pos 65535) c.port then err (invalid_port c.port) else ok c

  -- The loop over the map, whose order is not specified.
  set_all : List (Str × Option Value) → V → V
  set_all [] v = v
  set_all ((key, none) ∷ kvs) v = set_all kvs v
  set_all ((key, some x) ∷ kvs) v = set_all kvs (set key x v)

  unfoldable pub save_config : Config → V → Option File → V × Option File × Result Error Unit
  unfolding set_all
  save_config c v file =
      let v' = set_all (config_map c) v in
      let (file', failed) = write_config v' file in
      (v', file', if failed then err not_written else ok tt)
