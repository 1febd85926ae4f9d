-- ===== src/Config/Start.antt =====
-- InitViper and bindFlags of internal/config/config.go.
use raag.Prelude.{
  Str, codes, Bool, List, [], ◌∷◌, Option, none, some, Result, ok, err, if◌then◌else◌,
}
use raag.Config.{Viper, file_path, dir, music_dir_path, set_defaults}

-- What os.Stat says of the file, which is there with its content.
pub data FileCheck (F : Type 0) : Type 0 where
  present : F → FileCheck F
  missing unknown : FileCheck F

pub data StartError : Type 0 where
  no_user_dir no_file_path dir_not_made not_read not_checked not_created : StartError

-- What Viper does at the start: New, SetConfigFile with the type yaml, ReadInConfig of the file, which fails
-- or changes the values, whether WriteConfigAs fails, and BindPFlag of a key to a named flag, with its
-- error ignored.
pub record Setup (y : Viper) : Type 0 where
  pub fresh : y.V
  pub set_config_file : Str → y.V → y.V
  pub read_in_config : y.File → y.V → Option y.V
  pub write_as_fails : Str → y.V → Bool
  pub bind_flag : Str → Str → y.V → y.V

-- The keys and the flags that set them, in the order of the calls.
abbrev pub flags : List (Str × Str)
flags =
    (codes "network.host", codes "host")
    ∷ (codes "network.port", codes "port")
    ∷ (codes "network.rendezvous", codes "rendezvous")
    ∷ (codes "network.relay_address", codes "relay")
    ∷ (codes "network.force_relay", codes "force-relay")
    ∷ (codes "discovery.tracker_url", codes "tracker")
    ∷ (codes "discovery.dht_enabled", codes "dht")
    ∷ (codes "discovery.mdns_enabled", codes "mdns")
    ∷ (codes "discovery.mdns_service_name", codes "mdns-service-name")
    ∷ (codes "discovery.max_peers", codes "max-peers")
    ∷ (codes "discovery.bootstrap_peers", codes "bootstrap")
    ∷ (codes "discovery.auth_secret", codes "auth-secret")
    ∷ (codes "playback.music_dir", codes "music-dir")
    ∷ []

module _ (y : Viper) (s : Setup y) where
  unfoldable pub bind_all : List (Str × Str) → y.V → y.V
  bind_all [] v = v
  bind_all ((key, name) ∷ fs) v = bind_all fs (s.bind_flag key name v)

  unfoldable pub bind_flags : y.V → y.V
  unfolding bind_all
  bind_flags v = bind_all flags v

  -- The file's values, or the defaults written to a new file.
  unfoldable pub values_at : Str → FileCheck y.File → y.V → Result StartError y.V
  values_at path (present file) v = elim (s.read_in_config file v) [
    | none ↦ err not_read
    | some v' ↦ ok v'
  ]
  values_at path missing v = if s.write_as_fails path v then err not_created else ok v
  values_at path unknown v = err not_checked

  unfoldable pub bound : Result StartError y.V → Result StartError y.V
  bound (ok v) = ok (bind_flags v)
  bound (err e) = err e

  -- `config_dir` is os.UserConfigDir, `no_mkdir` whether os.MkdirAll fails, and `auth_secret` the
  -- variable AUTH_SECRET.
  unfoldable pub init_viper :
      (Str → Str → Str) → Option Str → Bool → FileCheck y.File → Str → Result StartError y.V
  unfolding values_at bound
  init_viper join config_dir no_mkdir check auth_secret = elim (dir join config_dir) [
    | none ↦ err no_user_dir
    | some _ ↦ elim (file_path join config_dir) [
      | none ↦ err no_file_path
      | some path ↦
          if no_mkdir
          then err dir_not_made
          else bound (
              values_at path check (
                set_defaults y (music_dir_path join config_dir) auth_secret
                  (s.set_config_file path s.fresh)))
    ]
  ]
