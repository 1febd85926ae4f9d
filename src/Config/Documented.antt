-- ===== src/Config/Documented.antt =====
-- What package viper documents of the program's keys, of the file and of the flags.
use raag.Prelude.{
  ◌≡◌, Str, codes, ◌==◌, Bool, true, false, ◌||◌, List, [], ◌∷◌, Option, some, if◌then◌else◌,
}
use raag.Prelude.Int.{ℤ}
use raag.Prelude.Sort.{elem}
use raag.Config.Start.{Setup}
use raag.Config.{Value, Viper, text, number, flag, texts}

-- The program's keys by the type of their values. None is a part of another and all are in lower
-- case, so that Viper, which ignores the case and splits keys at dots, takes them for different.
abbrev pub text_keys : List Str
text_keys =
    codes "network.host"
    ∷ (codes "network.rendezvous"
        ∷ (codes "network.relay_address"
            ∷ (codes "discovery.tracker_url"
                ∷ (codes "discovery.mdns_service_name"
                    ∷ (codes "discovery.auth_secret" ∷ (codes "playback.music_dir" ∷ []))))))

abbrev pub int_keys : List Str
int_keys = codes "network.port" ∷ (codes "discovery.max_peers" ∷ [])

abbrev pub bool_keys : List Str
bool_keys =
    codes "discovery.dht_enabled"
    ∷ (codes "discovery.mdns_enabled" ∷ (codes "network.force_relay" ∷ []))

abbrev pub list_keys : List Str
list_keys = codes "discovery.bootstrap_peers" ∷ []

abbrev pub is_key : Str → Bool
is_key k = elem k text_keys || elem k int_keys || elem k bool_keys || elem k list_keys

-- What Viper and its casts document of these keys.
pub record IsViper (y : Viper) : Type 0 where
  pub value-set :
      (j k : Str) (x : Value) (v : y.V)
      → is_key j ≡ true
      → is_key k ≡ true
      → y.value k (y.set j x v) ≡ (if j == k then x else y.value k v)
  pub strings : (s : Str) → y.to_string (text s) ≡ s
  pub ints : (n : ℤ) → y.to_int (number n) ≡ n
  pub bools : (b : Bool) → y.to_bool (flag b) ≡ b
  pub slices : (ss : List Str) → y.to_strings (texts ss) ≡ some ss

-- What Viper documents of the file and the flags. `is_set` is IsSet. A file that was written without
-- an error can be read, and gives for a key that was set what the key held, as its cast shows it.
-- A flag that is not given leaves a key that is set.
pub record IsSetup (y : Viper) (s : Setup y) : Type 0 where
  pub is_set : Str → y.V → Bool
  pub is_set-set :
      (j k : Str) (x : Value) (v : y.V)
      → is_key j ≡ true
      → is_key k ≡ true
      → is_set k (y.set j x v) ≡ (j == k || is_set k v)
  pub readable :
      (v v' : y.V) (old : Option y.File) (file : y.File)
      → y.write_config v old ≡ (some file, false)
      → (v'' : y.V) × (s.read_in_config file v' ≡ some v'')
  pub is_set-read :
      (v v' v'' : y.V) (old : Option y.File) (file : y.File) (k : Str)
      → y.write_config v old ≡ (some file, false)
      → s.read_in_config file v' ≡ some v''
      → is_key k ≡ true
      → is_set k v ≡ true
      → is_set k v'' ≡ true
  pub value-read :
      (v v' v'' : y.V) (old : Option y.File) (file : y.File) (k : Str)
      → y.write_config v old ≡ (some file, false)
      → s.read_in_config file v' ≡ some v''
      → is_set k v ≡ true
      → (elem k text_keys ≡ true → y.to_string (y.value k v'') ≡ y.to_string (y.value k v))
        × (elem k int_keys ≡ true → y.to_int (y.value k v'') ≡ y.to_int (y.value k v))
        × (elem k bool_keys ≡ true → y.to_bool (y.value k v'') ≡ y.to_bool (y.value k v))
        × (elem k list_keys ≡ true → y.to_strings (y.value k v'') ≡ y.to_strings (y.value k v))
  pub is_set-bind :
      (j name k : Str) (v : y.V) → is_set k v ≡ true → is_set k (s.bind_flag j name v) ≡ true
  pub value-bind :
      (j name k : Str) (v : y.V)
      → is_set k v ≡ true
      → y.value k (s.bind_flag j name v) ≡ y.value k v
