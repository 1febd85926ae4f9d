-- ===== src/Config/SaveLoad.antt =====
-- A saved configuration is loaded again.
use raag.Prelude.{
  ◌≡◌, Str, codes, ◌==◌, Bool, true, ◌||◌, ◌&&◌, List, [], ◌∷◌, Option, none, some, if◌then◌else◌,
}
use raag.Config.Documented.{IsViper, is_key}
use raag.Config.{Config, Value, Viper}

-- The last entry for a key, or what there was.
abbrev pub last : List (Str × Option Value) → Str → Value → Value
last [] k old = old
last ((j, none) ∷ kvs) k old = last kvs k old
last ((j, some x) ∷ kvs) k old = last kvs k (if j == k then x else old)

-- Whether there is an entry for a key.
abbrev entered : List (Str × Option Value) → Str → Bool → Bool
entered [] k old = old
entered ((j, none) ∷ kvs) k old = entered kvs k old
entered ((j, some x) ∷ kvs) k old = entered kvs k (j == k || old)

abbrev are_keys : List (Str × Option Value) → Bool
are_keys [] = true
are_keys ((j, _) ∷ kvs) = is_key j && are_keys kvs

module _ (y : Viper) (i : IsViper y) where
  -- What a Viper gives for the keys of a configuration.
  record IsStored (c : Config) (peers : List Str) (v : y.V) : Type 0 where
    host : y.to_string (y.value (codes "network.host") v) ≡ c.host
    port : y.to_int (y.value (codes "network.port") v) ≡ c.port
    rendezvous : y.to_string (y.value (codes "network.rendezvous") v) ≡ c.rendezvous
    relay_address : y.to_string (y.value (codes "network.relay_address") v) ≡ c.relay_address
    tracker_url : y.to_string (y.value (codes "discovery.tracker_url") v) ≡ c.tracker_url
    dht_enabled : y.to_bool (y.value (codes "discovery.dht_enabled") v) ≡ c.dht_enabled
    max_peers : y.to_int (y.value (codes "discovery.max_peers") v) ≡ c.max_peers
    bootstrap_peers : y.to_strings (y.value (codes "discovery.bootstrap_peers") v) ≡ some peers
    mdns_enabled : y.to_bool (y.value (codes "discovery.mdns_enabled") v) ≡ c.mdns_enabled
    mdns_service_name :
        y.to_string (y.value (codes "discovery.mdns_service_name") v) ≡ c.mdns_service_name
    music_dir : y.to_string (y.value (codes "playback.music_dir") v) ≡ c.music_dir
