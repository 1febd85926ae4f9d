-- ===== src/Discovery/State.antt =====
-- internal/discovery/manager.go: what a Manager keeps, and how one is made. What it asks of others,
-- a bootstrap of the DHT, a call of a callback where it is set, a goroutine, is in `effects`, the
-- latest first.
use raag.Prelude.{
  ℕ, ◌*◌, ◌/◌, Str, codes, ◌==◌, Bool, false, not, ◌&&◌, List, [], ◌∷◌, Option, none, some, ltb,
  is_empty, if◌then◌else◌,
}
use raag.Auth.{Crypto, AuthToken}
use raag.Clock.{second, minute}
use raag.Storage.{Disk}
use raag.Discovery.{AddrInfo}
use raag.Discovery.World.{World}

abbrev pub tracker_heartbeat_interval : ℕ
tracker_heartbeat_interval = 2 * minute

abbrev pub tracker_refresh_interval : ℕ
tracker_refresh_interval = 30 * second

abbrev pub tracker_retry_initial_delay : ℕ
tracker_retry_initial_delay = second / 4

abbrev pub tracker_retry_max_delay : ℕ
tracker_retry_max_delay = 10 * second

abbrev pub mdns_retry_initial_delay : ℕ
mdns_retry_initial_delay = 10 * second

abbrev pub mdns_retry_max_delay : ℕ
mdns_retry_max_delay = 60 * second

abbrev pub dht_bootstrap_throttle : ℕ
dht_bootstrap_throttle = 30 * second

abbrev pub dht_bootstrap_peer_threshold : ℕ
dht_bootstrap_peer_threshold = 5

pub data Effect : Type 0 where
  bootstrapped : ℕ → Effect
  connecting : AddrInfo → Effect
  notified : Str → Str → Effect
  peers_saved : List AddrInfo → Effect

pub record ManagerConfig : Type 0 where
  pub tracker_url : Str
  pub identity_key_bytes : Str
  pub auth_secret : Str
  pub max_peers : ℕ
  pub listen_host : Str
  pub rendezvous : Str
  pub dht_enabled : Bool
  pub bootstrap_peers : List Str
  pub mdns_enabled : Bool
  pub mdns_service_name : Str

-- auth.DeriveKey and auth.GenerateKeyPair, which call golang.org/x/crypto and crypto/ed25519;
-- `none` is an error.
pub record Keys (k : Crypto) : Type 0 where
  pub derive_key : Str → Str → Option k.PrivKey
  pub generate_key_pair : Option k.PrivKey

abbrev pub default_bootstrap_peers : List Str
default_bootstrap_peers =
    codes "/dnsaddr/bootstrap.libp2p.io/p2p/QmQCU2EcMqAqQPR2i9bChDtGNJchTbq5TbXJJ16u19uLTa"
    ∷ (codes "/dnsaddr/bootstrap.libp2p.io/p2p/QmbLHAnMoJPWSCR5Zhtx6BHJX9KiKNN6tpvbUcqanj75Nb"
        ∷ (codes "/dnsaddr/bootstrap.libp2p.io/p2p/QmcZf59bWwK5XFi76CZX8cbJ4BhTzzA3gU1ZjYZcYW3dwt"
            ∷ (codes
                  "/ip4/104.131.131.82/tcp/4001/p2p/QmaCpDMGvV2BGHeYERUEnRQAwe3N8SzbUtfsmvsqQLuvuJ"
                ∷ [])))

module _ (w : World) (k : Crypto) where
  -- `dht` is whether initDHT has made one, and `disk` the disk with the file of the peers, whose
  -- path is `peers_file`. The client of the tracker is its URL. No peer is added where `maxPeers` is
  -- negative, just as where it is 0.
  pub record Manager : Type 0 where
    pub host : w.Host
    pub disk : Disk
    pub peers_file : Str
    pub dht : Bool
    pub client_url : Str
    pub max_peers : ℕ
    pub tracker_url : Str
    pub listen_host : Str
    pub dht_enabled : Bool
    pub bootstrap_peers : List Str
    pub mdns_enabled : Bool
    pub mdns_service_name : Str
    pub auth_key_pair : Option k.PrivKey
    pub auth_token : Option AuthToken
    pub has_network_manager : Bool
    pub mdns_peer_count : ℕ
    pub heartbeat_every : ℕ
    pub refresh_every : ℕ
    pub retry_delay : ℕ
    pub max_retry_delay : ℕ
    pub mdns_retry_delay : ℕ
    pub last_bootstrap : ℕ
    pub bootstrap_throttle : ℕ
    pub peer_count_since_bootstrap : ℕ
    pub effects : List Effect

or_else : {A : Type 0} → Option A → Option A → Option A
or_else none other = other
or_else (some a) other = some a

unfoldable pub auth_key : {k : Crypto} → Keys k → ManagerConfig → Option k.PrivKey
unfolding or_else
auth_key keys cfg =
    or_else
      (if not (is_empty cfg.auth_secret)
        then keys.derive_key cfg.auth_secret (codes "raag-secret-v1")
        else if not (is_empty cfg.identity_key_bytes)
        then keys.derive_key cfg.identity_key_bytes (codes "raag-identity-v1")
        else none)
      keys.generate_key_pair

abbrev or_default : List Str → List Str
or_default [] = default_bootstrap_peers
or_default (p ∷ ps) = p ∷ ps

or_old : ℕ → ℕ → ℕ
or_old new old = if ltb 0 new then new else old

module _ {w : World} {k : Crypto} where
  unfoldable pub new_manager : Keys k → ManagerConfig → w.Host → Disk → Str → Manager w k
  new_manager keys cfg host disk peers_file = record {
    host = host;
    disk = disk;
    peers_file = peers_file;
    dht = false;
    client_url = cfg.tracker_url;
    max_peers = cfg.max_peers;
    tracker_url = cfg.tracker_url;
    listen_host = cfg.listen_host;
    dht_enabled = cfg.dht_enabled;
    bootstrap_peers = or_default cfg.bootstrap_peers;
    mdns_enabled = cfg.mdns_enabled;
    mdns_service_name = cfg.mdns_service_name;
    auth_key_pair = auth_key keys cfg;
    auth_token = none;
    has_network_manager = false;
    mdns_peer_count = 0;
    heartbeat_every = tracker_heartbeat_interval;
    refresh_every = tracker_refresh_interval;
    retry_delay = tracker_retry_initial_delay;
    max_retry_delay = tracker_retry_max_delay;
    mdns_retry_delay = mdns_retry_initial_delay;
    last_bootstrap = w.now host;
    bootstrap_throttle = dht_bootstrap_throttle;
    peer_count_since_bootstrap = 0;
    effects = [];
  }

  unfoldable pub set_test_intervals : ℕ → ℕ → ℕ → ℕ → Manager w k → Manager w k
  unfolding or_old
  set_test_intervals heartbeat refresh retry max_retry m = record m {
    heartbeat_every = or_old heartbeat m.heartbeat_every;
    refresh_every = or_old refresh m.refresh_every;
    retry_delay = or_old retry m.retry_delay;
    max_retry_delay = or_old max_retry m.max_retry_delay;
  }

  unfoldable pub update_tracker_url : Str → Manager w k → Manager w k
  update_tracker_url url m =
      if url == m.tracker_url then m else record m { tracker_url = url; client_url = url }

  abbrev pub mdns_can_start : Manager w k → Bool
  mdns_can_start m =
      m.mdns_enabled
      && not (m.listen_host == codes "127.0.0.1")
      && not (m.listen_host == codes "localhost")
