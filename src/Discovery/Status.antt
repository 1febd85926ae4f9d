-- ===== src/Discovery/Status.antt =====
-- internal/discovery/manager.go: what a Manager tells of the network.
use raag.Prelude.{
  ℕ, ◌-◌, ◌^◌, Str, codes, ◌==◌, Bool, true, List, [], ◌∷◌, none, some, ltb, if◌then◌else◌,
}
use raag.Prelude.Sort.{elem}
use raag.Auth.{Crypto}
use raag.Discovery.World.{World}
use raag.Discovery.State.{Manager, mdns_can_start}
use raag.Discovery.Connect.{first_or_empty}

-- The two times of the source are never set.
pub record PeerInfo : Type 0 where
  pub id : Str
  pub addr : Str
  pub connected : Bool
  pub discovered_via : Str

pub record NetworkState : Type 0 where
  pub self_id : Str
  pub listen_addr : Str
  pub mode : Str
  pub tracker_url : Str
  pub tracker_status : Str
  pub dht_enabled : Bool
  pub dht_peers : ℕ
  pub mdns_enabled : Bool
  pub mdns_discovered : ℕ
  pub connected_peers : List PeerInfo
  pub known_peers : List PeerInfo
  pub auth_public_key : Str

-- The loops over the peers, less this host, by what they note of each.
infos : (Str → PeerInfo) → Str → List Str → List PeerInfo
infos f self [] = []
infos f self (id ∷ ids) = let rest = infos f self ids in if id == self then rest else f id ∷ rest

module _ {w : World} {k : Crypto} where
  -- hex.EncodeToString of the public key.
  unfoldable pub get_auth_public_key : Manager w k → Str
  get_auth_public_key m = elim m.auth_key_pair [
    | none ↦ []
    | some key ↦ k.hex_encode (k.public key)
  ]

  first_addr : Manager w k → Str → Str
  first_addr m id = first_or_empty (w.known_addrs m.host id)

  unfoldable pub get_network_state : Manager w k → NetworkState
  unfolding get_auth_public_key infos first_addr
  get_network_state m =
      let self = w.host_id m.host in
      let conns = w.connected m.host in
      record {
        self_id = self;
        listen_addr = first_or_empty (w.listen_addrs m.host);
        mode = codes "networked";
        tracker_url = m.tracker_url;
        tracker_status = codes "unknown";
        dht_enabled = m.dht_enabled;
        dht_peers = if m.dht then w.routing_table_size m.host else 0;
        mdns_enabled = mdns_can_start m;
        mdns_discovered =
            if ltb (2 ^ 31 - 1) m.mdns_peer_count then 2 ^ 31 - 1 else m.mdns_peer_count;
        connected_peers =
            infos
              (λ id. record {
                id = id;
                addr = first_addr m id;
                connected = true;
                discovered_via = [];
              })
              self conns;
        known_peers =
            infos
              (λ id. record {
                id = id;
                addr = first_addr m id;
                connected = elem id conns;
                discovered_via = codes "DHT/mDNS";
              })
              self (w.known m.host);
        auth_public_key = get_auth_public_key m;
      }
