-- ===== src/Tests/World.antt =====
-- A small world: a host that knows peers and a clock, and addresses whose text says what they are.
use raag.Prelude.{
  ℕ, zero, suc, ◌*◌, ◌≡◌, refl, ap, ◌∙◌, Str, codes, true, false, List, [], ◌∷◌, ◌++◌, Option, none,
  some, drop, has_prefix, arith,
}
use raag.Clock.{second}
use raag.Storage.{Faults}
use raag.Discovery.{AddrInfo, Multiaddrs}
use raag.Discovery.World.{World, Urls}
use raag.Discovery.State.{Manager}
use raag.Discovery.Peers.Cap.{IsPeerstore}
use raag.Discovery.Peers.RoundTrip.{IsP2p, IsJson}
use raag.Tests.Samples.{crypto, key}

-- Texts one after the other, each ended by a 0.
abbrev ended : Str → Str
ended [] = 0 ∷ []
ended (c ∷ s) = suc c ∷ ended s

abbrev pub join : List Str → Str
join [] = []
join (s ∷ ss) = ended s ++ join ss

abbrev push : ℕ → List Str → List Str
push c [] = (c ∷ []) ∷ []
push c (s ∷ ss) = (c ∷ s) ∷ ss

abbrev pub split : Str → List Str
split [] = []
split (zero ∷ s) = [] ∷ split s
split (suc c ∷ s) = push c (split s)

split-ended : (s rest : Str) → split (ended s ++ rest) ≡ s ∷ split rest
split-ended [] rest = refl
split-ended (c ∷ s) rest = ap (push c) (split-ended s rest)

pub split-join : (ss : List Str) → split (join ss) ≡ ss
split-join [] = refl
split-join (s ∷ ss) = split-ended s (join ss) ∙ ap (s ∷◌) (split-join ss)

abbrev info_of : List Str → Option AddrInfo
info_of (addr ∷ (id ∷ [])) = some (record { id = id; addrs = addr ∷ [] })
info_of _ = none

-- An address with a peer's id after it is the two of them joined.
abbrev pub multiaddrs : Multiaddrs
multiaddrs = record {
  Ip = Str;
  p_ip4 = 4;
  p_ip6 = 41;
  protocols = λ s. 4 ∷ [];
  new_multiaddr = some;
  value_for_protocol = λ code s. some s;
  parse_addr = some;
  is_private = λ s. has_prefix s (codes "192");
  is_loopback = λ s. has_prefix s (codes "127");
  is_link_local_unicast = λ s. false;
  is_multicast = λ s. false;
  is_unspecified = λ s. has_prefix s (codes "0");
  addr_info_from_string = λ s. info_of (split s);
  addr_info_from_p2p_addr = λ s. info_of (split s);
  decode_peer_id = some;
  encapsulate = λ addr p2p. join (addr ∷ (drop 5 p2p ∷ []));
}

pub multiaddrs-IsP2p : IsP2p multiaddrs
multiaddrs-IsP2p = record {
  whole = λ addr id. refl;
  apart = λ addr id. ap info_of (split-join (addr ∷ (id ∷ [])));
}

abbrev pub faultless : Faults
faultless = record {
  no_dir = false;
  create = false;
  encode = false;
  sync = false;
  close = false;
  rename = false;
  written = [];
}

-- The time, and the peers known.
abbrev pub Place : Type 0
Place = ℕ × List Str

abbrev pub known_in : Place → List Str
known_in h = h.1

abbrev pub world : World
world = record {
  Host = Place;
  host_id = λ h. codes "alice";
  now = λ h. h.0;
  nonce = λ h. some (codes "n1");
  listen_addrs = λ h. codes "8.8.8.8/tcp/1" ∷ [];
  known = known_in;
  known_addrs = λ h id. codes "8.8.8.8/tcp/2" ∷ [];
  add_addrs = λ id addrs ttl h. (h.0, id ∷ h.1);
  permanent_addr_ttl = 0;
  connected = λ h. [];
  conns = λ h id. [];
  close_peer = λ id h. (h, true);
  routing_table_size = λ h. 0;
  connect = λ p h. (h, false);
  new_dht = λ ps h. (h, true);
  get_peers = λ url h. (h, none);
  get_addr = λ url h. (h, none);
  post_registration = λ url r h. (h, some 200);
  mkdir_fails = λ h. false;
  faults = λ h. faultless;
  temp_name = λ h. codes "peers.tmp";
  strings_json = join;
  json_strings = λ s. some (split s);
}

pub world-IsJson : IsJson world
world-IsJson = record { back = λ ss. ap some (split-join ss) }

pub world-IsPeerstore : IsPeerstore world
world-IsPeerstore = record { add_one = λ id addrs ttl h. omega arith }

abbrev pub urls : Urls
urls = record {
  Url = Str;
  parse = some;
  path_of = λ s. [];
  with_path = λ path s. s;
  to_string = λ s. s;
  clean = λ s. s;
  dir = λ s. s;
  join = λ s t. some (s ++ t);
}

abbrev pub start_time : ℕ
start_time = 1000 * second

-- A Manager just made that knows itself.
abbrev pub made : Manager world crypto
made = record {
  host = (start_time, codes "alice" ∷ []);
  disk = [];
  peers_file = codes "peers.json";
  dht = true;
  client_url = codes "http://t";
  max_peers = 2;
  tracker_url = codes "http://t";
  listen_host = codes "0.0.0.0";
  dht_enabled = true;
  bootstrap_peers = [];
  mdns_enabled = true;
  mdns_service_name = [];
  auth_key_pair = some key;
  auth_token = none;
  has_network_manager = true;
  mdns_peer_count = 0;
  heartbeat_every = 120 * second;
  refresh_every = 30 * second;
  retry_delay = second;
  max_retry_delay = 10 * second;
  mdns_retry_delay = 10 * second;
  last_bootstrap = start_time;
  bootstrap_throttle = 30 * second;
  peer_count_since_bootstrap = 0;
  effects = [];
}
