-- ===== src/Discovery/World.antt =====
-- internal/discovery: the libraries and the machine that a Manager works with.
use raag.Prelude.{ℕ, Str, Bool, List, Option}
use raag.Discovery.{AddrInfo}
use raag.Storage.{Faults}

pub record PeerResponse : Type 0 where
  pub peer_id : Str
  pub addrs : List Str
  pub last_seen : ℕ

pub record RegisterRequest : Type 0 where
  pub addrs : List Str
  pub peer_id : Str
  pub auth_data : Str

pub record AddrResponse : Type 0 where
  pub relay_enabled : Bool
  pub relay_addr : Str
  pub host_id : Str

-- An answer: its status, and its body as JSON decodes it, if it does.
pub record Reply (A : Type 0) : Type 0 where
  pub status : ℕ
  pub body : Option A

-- A `Host` is a libp2p host with the clock, the disk and the network around it, so that each call
-- gives the host after it. `connect`, `close_peer` and `new_dht` say whether they succeeded, `conns`
-- gives the remote addresses of the connections to a peer, and an answer that did not come is
-- `none`; `nonce` is what crypto/rand gives.
pub record World : Type 1 where
  pub Host : Type 0
  pub host_id : Host → Str
  pub now : Host → ℕ
  pub nonce : Host → Option Str
  pub listen_addrs : Host → List Str
  pub known : Host → List Str
  pub known_addrs : Host → Str → List Str
  pub add_addrs : Str → List Str → ℕ → Host → Host
  pub permanent_addr_ttl : ℕ
  pub connected : Host → List Str
  pub conns : Host → Str → List Str
  pub close_peer : Str → Host → Host × Bool
  pub routing_table_size : Host → ℕ
  pub connect : AddrInfo → Host → Host × Bool
  pub new_dht : List AddrInfo → Host → Host × Bool
  pub get_peers : Str → Host → Host × Option (Reply (List PeerResponse))
  pub get_addr : Str → Host → Host × Option (Reply AddrResponse)
  pub post_registration : Str → RegisterRequest → Host → Host × Option ℕ
  pub mkdir_fails : Host → Bool
  pub faults : Host → Faults
  pub temp_name : Host → Str
  pub strings_json : List Str → Str
  pub json_strings : Str → Option (List Str)

-- net/url's URLs, and package path's Clean and Dir.
pub record Urls : Type 1 where
  pub Url : Type 0
  pub parse : Str → Option Url
  pub path_of : Url → Str
  pub with_path : Str → Url → Url
  pub to_string : Url → Str
  pub clean : Str → Str
  pub dir : Str → Str
  pub join : Str → Str → Option Str
