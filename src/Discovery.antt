-- ===== src/Discovery.antt =====
-- internal/discovery: how peers are found, kept and registered. A multiaddress is its text, and the
-- libraries that read it are a parameter.
pub mod Addresses
pub mod World
pub mod Client
pub mod State
pub mod Backoff
pub mod Register
pub mod Peers
pub mod Connect
pub mod Rounds
pub mod Status
pub mod Start
pub mod Loops
use raag.Prelude.{ℕ, Str, Bool, List, Option}

-- peer.AddrInfo
pub record AddrInfo : Type 0 where
  pub id : Str
  pub addrs : List Str

-- go-multiaddr, libp2p's peer package and net/netip; `none` is an error.
pub record Multiaddrs : Type 1 where
  pub Ip : Type 0
  pub new_multiaddr : Str → Option Str
  pub p_ip4 : ℕ
  pub p_ip6 : ℕ
  pub protocols : Str → List ℕ
  pub value_for_protocol : ℕ → Str → Option Str
  pub parse_addr : Str → Option Ip
  pub is_private : Ip → Bool
  pub is_loopback : Ip → Bool
  pub is_link_local_unicast : Ip → Bool
  pub is_multicast : Ip → Bool
  pub is_unspecified : Ip → Bool
  pub addr_info_from_string : Str → Option AddrInfo
  pub addr_info_from_p2p_addr : Str → Option AddrInfo
  pub decode_peer_id : Str → Option Str
  pub encapsulate : Str → Str → Str
