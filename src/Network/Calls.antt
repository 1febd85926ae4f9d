-- ===== src/Network/Calls.antt =====
-- internal/network/network.go: what a NetworkManager does for its callers. Its host is the one that
-- its discovery manager has; `has_discovery` is whether `n.discovery` is set.
use raag.Prelude.{
  ℕ, Str, codes, Bool, true, false, not, ◌||◌, List, [], ◌∷◌, ◌++◌, Option, none, some, Result, ok,
  err, eqb, length, if◌then◌else◌,
}
use raag.Auth.{Crypto}
use raag.Discovery.{AddrInfo, Multiaddrs}
use raag.Discovery.World.{World, Urls}
use raag.Discovery.Client.{no_addrs}
use raag.Discovery.State.{Manager, update_tracker_url}
use raag.Discovery.Register.{get_auth_data, try_refresh_registration}
use raag.Discovery.Peers.{get_all_peers}
use raag.Discovery.Connect.{on_host}
use raag.Discovery.Rounds.{AddError, add_bootstrap_peer}
use raag.Discovery.Status.{NetworkState, get_network_state, get_auth_public_key}

pub data Error : Type 0 where
  connect_failed disconnect_failed no_discovery invalid_multiaddress : Error
  not_added : AddError → Error

module _ (w : World) (k : Crypto) where
  pub record Net : Type 0 where
    pub manager : Manager w k
    pub has_discovery : Bool

-- The first of the protocols with a readable IP decides.
usable : Multiaddrs → Str → List ℕ → Bool
usable a ma [] = false
usable a ma (code ∷ codes') =
    let rest = usable a ma codes' in
    if not (eqb code a.p_ip4 || eqb code a.p_ip6)
    then rest
    else elim (a.value_for_protocol code ma) [
      | none ↦ rest
      | some comp ↦ elim (a.parse_addr comp) [
        | none ↦ rest
        | some ip ↦ not (a.is_loopback ip || a.is_unspecified ip)
      ]
    ]

unfoldable pub is_usable_addr : Multiaddrs → Str → Bool
unfolding usable
is_usable_addr a addr = elim (a.new_multiaddr addr) [
  | none ↦ false
  | some ma ↦ usable a ma (a.protocols ma)
]

first_usable : Multiaddrs → Str → List Str → Str
first_usable a first [] = first
first_usable a first (addr ∷ addrs) =
    let rest = first_usable a first addrs in if is_usable_addr a addr then addr else rest

with_id : Str → Str → Str
with_id addr id = addr ++ (codes "/p2p/" ++ id)

multiaddr_of : Multiaddrs → Str → List Str → Str
unfolding first_usable with_id
multiaddr_of a id [] = with_id [] id
multiaddr_of a id (addr ∷ addrs) = with_id (first_usable a addr (addr ∷ addrs)) id

peers_with : (w : World) → w.Host → List Str → List AddrInfo
peers_with w h [] = []
peers_with w h (id ∷ ids) =
    let rest = peers_with w h ids in
    elim (w.conns h id) [ [] ↦ rest | addr ∷ addrs ↦ record { id = id; addrs = addr ∷ [] } ∷ rest ]

module _ {w : World} {k : Crypto} where
  abbrev pub host : Net w k → w.Host
  host n = n.manager.host

  abbrev pub with_host : w.Host → Net w k → Net w k
  with_host h n = record n { manager = on_host h n.manager }

  unfoldable pub get_peers : Net w k → List AddrInfo
  unfolding peers_with
  get_peers n = peers_with w (host n) (w.connected (host n))

  unfoldable pub get_peer_count : Net w k → ℕ
  get_peer_count n = length (w.connected (host n))

  unfoldable pub is_online : Net w k → Bool
  is_online n = not (no_addrs (w.connected (host n)))

  -- Either branch of the select asks again; `woken` is the host then.
  unfoldable pub wait_for_peers : (w.Host → w.Host) → Net w k → Net w k × Bool
  unfolding is_online
  wait_for_peers woken n =
      if is_online n then (n, true) else let n' = with_host (woken (host n)) n in (n', is_online n')

  -- The registration's result is only logged.
  unfoldable pub connect : Urls → Multiaddrs → AddrInfo → Net w k → Net w k × Result Error Unit
  connect u a p n =
      let (h, done) = w.connect p (host n) in
      let n' = with_host h n in
      let (m, _) = try_refresh_registration u a n'.manager in
      if not done
      then (n', err connect_failed)
      else if n.has_discovery
      then (record n' { manager = m }, ok tt)
      else (n', ok tt)

  unfoldable pub disconnect : Str → Net w k → Net w k × Result Error Unit
  disconnect id n =
      let (h, done) = w.close_peer id (host n) in
      (with_host h n, if done then ok tt else err disconnect_failed)

  unfoldable pub get_peer_id : Net w k → Str
  get_peer_id n = w.host_id (host n)

  unfoldable pub get_multiaddr : Multiaddrs → Net w k → Str
  unfolding multiaddr_of
  get_multiaddr a n = multiaddr_of a (w.host_id (host n)) (w.listen_addrs (host n))

  unfoldable pub get_all_known_peers : Net w k → List AddrInfo
  get_all_known_peers n = if n.has_discovery then get_all_peers n.manager else []

  unfoldable pub network_state : Net w k → Result Error NetworkState
  network_state n = if n.has_discovery then ok (get_network_state n.manager) else err no_discovery

  unfoldable pub auth_public_key : Net w k → Str
  auth_public_key n = if n.has_discovery then get_auth_public_key n.manager else []

  unfoldable pub auth_data : Net w k → Net w k × Option Str
  auth_data n =
      let (m, text) = get_auth_data n.manager in
      if n.has_discovery then (record n { manager = m }, text) else (n, none)

  unfoldable pub update_tracker : Str → Net w k → Net w k
  update_tracker url n =
      if n.has_discovery then record n { manager = update_tracker_url url n.manager } else n

  added : Net w k → Manager w k × Result AddError Unit → Net w k × Result Error Unit
  added n (m, ok _) = (record n { manager = m }, ok tt)
  added n (m, err e) = (record n { manager = m }, err (not_added e))

  unfoldable pub add_bootstrap : Multiaddrs → Str → Net w k → Net w k × Result Error Unit
  unfolding added
  add_bootstrap a text n =
      if not n.has_discovery then (n, err no_discovery) else elim (a.addr_info_from_string text) [
        | none ↦ (n, err invalid_multiaddress)
        | some p ↦ added n (add_bootstrap_peer a p n.manager)
      ]
