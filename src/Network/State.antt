-- ===== src/Network/State.antt =====
-- internal/network/network.go: what a NetworkManager keeps, and its authorization switch.
pub mod Authorization
use raag.Prelude.{ℕ, Str, Bool, true, false, List, [], Option, none, some, if◌then◌else◌}
use raag.Prelude.Dict.{Dict, put, has}

-- A channel of `pendingHandshakes` is a number; `closed` lists the closed ones, and `next_channel`
-- is the next that `make` gives. `peer_connect_ch` is whether that channel of capacity one is full.
pub record NetworkManager : Type 0 where
  pub host_id : Str
  pub online : Bool
  pub auth_enabled : Bool
  pub authorized_peers : Option (Dict (Unit {0}))
  pub used_nonces : Dict ℕ
  pub connected_peers : Dict Bool
  pub peer_connect_ch : Bool
  pub pending_handshakes : Dict ℕ
  pub closed : List ℕ
  pub next_channel : ℕ

-- What newNetworkWithIdentity and Start leave.
unfoldable pub new_network : Str → NetworkManager
new_network id = record {
  host_id = id;
  online = false;
  auth_enabled = false;
  authorized_peers = none;
  used_nonces = [];
  connected_peers = [];
  peer_connect_ch = false;
  pending_handshakes = [];
  closed = [];
  next_channel = 0;
}

unfoldable pub set_auth_enabled : Bool → NetworkManager → NetworkManager
set_auth_enabled true n = record n { auth_enabled = true; authorized_peers = some [] }
set_auth_enabled false n = record n { auth_enabled = false; authorized_peers = none }

with_peer : Str → Option (Dict (Unit {0})) → Option (Dict (Unit {0}))
with_peer id none = none
with_peer id (some peers) = some (put id tt peers)

unfoldable pub authorize_peer : Str → NetworkManager → NetworkManager
unfolding with_peer
authorize_peer id n = record n { authorized_peers = with_peer id n.authorized_peers }

has_peer : Str → Option (Dict (Unit {0})) → Bool
has_peer id none = false
has_peer id (some peers) = has id peers

unfoldable pub is_peer_authorized : Str → NetworkManager → Bool
unfolding has_peer
is_peer_authorized id n = if n.auth_enabled then has_peer id n.authorized_peers else true
