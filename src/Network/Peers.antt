-- ===== src/Network/Peers.antt =====
-- internal/network/network.go: the peers noted as connected and the online flag. What libp2p says
-- of its connections, ConnsToPeer and Peers, is an argument: the list of the peers of all
-- connections.
pub mod Online
use raag.Prelude.{
  ℕ, Str, ◌==◌, Bool, true, false, not, ◌&&◌, ◌||◌, List, [], ◌∷◌, Option, none, some, is_some,
  if◌then◌else◌,
}
use raag.Prelude.Dict.{Dict, get, put, remove, has}
use raag.Network.State.{NetworkManager}

-- The callbacks that are called where they are set, in order.
pub data Call : Type 0 where
  on_peer_join on_peer_leave : Str → Call
  on_state_change : Bool → Call

-- len(ConnsToPeer(id)) > 0
unfoldable pub has_conn : Str → List Str → Bool
has_conn id [] = false
has_conn id (p ∷ conns) = p == id || has_conn id conns

-- len(Peers()) == 0
abbrev pub no_conns : List Str → Bool
no_conns [] = true
no_conns (_ ∷ _) = false

note_peer : Str → NetworkManager → NetworkManager
note_peer id n = record n { connected_peers = put id true n.connected_peers }

-- The send on the channel of capacity one does not block.
go_online : Bool → NetworkManager → NetworkManager
go_online new n = record n { peer_connect_ch = new || n.peer_connect_ch; online = true }

state_change : Bool → Bool → List Call
state_change true b = on_state_change b ∷ []
state_change false b = []

-- `done` is what waitForHandshake answers; it is not asked when authentication is off.
unfoldable pub notify_peer_connected :
    Str → Bool → List Str → NetworkManager → List Call × NetworkManager
unfolding note_peer go_online state_change
notify_peer_connected id done conns n =
    if id == n.host_id
    then ([], n)
    else if n.auth_enabled && not done
    then ([], n)
    else if has_conn id conns
    then (
      on_peer_join id ∷ state_change (not n.online) true,
      go_online (not (has id n.connected_peers)) (note_peer id n),
    )
    else ([], note_peer id n)

-- Whether initiateHandshake is started, and the rest.
unfoldable pub handle_peer_connect :
    Str → Bool → List Str → NetworkManager → Bool × List Call × NetworkManager
handle_peer_connect id done conns n =
    if id == n.host_id
    then (false, [], n)
    else let (calls, n') = notify_peer_connected id done conns n in (n.auth_enabled, calls, n')

is_true : Str → Dict Bool → Bool
is_true id peers = elim (get id peers) [ some b ↦ b | none ↦ false ]

forget_peer : Str → NetworkManager → NetworkManager
unfolding is_true
forget_peer id n =
    if is_true id n.connected_peers
    then record n { connected_peers = remove id n.connected_peers }
    else n

leave : Str → List Str → NetworkManager → List Call × NetworkManager
unfolding state_change
leave id conns n = (
  on_peer_leave id ∷ state_change (no_conns conns && n.online) false,
  record n { online = not (no_conns conns) && n.online },
)

unfoldable pub handle_peer_disconnect : Str → List Str → NetworkManager → List Call × NetworkManager
unfolding forget_peer leave
handle_peer_disconnect id conns n =
    if has_conn id conns then ([], forget_peer id n) else leave id conns (forget_peer id n)

-- `failed` is whether the ping of a peer returned an error, `connected` is Connectedness. The
-- context of a ping is cancelled before its result is read, so that the select may take the branch
-- that returns; `stops` is whether it does.
unfoldable pub run_health_check :
    (Str → Bool) → (Str → Bool) → (Str → Bool) → List Str → NetworkManager → NetworkManager
run_health_check stops failed connected [] n = n
run_health_check stops failed connected (id ∷ ids) n =
    let next =
      if failed id && not (connected id)
      then record n { connected_peers = remove id n.connected_peers }
      else n in
    let rest = run_health_check stops failed connected ids next in if stops id then n else rest
