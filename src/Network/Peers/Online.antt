-- ===== src/Network/Peers/Online.antt =====
-- The online flag over the life of a manager.
use raag.Prelude.{
  ◌≡◌, ◌∙◌, Str, ◌==◌, eq_iff, true, false, not, List, [], ◌∷◌, some, if◌then◌else◌, All, arith,
}
use raag.Prelude.Dict.{get, has, get-remove}
use raag.Network.State.{NetworkManager}
use raag.Network.Peers.{
  has_conn, no_conns, note_peer, go_online, is_true, forget_peer, leave, notify_peer_connected,
  handle_peer_disconnect, handle_peer_connect,
}

-- Drop one connection of the peer.
unfoldable pub drop_conn : Str → List Str → List Str
drop_conn id [] = []
drop_conn id (p ∷ conns) = let rest = drop_conn id conns in if p == id then conns else p ∷ rest

pub data Event : Type 0 where
  connect disconnect : Str → Event

unfoldable pub step : Event → List Str × NetworkManager → List Str × NetworkManager
unfolding drop_conn
step (connect id) (conns, n) = (id ∷ conns, (handle_peer_connect id true (id ∷ conns) n).2)
step (disconnect id) (conns, n) =
    (drop_conn id conns, (handle_peer_disconnect id (drop_conn id conns) n).1)

unfoldable pub run : List Event → List Str × NetworkManager → List Str × NetworkManager
unfolding step
run [] s = s
run (e ∷ es) s = run es (step e s)

-- No connection to itself, which libp2p refuses to make.
unfoldable pub IsForeign : Str → Event → Type 0
IsForeign host (connect id) = (id == host) ≡ false
IsForeign host (disconnect id) = Unit

handle_peer_disconnect-online :
    (id : Str) (conns : List Str) (n : NetworkManager)
    → n.online ≡ true
    → (handle_peer_disconnect id conns n).1.online ≡ not (no_conns conns)
unfolding handle_peer_disconnect forget_peer leave has_conn
handle_peer_disconnect-online id [] n h = ground (arith, h)
handle_peer_disconnect-online id (c ∷ conns) n h = ground (arith, h)

step-online :
    (e : Event) (conns : List Str) (n : NetworkManager) (host : Str)
    → n.host_id ≡ host
    → IsForeign host e
    → n.online ≡ not (no_conns conns)
    → (step e (conns, n)).1.online ≡ not (no_conns (step e (conns, n)).0)
unfolding step handle_peer_connect notify_peer_connected handle_peer_disconnect note_peer go_online
    forget_peer leave IsForeign has_conn drop_conn
step-online (connect id) conns n host at other h = ground (arith, eq_iff id id, at)
step-online (disconnect id) [] n host at other h = ground arith
step-online (disconnect id) (p ∷ conns) n host at other h =
    handle_peer_disconnect-online id (drop_conn id (p ∷ conns)) n h

step-host_id :
    (e : Event) (conns : List Str) (n : NetworkManager) → (step e (conns, n)).1.host_id ≡ n.host_id
unfolding step handle_peer_connect notify_peer_connected handle_peer_disconnect note_peer go_online
    forget_peer leave
step-host_id (connect id) conns n = ground arith
step-host_id (disconnect id) conns n = ground arith

-- After any connections are made and lost, none to itself and with every handshake done, the
-- manager says that it is online exactly if a connection is left, if that was so before.
pub run-online :
    (es : List Event) (conns : List Str) (n : NetworkManager) (host : Str)
    → n.host_id ≡ host
    → All (IsForeign host) es
    → n.online ≡ not (no_conns conns)
    → (run es (conns, n)).1.online ≡ not (no_conns (run es (conns, n)).0)
unfolding run
run-online [] conns n host at others h = h
run-online (e ∷ es) conns n host at others h =
    run-online es (step e (conns, n)).0 (step e (conns, n)).1 host (step-host_id e conns n ∙ at)
      others.1 (step-online e conns n host at others.0 h)

-- A peer that loses one connection is not noted as connected afterwards, whatever connections to it
-- are left.
pub disconnect_forgets :
    (id : Str) (conns : List Str) (n : NetworkManager)
    → get id n.connected_peers ≡ some true
    → has id (handle_peer_disconnect id conns n).1.connected_peers ≡ false
unfolding handle_peer_disconnect forget_peer leave is_true
disconnect_forgets id conns n noted =
    ground (arith, eq_iff id id, get-remove id id n.connected_peers, noted)
