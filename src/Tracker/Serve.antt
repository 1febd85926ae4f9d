-- ===== src/Tracker/Serve.antt =====
-- tracker/server.go: the answers of the tracker, and the dispatch on the path.
use raag.Prelude.{
  ℕ, zero, suc, ◌+◌, ◌≢◌, ◌-◌, ◌/◌, ◌≡◌, refl, Str, codes, ◌==◌, eq_iff, Bool, not, List, [], ◌∷◌,
  ◌++◌, none, some, Result, ok, err, arith, leb, length, take, if◌then◌else◌,
}
use raag.Prelude.Dict.{Dict}
use raag.Auth.{Crypto}
use raag.Clock.{unix, second}
use raag.Tracker.Request.{Request, Addresses}
use raag.Tracker.State.{Tracker, RegisteredPeer}
use raag.Tracker.Register.{Refusal, status, handle_register_peer}

abbrev pub max_peers_response : ℕ
max_peers_response = 50

pub record PeerEntry : Type 0 where
  pub peer_id : Str
  pub addrs : List Str
  pub last_seen : ℕ

-- The body of an answer.
pub data Body : Type 0 where
  about : Body
  peers : List PeerEntry → Body
  registered : Body
  refused : Refusal → Body
  addr : Bool → Str → Body
  health : ℕ → ℕ → Bool → Body
  not_found : Body

unfoldable pub host_id : Tracker → Str
host_id t = elim t.host [ none ↦ [] | some h ↦ h.id ]

first_addr : Str → List Str → Str
first_addr id [] = []
first_addr id (a ∷ as') = a ++ (codes "/p2p/" ++ id)

unfoldable pub multiaddr : Tracker → Str
unfolding first_addr
multiaddr t = elim t.host [ none ↦ [] | some h ↦ first_addr h.id h.addrs ]

unfoldable pub relay_addr : Tracker → Str
relay_addr t = elim t.host [
  | none ↦ []
  | some h ↦ if not t.relay_enabled then [] else codes "/p2p/" ++ (h.id ++ codes "/p2p-circuit")
]

abbrev pub entry_of : RegisteredPeer → PeerEntry
entry_of p = record { peer_id = p.peer_id; addrs = p.addrs; last_seen = unix p.last_seen }

-- The loop over the peers, with the entries collected so far and their number.
collect_peers : ℕ → Dict RegisteredPeer → List PeerEntry
collect_peers n [] = []
collect_peers n ((k, p) ∷ m) =
    let rest = collect_peers (suc n) m in if leb max_peers_response n then [] else entry_of p ∷ rest

unfoldable pub handle_get_peers : Tracker → List PeerEntry
unfolding collect_peers
handle_get_peers t = collect_peers 0 t.peers

unfoldable pub handle_health : Tracker → ℕ → Body
handle_health t now = health ((now - t.started_at) / second) (length t.peers) t.relay_enabled

unfoldable pub handle_get_addr : Tracker → Body
unfolding host_id
handle_get_addr t = addr t.relay_enabled (host_id t)

answer : Tracker × Result Refusal Unit → Tracker × ℕ × Body
answer (t, ok _) = (t, 200, registered)
answer (t, err e) = (t, status e, refused e)

-- The tracker after a request, the status and the body of its answer.
unfoldable pub serve_http : Addresses → Crypto → Request → ℕ → Tracker → Tracker × ℕ × Body
unfolding answer
serve_http n k r now t =
    if r.path == codes "/"
    then (t, 200, about)
    else if r.path == codes "/peers"
    then (t, 200, peers (handle_get_peers t))
    else if r.path == codes "/register"
    then answer (handle_register_peer n k r now t)
    else if r.path == codes "/addr"
    then (t, 200, handle_get_addr t)
    else if r.path == codes "/health"
    then (t, 200, handle_health t now)
    else (t, 404, not_found)

abbrev pub entries : Dict RegisteredPeer → List PeerEntry
entries [] = []
entries ((k, p) ∷ m) = entry_of p ∷ entries m

collect_peers-take :
    (n k : ℕ) (m : Dict RegisteredPeer)
    → n + k ≡ max_peers_response
    → collect_peers n m ≡ take k (entries m)
unfolding collect_peers
collect_peers-take n zero [] e = refl
collect_peers-take n (suc k) [] e = refl
collect_peers-take n zero ((j, p) ∷ m) e = ground arith
collect_peers-take n (suc k) ((j, p) ∷ m) e = ground (arith, collect_peers-take (suc n) k m)

-- A request for the peers is answered with the first fifty entries of the registry, in whatever
-- order the map yields them, and so with all of them while there are at most fifty.
pub handle_get_peers_lem :
    (t : Tracker) → handle_get_peers t ≡ take max_peers_response (entries t.peers)
unfolding handle_get_peers
handle_get_peers_lem t = collect_peers-take 0 max_peers_response t.peers (omega arith)

-- Only a request to register changes the tracker; every other request, known path or not, leaves it
-- as it is.
pub serve_http_read_only :
    (n : Addresses) (k : Crypto) (r : Request) (now : ℕ) (t : Tracker)
    → r.path ≢ codes "/register"
    → (serve_http n k r now t).0 ≡ t
unfolding serve_http
serve_http_read_only n k r now t h = ground (arith, eq_iff r.path (codes "/register"))
