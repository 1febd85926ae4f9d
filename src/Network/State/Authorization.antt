-- ===== src/Network/State/Authorization.antt =====
-- Which peers are authorized after a history of calls.
use raag.Prelude.{
  ◌≡◌, refl, Str, ◌==◌, Bool, true, false, ◌||◌, List, [], ◌∷◌, Option, none, some, arith,
}
use raag.Prelude.Dict.{Dict, get, put, has, get-put}
use raag.Network.State.{
  NetworkManager, new_network, set_auth_enabled, with_peer, authorize_peer, has_peer,
  is_peer_authorized,
}

pub data Call : Type 0 where
  switches : Bool → Call
  authorizes : Str → Call

unfoldable pub step : Call → NetworkManager → NetworkManager
step (switches on) n = set_auth_enabled on n
step (authorizes id) n = authorize_peer id n

unfoldable pub run : List Call → NetworkManager → NetworkManager
unfolding step
run [] n = n
run (c ∷ cs) n = run cs (step c n)

-- What one peer's authorization needs of a history: none while authentication is off, and otherwise
-- whether the peer was authorized since it was last switched on.
unfoldable pub track : Str → Call → Option Bool → Option Bool
track id (switches true) o = some false
track id (switches false) o = none
track id (authorizes j) none = none
track id (authorizes j) (some b) = some (j == id || b)

unfoldable pub track_all : Str → List Call → Option Bool → Option Bool
unfolding track
track_all id [] o = o
track_all id (c ∷ cs) o = track_all id cs (track id c o)

abbrev pub answer : Option Bool → Bool
answer none = true
answer (some b) = b

-- The manager's two fields as the tracked state.
unfoldable pub Agrees : Str → NetworkManager → Option Bool → Type 0
Agrees id n none = (n.auth_enabled ≡ false) × (n.authorized_peers ≡ none)
Agrees id n (some b) =
    (n.auth_enabled ≡ true)
    × (peers : Dict (Unit {0})) × (n.authorized_peers ≡ some peers)
    × (has id peers ≡ b)

step-Agrees :
    (id : Str) (c : Call) (n : NetworkManager) (o : Option Bool)
    → Agrees id n o
    → Agrees id (step c n) (track id c o)
unfolding step track Agrees set_auth_enabled authorize_peer with_peer get
step-Agrees id (switches true) n o a = (refl, [], refl, refl)
step-Agrees id (switches false) n o a = (refl, refl)
step-Agrees id (authorizes j) n none a = ground (arith, a)
step-Agrees id (authorizes j) n (some b) (on, peers, e, h) =
    (on, put j tt peers, ground (arith, e), ground (arith, h, get-put j id tt peers))

run-Agrees :
    (id : Str) (cs : List Call) (n : NetworkManager) (o : Option Bool)
    → Agrees id n o
    → Agrees id (run cs n) (track_all id cs o)
unfolding run track_all
run-Agrees id [] n o a = a
run-Agrees id (c ∷ cs) n o a = run-Agrees id cs (step c n) (track id c o) (step-Agrees id c n o a)

agreed :
    (id : Str) (n : NetworkManager) (o : Option Bool)
    → Agrees id n o
    → is_peer_authorized id n ≡ answer o
unfolding Agrees is_peer_authorized has_peer
agreed id n none a = ground (arith, a)
agreed id n (some b) (on, peers, e, h) = ground (arith, on, e, h)

-- After any calls to a new manager a peer is authorized exactly if authentication is off, or if the
-- peer was authorized since authentication was last switched on.
pub run-authorized :
    (host id : Str) (cs : List Call)
    → is_peer_authorized id (run cs (new_network host)) ≡ answer (track_all id cs none)
unfolding new_network Agrees
run-authorized host id cs =
    agreed id (run cs (new_network host)) (track_all id cs none)
      (run-Agrees id cs (new_network host) none (refl, refl))
