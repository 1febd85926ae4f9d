-- ===== src/Tracker/Register/Own.antt =====
-- The addresses that a registration stores name its peer.
use mathlib.Core.Path.{subst}
use raag.Prelude.{ℕ, ◌≡◌, refl, sym, Str, List, [], ◌∷◌, some, Result, ok, err, All, arith}
use raag.Prelude.Dict.{Dict, put}
use raag.Auth.{Crypto}
use raag.Tracker.Request.{Request, Registration, Addresses, extract_remote_ip}
use raag.Tracker.State.{Tracker, RegisteredPeer}
use raag.Tracker.Register.{Refusal, admit, continue, store_peer, handle_register_peer}
use raag.Tracker.Register.Accepted.{IsOwn, admit_sound}
use raag.Tracker.Register.Capacity.{Same, admit-Same}

abbrev pub Values : {V : Type 0} → (V → Type 0) → Dict V → Type 0
Values P [] = Unit
Values P ((k, v) ∷ m) = P v × Values P m

put-Values :
    {V : Type 0} (P : V → Type 0) (k : Str) (v : V) (m : Dict V)
    → P v
    → Values P m
    → Values P (put k v m)
unfolding put
put-Values P k v [] p h = (p, tt)
put-Values P k v ((j, w) ∷ m) p h = ground (arith, put-Values P k v m p h.1)

module _ (n : Addresses) where
  abbrev pub Names : Str → List Str → Type 0
  Names id addrs = All (λ a. n.addr_info_id a ≡ some id) addrs

  abbrev pub HasOwn : RegisteredPeer → Type 0
  HasOwn p = Names p.peer_id p.addrs

  own-Names :
      (id remote_ip : Str) (k : Crypto) (addrs : List Str)
      → All (IsOwn n k id remote_ip) addrs
      → Names id addrs
  own-Names id remote_ip k [] h = tt
  own-Names id remote_ip k (a ∷ addrs) h = (h.0.0, own-Names id remote_ip k addrs h.1)

  store-Values :
      (req : Registration) (addrs : List Str) (now : ℕ) (u : Tracker)
      → Names req.peer_id addrs
      → Values HasOwn u.peers
      → Values HasOwn (store_peer req addrs now u).0.peers
  unfolding store_peer
  store-Values req addrs now u names h = ground (
    arith,
    put-Values HasOwn req.peer_id (record { peer_id = req.peer_id; addrs = addrs; last_seen = now })
        u.peers names h,
  )

  module _ (k : Crypto) where
    pub register-Values :
        (r : Request) (now : ℕ) (t : Tracker)
        → Values HasOwn t.peers
        → Values HasOwn (handle_register_peer n k r now t).0.peers
    unfolding handle_register_peer
    register-Values r now t h = go (admit n k r now t) refl (admit-Same n k r now t)
      where
        go :
            (a : Tracker × Result Refusal (Registration × List Str))
            → admit n k r now t ≡ a
            → Same t a.0
            → Values HasOwn (continue a (λ e. store_peer e.0 e.1 now)).0.peers
        go (u, ok (req, addrs)) e s =
            store-Values req addrs now u
              (own-Names req.peer_id (extract_remote_ip n r) k addrs
                (admit_sound n k r now t u req addrs e).1)
              (subst (Values HasOwn) (sym s.peers) h)
        go (u, err x) e s = subst (Values HasOwn) (sym s.peers) h
