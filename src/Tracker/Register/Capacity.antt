-- ===== src/Tracker/Register/Capacity.antt =====
-- What a registration does to the registry, on every branch.
use raag.Prelude.{
  ℕ, ◌≤◌, ◌<◌, ◌⊎◌, inl, inr, ◌≡◌, refl, Str, ◌==◌, Bool, true, false, List, some, Result, ok, err,
  arith, length, leb, if◌then◌else◌, not, ◌&&◌, Bool-cases,
}
use raag.Prelude.Dict.{get, put, has, get-put, length-put, Distinct, put-Distinct}
use raag.Auth.{Crypto}
use raag.Tracker.Request.{Request, Registration, Addresses}
use raag.Tracker.State.{Tracker, RegisteredPeer, is_nonce_valid}
use raag.Tracker.Register.{
  Refusal, max_peers, continue, store_peer, authenticate, admit, handle_register_peer,
}

-- The maps that a step of the handler may not touch before the last one.
pub record Same (t u : Tracker) : Type 0 where
  pub peers : u.peers ≡ t.peers
  pub mgr : u.trusted_key_mgr ≡ t.trusted_key_mgr

abbrev entry : Registration → List Str → ℕ → RegisteredPeer
entry req addrs now = record { peer_id = req.peer_id; addrs = addrs; last_seen = now }

-- The peer's entry holds what it sent, and every other entry is as it was.
pub record IsStored (req : Registration) (addrs : List Str) (now : ℕ) (t u : Tracker) : Type 0 where
  pub entries :
      (j : Str)
      → get j u.peers ≡ (if req.peer_id == j then some (entry req addrs now) else get j t.peers)
  pub room : (has req.peer_id t.peers ≡ true) ⊎ (length t.peers < max_peers)

abbrev pub Outcome :
    Result Refusal (Registration × List Str) → ℕ → Tracker → Tracker → Result Refusal Unit → Type 0
Outcome admitted now t u (err e) = u.peers ≡ t.peers
Outcome admitted now t u (ok _) =
    (req : Registration) × (addrs : List Str) × (admitted ≡ ok (req, addrs))
    × IsStored req addrs now t u

room_of :
    (known : Bool) (n : ℕ)
    → (not known && leb max_peers n) ≡ false
    → (known ≡ true) ⊎ (n < max_peers)
room_of known n e = ground arith

-- A map of peers with one entry a key, within the cap.
pub record IsBounded (t : Tracker) : Type 0 where
  pub distinct : Distinct t.peers
  pub bounded : length t.peers ≤ max_peers

store_peer-Outcome :
    (req : Registration) (addrs : List Str) (now : ℕ) (t u : Tracker)
    → Same t u
    → Outcome (ok (req, addrs)) now t (store_peer req addrs now u).0 (store_peer req addrs now u).1
unfolding store_peer
store_peer-Outcome req addrs now t u s =
    elim (Bool-cases (not (has req.peer_id u.peers) && leb max_peers (length u.peers))) [
      | inl e ↦ rw e s.peers
      | inr e ↦ rw e (req, addrs, refl, stored e)
    ]
  where
    stored :
        (not (has req.peer_id u.peers) && leb max_peers (length u.peers)) ≡ false
        → IsStored req addrs now t
            (record u { peers = put req.peer_id (entry req addrs now) u.peers })
    stored e = record {
      entries = λ j. rw (← s.peers) (get-put req.peer_id j (entry req addrs now) u.peers);
      room = rw (← s.peers) (room_of (has req.peer_id u.peers) (length u.peers) e);
    }

store_peer-IsBounded :
    (req : Registration) (addrs : List Str) (now : ℕ) (u : Tracker)
    → IsBounded u
    → IsBounded (store_peer req addrs now u).0
unfolding store_peer
store_peer-IsBounded req addrs now u b = ground (
  arith,
  length-put req.peer_id (entry req addrs now) u.peers,
  put-Distinct req.peer_id (entry req addrs now) u.peers b.distinct,
)

module _ (n : Addresses) (k : Crypto) where
  pub admit-Same : (r : Request) (now : ℕ) (t : Tracker) → Same t (admit n k r now t).0
  unfolding admit authenticate is_nonce_valid
  admit-Same r now t = ground arith

  -- A refused registration leaves the registry as it was. An accepted one was admitted; it stores
  -- under the peer's id the validated addresses and the time, changes no other entry, and is of a
  -- peer that was there already or found fewer than the maximum of peers.
  pub handle_register_peer_effect :
      (r : Request) (now : ℕ) (t : Tracker)
      → Outcome
          (admit n k r now t).1
          now
          t
          (handle_register_peer n k r now t).0
          (handle_register_peer n k r now t).1
  unfolding handle_register_peer
  handle_register_peer_effect r now t = go (admit n k r now t) (admit-Same r now t)
    where
      go :
          (a : Tracker × Result Refusal (Registration × List Str))
          → Same t a.0
          → Outcome a.1 now t
              (continue a (λ e. store_peer e.0 e.1 now)).0
              (continue a (λ e. store_peer e.0 e.1 now)).1
      go (u, ok (req, addrs)) s = store_peer-Outcome req addrs now t u s
      go (u, err e) s = s.peers

  -- A registration, accepted or not, keeps the registry a map of at most ten thousand peers if it
  -- was one.
  pub handle_register_peer-IsBounded :
      (r : Request) (now : ℕ) (t : Tracker)
      → IsBounded t
      → IsBounded (handle_register_peer n k r now t).0
  unfolding handle_register_peer
  handle_register_peer-IsBounded r now t b = go (admit n k r now t) (admit-Same r now t)
    where
      keep : {u : Tracker} → Same t u → IsBounded u
      keep s = record { distinct = rw s.peers b.distinct; bounded = rw s.peers b.bounded }

      go :
          (a : Tracker × Result Refusal (Registration × List Str))
          → Same t a.0
          → IsBounded (continue a (λ e. store_peer e.0 e.1 now)).0
      go (u, ok (req, addrs)) s = store_peer-IsBounded req addrs now u (keep s)
      go (u, err e) s = keep s
