-- ===== src/Discovery/Client/Fetched.antt =====
-- Whose addresses are fetched from the tracker.
use raag.Prelude.{
  ◌≡◌, Str, eq_iff, true, List, [], ◌∷◌, Option, none, some, All, arith, Option-cases, inl, inr,
}
use raag.Prelude.Sort.{elem}
use raag.Auth.{Crypto}
use raag.Tracker.Request.{Addresses}
use raag.Tracker.State.{Tracker}
use raag.Tracker.Register.Own.{Values, HasOwn, Names}
use raag.Tracker.Register.Replay.{Event, run}
use raag.Tracker.Registry.{IsOwnEntry, given_addresses_own}
use raag.Tracker.Serve.{PeerEntry, handle_get_peers}
use raag.Discovery.{AddrInfo, Multiaddrs}
use raag.Discovery.World.{PeerResponse}
use raag.Discovery.Client.{peers_of, peer_of, gather_addrs, parse_p2p, merge, put_peer}

-- The tracker and its client read the same id in an address.
pub record IsSameReading (n : Addresses) (m : Multiaddrs) : Type 0 where
  pub reads :
      (addr ma : Str) (info : AddrInfo)
      → m.new_multiaddr addr ≡ some ma
      → m.addr_info_from_p2p_addr ma ≡ some info
      → n.addr_info_id addr ≡ some info.id

-- The tracker's answer, through JSON.
abbrev pub response : PeerEntry → PeerResponse
response p = record { peer_id = p.peer_id; addrs = p.addrs; last_seen = p.last_seen }

abbrev pub responses : List PeerEntry → List PeerResponse
responses [] = []
responses (p ∷ ps) = response p ∷ responses ps

abbrev pub ids : List PeerEntry → List Str
ids [] = []
ids (p ∷ ps) = p.peer_id ∷ ids ps

abbrev IsFrom : Str → Option AddrInfo → Type 0
IsFrom id none = Unit
IsFrom id (some info) = info.id ≡ id

abbrev AreFrom : List Str → List AddrInfo → Type 0
AreFrom names infos = All (λ (i : AddrInfo). elem i.id names ≡ true) infos

module _ (n : Addresses) (m : Multiaddrs) (same : IsSameReading n m) where
  parse-IsFrom : (id addr : Str) → n.addr_info_id addr ≡ some id → IsFrom id (parse_p2p m addr)
  unfolding parse_p2p
  parse-IsFrom id addr named = elim (Option-cases (m.new_multiaddr addr)) [
    | inl e ↦ ground (arith, e)
    | inr (ma, e) ↦ elim (Option-cases (m.addr_info_from_p2p_addr ma)) [
      | inl f ↦ ground (arith, e, f)
      | inr (info, f) ↦ ground (arith, e, f, same.reads addr ma info e f)
    ]
  ]

  merge-IsFrom :
      (id : Str) (info parsed : Option AddrInfo)
      → IsFrom id info
      → IsFrom id parsed
      → IsFrom id (merge m info parsed)
  unfolding merge
  merge-IsFrom id info none h k = h
  merge-IsFrom id none (some parsed) h k = k
  merge-IsFrom id (some info) (some parsed) h k = h

  gather-IsFrom :
      (id : Str) (seen : List Str) (info : Option AddrInfo) (addrs : List Str)
      → IsFrom id info
      → Names n id addrs
      → IsFrom id (gather_addrs m seen info addrs)
  unfolding gather_addrs
  gather-IsFrom id seen info [] h k = h
  gather-IsFrom id seen info (a ∷ addrs) h k = ground (
    arith,
    gather-IsFrom id seen info addrs h k.1,
    gather-IsFrom id (a ∷ seen) (merge m info (parse_p2p m a)) addrs
        (merge-IsFrom id info (parse_p2p m a) h (parse-IsFrom id a k.0)) k.1,
  )

  peer_of-IsFrom : (p : PeerEntry) → IsOwnEntry n p → IsFrom p.peer_id (peer_of m (response p))
  unfolding peer_of
  peer_of-IsFrom p own = ground (arith, gather-IsFrom p.peer_id [] none p.addrs tt own)

  weaken :
      (id : Str) (names : List Str) (infos : List AddrInfo)
      → AreFrom names infos
      → AreFrom (id ∷ names) infos
  unfolding elem
  weaken id names [] h = tt
  weaken id names (i ∷ infos) h = (ground (arith, h.0), weaken id names infos h.1)

  put-AreFrom :
      (id : Str) (names : List Str) (info : Option AddrInfo) (infos : List AddrInfo)
      → IsFrom id info
      → AreFrom names infos
      → AreFrom (id ∷ names) (put_peer m info infos)
  unfolding put_peer elem
  put-AreFrom id names none infos h k = weaken id names infos k
  put-AreFrom id names (some info) infos h k =
      (ground (arith, eq_iff id info.id, h), weaken id names infos k)

  peers_of-AreFrom :
      (ps : List PeerEntry) → All (IsOwnEntry n) ps → AreFrom (ids ps) (peers_of m (responses ps))
  unfolding peers_of
  peers_of-AreFrom [] h = tt
  peers_of-AreFrom (p ∷ ps) h =
      put-AreFrom p.peer_id (ids ps) (peer_of m (response p)) (peers_of m (responses ps))
        (peer_of-IsFrom p h.0) (peers_of-AreFrom ps h.1)

-- The peers that a client makes of a tracker's answer are ones that the answer names, though the client
-- takes their ids from the addresses alone: after any requests to register and cleanups of a tracker
-- whose registry was in order, such as an empty one, if both read the same ids in addresses.
pub fetched_peers_registered :
    (n : Addresses) (k : Crypto) (m : Multiaddrs) (es : List Event) (t : Tracker)
    → IsSameReading n m
    → Values (HasOwn n) t.peers
    → let given = handle_get_peers (run n k es t) in
      All (λ (i : AddrInfo). elem i.id (ids given) ≡ true) (peers_of m (responses given))
fetched_peers_registered n k m es t same h =
    peers_of-AreFrom n m same (handle_get_peers (run n k es t)) (given_addresses_own n k es t h)
