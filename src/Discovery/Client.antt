-- ===== src/Discovery/Client.antt =====
-- internal/discovery/tracker.go: the tracker's client.
pub mod Fetched
use raag.Prelude.{
  ℕ, Str, codes, ◌==◌, Bool, true, false, not, ◌||◌, List, [], ◌∷◌, ◌++◌, Option, none, some,
  Result, ok, err, ◌>>=◌, ◌>>◌, fail_if, or_fail, is_empty, eqb, if◌then◌else◌,
}
use raag.Prelude.Sort.{elem}
use raag.Discovery.{AddrInfo, Multiaddrs}
use raag.Discovery.World.{World, Urls, Reply, PeerResponse, RegisterRequest, AddrResponse}

pub data ClientError : Type 0 where
  no_tracker_url bad_tracker_url bad_tracker_path request_failed bad_body unauthorized : ClientError
  bad_status : ℕ → ClientError

abbrev pub no_addrs : {A : Type 0} → List A → Bool
no_addrs [] = true
no_addrs (_ ∷ _) = false

module _ (u : Urls) where
  open u use {Url, parse, path_of, with_path, to_string, clean, dir, join}

  without_endpoint : Url → Url
  without_endpoint url =
      let path = clean (path_of url) in
      if path == codes "/peers" || path == codes "/register" || path == codes "/addr"
      then with_path (dir path) url
      else url

  unfoldable pub join_tracker_path : Str → Str → Result ClientError Str
  unfolding without_endpoint
  join_tracker_path base_url path = do
    url ← or_fail (parse base_url) bad_tracker_url
    or_fail (join (to_string (without_endpoint url)) path) bad_tracker_path

module _ (m : Multiaddrs) where
  open m use {new_multiaddr, addr_info_from_p2p_addr}

  parse_p2p : Str → Option AddrInfo
  parse_p2p addr = elim (new_multiaddr addr) [ none ↦ none | some ma ↦ addr_info_from_p2p_addr ma ]

  merge : Option AddrInfo → Option AddrInfo → Option AddrInfo
  merge info none = info
  merge none (some parsed) = some parsed
  merge (some info) (some parsed) = some (record info { addrs = info.addrs ++ parsed.addrs })

  -- The loop over the addresses of a peer: those seen, and `addrInfo` so far.
  gather_addrs : List Str → Option AddrInfo → List Str → Option AddrInfo
  unfolding parse_p2p merge
  gather_addrs seen info [] = info
  gather_addrs seen info (addr ∷ addrs) =
      let skipped = gather_addrs seen info addrs in
      let taken = gather_addrs (addr ∷ seen) (merge info (parse_p2p addr)) addrs in
      if is_empty addr || elem addr seen then skipped else taken

  unfoldable pub peer_of : PeerResponse → Option AddrInfo
  unfolding gather_addrs
  peer_of p = if is_empty p.peer_id || no_addrs p.addrs then none else gather_addrs [] none p.addrs

  put_peer : Option AddrInfo → List AddrInfo → List AddrInfo
  put_peer none peers = peers
  put_peer (some info) peers = info ∷ peers

  unfoldable pub peers_of : List PeerResponse → List AddrInfo
  unfolding peer_of put_peer
  peers_of [] = []
  peers_of (p ∷ ps) = put_peer (peer_of p) (peers_of ps)

-- What the code reads of an answer.
abbrev pub body_of : {A : Type 0} → Option (Reply A) → Result ClientError A
body_of reply = do
  r ← or_fail reply request_failed
  fail_if (not (eqb r.status 200)) (bad_status r.status)
  or_fail r.body bad_body

abbrev pub check_registered : Option ℕ → Result ClientError Unit
check_registered status = do
  code ← or_fail status request_failed
  fail_if (eqb code 401) unauthorized
  fail_if (not (eqb code 200)) (bad_status code)

module _ (w : World) (u : Urls) where
  open w use {Host, get_peers, get_addr, post_registration}

  unfoldable pub fetch_peers : Multiaddrs → Str → Host → Host × Result ClientError (List AddrInfo)
  fetch_peers m tracker_url h =
      if is_empty tracker_url
      then (h, err no_tracker_url)
      else elim (join_tracker_path u tracker_url (codes "peers")) [
        | err e ↦ (h, err e)
        | ok url ↦
            let (h', reply) = get_peers url h in
            (h', body_of reply >>= λ responses. ok (peers_of m responses))
      ]

  unfoldable pub register_peer : Str → List Str → Str → Str → Host → Host × Result ClientError Unit
  register_peer tracker_url addrs peer_id auth_data h =
      if is_empty tracker_url
      then (h, ok tt)
      else elim (join_tracker_path u tracker_url (codes "register")) [
        | err e ↦ (h, err e)
        | ok url ↦
            let (h', status) =
              post_registration url
                (record { addrs = addrs; peer_id = peer_id; auth_data = auth_data }) h in
            (h', check_registered status)
      ]

  unfoldable pub fetch_tracker_addr : Str → Host → Host × Result ClientError (Str × Str)
  fetch_tracker_addr tracker_url h =
      if is_empty tracker_url
      then (h, err no_tracker_url)
      else elim (join_tracker_path u tracker_url (codes "addr")) [
        | err e ↦ (h, err e)
        | ok url ↦
            let (h', reply) = get_addr url h in
            (h', body_of reply >>= λ answer. ok ([], answer.relay_addr))
      ]
