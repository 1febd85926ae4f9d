-- ===== src/Tests/Discovery.antt =====
-- Discovery at concrete hosts and trackers.
use raag.Prelude.{
  ℕ, ◌+◌, ◌*◌, ◌≤◌, ◌≡◌, ◌≢◌, refl, Str, codes, true, false, List, [], ◌∷◌, some, ok, All, length,
  arith,
}
use raag.Prelude.Sort.{elem}
use raag.Clock.{second, unix}
use raag.Auth.{generate_token, sign_token, serialize_token, payload}
use raag.Prelude.Paths.{base}
use raag.Discovery.{AddrInfo, Multiaddrs}
use raag.Discovery.Addresses.{select_advertised_addresses}
use raag.Discovery.Addresses.Selected.{IsSelected, select_advertised_addresses-IsSelected}
use raag.Discovery.Backoff.{Turn}
use raag.Discovery.Client.{peers_of}
use raag.Discovery.Connect.{discover_from_tracker_with_retry}
use raag.Discovery.Loops.{closed, tracker_delays}
use raag.Discovery.Client.Fetched.{IsSameReading, responses, ids, fetched_peers_registered}
use raag.Discovery.Peers.Throttle.{peers_come, bootstraps, bootstraps_bounded}
use raag.Discovery.Register.{
  refresh_registration_with_retry, lasts, get_auth_data, regenerate_auth_token, or_no_data,
}
use raag.Discovery.Register.Token.{second_registration_refused}
use raag.Discovery.Rounds.Within.{by_mdns, by_dht, find_all, find_all_capped}
use raag.Discovery.State.{dht_bootstrap_throttle, dht_bootstrap_peer_threshold}
use raag.Tests.Samples.{crypto, key, addresses, addr}
use raag.Tests.Tracker.{now, later, request, sent, mgr, start, after, at_end, first_admitted}
use raag.Tests.World.{urls, Place, world, multiaddrs, world-IsPeerstore, made, start_time}
use raag.Tracker.Register.{admit}
use raag.Tracker.Register.Replay.{run, registers}
use raag.Tracker.Serve.{handle_get_peers}

abbrev listened : List Str
listened =
    codes "192.168.0.2/tcp/1" ∷ (codes "9.9.9.9/tcp/1" ∷ (codes "9.9.9.9/udp/1/quic-v1" ∷ []))

select_advertised_addresses-IsSelected_example :
    IsSelected multiaddrs listened (select_advertised_addresses multiaddrs listened)
select_advertised_addresses-IsSelected_example =
    select_advertised_addresses-IsSelected multiaddrs listened

abbrev at : ℕ → Place
at t = (t, codes "alice" ∷ [])

bootstraps_bounded_example :
    bootstraps (peers_come (at (start_time + second) ∷ []) made)
        * (dht_bootstrap_peer_threshold * dht_bootstrap_throttle)
      + dht_bootstrap_peer_threshold * made.last_bootstrap
    ≤ bootstraps made * (dht_bootstrap_peer_threshold * dht_bootstrap_throttle)
      + dht_bootstrap_throttle * (made.peer_count_since_bootstrap + 1)
      + dht_bootstrap_peer_threshold * (start_time + 2 * second)
bootstraps_bounded_example =
    bootstraps_bounded start_time (start_time + 2 * second) (at (start_time + second) ∷ []) made
      refl (omega arith) (omega arith, omega arith)

abbrev bob : AddrInfo
bob = record { id = codes "bob"; addrs = codes "9.9.9.9/tcp/1" ∷ [] }

find_all_capped_example :
    length (world.known (find_all multiaddrs (by_mdns bob ∷ (by_dht (bob ∷ []) ∷ [])) made).host)
    ≤ 2
find_all_capped_example =
    find_all_capped multiaddrs (by_mdns bob ∷ (by_dht (bob ∷ []) ∷ [])) made world-IsPeerstore
      (omega arith)

-- The Manager shows the token that the tracker was sent.
first_shown : (sent (codes "n1")).auth_data ≡ or_no_data (get_auth_data made).1
unfolding get_auth_data regenerate_auth_token generate_token sign_token payload serialize_token unix
first_shown = refl

second_registration_refused_example :
    admit addresses crypto (request (codes "n1")) later (run addresses crypto [] after)
    ≢ (at_end, ok (sent (codes "n1"), []))
unfolding get_auth_data regenerate_auth_token generate_token sign_token payload serialize_token unix
    lasts
second_registration_refused_example =
    second_registration_refused addresses made key (codes "n1") (at later) (request (codes "n1"))
      (request (codes "n1")) now later start after at_end mgr (sent (codes "n1"))
      (sent (codes "n1")) (addr ∷ []) [] [] refl refl refl (omega arith) refl first_shown
      first_admitted tt refl

-- Addresses read as the tracker of the samples reads them.
abbrev plain : Multiaddrs
plain = record multiaddrs {
  addr_info_from_p2p_addr = λ s. some (record { id = base s; addrs = s ∷ [] });
}

plain-IsSameReading : IsSameReading addresses plain
plain-IsSameReading = record { reads = λ addr ma info e f. ground (arith, e, f) }

fetched_peers_registered_example :
    let given =
      handle_get_peers (run addresses crypto (registers (request (codes "n1")) now ∷ []) start) in
    All (λ (i : AddrInfo). elem i.id (ids given) ≡ true) (peers_of plain (responses given))
fetched_peers_registered_example =
    fetched_peers_registered addresses crypto plain (registers (request (codes "n1")) now ∷ [])
      start plain-IsSameReading tt

abbrev waiting_turn : Turn (Place → Place)
waiting_turn = record { done_before = false; done_waiting = false; reply = λ h. h }

tracker_delays_example :
    let registering =
      (refresh_registration_with_retry urls multiaddrs (waiting_turn ∷ []) made).waited in
    let discovering =
      (discover_from_tracker_with_retry urls multiaddrs (waiting_turn ∷ []) made).waited in
    (registering ≡ closed (10 * second) second 0 (length registering))
    × (discovering ≡ closed (10 * second) second 0 (length discovering))
tracker_delays_example =
    tracker_delays urls multiaddrs (waiting_turn ∷ []) made (omega arith) (omega arith)
