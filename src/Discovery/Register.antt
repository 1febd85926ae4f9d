-- ===== src/Discovery/Register.antt =====
-- internal/discovery/manager.go: the token a Manager shows, and its registration with the tracker.
pub mod Token
use raag.Prelude.{
  ℕ, ◌+◌, ◌/◌, Str, codes, ◌==◌, Bool, true, false, List, [], ◌∷◌, ◌++◌, Option, none, some, map,
  Result, ok, err, is_empty, if◌then◌else◌,
}
use raag.Prelude.Int.{pos, ltb_ℤ}
use raag.Clock.{second, hour, unix}
use raag.Auth.{Crypto, AuthToken, generate_token, serialize_token}
use raag.Discovery.{Multiaddrs}
use raag.Discovery.World.{World, Urls}
use raag.Discovery.Addresses.{select_advertised_addresses}
use raag.Discovery.Client.{ClientError, register_peer, no_addrs}
use raag.Discovery.State.{Manager}
use raag.Discovery.Backoff.{Turn, Ended, End, retry, next_capped}

abbrev pub token_refresh_threshold : ℕ
token_refresh_threshold = hour

-- `time.Until(time.Unix(expiresAt, 0)) > threshold`: as many whole seconds are more than a time as
-- are more than its whole part.
unfoldable pub lasts : ℕ → AuthToken → Bool
lasts now t = ltb_ℤ (pos ((now + token_refresh_threshold) / second)) t.expires_at

pub data RegisterError : Type 0 where
  no_listening_addresses : RegisterError
  not_registered : ClientError → RegisterError
  context_done : RegisterError

abbrev pub or_no_data : Option Str → Str
or_no_data none = []
or_no_data (some data') = data'

module _ {w : World} {k : Crypto} where
  abbrev keep_token : Option AuthToken → Manager w k → Manager w k
  keep_token none m = m
  keep_token (some t) m = record m { auth_token = some t }

  abbrev new_token : k.PrivKey → Manager w k → Option AuthToken
  new_token key m =
      elim (generate_token k (w.host_id m.host) key (unix (w.now m.host)) (w.nonce m.host)) [
        | err e ↦ none
        | ok t ↦ some t
      ]

  unfoldable pub regenerate_auth_token : Manager w k → Manager w k
  regenerate_auth_token m = elim m.auth_key_pair [
    | none ↦ m
    | some key ↦ elim m.auth_token [
      | none ↦ keep_token (new_token key m) m
      | some t ↦ if lasts (w.now m.host) t then m else keep_token (new_token key m) m
    ]
  ]

  -- `none` is the error.
  unfoldable pub get_auth_data : Manager w k → Manager w k × Option Str
  get_auth_data m =
      let m' = regenerate_auth_token m in
      (m', elim m'.auth_token [ none ↦ none | some t ↦ some (serialize_token k t) ])

  registered :
      w.Host × Result ClientError Unit → Manager w k → Manager w k × Result RegisterError Unit
  registered (h, ok _) m = (record m { host = h }, ok tt)
  registered (h, err e) m = (record m { host = h }, err (not_registered e))

  module _ (u : Urls) (a : Multiaddrs) where
    -- The addresses that a Manager advertises.
    unfoldable pub addrs_with_peer_id : Manager w k → List Str
    addrs_with_peer_id m =
        map (λ addr. a.encapsulate addr (codes "/p2p/" ++ w.host_id m.host))
          (select_advertised_addresses a (w.listen_addrs m.host))

    unfoldable pub try_refresh_registration : Manager w k → Manager w k × Result RegisterError Unit
    unfolding registered
    try_refresh_registration m =
        if is_empty m.tracker_url
        then (m, ok tt)
        else if no_addrs (w.listen_addrs m.host)
        then (m, err no_listening_addresses)
        else let (m', auth_data) = get_auth_data m in
          registered
            (register_peer w u m'.client_url (addrs_with_peer_id m') (w.host_id m'.host)
              (or_no_data auth_data) m'.host)
            m'

    -- A turn of the loop is given by what happened to the host before it.
    abbrev pub refresh_after :
        (w.Host → w.Host) → Manager w k → Manager w k × Result RegisterError Unit
    refresh_after change m = try_refresh_registration (record m { host = change m.host })

    unfoldable pub refresh_registration_with_retry :
        List (Turn (w.Host → w.Host)) → Manager w k → Ended (Manager w k)
    refresh_registration_with_retry turns m =
        if is_empty m.tracker_url
        then record { state = m; waited = []; how = End.succeeded }
        else retry refresh_after (next_capped m.max_retry_delay) m.retry_delay turns m
