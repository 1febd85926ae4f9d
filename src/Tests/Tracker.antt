-- ===== src/Tests/Tracker.antt =====
-- The tracker at concrete requests.
use raag.Prelude.{
  ℕ, ◌*◌, ◌≤◌, ◌≡◌, refl, ◌≢◌, ◌↔◌, ◌⊎◌, All, Str, codes, true, false, List, [], ◌∷◌, none, some,
  ok, arith, length, ◌==◌, contains, to_lower, trim_space, trim_left, is_space, lower_byte,
  has_prefix, before_byte,
}
use raag.Prelude.Dict.{get, put, Dict}
use raag.Prelude.Int.{pos}
use raag.Clock.{second, unix}
use raag.Prelude.Paths.{base}
use raag.Auth.{
  AuthToken, TrustedKeyManager, add_key, new_trusted_key_manager, sign_token, deserialize_token,
  payload, is_trusted, verify_token, verify_and_check_trust,
}
use raag.Auth.Trust.{add_keys}
use raag.Tests.Samples.{crypto, key, addresses, addr, body_of, post_of, encode_token}
use raag.Tracker.RateLimit.{new_rate_limiter, allow, times, recent, rate_limit_max_registrations}
use raag.Tracker.RateLimit.Window.{Attempt, rate_limited, allow_exact}
use raag.Tracker.RateLimit.Window
use raag.Tracker.Request.{Registration, Request, extract_remote_ip, is_valid_registration_addr}
use raag.Tracker.Origin.{names_origin, Differs, is_valid_registration_addr_iff}
use raag.Tracker.State.{TrackerConfig, Tracker, new_tracker, is_nonce_valid}
use raag.Tracker.Register
use raag.Tracker.Register.{validate_addrs, check_addr, authenticate, admit, handle_register_peer}
use raag.Tracker.Register.Accepted.{IsAdmissible, IsOwn, IsAuthentic, admit_sound}
use raag.Tracker.Register.Capacity.{
  IsBounded, Outcome, handle_register_peer_effect, handle_register_peer-IsBounded,
}
use raag.Tracker.Register.Replay.{run, admit_once}

abbrev config : TrackerConfig
config = record {
  http_port = 0;
  libp2p_port = 0;
  relay_enabled = false;
  auth_public_keys = key ∷ [];
  tls_enabled = false;
}

abbrev pub ip : Str
ip = codes "9.8.7.6"

-- Eleven calls within a minute.
abbrev calls : List Attempt
calls =
    record { ip = ip; at = 1 }
    ∷ record { ip = ip; at = 2 }
    ∷ record { ip = ip; at = 3 }
    ∷ record { ip = ip; at = 4 }
    ∷ record { ip = ip; at = 5 }
    ∷ record { ip = ip; at = 6 }
    ∷ record { ip = ip; at = 7 }
    ∷ record { ip = ip; at = 8 }
    ∷ record { ip = ip; at = 9 }
    ∷ record { ip = ip; at = 10 }
    ∷ record { ip = ip; at = 11 }
    ∷ []

calls-InOrder : Window.InOrder 0 12 calls
calls-InOrder = ground arith

rate_limited_example :
    length (recent 12 ((Window.run calls new_rate_limiter (λ j. [])).1 ip))
    ≤ rate_limit_max_registrations
rate_limited_example = rate_limited calls 12 ip calls-InOrder

abbrev pub now : ℕ
now = 1000 * second

abbrev pub later : ℕ
later = 1001 * second

abbrev pub unsigned : Str → AuthToken
unsigned nonce = record {
  peer_id = codes "alice";
  public_key = key;
  signature = [];
  timestamp = pos 1000;
  expires_at = pos 87400;
  nonce = nonce;
}

abbrev pub token : Str → AuthToken
token nonce = record (unsigned nonce) { signature = sign_token crypto (unsigned nonce) key }

abbrev pub request : Str → Request
request nonce = post_of (body_of (encode_token (token nonce)) addr)

abbrev pub sent : Str → Registration
sent nonce = record {
  addrs = addr ∷ [];
  peer_id = codes "alice";
  auth_data = encode_token (token nonce);
}

abbrev pub mgr : TrustedKeyManager
mgr = record { trusted_keys = (key, tt) ∷ [] }

-- A tracker that trusts the key and has seen these nonces.
abbrev pub tracker_with : Dict (List ℕ) → Dict ℕ → Tracker
tracker_with requests nonces = record {
  peers = [];
  http_port = 8080;
  libp2p_port = 45678;
  host = none;
  relay_enabled = false;
  started_at = 0;
  trusted_key_mgr = some mgr;
  used_token_nonces = nonces;
  rate_limiter = record { requests = requests };
  tls_enabled = false;
}

abbrev pub start : Tracker
start = tracker_with [] []

abbrev pub after : Tracker
after = tracker_with ((ip, now ∷ []) ∷ []) ((codes "n1", now) ∷ [])

abbrev pub at_end : Tracker
at_end = tracker_with ((ip, now ∷ later ∷ []) ∷ []) ((codes "n1", now) ∷ (codes "n2", later) ∷ [])

start-new : new_tracker config 0 ≡ start
unfolding new_tracker add_keys add_key new_trusted_key_manager new_rate_limiter get put
start-new = refl

pub first_admitted :
    admit addresses crypto (request (codes "n1")) now start
    ≡ (after, ok (sent (codes "n1"), addr ∷ []))
unfolding admit sign_token ◌==◌ allow get put validate_addrs check_addr base
    is_valid_registration_addr contains to_lower extract_remote_ip trim_space trim_left is_space
    lower_byte has_prefix before_byte authenticate deserialize_token is_nonce_valid
    verify_and_check_trust is_trusted verify_token payload unix times Register.◌>>=◌
first_admitted = refl

second_admitted :
    admit addresses crypto (request (codes "n2")) later (run addresses crypto [] after)
    ≡ (at_end, ok (sent (codes "n2"), addr ∷ []))
unfolding admit run sign_token ◌==◌ allow get put validate_addrs check_addr base
    is_valid_registration_addr contains to_lower extract_remote_ip trim_space trim_left is_space
    lower_byte has_prefix before_byte authenticate deserialize_token is_nonce_valid
    verify_and_check_trust is_trusted verify_token payload unix times Register.◌>>=◌
second_admitted = refl

read_back :
    (nonce : Str)
    → length nonce ≡ 2
    → deserialize_token crypto (encode_token (token nonce)) ≡ ok (token nonce)
unfolding deserialize_token sign_token payload
read_back (a ∷ b ∷ []) h = refl
read_back [] h = ground arith
read_back (a ∷ []) h = ground arith
read_back (a ∷ b ∷ c ∷ s) h = ground arith

admit_once_example : (token (codes "n1")).nonce ≢ (token (codes "n2")).nonce
admit_once_example =
    admit_once addresses crypto (request (codes "n1")) (request (codes "n2")) now later start after
      at_end mgr (sent (codes "n1")) (sent (codes "n2")) (addr ∷ []) (addr ∷ []) []
      (token (codes "n1")) (token (codes "n2")) refl first_admitted (read_back (codes "n1") refl) tt
      second_admitted (read_back (codes "n2") refl)

admit_sound_example :
    IsAdmissible addresses crypto (request (codes "n1")) now start (sent (codes "n1")) (addr ∷ [])
    × All
        (IsOwn addresses crypto
          (codes "alice")
          (extract_remote_ip addresses (request (codes "n1"))))
        (addr ∷ [])
    × ((m : TrustedKeyManager)
        → start.trusted_key_mgr ≡ some m
        → (t : AuthToken) × IsAuthentic addresses crypto m (sent (codes "n1")) now start after t)
admit_sound_example =
    admit_sound addresses crypto (request (codes "n1")) now start after (sent (codes "n1"))
      (addr ∷ []) first_admitted

handle_register_peer_effect_example :
    Outcome
      (admit addresses crypto (request (codes "n1")) now start).1
      now
      start
      (handle_register_peer addresses crypto (request (codes "n1")) now start).0
      (handle_register_peer addresses crypto (request (codes "n1")) now start).1
handle_register_peer_effect_example =
    handle_register_peer_effect addresses crypto (request (codes "n1")) now start

handle_register_peer-IsBounded_example :
    IsBounded (handle_register_peer addresses crypto (request (codes "n1")) now start).0
handle_register_peer-IsBounded_example =
    handle_register_peer-IsBounded addresses crypto (request (codes "n1")) now start
      (record { distinct = tt; bounded = omega arith })

is_valid_registration_addr_iff_example :
    (is_valid_registration_addr addresses addr ip ≡ true)
    ↔ ((names_origin addresses addr ip ≡ true) ⊎ Differs addresses addr ip)
is_valid_registration_addr_iff_example = is_valid_registration_addr_iff addresses addr ip

abbrev health : Request
health = record (request (codes "n1")) { path = codes "/health" }
