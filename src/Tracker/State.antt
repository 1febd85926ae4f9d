-- ===== src/Tracker/State.antt =====
-- tracker/server.go: the tracker and its configuration.
use raag.Prelude.{ℕ, Str, Bool, true, false, List, [], ◌∷◌, Option, none, some, eqb, if◌then◌else◌}
use raag.Prelude.Dict.{Dict, put, has}
use raag.Auth.{TrustedKeyManager, new_trusted_key_manager}
use raag.Auth.Trust.{add_keys}
use raag.Tracker.RateLimit.{RateLimiter, new_rate_limiter}

pub record RegisteredPeer : Type 0 where
  pub peer_id : Str
  pub addrs : List Str
  pub last_seen : ℕ

-- A libp2p host as the tracker sees it: its id and its addresses.
pub record Host : Type 0 where
  pub id : Str
  pub addrs : List Str

pub record Tracker : Type 0 where
  pub peers : Dict RegisteredPeer
  pub http_port : ℕ
  pub libp2p_port : ℕ
  pub host : Option Host
  pub relay_enabled : Bool
  pub started_at : ℕ
  pub trusted_key_mgr : Option TrustedKeyManager
  pub used_token_nonces : Dict ℕ
  pub rate_limiter : RateLimiter
  pub tls_enabled : Bool

pub record TrackerConfig : Type 0 where
  pub http_port : ℕ
  pub libp2p_port : ℕ
  pub relay_enabled : Bool
  pub auth_public_keys : List Str
  pub tls_enabled : Bool

abbrev port_or : ℕ → ℕ → ℕ
port_or port default = if eqb port 0 then default else port

abbrev trusting : List Str → Option TrustedKeyManager
trusting [] = none
trusting (key ∷ keys) = some (add_keys (key ∷ keys) new_trusted_key_manager)

unfoldable pub new_tracker : TrackerConfig → ℕ → Tracker
new_tracker cfg now = record {
  peers = [];
  http_port = port_or cfg.http_port 8080;
  libp2p_port = port_or cfg.libp2p_port 45678;
  host = none;
  relay_enabled = cfg.relay_enabled;
  started_at = now;
  trusted_key_mgr = trusting cfg.auth_public_keys;
  used_token_nonces = [];
  rate_limiter = new_rate_limiter;
  tls_enabled = cfg.tls_enabled;
}

-- An empty nonce is refused, a used one too, and any other is used up.
unfoldable pub is_nonce_valid : Str → ℕ → Tracker → Tracker × Bool
is_nonce_valid [] now t = (t, false)
is_nonce_valid (c ∷ nonce) now t =
    if has (c ∷ nonce) t.used_token_nonces
    then (t, false)
    else (record t { used_token_nonces = put (c ∷ nonce) now t.used_token_nonces }, true)
