-- ===== src/Tracker/Register.antt =====
-- tracker/server.go, handleRegisterPeer.
pub mod Accepted
pub mod Capacity
pub mod Replay
pub mod Own
use raag.Prelude.{
  ℕ, ◌+◌, Str, codes, ◌==◌, Bool, true, false, not, ◌&&◌, List, [], ◌∷◌, Option, none, some, Result,
  ok, err, is_ok, is_empty, eqb, leb, length, take, if◌then◌else◌,
}
use raag.Prelude.Dict.{Dict, get, put, has}
use raag.Auth.{Crypto, TrustedKeyManager, AuthToken, deserialize_token, verify_and_check_trust}
use raag.Clock.{unix}
use raag.Tracker.RateLimit.{RateLimiter, allow}
use raag.Tracker.Request.{
  Registration, Request, Addresses, extract_remote_ip, is_valid_registration_addr, observed_addrs,
}
use raag.Tracker.State.{Tracker, RegisteredPeer, is_nonce_valid}

abbrev pub max_peers : ℕ
max_peers = 10000

abbrev pub max_register_body : ℕ
max_register_body = 16384

pub data Refusal : Type 0 where
  method_not_allowed invalid_json missing_peer_id too_many_requests : Refusal
  invalid_peer_address peer_id_mismatch address_mismatch : Refusal
  authentication_required invalid_token_format authentication_failed tracker_full : Refusal

-- The HTTP status of a refusal.
unfoldable pub status : Refusal → ℕ
status method_not_allowed = 405
status invalid_json = 400
status missing_peer_id = 400
status too_many_requests = 429
status invalid_peer_address = 400
status peer_id_mismatch = 400
status address_mismatch = 400
status authentication_required = 401
status invalid_token_format = 401
status authentication_failed = 401
status tracker_full = 503

-- A part of the handler: it changes the tracker, and goes on with a value or refuses.
abbrev pub M : Type 0 → Type 0
M A = Tracker → Tracker × Result Refusal A

continue : {A B : Type 0} → Tracker × Result Refusal A → (A → M B) → Tracker × Result Refusal B
continue (t, ok a) f = f a t
continue (t, err e) f = (t, err e)

infixl 5 ◌>>=◌ ◌>>◌
unfoldable pub ◌>>=◌ : {A B : Type 0} → M A → (A → M B) → M B
unfolding continue
◌>>=◌ m f t = continue (m t) f

abbrev pub ◌>>◌ : {B : Type 0} → M Unit → M B → M B
m >> k = m >>= λ _. k

abbrev refuse_if : Bool → Refusal → M Unit
refuse_if true e t = (t, err e)
refuse_if false e t = (t, ok tt)

abbrev or_refuse : {A : Type 0} → Option A → Refusal → M A
or_refuse none e t = (t, err e)
or_refuse (some a) e t = (t, ok a)

check_rate : Str → ℕ → M Unit
check_rate ip now t =
    let (rl, allowed) = allow ip now t.rate_limiter in
    (record t { rate_limiter = rl }, if allowed then ok tt else err too_many_requests)

check_nonce : Str → ℕ → M Unit
check_nonce nonce now t =
    let (t', valid) = is_nonce_valid nonce now t in
    (t', if valid then ok tt else err authentication_failed)

-- `t.peers[req.PeerID] = …`, unless the peer is new and the map is full.
store_peer : Registration → List Str → ℕ → M Unit
store_peer req addrs now t =
    if not (has req.peer_id t.peers) && leb max_peers (length t.peers)
    then (t, err tracker_full)
    else (
      record t {
        peers =
            put req.peer_id (record { peer_id = req.peer_id; addrs = addrs; last_seen = now })
              t.peers;
      },
      ok tt,
    )

module _ (n : Addresses) (k : Crypto) where
  -- One round of the loop over the addresses.
  unfoldable pub check_addr : Str → Str → Str → Result Refusal Unit
  check_addr peer_id remote_ip addr = elim (n.addr_info_id addr) [
    | none ↦ err invalid_peer_address
    | some id ↦
        if not (id == peer_id)
        then err peer_id_mismatch
        else if not (is_valid_registration_addr n addr remote_ip)
        then err address_mismatch
        else ok tt
  ]

  abbrev prepend : Str → Result Refusal Unit → Result Refusal (List Str) → Result Refusal (List Str)
  prepend addr (err e) rest = err e
  prepend addr (ok _) (err e) = err e
  prepend addr (ok _) (ok addrs) = ok (addr ∷ addrs)

  unfoldable pub validate_addrs : Str → Str → List Str → Result Refusal (List Str)
  validate_addrs peer_id remote_ip [] = ok []
  validate_addrs peer_id remote_ip (addr ∷ addrs) =
      prepend addr (check_addr peer_id remote_ip addr) (validate_addrs peer_id remote_ip addrs)

  abbrev with_observed : Str → Registration → List Str
  with_observed remote_ip req = elim req.addrs [
    | [] ↦ observed_addrs n remote_ip req.peer_id
    | addr ∷ addrs ↦ addr ∷ addrs
  ]

  check_token : TrustedKeyManager → AuthToken → ℕ → M Unit
  check_token mgr token now t = (
    t,
    if is_ok (verify_and_check_trust k mgr token (unix now))
        then ok tt
        else err authentication_failed,
  )

  parse_token : Str → M AuthToken
  parse_token data_text t = elim (deserialize_token k data_text) [
    | ok token ↦ (t, ok token)
    | err _ ↦ (t, err invalid_token_format)
  ]

  unfoldable pub authenticate : Option TrustedKeyManager → Registration → ℕ → M Unit
  unfolding ◌>>=◌ parse_token check_nonce check_token
  authenticate none req now t = (t, ok tt)
  authenticate (some mgr) req now t = go t
    where
      go : M Unit
      go = do
        refuse_if (is_empty req.auth_data) authentication_required
        token ← parse_token req.auth_data
        refuse_if (not (token.peer_id == req.peer_id)) authentication_failed
        check_nonce token.nonce now
        check_token mgr token now

  parse_body : Request → M Registration
  parse_body r = or_refuse (n.decode_registration (take max_register_body r.body)) invalid_json

  lift_addrs : Result Refusal (List Str) → M (List Str)
  lift_addrs (ok addrs) t = (t, ok addrs)
  lift_addrs (err e) t = (t, err e)

  -- The handler up to the lock on the registry: what it will store, or a refusal.
  unfoldable pub admit : Request → ℕ → M (Registration × List Str)
  unfolding ◌>>=◌ parse_body check_rate lift_addrs
  admit r now t = go t
    where
      remote_ip : Str
      remote_ip = extract_remote_ip n r

      go : M (Registration × List Str)
      go = do
        refuse_if (not (r.method == codes "POST")) method_not_allowed
        req ← parse_body r
        refuse_if (is_empty req.peer_id) missing_peer_id
        check_rate remote_ip now
        addrs ← lift_addrs (validate_addrs req.peer_id remote_ip (with_observed remote_ip req))
        authenticate t.trusted_key_mgr req now
        λ u. (u, ok (req, addrs))

  unfoldable pub handle_register_peer : Request → ℕ → M Unit
  unfolding ◌>>=◌ store_peer
  handle_register_peer r now = admit r now >>= λ entry. store_peer entry.0 entry.1 now
