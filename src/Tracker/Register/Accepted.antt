-- ===== src/Tracker/Register/Accepted.antt =====
-- What a registration must carry to be accepted.
use mathlib.Core.Path.{subst}
use raag.Prelude.{
  ℕ, ◌≡◌, ◌≢◌, Str, codes, eq_iff, true, List, [], ◌∷◌, none, some, ok, All, arith, take,
  Result-cases, Option-cases, inl, inr,
}
use raag.Prelude.Dict.{get, get-put_self}
use raag.Auth.{Crypto, AuthToken, TrustedKeyManager, deserialize_token, verify_and_check_trust}
use raag.Clock.{unix}
use raag.Tracker.Request.{
  Request, Registration, Addresses, extract_remote_ip, is_valid_registration_addr,
}
use raag.Tracker.RateLimit.{allow}
use raag.Tracker.State.{Tracker, is_nonce_valid}
use raag.Tracker.Register.{
  max_register_body, check_addr, validate_addrs, with_observed, authenticate, admit,
}

module _ (n : Addresses) (k : Crypto) where
  -- An address names the peer, and suits the request's origin.
  abbrev pub IsOwn : Str → Str → Str → Type 0
  IsOwn peer_id remote_ip addr =
      (n.addr_info_id addr ≡ some peer_id) × (is_valid_registration_addr n addr remote_ip ≡ true)

  check_addr-IsOwn :
      (peer_id remote_ip addr : Str) {x : Unit}
      → check_addr n k peer_id remote_ip addr ≡ ok x
      → IsOwn peer_id remote_ip addr
  unfolding check_addr
  check_addr-IsOwn peer_id remote_ip addr e = elim (Option-cases (n.addr_info_id addr)) [
    | inl f ↦ ground arith
    | inr (id, f) ↦ ground (arith, eq_iff id peer_id)
  ]

  validate_addrs-IsOwn :
      (peer_id remote_ip : Str) (given addrs : List Str)
      → validate_addrs n k peer_id remote_ip given ≡ ok addrs
      → (addrs ≡ given) × All (IsOwn peer_id remote_ip) given
  unfolding validate_addrs
  validate_addrs-IsOwn peer_id remote_ip [] addrs e = ground arith
  validate_addrs-IsOwn peer_id remote_ip (addr ∷ given) addrs e =
      elim (Result-cases (validate_addrs n k peer_id remote_ip given)) [
        | inl (rest, f) ↦
            let (same, own) = validate_addrs-IsOwn peer_id remote_ip given rest f in
            (ground arith, (ground (arith, check_addr-IsOwn peer_id remote_ip addr), own))
        | inr (x, f) ↦ ground arith
      ]

  -- What is known of an admitted request.
  pub record IsAuthentic (mgr : TrustedKeyManager) (req : Registration) (now : ℕ) (t u : Tracker)
      (token : AuthToken) : Type 0 where
    pub carried : deserialize_token k req.auth_data ≡ ok token
    pub named : token.peer_id ≡ req.peer_id
    pub fresh : get token.nonce t.used_token_nonces ≡ none
    pub used_up : get token.nonce u.used_token_nonces ≡ some now
    pub verified : verify_and_check_trust k mgr token (unix now) ≡ ok tt

  authenticate-IsAuthentic :
      (mgr : TrustedKeyManager) (req : Registration) (now : ℕ) (t u : Tracker)
      → authenticate n k (some mgr) req now t ≡ (u, ok tt)
      → (token : AuthToken) × IsAuthentic mgr req now t u token
  unfolding authenticate is_nonce_valid
  authenticate-IsAuthentic mgr req now t u e =
      elim (Result-cases (deserialize_token k req.auth_data)) [
        | inl (token, f) ↦ (
          token,
          ground (
            arith,
            eq_iff token.peer_id req.peer_id,
            get-put_self token.nonce now t.used_token_nonces,
          ),
        )
        | inr (x, f) ↦ ground arith
      ]

  pub record IsAdmissible (r : Request) (now : ℕ) (t : Tracker) (req : Registration)
      (addrs : List Str) : Type 0 where
    pub post : r.method ≡ codes "POST"
    pub decoded : n.decode_registration (take max_register_body r.body) ≡ some req
    pub named : req.peer_id ≢ []
    pub allowed : (allow (extract_remote_ip n r) now t.rate_limiter).1 ≡ true
    pub validated :
        validate_addrs n k req.peer_id
          (extract_remote_ip n r)
          (with_observed n k (extract_remote_ip n r) req)
        ≡ ok addrs

  charged : Request → ℕ → Tracker → Tracker
  charged r now t = record t { rate_limiter = (allow (extract_remote_ip n r) now t.rate_limiter).0 }

  -- An admitted request passed every check, and the authentication last.
  admit-inv :
      (r : Request) (now : ℕ) (t u : Tracker) (req : Registration) (addrs : List Str)
      → admit n k r now t ≡ (u, ok (req, addrs))
      → IsAdmissible r now t req addrs
        × (authenticate n k t.trusted_key_mgr req now (charged r now t) ≡ (u, ok tt))
  unfolding admit charged
  admit-inv r now t u req addrs e = ground (arith, eq_iff r.method (codes "POST"))

  -- An admitted registration is a POST within the rate limit with a peer id; what it stores are
  -- addresses that each name this peer and suit the origin; and if the tracker trusts certain keys,
  -- it carries a token for this peer by a trusted key, valid now, whose nonce was not used
  -- before and is used from now on.
  pub admit_sound :
      (r : Request) (now : ℕ) (t u : Tracker) (req : Registration) (addrs : List Str)
      → admit n k r now t ≡ (u, ok (req, addrs))
      → IsAdmissible r now t req addrs
        × All (IsOwn req.peer_id (extract_remote_ip n r)) addrs
        × ((mgr : TrustedKeyManager)
            → t.trusted_key_mgr ≡ some mgr
            → (token : AuthToken) × IsAuthentic mgr req now t u token)
  unfolding charged
  admit_sound r now t u req addrs e =
      let (admissible, authentic) = admit-inv r now t u req addrs e in
      let (same, own) =
        validate_addrs-IsOwn req.peer_id (extract_remote_ip n r) _ addrs admissible.validated in
      (
        admissible,
        rw same own,
        λ mgr trusting. authenticated mgr (
            authenticate-IsAuthentic mgr req now (charged r now t) u (
              subst (λ m. authenticate n k m req now (charged r now t) ≡ (u, ok tt)) trusting
                authentic)),
      )
    where
      authenticated :
          (mgr : TrustedKeyManager)
          → (token : AuthToken) × IsAuthentic mgr req now (charged r now t) u token
          → (token : AuthToken) × IsAuthentic mgr req now t u token
      authenticated mgr (token, a) = (
        token,
        record {
          carried = a.carried;
          named = a.named;
          fresh = a.fresh;
          used_up = a.used_up;
          verified = a.verified;
        },
      )
