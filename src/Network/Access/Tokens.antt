-- ===== src/Network/Access/Tokens.antt =====
-- Which tokens a peer is let in with.
use raag.Prelude.{
  ℕ, ◌+◌, ◌≤◌, ◌≡◌, ◌≢◌, ◌↔◌, ◌⊎◌, inl, inr, Str, mismatch_iff, true, false, [], ◌∷◌, some, Result,
  ok, err, is_empty, arith, Result-cases,
}
use raag.Prelude.Dict.{has}
use raag.Auth.{
  AuthToken, Crypto, Error, payload, generate_token, verify_token, deserialize_token,
  serialize_token, token_expiration, token_future_tolerance,
}
use raag.Auth.Verify.{IsSound, verify_token-generate_token}
use raag.Clock.{unix}
use raag.Network.State.{NetworkManager}
use raag.Network.Access.{
  Refusal, verify_nonce_used, after_nonce, verify_found, without_token, verify_auth_token,
}

-- The nonce is none, or was not used.
unfoldable pub IsFresh : Str → NetworkManager → Type 0
IsFresh nonce n = (is_empty nonce ≡ true) ⊎ (has nonce n.used_nonces ≡ false)

module _ (k : Crypto) where
  -- The token is well formed, made for the expected peer, and verifies.
  pub IsGood : ℕ → Str → Str → Type 0
  IsGood now text expected =
      (t : AuthToken) × (deserialize_token k text ≡ ok t)
      × ((expected ≡ []) ⊎ (t.peer_id ≡ expected))
      × (verify_token k t (unix now) ≡ ok tt)

  after_nonce_iff :
      (t : AuthToken) (now : ℕ) (r : Result Refusal Unit) (n : NetworkManager)
      → ((after_nonce k t now (r, n)).0 ≡ ok tt)
        ↔ ((r ≡ ok tt) × (verify_token k t (unix now) ≡ ok tt))
  unfolding after_nonce
  after_nonce_iff t now (err e) n = ground arith
  after_nonce_iff t now (ok tt) n = elim (Result-cases (verify_token k t (unix now))) [
    | inl (u, e) ↦ ground (arith, e)
    | inr (u, e) ↦ ground (arith, e)
  ]

  verify_nonce_used_iff :
      (now : ℕ) (nonce : Str) (n : NetworkManager)
      → ((verify_nonce_used now nonce n).0 ≡ ok tt) ↔ IsFresh nonce n
  unfolding verify_nonce_used IsFresh
  verify_nonce_used_iff now nonce n = ground arith

  IsFor : ℕ → Result Error AuthToken → Str → Type 0
  IsFor now r expected =
      (t : AuthToken) × (r ≡ ok t)
      × ((expected ≡ []) ⊎ (t.peer_id ≡ expected))
      × (verify_token k t (unix now) ≡ ok tt)

  verify_found_iff :
      (now : ℕ) (r : Result Error AuthToken) (expected nonce : Str) (n : NetworkManager)
      → ((verify_found k now r expected nonce n).0 ≡ ok tt)
        ↔ (IsFresh nonce n × IsFor now r expected)
  unfolding verify_found IsFor
  verify_found_iff now (err e) expected nonce n = ground arith
  verify_found_iff now (ok t) expected nonce n = grind (
    arith,
    mismatch_iff expected t.peer_id,
    after_nonce_iff t now (verify_nonce_used now nonce n).0 (verify_nonce_used now nonce n).1,
    verify_nonce_used_iff now nonce n,
  )

  -- A peer is let in exactly if it sends no token and authentication is off, or if it sends a token
  -- that is well formed, made for that peer (where one is expected) and verifies, with a session
  -- nonce that is empty or was not used. A token is checked also when authentication is off.
  pub verify_auth_token_iff :
      (now : ℕ) (text expected nonce : Str) (n : NetworkManager)
      → ((verify_auth_token k now text expected nonce n).0 ≡ ok tt) ↔ (
          ((text ≡ []) × (n.auth_enabled ≡ false))
          ⊎ ((text ≢ []) × IsFresh nonce n × IsGood now text expected))
  unfolding verify_auth_token without_token IsGood IsFor
  verify_auth_token_iff now [] expected nonce n = ground arith
  verify_auth_token_iff now (c ∷ text) expected nonce n =
      ground (arith, verify_found_iff now (deserialize_token k (c ∷ text)) expected nonce n)

  generate_token-peer_id :
      (peer_id : Str) (key : k.PrivKey) (made : ℕ) (nonce : Str) {t : AuthToken}
      → generate_token k peer_id key made (some nonce) ≡ ok t
      → t.peer_id ≡ peer_id
  unfolding generate_token
  generate_token-peer_id peer_id key made nonce {t} e = ground arith

  -- Whatever key it was made with, a token that names the peer and is in date lets the peer in,
  -- with a session nonce that is empty or unused, if the libraries are sound for the key and the
  -- payload and the encoding of the token is not empty and is decoded.
  pub verify_auth_token_any_key :
      (peer_id nonce session : Str) (key : k.PrivKey) (made now : ℕ) (n : NetworkManager)
      {t : AuthToken}
      → peer_id ≢ []
      → generate_token k peer_id key made (some nonce) ≡ ok t
      → IsSound k key (payload k t)
      → serialize_token k t ≢ []
      → deserialize_token k (serialize_token k t) ≡ ok t
      → (unix now ≤ made + token_expiration) × (made ≤ unix now + token_future_tolerance)
      → IsFresh session n
      → (verify_auth_token k now (serialize_token k t) peer_id session n).0 ≡ ok tt
  unfolding IsGood
  verify_auth_token_any_key peer_id nonce session key made now n {t} named e sound some_bytes back
        dates fresh =
      let valid =
        (verify_token-generate_token k peer_id key made (unix now) nonce named e sound).1 dates in
      let id = generate_token-peer_id peer_id key made nonce e in
      (verify_auth_token_iff now (serialize_token k t) peer_id session n).1
        (inr (some_bytes, fresh, (t, back, inr id, valid)))

  -- A check leaves the handshakes as they are.
  pub verify_auth_token-handshakes :
      (now : ℕ) (text expected nonce : Str) (n : NetworkManager)
      → let m = (verify_auth_token k now text expected nonce n).1 in
        (m.pending_handshakes ≡ n.pending_handshakes) × (m.closed ≡ n.closed)
  unfolding verify_auth_token verify_found after_nonce without_token verify_nonce_used
  verify_auth_token-handshakes now text expected nonce n = ground arith
