-- ===== src/Auth/Verify.antt =====
-- When a token is accepted.
use raag.Prelude.{ℕ, ◌+◌, ◌≤◌, ◌≡◌, ◌≢◌, ◌↔◌, Str, true, [], some, ok, length, arith}
use raag.Auth.{
  AuthToken, Crypto, public_key_size, token_expiration, token_future_tolerance, payload,
  generate_token, verify_token,
}

module _ (k : Crypto) where
  open k use {
    PrivKey, public, sign, verify, hex_encode, hex_decode, base64_encode, base64_decode, decimal,
    to_json, from_json,
  }

  -- What is documented of the libraries, at one key and one message.
  pub record IsSound (key : PrivKey) (message : Str) : Type 0 where
    pub hex_back : hex_decode (hex_encode (public key)) ≡ some (public key)
    pub key_length : length (public key) ≡ public_key_size
    pub base64_back : base64_decode (base64_encode (sign key message)) ≡ some (sign key message)
    pub base64_some : base64_encode (sign key message) ≢ []
    pub verify_sign : verify (public key) message (sign key message) ≡ true

  -- A token made at one time is accepted at another exactly if it has not expired then and was not
  -- made more than a minute after it, whatever else is in it, if the libraries are sound for its
  -- key and its payload and the peer has an id.
  pub verify_token-generate_token :
      (peer_id : Str) (key : PrivKey) (made now : ℕ) (nonce : Str) {t : AuthToken}
      → peer_id ≢ []
      → generate_token k peer_id key made (some nonce) ≡ ok t
      → IsSound key (payload k t)
      → (verify_token k t now ≡ ok tt)
        ↔ ((now ≤ made + token_expiration) × (made ≤ now + token_future_tolerance))
  unfolding generate_token verify_token payload
  verify_token-generate_token peer_id key made now nonce {t} named e s =
      ground (arith, s.hex_back, s.key_length, s.base64_back, s.base64_some, s.verify_sign)
