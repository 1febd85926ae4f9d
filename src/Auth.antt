-- ===== src/Auth.antt =====
-- internal/auth/auth.go: signed tokens and the list of trusted keys. The signature scheme, the two
-- byte encodings and the JSON encoding are parameters.
pub mod Payload
pub mod Verify
pub mod Trust
use raag.Prelude.{
  ℕ, ◌+◌, ◌*◌, Str, codes, ◌==◌, Bool, true, false, not, List, [], ◌∷◌, ◌++◌, Option, none, some,
  Result, ok, err, ◌>>=◌, ◌>>◌, fail_if, or_fail, is_empty, length, eqb, if◌then◌else◌,
}
use raag.Prelude.Int.{ℤ, pos, ◌+ℤ◌, ltb_ℤ}
use raag.Prelude.Dict.{Dict, get, put, has}

pub record AuthToken : Type 0 where
  pub peer_id : Str
  pub public_key : Str
  pub signature : Str
  pub timestamp : ℤ
  pub expires_at : ℤ
  pub nonce : Str

pub data Error : Type 0 where
  empty_peer_id missing_signature token_expired issued_in_future : Error
  bad_public_key bad_key_length bad_signature_format bad_signature not_trusted : Error
  no_nonce bad_token_encoding bad_token_json : Error

-- ed25519, encoding/hex, encoding/base64, encoding/json and fmt's decimal at the types used here.
pub record Crypto : Type 1 where
  pub PrivKey : Type 0
  pub public : PrivKey → Str
  pub sign : PrivKey → Str → Str
  pub verify : Str → Str → Str → Bool
  pub hex_encode : Str → Str
  pub hex_decode : Str → Option Str
  pub base64_encode : Str → Str
  pub base64_decode : Str → Option Str
  pub decimal : ℤ → Str
  pub to_json : AuthToken → Str
  pub from_json : Str → Option AuthToken

-- ed25519.PublicKeySize
abbrev pub public_key_size : ℕ
public_key_size = 32

-- Seconds: constants.TokenExpiration, TokenFutureTolerance and TokenRefreshThreshold.
abbrev pub token_expiration : ℕ
token_expiration = 24 * 3600

abbrev pub token_future_tolerance : ℕ
token_future_tolerance = 60

module _ (k : Crypto) where
  open k use {
    PrivKey, public, sign, verify, hex_encode, hex_decode, base64_encode, base64_decode, decimal,
    to_json, from_json,
  }

  -- fmt.Sprintf("%s:%s:%d:%d:%s", …)
  unfoldable pub payload : AuthToken → Str
  payload t =
      t.peer_id
      ++ (codes ":"
          ++ (t.public_key
              ++ (codes ":"
                  ++ (decimal t.timestamp
                      ++ (codes ":" ++ (decimal t.expires_at ++ (codes ":" ++ t.nonce)))))))

  unfoldable pub sign_token : AuthToken → PrivKey → Str
  unfolding payload
  sign_token t key = base64_encode (sign key (payload t))

  unsigned : Str → PrivKey → ℕ → Str → AuthToken
  unsigned peer_id key now nonce = record {
    peer_id = peer_id;
    public_key = hex_encode (public key);
    signature = [];
    timestamp = pos now;
    expires_at = pos (now + token_expiration);
    nonce = nonce;
  }

  -- `now` is the time in seconds, `nonce` the random nonce, or none where there is none.
  unfoldable pub generate_token : Str → PrivKey → ℕ → Option Str → Result Error AuthToken
  unfolding unsigned sign_token
  generate_token peer_id key now none = err no_nonce
  generate_token peer_id key now (some nonce) =
      let t = unsigned peer_id key now nonce in ok (record t { signature = sign_token t key })

  -- The value beside the error is false whenever there is an error.
  unfoldable pub verify_token : AuthToken → ℕ → Result Error Unit
  unfolding payload
  verify_token t now = do
    fail_if (is_empty t.peer_id) empty_peer_id
    fail_if (is_empty t.signature) missing_signature
    fail_if (ltb_ℤ t.expires_at (pos now)) token_expired
    fail_if (ltb_ℤ (pos (now + token_future_tolerance)) t.timestamp) issued_in_future
    key ← or_fail (hex_decode t.public_key) bad_public_key
    fail_if (not (eqb (length key) public_key_size)) bad_key_length
    signature ← or_fail (base64_decode t.signature) bad_signature_format
    fail_if (not (verify key (payload t) signature)) bad_signature
    ok tt

  unfoldable pub serialize_token : AuthToken → Str
  serialize_token t = base64_encode (to_json t)

  unfoldable pub deserialize_token : Str → Result Error AuthToken
  deserialize_token s = do
    bytes ← or_fail (base64_decode s) bad_token_encoding
    or_fail (from_json bytes) bad_token_json

pub record TrustedKeyManager : Type 0 where
  pub trusted_keys : Dict (Unit {0})

unfoldable pub new_trusted_key_manager : TrustedKeyManager
new_trusted_key_manager = record { trusted_keys = [] }

unfoldable pub add_key : Str → TrustedKeyManager → TrustedKeyManager
add_key key m =
    if has key m.trusted_keys then m else record m { trusted_keys = put key tt m.trusted_keys }

unfoldable pub is_trusted : TrustedKeyManager → Str → Bool
is_trusted m key = has key m.trusted_keys

unfoldable pub verify_and_check_trust :
    Crypto → TrustedKeyManager → AuthToken → ℕ → Result Error Unit
verify_and_check_trust k m t now = do
  fail_if (not (is_trusted m t.public_key)) not_trusted
  verify_token k t now
