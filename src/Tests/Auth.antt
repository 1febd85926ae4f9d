-- ===== src/Tests/Auth.antt =====
-- Tokens at concrete keys.
use raag.Prelude.{◌+◌, ◌≤◌, ◌≡◌, refl, ◌↔◌, codes, [], some, ok, ◌==◌, arith, ap}
use raag.Prelude.Int.{ℤ, pos, negsuc}
use raag.Auth.{
  AuthToken, payload, sign_token, generate_token, verify_token, token_expiration,
  token_future_tolerance,
}
use raag.Auth.Verify.{IsSound, verify_token-generate_token}
use raag.Auth.Payload.{IsPlain, payload-injective}
use raag.Tests.Samples.{crypto, key, decimal}

abbrev pub bare : AuthToken
bare = record {
  peer_id = codes "alice";
  public_key = key;
  signature = [];
  timestamp = pos 1000;
  expires_at = pos 87400;
  nonce = codes "n1";
}

abbrev pub token : AuthToken
token = record bare { signature = sign_token crypto bare key }

pub token-made : generate_token crypto (codes "alice") key 1000 (some (codes "n1")) ≡ ok token
unfolding generate_token
token-made = refl

pub token-IsSound : IsSound crypto key (payload crypto token)
unfolding payload ◌==◌
token-IsSound = record {
  hex_back = refl;
  key_length = refl;
  base64_back = refl;
  base64_some = ground arith;
  verify_sign = refl;
}

verify_token-generate_token_example :
    (verify_token crypto token 2000 ≡ ok tt)
    ↔ ((2000 ≤ 1000 + token_expiration) × (1000 ≤ 2000 + token_future_tolerance))
verify_token-generate_token_example =
    verify_token-generate_token crypto (codes "alice") key 1000 2000 (codes "n1") (ground arith)
      token-made token-IsSound

decimal-IsPlain : (n : ℤ) → IsPlain (decimal n)
decimal-IsPlain (pos n) = ground arith
decimal-IsPlain (negsuc n) = ground arith

decimal-injective : (n m : ℤ) → decimal n ≡ decimal m → n ≡ m
decimal-injective (pos n) (pos m) e = ap pos (ground arith)
decimal-injective (pos n) (negsuc m) e = ground arith
decimal-injective (negsuc n) (pos m) e = ground arith
decimal-injective (negsuc n) (negsuc m) e = ap negsuc (ground arith)

payload-injective_example :
    (bare.peer_id ≡ token.peer_id)
    × (bare.public_key ≡ token.public_key)
    × (bare.timestamp ≡ token.timestamp)
    × (bare.expires_at ≡ token.expires_at)
    × (bare.nonce ≡ token.nonce)
unfolding payload
payload-injective_example =
    payload-injective crypto bare token (ground arith, ground arith) (ground arith, ground arith)
      decimal-IsPlain decimal-injective refl
