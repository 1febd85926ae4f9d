-- ===== src/Auth/Trust.antt =====
-- Which keys are trusted.
use raag.Prelude.{ℕ, ◌≡◌, refl, ◌↔◌, Str, ◌==◌, eq_iff, true, false, ◌||◌, List, [], ◌∷◌, ok, arith}
use raag.Prelude.Dict.{get, get-put}
use raag.Prelude.Sort.{elem}
use raag.Auth.{
  AuthToken, Crypto, TrustedKeyManager, new_trusted_key_manager, add_key, is_trusted, verify_token,
  verify_and_check_trust,
}

unfoldable pub add_keys : List Str → TrustedKeyManager → TrustedKeyManager
add_keys [] m = m
add_keys (key ∷ keys) m = add_keys keys (add_key key m)

is_trusted-add_key :
    (j key : Str) (m : TrustedKeyManager)
    → is_trusted (add_key key m) j ≡ (key == j || is_trusted m j)
unfolding is_trusted add_key
is_trusted-add_key j key m = ground (arith, get-put key j tt m.trusted_keys, eq_iff key j)

is_trusted-add_keys :
    (j : Str) (keys : List Str) (m : TrustedKeyManager)
    → is_trusted (add_keys keys m) j ≡ (elem j keys || is_trusted m j)
unfolding add_keys elem
is_trusted-add_keys j [] m = refl
is_trusted-add_keys j (key ∷ keys) m =
    ground (arith, is_trusted-add_keys j keys (add_key key m), is_trusted-add_key j key m)

is_trusted-new : (j : Str) → is_trusted new_trusted_key_manager j ≡ false
unfolding is_trusted new_trusted_key_manager get
is_trusted-new j = refl

-- A token passes exactly if its public key is among the configured ones and the token verifies.
pub verify_and_check_trust_lem :
    (k : Crypto) (keys : List Str) (t : AuthToken) (now : ℕ)
    → (verify_and_check_trust k (add_keys keys new_trusted_key_manager) t now ≡ ok tt)
      ↔ ((elem t.public_key keys ≡ true) × (verify_token k t now ≡ ok tt))
unfolding verify_and_check_trust
verify_and_check_trust_lem k keys t now = ground (
  arith,
  is_trusted-add_keys t.public_key keys new_trusted_key_manager,
  is_trusted-new t.public_key,
)
