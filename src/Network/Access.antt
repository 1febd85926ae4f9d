-- ===== src/Network/Access.antt =====
-- internal/network/network.go: the check of a peer's token and the use of session nonces.
pub mod Tokens
pub mod Nonces
use raag.Prelude.{
  ℕ, ◌==◌, Str, Bool, true, false, not, ◌&&◌, List, [], ◌∷◌, Option, none, some, Result, ok, err,
  is_empty, if◌then◌else◌,
}
use raag.Prelude.Dict.{Dict, get, put, remove, has}
use raag.Auth.{AuthToken, Crypto, Error, verify_token, deserialize_token}
use raag.Clock.{unix}
use raag.Network.State.{NetworkManager}

pub data Refusal : Type 0 where
  no_token invalid_token peer_id_mismatch replayed_nonce verification_failed : Refusal

-- The nonce is recorded with the time of its use. The goroutine that forgets it five minutes later
-- is the step `forget` of the module Nonces.
unfoldable pub verify_nonce_used : ℕ → Str → NetworkManager → Result Refusal Unit × NetworkManager
verify_nonce_used now nonce n =
    if is_empty nonce
    then (ok tt, n)
    else if has nonce n.used_nonces
    then (err replayed_nonce, n)
    else (ok tt, record n { used_nonces = put nonce now n.used_nonces })

module _ (k : Crypto) where
  after_nonce :
      AuthToken → ℕ → Result Refusal Unit × NetworkManager → Result Refusal Unit × NetworkManager
  after_nonce t now (err e, n) = (err e, n)
  after_nonce t now (ok _, n) = elim (verify_token k t (unix now)) [
    | ok _ ↦ (ok tt, n)
    | err _ ↦ (err verification_failed, n)
  ]

  verify_found :
      ℕ → Result Error AuthToken → Str → Str → NetworkManager → Result Refusal Unit × NetworkManager
  unfolding after_nonce
  verify_found now (err _) expected nonce n = (err invalid_token, n)
  verify_found now (ok t) expected nonce n =
      if not (is_empty expected) && not (t.peer_id == expected)
      then (err peer_id_mismatch, n)
      else after_nonce t now (verify_nonce_used now nonce n)

  without_token : NetworkManager → Result Refusal Unit × NetworkManager
  without_token n = (if n.auth_enabled then err no_token else ok tt, n)

  unfoldable pub verify_auth_token :
      ℕ → Str → Str → Str → NetworkManager → Result Refusal Unit × NetworkManager
  unfolding verify_found without_token
  verify_auth_token now token_data expected nonce n =
      if is_empty token_data
      then without_token n
      else verify_found now (deserialize_token k token_data) expected nonce n
