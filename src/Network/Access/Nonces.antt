-- ===== src/Network/Access/Nonces.antt =====
-- A session nonce is refused as long as it is remembered.
use raag.Prelude.{ℕ, ◌+◌, ◌*◌, ◌≤◌, ◌<◌, ◌≡◌, ◌≢◌, Str, eq_iff, [], some, ok, arith}
use raag.Prelude.Dict.{get, remove, get-put, get-put_self, get-remove}
use raag.Auth.{Crypto}
use raag.Clock.{minute}
use raag.Network.State.{NetworkManager}
use raag.Network.Access.Tokens.{IsFresh, verify_auth_token_iff}
use raag.Network.Access.{
  verify_nonce_used, after_nonce, verify_found, without_token, verify_auth_token,
}

-- The goroutine that verifyNonceUsed starts, when it wakes.
unfoldable pub forget : Str → NetworkManager → NetworkManager
forget nonce n = record n { used_nonces = remove nonce n.used_nonces }

-- What changes the recorded nonces before the time `until`: a check of a token, and a wake-up,
-- which comes five minutes after the nonce was recorded or later.
module _ (k : Crypto) where
  pub data Step (until : ℕ) : NetworkManager → NetworkManager → Type 0 where
    check :
        (now : ℕ) (text expected nonce : Str) (n : NetworkManager)
        → now < until
        → Step until n (verify_auth_token k now text expected nonce n).1
    wake :
        (now used : ℕ) (nonce : Str) (n : NetworkManager)
        → now < until
        → get nonce n.used_nonces ≡ some used
        → used + 5 * minute ≤ now
        → Step until n (forget nonce n)

  pub data Steps (until : ℕ) : NetworkManager → NetworkManager → Type 0 where
    done : (n : NetworkManager) → Steps until n n
    more : (n m o : NetworkManager) → Step until n m → Steps until m o → Steps until n o

  check-keeps :
      (nonce other text expected : Str) (used now : ℕ) (n : NetworkManager)
      → get nonce n.used_nonces ≡ some used
      → get nonce (verify_auth_token k now text expected other n).1.used_nonces ≡ some used
  unfolding verify_auth_token verify_found after_nonce without_token verify_nonce_used
  check-keeps nonce other text expected used now n e =
      ground (arith, get-put other nonce now n.used_nonces, eq_iff other nonce)

  Steps-keeps :
      (nonce : Str) (until used : ℕ) {n m : NetworkManager}
      → Steps until n m
      → until ≤ used + 5 * minute
      → get nonce n.used_nonces ≡ some used
      → get nonce m.used_nonces ≡ some used
  unfolding forget
  Steps-keeps nonce until used (done n) h e = e
  Steps-keeps nonce until used (more _ _ _ (check now text expected other n _) rest) h e =
      Steps-keeps nonce until used rest h (check-keeps nonce other text expected used now n e)
  Steps-keeps nonce until used (more _ _ _ (wake now first other n early found elapsed) rest) h e =
      Steps-keeps nonce until used rest h
        (grind (arith, get-remove other nonce n.used_nonces, eq_iff other nonce))

  recorded :
      (now : ℕ) (text expected nonce : Str) (n : NetworkManager)
      → text ≢ []
      → nonce ≢ []
      → (verify_auth_token k now text expected nonce n).0 ≡ ok tt
      → get nonce (verify_auth_token k now text expected nonce n).1.used_nonces ≡ some now
  unfolding verify_auth_token verify_found after_nonce without_token verify_nonce_used
  recorded now text expected nonce n some_text some_nonce accepted =
      ground (arith, get-put_self nonce now n.used_nonces)

  refused :
      (now : ℕ) (text expected nonce : Str) (n : NetworkManager) {used : ℕ}
      → text ≢ []
      → nonce ≢ []
      → get nonce n.used_nonces ≡ some used
      → (verify_auth_token k now text expected nonce n).0 ≢ ok tt
  unfolding IsFresh
  refused now text expected nonce n some_text some_nonce h =
      ground (arith, verify_auth_token_iff k now text expected nonce n)

  -- Once a session nonce that is not empty has let a peer in, no token is accepted with it for five
  -- minutes, whatever other tokens are checked and whatever records expire in the meantime.
  pub session_nonce_once :
      (now later until : ℕ) (text again expected other nonce : Str) (n m : NetworkManager)
      → text ≢ []
      → again ≢ []
      → nonce ≢ []
      → (verify_auth_token k now text expected nonce n).0 ≡ ok tt
      → until ≤ now + 5 * minute
      → Steps until (verify_auth_token k now text expected nonce n).1 m
      → (verify_auth_token k later again other nonce m).0 ≢ ok tt
  session_nonce_once now later until text again expected other nonce n m some_text some_again
        some_nonce accepted h steps =
      let before = recorded now text expected nonce n some_text some_nonce accepted in
      refused later again other nonce m some_again some_nonce
        (Steps-keeps nonce until now steps h before)
