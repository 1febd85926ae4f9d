-- ===== src/Discovery/Register/Token.antt =====
-- How long a Manager shows the same token, and what the tracker makes of it.
use raag.Prelude.{ℕ, ◌+◌, ◌*◌, ◌≤◌, ◌≡◌, ◌≢◌, sym, ◌∙◌, ap, Str, List, none, some, ok, All, arith}
use raag.Clock.{second, hour, unix}
use raag.Auth.{Crypto, TrustedKeyManager, generate_token}
use raag.Tracker.Request.{Request, Registration, Addresses}
use raag.Tracker.State.{Tracker}
use raag.Tracker.Register.{admit}
use raag.Tracker.Register.Replay.{Event, Within, run, admit-same_data}
use raag.Discovery.World.{World}
use raag.Discovery.State.{Manager}
use raag.Discovery.Register.{lasts, get_auth_data, regenerate_auth_token, or_no_data}

module _ {w : World} {k : Crypto} where
  -- A Manager without a token, with a key and a random nonce, makes a token and shows it unchanged
  -- for the next 23 hours less a second.
  pub get_auth_data_again :
      (m : Manager w k) (key : k.PrivKey) (nonce : Str) (h : w.Host)
      → m.auth_key_pair ≡ some key
      → m.auth_token ≡ none
      → w.nonce m.host ≡ some nonce
      → w.now h + second ≤ w.now m.host + 23 * hour
      → (get_auth_data (record (get_auth_data m).0 { host = h })).1 ≡ (get_auth_data m).1
  unfolding get_auth_data regenerate_auth_token generate_token lasts unix
  get_auth_data_again m key nonce h has_key no_token random soon =
      ground (arith, has_key, no_token, random, soon)

  -- A tracker that trusts certain keys admits a Manager once: within 23 hours less a second of the
  -- token that a first request showed, which was admitted, a request that shows what the Manager
  -- then has is not admitted, whatever other requests and cleanups come in between, unless a cleanup
  -- came more than a day later than the first request.
  pub second_registration_refused :
      (n : Addresses) (m : Manager w k) (key : k.PrivKey) (nonce : Str) (h : w.Host)
      (r r' : Request) (made later : ℕ) (t u u' : Tracker) (mgr : TrustedKeyManager)
      (req req' : Registration) (addrs addrs' : List Str) (es : List Event)
      → m.auth_key_pair ≡ some key
      → m.auth_token ≡ none
      → w.nonce m.host ≡ some nonce
      → w.now h + second ≤ w.now m.host + 23 * hour
      → t.trusted_key_mgr ≡ some mgr
      → req.auth_data ≡ or_no_data (get_auth_data m).1
      → admit n k r made t ≡ (u, ok (req, addrs))
      → All (Within n k made) es
      → req'.auth_data ≡ or_no_data (get_auth_data (record (get_auth_data m).0 { host = h })).1
      → admit n k r' later (run n k es u) ≢ (u', ok (req', addrs'))
  second_registration_refused n m key nonce h r r' made later t u u' mgr req req' addrs addrs' es
        has_key no_token random soon trusting shown first w' shown' second' =
      admit-same_data n k r r' made later t u u' mgr req req' addrs addrs' es trusting first w'
        second'
        (shown
          ∙ ap or_no_data (sym (get_auth_data_again m key nonce h has_key no_token random soon))
          ∙ sym shown')
