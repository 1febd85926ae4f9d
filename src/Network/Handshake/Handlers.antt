-- ===== src/Network/Handshake/Handlers.antt =====
-- internal/network/network.go: handleHandshake and initiateHandshake. What the streams and the token
-- source answer is an argument; every path signals the goroutines that wait for the peer.
pub mod Signals
use raag.Prelude.{ℕ, Str, Bool, true, false, [], Option, none, some, Result, ok, err, if◌then◌else◌}
use raag.Auth.{Crypto}
use raag.Network.State.{NetworkManager}
use raag.Network.Access
use raag.Network.Access.{verify_auth_token}
use raag.Network.Handshake.{signal_handshake_done}

-- What becomes of the stream and of the connection.
pub data Fate : Type 0 where
  authenticated stream_reset given_up connection_closed not_needed : Fate

-- `auth_data` is none where GetAuthData fails, `answer` where reading the stream does; it is what one
-- read into a buffer of 4096 bytes gave.
pub record Exchange : Type 0 where
  pub auth_data : Option Str
  pub no_stream : Bool
  pub answer : Option Str
  pub no_write : Bool

-- The end of a path: no state where the signal panics.
abbrev ending : Fate → Option NetworkManager → Option (Fate × NetworkManager)
ending fate none = none
ending fate (some n) = some (fate, n)

module _ (k : Crypto) (now : ℕ) (peer : Str) where
  signal_as : Fate → NetworkManager → Option (Fate × NetworkManager)
  signal_as fate n = ending fate (signal_handshake_done peer n)

  reply : Bool → Result Access.Refusal Unit × NetworkManager → Option (Fate × NetworkManager)
  unfolding signal_as
  reply no_write (err e, n) = signal_as stream_reset n
  reply no_write (ok _, n) = signal_as (if no_write then stream_reset else authenticated) n

  unfoldable pub handle_handshake : Exchange → NetworkManager → Option (Fate × NetworkManager)
  unfolding signal_as reply
  handle_handshake x n = elim x.auth_data [
    | none ↦ signal_as stream_reset n
    | some data_text ↦ elim x.answer [
      | none ↦ signal_as stream_reset n
      | some token ↦ reply x.no_write (verify_auth_token k now token peer [] n)
    ]
  ]

  conclude : Result Access.Refusal Unit × NetworkManager → Option (Fate × NetworkManager)
  unfolding signal_as
  conclude (err e, n) = signal_as connection_closed n
  conclude (ok _, n) = signal_as authenticated n

  -- What follows the test of authentication.
  initiate : Exchange → NetworkManager → Option (Fate × NetworkManager)
  unfolding signal_as conclude
  initiate x n = elim x.auth_data [
    | none ↦ signal_as given_up n
    | some data_text ↦
        if x.no_stream
        then signal_as given_up n
        else if x.no_write
        then signal_as given_up n
        else elim x.answer [
          | none ↦ signal_as given_up n
          | some token ↦ conclude (verify_auth_token k now token peer [] n)
        ]
  ]

  unfoldable pub initiate_handshake : Exchange → NetworkManager → Option (Fate × NetworkManager)
  unfolding initiate
  initiate_handshake x n = if n.auth_enabled then initiate x n else some (not_needed, n)
