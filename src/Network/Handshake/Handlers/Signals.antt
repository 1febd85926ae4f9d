-- ===== src/Network/Handshake/Handlers/Signals.antt =====
-- Whoever waits for a handshake is released when it ends.
use raag.Prelude.{
  ℕ, ◌≡◌, refl, Str, eq_iff, Bool, true, false, [], ◌∷◌, Option, none, some, Result, ok, err, arith,
  Option-cases, inl, inr,
}
use raag.Prelude.Dict.{get, remove, get-remove}
use raag.Auth.{Crypto}
use raag.Network.State.{NetworkManager}
use raag.Network.Access
use raag.Network.Access.{verify_auth_token}
use raag.Network.Access.Tokens.{verify_auth_token-handshakes}
use raag.Network.Handshake.{is_closed, close_channel, without, signal_handshake_done}
use raag.Network.Handshake.Handlers.{
  Fate, Exchange, signal_as, reply, conclude, handle_handshake, initiate, initiate_handshake,
}

-- The channel that was pending for the peer is closed, and no channel is pending for it.
pub IsReleased : Str → NetworkManager → NetworkManager → Type 0
IsReleased peer n m =
    (get peer m.pending_handshakes ≡ none)
    × ((ch : ℕ) → get peer n.pending_handshakes ≡ some ch → is_closed ch m.closed ≡ true)

-- The handler ends without a panic, and releases who waits.
pub Releases : Str → NetworkManager → Option (Fate × NetworkManager) → Type 0
Releases peer n result =
    (fate : Fate) × (m : NetworkManager) × (result ≡ some (fate, m)) × IsReleased peer n m

-- A channel that is pending for the peer is open.
unfoldable pub IsOpen : Str → NetworkManager → Type 0
IsOpen peer n = (ch : ℕ) → get peer n.pending_handshakes ≡ some ch → is_closed ch n.closed ≡ false

module _ (k : Crypto) (now : ℕ) (peer : Str) where
  abbrev signalled : ℕ → NetworkManager → NetworkManager
  signalled ch m = record m {
    pending_handshakes = remove peer m.pending_handshakes;
    closed = ch ∷ m.closed;
  }

  signal_as-Releases :
      (fate : Fate) (n m : NetworkManager)
      → m.pending_handshakes ≡ n.pending_handshakes
      → m.closed ≡ n.closed
      → IsOpen peer n
      → Releases peer n (signal_as k now peer fate m)
  unfolding signal_as signal_handshake_done close_channel is_closed without Releases IsReleased
      IsOpen
  signal_as-Releases fate n m same closed open_ =
      elim (Option-cases (get peer n.pending_handshakes)) [
        | inl e ↦ (
          fate,
          m,
          ground (arith, e, same),
          (ground (arith, e, same), λ ch f. ground (arith, e, f)),
        )
        | inr (ch, e) ↦ (
          fate,
          signalled ch m,
          ground (arith, e, same, closed, open_ ch e),
          (
            ground (arith, eq_iff peer peer, get-remove peer peer m.pending_handshakes),
            λ other f. ground (arith, e, f),
          ),
        )
      ]

  reply-Releases :
      (no_write : Bool) (n m : NetworkManager) (r : Result Access.Refusal Unit)
      → m.pending_handshakes ≡ n.pending_handshakes
      → m.closed ≡ n.closed
      → IsOpen peer n
      → Releases peer n (reply k now peer no_write (r, m))
  unfolding reply
  reply-Releases no_write n m (ok u) = signal_as-Releases _ n m
  reply-Releases no_write n m (err e) = signal_as-Releases _ n m

  conclude-Releases :
      (n m : NetworkManager) (r : Result Access.Refusal Unit)
      → m.pending_handshakes ≡ n.pending_handshakes
      → m.closed ≡ n.closed
      → IsOpen peer n
      → Releases peer n (conclude k now peer (r, m))
  unfolding conclude
  conclude-Releases n m (ok u) = signal_as-Releases _ n m
  conclude-Releases n m (err e) = signal_as-Releases _ n m

  handle_handshake-Releases :
      (auth_data answer : Option Str) (no_stream no_write : Bool) (n : NetworkManager)
      → IsOpen peer n
      → Releases peer n (
          handle_handshake k now peer
            (record {
              auth_data = auth_data;
              no_stream = no_stream;
              answer = answer;
              no_write = no_write;
            })
            n)
  unfolding handle_handshake
  handle_handshake-Releases none answer no_stream no_write n open_ =
      signal_as-Releases _ n n refl refl open_
  handle_handshake-Releases (some d) none no_stream no_write n open_ =
      signal_as-Releases _ n n refl refl open_
  handle_handshake-Releases (some d) (some token) no_stream no_write n open_ =
      let (r, m) = verify_auth_token k now token peer [] n in
      let same = verify_auth_token-handshakes k now token peer [] n in
      reply-Releases no_write n m r same.0 same.1 open_

  initiate-Releases :
      (auth_data answer : Option Str) (no_stream no_write : Bool) (n : NetworkManager)
      → IsOpen peer n
      → Releases peer n (
          initiate k now peer
            (record {
              auth_data = auth_data;
              no_stream = no_stream;
              answer = answer;
              no_write = no_write;
            })
            n)
  unfolding initiate
  initiate-Releases none answer no_stream no_write n open_ =
      signal_as-Releases _ n n refl refl open_
  initiate-Releases (some d) answer true no_write n open_ = signal_as-Releases _ n n refl refl open_
  initiate-Releases (some d) answer false true n open_ = signal_as-Releases _ n n refl refl open_
  initiate-Releases (some d) none false false n open_ = signal_as-Releases _ n n refl refl open_
  initiate-Releases (some d) (some token) false false n open_ =
      let (r, m) = verify_auth_token k now token peer [] n in
      let same = verify_auth_token-handshakes k now token peer [] n in
      conclude-Releases n m r same.0 same.1 open_

  initiate_handshake-on :
      (x : Exchange) (n : NetworkManager)
      → n.auth_enabled ≡ true
      → initiate_handshake k now peer x n ≡ initiate k now peer x n
  unfolding initiate_handshake
  initiate_handshake-on x n on = ground (arith, on)

  -- A handshake with a peer whose pending channel is open, answered or started while
  -- authentication is on, ends without a panic however the streams, the token source and the
  -- verification turn out, and then the channel that was pending for the peer is closed and none
  -- is pending, so that whoever waits for it resumes.
  pub handshake-Releases :
      (x : Exchange) (n : NetworkManager)
      → n.auth_enabled ≡ true
      → IsOpen peer n
      → Releases peer n (handle_handshake k now peer x n)
        × Releases peer n (initiate_handshake k now peer x n)
  handshake-Releases x n on open_ = (
    handle_handshake-Releases x.auth_data x.answer x.no_stream x.no_write n open_,
    rw (initiate_handshake-on x n on)
        (initiate-Releases x.auth_data x.answer x.no_stream x.no_write n open_),
  )
