-- ===== src/Network/Handshake.antt =====
-- internal/network/network.go: waiting for the handshake of a peer. A wait that blocks is two
-- steps, before and after the channel, so that the steps of other goroutines can stand between
-- them.
pub mod Handlers
pub mod Panic
use raag.Prelude.{
  ℕ, suc, Str, Bool, true, false, ◌||◌, List, [], ◌∷◌, Option, none, some, eqb, if◌then◌else◌,
}
use raag.Prelude.Dict.{Dict, get, put, remove, has}
use raag.Network.State.{NetworkManager}

-- A goroutine in waitForHandshake: the one that made the channel, or one that found it.
pub data Waiter : Type 0 where
  first : ℕ → Waiter
  other : ℕ → Waiter

unfoldable pub is_closed : ℕ → List ℕ → Bool
is_closed ch [] = false
is_closed ch (x ∷ xs) = eqb x ch || is_closed ch xs

-- `close`, which panics on a closed channel: then there is no state after it.
unfoldable pub close_channel : ℕ → NetworkManager → Option NetworkManager
close_channel ch n =
    if is_closed ch n.closed then none else some (record n { closed = ch ∷ n.closed })

make_channel : Str → NetworkManager → NetworkManager
make_channel peer n = record n {
  pending_handshakes = put peer n.next_channel n.pending_handshakes;
  next_channel = suc n.next_channel;
}

-- waitForHandshake up to the channel.
unfoldable pub begin_wait : Str → NetworkManager → Waiter × NetworkManager
unfolding make_channel
begin_wait peer n = elim (get peer n.pending_handshakes) [
  | some ch ↦ (other ch, n)
  | none ↦ (first n.next_channel, make_channel peer n)
]

without : Str → NetworkManager → NetworkManager
without peer n = record n { pending_handshakes = remove peer n.pending_handshakes }

answer : Str → Option NetworkManager → Option (Bool × NetworkManager)
answer peer none = none
answer peer (some n) = some (has peer n.connected_peers, n)

-- The rest of it: for the first waiter, once the channel is closed or the time is over.
unfoldable pub end_first : Str → ℕ → NetworkManager → Option (Bool × NetworkManager)
unfolding answer without
end_first peer ch n = answer peer (close_channel ch (without peer n))

-- For another waiter, once the channel is closed.
unfoldable pub end_other : Str → NetworkManager → Bool × NetworkManager
unfolding without
end_other peer n = (true, without peer n)

unfoldable pub signal_handshake_done : Str → NetworkManager → Option NetworkManager
unfolding without
signal_handshake_done peer n = elim (get peer n.pending_handshakes) [
  | some ch ↦ close_channel ch (without peer n)
  | none ↦ some n
]
