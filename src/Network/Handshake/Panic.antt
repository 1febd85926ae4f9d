-- ===== src/Network/Handshake/Panic.antt =====
-- What becomes of the goroutine that waits first for a peer's handshake.
use raag.Prelude.{ℕ, ◌≡◌, Str, Bool, true, none, some, arith}
use raag.Prelude.Dict.{Dict, get}
use raag.Network.State.{NetworkManager}
use raag.Network.Handshake.{
  is_closed, close_channel, make_channel, begin_wait, without, answer, end_first, end_other,
  signal_handshake_done,
}

-- A step of some goroutine, for some peer, that does not panic; `notify` is a peer that is noted as
-- connected, `drop` one that is removed.
pub data Step : NetworkManager → NetworkManager → Type 0 where
  begin : (peer : Str) (n : NetworkManager) → Step n (begin_wait peer n).1
  finish_first :
      (peer : Str) (ch : ℕ) (answered : Bool) (n m : NetworkManager)
      → end_first peer ch n ≡ some (answered, m)
      → Step n m
  finish_other : (peer : Str) (n : NetworkManager) → Step n (end_other peer n).1
  signal : (peer : Str) (n m : NetworkManager) → signal_handshake_done peer n ≡ some m → Step n m
  connected :
      (peers : Dict Bool) (n : NetworkManager) → Step n (record n { connected_peers = peers })

pub data Steps : NetworkManager → NetworkManager → Type 0 where
  done : (n : NetworkManager) → Steps n n
  more : {n m o : NetworkManager} → Step n m → Steps m o → Steps n o

Step-closed :
    (c : ℕ) {n m : NetworkManager}
    → Step n m
    → is_closed c n.closed ≡ true
    → is_closed c m.closed ≡ true
unfolding begin_wait make_channel end_first answer without end_other signal_handshake_done
    close_channel is_closed
Step-closed c (begin peer n) h = ground (arith, h)
Step-closed c (finish_first peer ch answered n m e) h = ground (arith, h, e)
Step-closed c (finish_other peer n) h = ground (arith, h)
Step-closed c (signal peer n m e) h = ground (arith, h, e)
Step-closed c (connected peers n) h = h

Steps-closed :
    (c : ℕ) {n m : NetworkManager}
    → Steps n m
    → is_closed c n.closed ≡ true
    → is_closed c m.closed ≡ true
Steps-closed c (done n) h = h
Steps-closed c (more s rest) h = Steps-closed c rest (Step-closed c s h)

signal_closes :
    (peer : Str) (ch : ℕ) (n m : NetworkManager)
    → get peer n.pending_handshakes ≡ some ch
    → signal_handshake_done peer n ≡ some m
    → is_closed ch m.closed ≡ true
unfolding signal_handshake_done close_channel without is_closed
signal_closes peer ch n m e s = ground (arith, e, s)

-- The goroutine that waits first for a peer's handshake panics when it resumes after the handshake
-- was signalled while its channel was pending, whatever happened before and after the signal: it
-- closes a channel that is closed.
pub end_first_panics :
    (peer : Str) (ch : ℕ) (n m o : NetworkManager)
    → get peer n.pending_handshakes ≡ some ch
    → signal_handshake_done peer n ≡ some m
    → Steps m o
    → end_first peer ch o ≡ none
unfolding end_first answer close_channel without
end_first_panics peer ch n m o e s rest =
    ground (arith, Steps-closed ch rest (signal_closes peer ch n m e s))
