-- ===== src/Discovery/Backoff.antt =====
-- internal/discovery/manager.go: the loops that try again after a delay that doubles. What happens in
-- each turn is given by a list, and a loop that has used it up is still running.
use Prim.Native.Nat.{min}
use raag.Prelude.{ℕ, ◌*◌, Bool, true, false, List, [], ◌∷◌, ltb, Result, ok, err, if◌then◌else◌}

-- A turn of the loop: whether the context is done when it starts, and while it waits, and what the
-- attempt gets to see.
pub record Turn (A : Type 0) : Type 0 where
  pub done_before : Bool
  pub done_waiting : Bool
  pub reply : A

pub data End : Type 0 where
  succeeded cancelled running : End

-- The state after the loop, the delays it waited for, and how it ended.
pub record Ended (S : Type 0) : Type 0 where
  pub state : S
  pub waited : List ℕ
  pub how : End

abbrev waiting : {S : Type 0} → ℕ → Ended S → Ended S
waiting delay e = record e { waited = delay ∷ e.waited }

module _ {S A E : Type 0} (attempt : A → S → S × Result E Unit) where
  abbrev again : Bool → ℕ → S × Result E Unit → (S → Ended S) → Ended S
  again done delay (s, ok _) rest = record { state = s; waited = []; how = succeeded }
  again true delay (s, err e) rest = record { state = s; waited = delay ∷ []; how = cancelled }
  again false delay (s, err e) rest = waiting delay (rest s)

  -- The loop, by how it makes the next delay.
  unfoldable pub retry : (ℕ → ℕ) → ℕ → List (Turn A) → S → Ended S
  retry next delay [] s = record { state = s; waited = []; how = running }
  retry next delay (t ∷ ts) s =
      if t.done_before
      then record { state = s; waited = []; how = cancelled }
      else again t.done_waiting delay (attempt t.reply s) (retry next (next delay) ts)

-- The next delay of discoverFromTrackerWithRetry.
unfoldable pub next_min : ℕ → ℕ → ℕ
next_min most delay = min (delay * 2) most

-- The next delay of refreshRegistrationWithRetry.
unfoldable pub next_capped : ℕ → ℕ → ℕ
next_capped most delay = if ltb most (delay * 2) then most else delay * 2
