-- ===== src/Player/Queue.antt =====
-- The index into the queue.
use raag.Prelude.{
  ℕ, zero, suc, ◌+◌, ◌-◌, ◌<◌, ◌≡◌, refl, ◌≢◌, Bool, List, [], ◌∷◌, Result, ok, err, length,
  length-append, get_elem?-some, arith, inl, inr, ◌⊎◌, All,
}
use raag.Prelude.Int.{ℤ, pos, negsuc, ◌+ℤ◌, ◌≤ℤ◌, ◌<ℤ◌}
use raag.Song.{Song}
use raag.Player.{
  Error, Float, Player, Opening, index_panic, new_player, play, move_to, select_song_at_index,
  play_queue, next, previous, stop, stop_playback, add_to_queue, pause, resume, track_end,
}

index-cases : (i : ℤ) → negsuc 0 ≤ℤ i → (i ≡ negsuc 0) ⊎ ((n : ℕ) × (i ≡ pos n))
index-cases (pos n) h = inr (n, refl)
index-cases (negsuc zero) h = inl refl
index-cases (negsuc (suc n)) h = absurd (omega arith)

module _ {x : Float} where
  -- The index is -1, or the position of a song.
  abbrev pub InQueue : Player x → Type 0
  InQueue p = (negsuc 0 ≤ℤ p.current_index) × (p.current_index <ℤ pos (length p.queue))

  stop_playback-queue :
      (p : Player x)
      → ((stop_playback p).queue ≡ p.queue) × ((stop_playback p).current_index ≡ p.current_index)
  unfolding stop_playback
  stop_playback-queue p = ground arith

  play-queue :
      (o : Opening) (p : Player x)
      → ((play o p).0.queue ≡ p.queue) × ((play o p).0.current_index ≡ p.current_index)
  unfolding play
  play-queue o p = ground arith

  play_ne_panic : (o : Opening) (p : Player x) → (play o p).1 ≢ err index_panic
  unfolding play
  play_ne_panic o p = ground arith

  -- What a method that plays leaves behind: a good index, and no read outside the queue.
  pub record IsSafe (r : Player x × Result Error Unit) : Type 0 where
    pub in_queue : InQueue r.0
    pub no_panic : r.1 ≢ err index_panic

  move_to-IsSafe :
      (o : Opening) (i : ℕ) (p : Player x) → i < length p.queue → IsSafe (move_to o (pos i) p)
  unfolding move_to
  move_to-IsSafe o i p h =
      let q = record p { current_index = pos i } in
      let (song, e) = get_elem?-some p.queue i h in
      rw e (record {
        in_queue = rw (play-queue o q).0 (rw (play-queue o q).1 (omega arith));
        no_panic = play_ne_panic o q;
      })

  next-IsSafe : (o : Opening) (p : Player x) → InQueue p → IsSafe (next o p)
  unfolding next ◌+ℤ◌
  next-IsSafe o p h = elim (index-cases p.current_index h.0) [
    | inl e ↦ ground (arith, move_to-IsSafe o 0 p)
    | inr (n, e) ↦ ground (arith, move_to-IsSafe o (n + 1) p)
  ]

  previous-IsSafe : (o : Opening) (p : Player x) → InQueue p → IsSafe (previous o p)
  unfolding previous ◌+ℤ◌
  previous-IsSafe o p h = elim (index-cases p.current_index h.0) [
    | inl e ↦ ground arith
    | inr (n, e) ↦ ground (arith, move_to-IsSafe o (n - 1) p)
  ]

  play_queue-IsSafe : (o : Opening) (p : Player x) → InQueue p → IsSafe (play_queue o p)
  unfolding play_queue select_song_at_index
  play_queue-IsSafe o p h = ground (
    arith,
    play-queue o p,
    play-queue o (record p { current_index = pos 0 }),
    play_ne_panic o (record p { current_index = pos 0 }),
  )

-- The calls that reach the queue or its index.
pub data Call : Type 0 where
  plays_queue nexts previouses : Opening → Call
  track_ends : Bool → Opening → Call
  adds : Song → Call
  stops pauses resumes : Call

module _ {x : Float} where
  abbrev done : Player x → Player x × Result Error Unit
  done p = (p, ok tt)

  unfoldable pub step : Call → Player x → Player x × Result Error Unit
  step (plays_queue o) p = play_queue o p
  step (nexts o) p = next o p
  step (previouses o) p = previous o p
  step (track_ends set o) p = done (track_end set o p)
  step (adds song) p = done (add_to_queue song p)
  step stops p = done (stop p)
  step pauses p = done (pause p)
  step resumes p = done (resume p)

  pub step-IsSafe : (c : Call) (p : Player x) → InQueue p → IsSafe (step c p)
  unfolding step track_end add_to_queue stop pause resume
  step-IsSafe (plays_queue o) p h = play_queue-IsSafe o p h
  step-IsSafe (nexts o) p h = next-IsSafe o p h
  step-IsSafe (previouses o) p h = previous-IsSafe o p h
  step-IsSafe (track_ends set o) p h = ground (arith, next-IsSafe o p h)
  step-IsSafe (adds song) p h = ground (arith, length-append p.queue (song ∷ []))
  step-IsSafe stops p h = ground arith
  step-IsSafe pauses p h = ground arith
  step-IsSafe resumes p h = ground arith

  unfoldable pub run : List Call → Player x → Player x × List (Result Error Unit)
  run [] p = (p, [])
  run (c ∷ cs) p = let (p', r) = step c p in let (p'', rs) = run cs p' in (p'', r ∷ rs)

  run-IsSafe :
      (cs : List Call) (p : Player x)
      → InQueue p
      → InQueue (run cs p).0 × All (λ r. r ≢ err index_panic) (run cs p).1
  unfolding run
  run-IsSafe [] p h = (h, tt)
  run-IsSafe (c ∷ cs) p h =
      let safe = step-IsSafe c p h in
      let (in_queue, rest) = run-IsSafe cs (step c p).0 safe.in_queue in
      (in_queue, (safe.no_panic, rest))

  move_to-index :
      (o : Opening) (i : ℕ) (p : Player x)
      → i < length p.queue
      → ((move_to o (pos i) p).0.current_index ≡ pos i) × ((move_to o (pos i) p).0.queue ≡ p.queue)
  unfolding move_to
  move_to-index o i p h =
      let q = record p { current_index = pos i } in
      let (song, e) = get_elem?-some p.queue i h in rw e ((play-queue o q).1, (play-queue o q).0)

  next-move :
      (o : Opening) (n : ℕ) (p : Player x)
      → p.current_index ≡ pos n
      → suc n < length p.queue
      → next o p ≡ move_to o (pos (suc n)) p
  unfolding next ◌+ℤ◌
  next-move o n p e h = ground arith

  next_room :
      (o : Opening) (n : ℕ) (p : Player x)
      → p.current_index ≡ pos n
      → (next o p).1 ≡ ok tt
      → suc n < length p.queue
  unfolding next
  next_room o n p e h = ground arith

  previous-move :
      (o : Opening) (n : ℕ) (p : Player x)
      → p.current_index ≡ pos (suc n)
      → 0 < length p.queue
      → previous o p ≡ move_to o (pos n) p
  unfolding previous ◌+ℤ◌
  previous-move o n p e h = ground arith

  -- If a song of the queue is the current one and the next one plays, the index moves on by one,
  -- and going back from there returns to the old index, whether that song plays or not; going on
  -- leaves the queue as it is.
  pub previous-next :
      (o o' : Opening) (n : ℕ) (p : Player x)
      → p.current_index ≡ pos n
      → (next o p).1 ≡ ok tt
      → ((previous o' (next o p).0).0.current_index ≡ pos n)
        × ((next o p).0.current_index ≡ pos (suc n))
        × ((next o p).0.queue ≡ p.queue)
  previous-next o o' n p e played =
      let room = next_room o n p e played in
      let (at, same) = move_to-index o (suc n) p room in
      let q = (move_to o (pos (suc n)) p).0 in
      rw (next-move o n p e room) (
        rw (previous-move o' n q at (rw same (omega arith)))
            (move_to-index o' n q (rw same (omega arith))).0,
        at,
        same,
      )

-- Whatever calls a new player gets, its index stays -1 or the position of a song in the queue, and
-- no call reads the queue out of range.
pub run-new_player :
    (x : Float) (cs : List Call)
    → InQueue (run cs (new_player x)).0 × All (λ r. r ≢ err index_panic) (run cs (new_player x)).1
unfolding new_player
run-new_player x cs = run-IsSafe cs (new_player x) (omega arith)
