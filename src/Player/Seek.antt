-- ===== src/Player/Seek.antt =====
-- internal/player/player.go: seeking and the position.
use raag.Prelude.{
  ℕ, suc, ◌/◌, ◌≤◌, ◌<◌, ◌≡◌, List, [], ◌∷◌, true, false, Bool, ◌&&◌, none, some, Result, ok, err,
  ltb, arith, if◌then◌else◌,
}
use raag.Prelude.Int.{ℤ, pos, negsuc, sub_ℕ, ltb_ℤ, ◌≤ℤ◌}
use raag.Player.{Float, Player, Error, Stream, Opening, no_song_playing, seek_failed, play}

-- Go's division rounds towards zero.
abbrev pub div_ℤ : ℤ → ℕ → ℤ
div_ℤ (pos n) d = pos (n / d)
div_ℤ (negsuc n) d = sub_ℕ 0 (suc n / d)

abbrev pub clip : ℕ → ℤ → ℤ
clip len at = if ltb 0 len && ltb_ℤ (pos len) at then pos len else at

clip-le : (len : ℕ) (at : ℤ) → 0 < len → clip len at ≤ℤ pos len
clip-le len at h = ground arith

pub div_mono : (m n d : ℕ) → m ≤ n → m / d ≤ n / d
div_mono m n d h = grind arith

div_ℤ-le : (i : ℤ) (n d : ℕ) → i ≤ℤ pos n → div_ℤ i d ≤ℤ pos (n / d)
div_ℤ-le (pos m) n d h = omega (arith, div_mono m n d (omega arith))
div_ℤ-le (negsuc m) n d h = ground arith

module _ {x : Float} where
  -- `samples` is beep's SampleRate.N of the seconds, `refused` the answer of the stream.
  unfoldable pub seek : (ℕ → ℤ → ℤ) → Bool → ℤ → Player x → Player x × Result Error Unit
  seek samples refused seconds p = elim p.streamer [
    | none ↦ (p, err no_song_playing)
    | some s ↦
        if refused
        then (p, err seek_failed)
        else (record p { position = div_ℤ (clip s.len (samples p.rate seconds)) p.rate }, ok tt)
  ]

  -- `at` is where the stream stands, in samples.
  unfoldable pub get_position : ℕ → Player x → ℤ
  get_position at p = elim p.streamer [
    | none ↦ p.position
    | some s ↦ if ltb 0 p.rate then pos (at / p.rate) else p.position
  ]

  unfoldable pub get_duration : Player x → ℕ
  get_duration p = p.duration

  -- The rate and the duration are those of the loaded stream, which has a length.
  pub record IsLoaded (p : Player x) (s : Stream) : Type 0 where
    pub loaded : p.streamer ≡ some s
    pub rated : p.rate ≡ s.rate
    pub timed : p.duration ≡ s.len / s.rate
    pub long : 0 < s.len

  -- A song that was just opened is loaded.
  pub play-IsLoaded :
      (o : Opening) (p : Player x)
      → 0 < o.len
      → (play o p).1 ≡ ok tt
      → IsLoaded (play o p).0 (record { handle = o.handle; len = o.len; rate = o.rate })
  unfolding play
  play-IsLoaded o p h e = ground arith

  -- A seek in a loaded song that succeeds, to any number of seconds, never moves the position past
  -- the song's duration, and leaves the song loaded.
  pub seek_bounds :
      (samples : ℕ → ℤ → ℤ) (refused : Bool) (seconds : ℤ) (p : Player x) (s : Stream)
      → IsLoaded p s
      → (seek samples refused seconds p).1 ≡ ok tt
      → ((seek samples refused seconds p).0.position ≤ℤ pos p.duration)
        × IsLoaded (seek samples refused seconds p).0 s
  unfolding seek
  seek_bounds samples refused seconds p s l e =
      let le =
        div_ℤ-le (clip s.len (samples p.rate seconds)) s.len p.rate (clip-le s.len _ l.long) in
      ground (arith, l.loaded, l.rated, l.timed, l.long, le)

  -- A song is loaded and its position is within its duration.
  pub record IsWithin (p : Player x) (s : Stream) : Type 0 where
    pub is_loaded : IsLoaded p s
    pub within : p.position ≤ℤ pos p.duration

  seek-IsWithin :
      (samples : ℕ → ℤ → ℤ) (refused : Bool) (seconds : ℤ) (p : Player x) (s : Stream)
      → IsWithin p s
      → IsWithin (seek samples refused seconds p).0 s
  unfolding seek
  seek-IsWithin samples true seconds p s v =
      let same : (seek samples true seconds p).0 ≡ p = ground (arith, v.is_loaded.loaded) in
      rw same v
  seek-IsWithin samples false seconds p s v =
      let done : (seek samples false seconds p).1 ≡ ok tt = ground (arith, v.is_loaded.loaded) in
      let bounds = seek_bounds samples false seconds p s v.is_loaded done in
      let same : (seek samples false seconds p).0.duration ≡ p.duration =
        ground (arith, v.is_loaded.loaded) in
      record { is_loaded = bounds.1; within = rw same bounds.0 }

  -- Seeks one after the other, each with whether the stream refuses it.
  unfoldable pub seeks : (ℕ → ℤ → ℤ) → List (Bool × ℤ) → Player x → Player x
  seeks samples [] p = p
  seeks samples ((refused, seconds) ∷ rest) p =
      seeks samples rest (seek samples refused seconds p).0

  seeks-IsWithin :
      (samples : ℕ → ℤ → ℤ) (cs : List (Bool × ℤ)) (p : Player x) (s : Stream)
      → IsWithin p s
      → IsWithin (seeks samples cs p) s
  unfolding seeks
  seeks-IsWithin samples [] p s v = v
  seeks-IsWithin samples ((refused, seconds) ∷ rest) p s v =
      seeks-IsWithin samples rest _ s (seek-IsWithin samples refused seconds p s v)

  -- After a song with samples was opened, whatever seeks follow, to any numbers of seconds and
  -- whether the stream refuses them or not, the song stays loaded and the position never passes its
  -- duration.
  pub play-seeks :
      (samples : ℕ → ℤ → ℤ) (cs : List (Bool × ℤ)) (o : Opening) (p : Player x)
      → 0 < o.len
      → (play o p).1 ≡ ok tt
      → IsWithin
          (seeks samples cs (play o p).0)
          (record { handle = o.handle; len = o.len; rate = o.rate })
  unfolding play
  play-seeks samples cs o p long done =
      seeks-IsWithin samples cs (play o p).0 _
        (record { is_loaded = play-IsLoaded o p long done; within = ground arith })
