-- ===== src/Player/Files.antt =====
-- The player's files: which are opened and closed, by the player and by its streams. A stream is
-- what beep's decoders make of a file, and beep documents that closing one closes its file.
use raag.Prelude.{
  ◌≤◌, ℕ, suc, ◌+◌, ◌≡◌, Bool, true, false, List, [], ◌∷◌, Option, none, some, is_some, eqb,
}
use raag.Player.{
  Float, Player, Effect, Stream, opens_file, closes_file, opens_root, starts, closes_stream,
}

abbrev tally : Bool → ℕ → ℕ
tally true n = suc n
tally false n = n

-- How often a file was opened, and how often it was closed.
unfoldable pub opened : ℕ → List Effect → ℕ
opened f [] = 0
opened f (opens_file g ∷ es) = tally (eqb g f) (opened f es)
opened f (_ ∷ es) = opened f es

unfoldable pub closed : ℕ → List Effect → ℕ
closed f [] = 0
closed f (closes_file g ∷ es) = tally (eqb g f) (closed f es)
closed f (_ ∷ es) = closed f es

abbrev pub held : ℕ → Option ℕ → ℕ
held f none = 0
held f (some g) = tally (eqb g f) 0

-- How often a file was started, and how often it was closed by its stream.
unfoldable pub started : ℕ → List Effect → ℕ
started f [] = 0
started f (starts g ∷ es) = tally (eqb g f) (started f es)
started f (_ ∷ es) = started f es

unfoldable pub stream_closed : ℕ → List Effect → ℕ
stream_closed f [] = 0
stream_closed f (closes_stream g ∷ es) = tally (eqb g f) (stream_closed f es)
stream_closed f (_ ∷ es) = stream_closed f es

-- How often any file was opened, and how often a handle of the music directory.
unfoldable pub files : List Effect → ℕ
files [] = 0
files (opens_file g ∷ es) = suc (files es)
files (_ ∷ es) = files es

unfoldable pub roots : List Effect → ℕ
roots [] = 0
roots (opens_root ∷ es) = suc (roots es)
roots (_ ∷ es) = roots es

abbrev pub handle_of : Option Stream → Option ℕ
handle_of none = none
handle_of (some s) = some s.handle

module _ {x : Float} where
  abbrev pub Balanced : ℕ → Player x → Type 0
  Balanced f p =
      (opened f p.effects ≡ closed f p.effects + held f p.file)
      × (started f p.effects ≡ stream_closed f p.effects + held f (handle_of p.stream_closer))
      × (files p.effects ≤ roots p.effects)

  -- Either nothing is loaded, or everything of one file is.
  abbrev pub IsCoherent : Player x → Type 0
  IsCoherent p =
      (is_some p.ctrl ≡ is_some p.file)
      × (is_some p.streamer ≡ is_some p.file)
      × (handle_of p.stream_closer ≡ p.file)
      × (is_some p.volume_ctrl ≡ is_some p.file)
      × (is_some p.track_ended ≡ is_some p.file)

  record Inv (f : ℕ) (p : Player x) : Type 0 where
    balanced : Balanced f p
    coherent : IsCoherent p
