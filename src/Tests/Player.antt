-- ===== src/Tests/Player.antt =====
-- The player at concrete calls, with whole numbers for the volume.
use raag.Prelude.{ℕ, ◌*◌, ◌/◌, ◌≢◌, All, codes, false, List, [], ◌∷◌, err}
use raag.Prelude.Int.{ℤ, pos, negsuc, ltb_ℤ, ◌+ℤ◌}
use raag.Song.{Song}
use raag.Player.{Float, Player, Opening, index_panic, new_player}
use raag.Player.Queue.{Call, plays_queue, nexts, adds, stops, run, InQueue, run-new_player}

abbrev over : ℤ → ℤ → ℤ
over (pos n) (pos d) = pos (n / d)
over _ _ = pos 0

abbrev pub whole : Float
whole = record {
  F = ℤ;
  of_ℤ = λ n. n;
  half = pos 0;
  ltb_F = ltb_ℤ;
  add = ◌+ℤ◌;
  minus = λ a b. a;
  mul = λ a b. a;
  div = over;
}

abbrev pub song : Song
song = record {
  title = codes "a";
  artist = [];
  album = [];
  path = codes "/music/a.mp3";
  hash = codes "h";
  size = pos 3;
}

abbrev opening : Opening
opening = record {
  no_dir = false;
  no_root = false;
  no_rel = false;
  no_file = false;
  no_decode = false;
  handle = 7;
  len = 441000;
  rate = 44100;
  channel = 1;
}

abbrev player : Player whole
player = record (new_player whole) { queue = song ∷ song ∷ []; current_index = pos 0 }

abbrev calls : List Call
calls = adds song ∷ adds song ∷ plays_queue opening ∷ nexts opening ∷ nexts opening ∷ stops ∷ []

run-new_player_example :
    InQueue (run calls (new_player whole)).0
    × All (λ r. r ≢ err index_panic) (run calls (new_player whole)).1
run-new_player_example = run-new_player whole calls

abbrev samples : ℕ → ℤ → ℤ
samples rate (pos n) = pos (rate * n)
samples rate (negsuc n) = negsuc n
