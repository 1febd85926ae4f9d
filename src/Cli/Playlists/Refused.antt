-- ===== src/Cli/Playlists/Refused.antt =====
-- What becomes of the two commands that ask for the songs of a playlist.
use raag.Prelude.{◌≡◌, refl, Str, codes, ◌==◌, [], ◌∷◌, none, arith}
use raag.App.{App}
use raag.Auth.{Crypto}
use raag.Cli.{Machine, IsGob, invoke, require_daemon, replied}
use raag.Cli.Playlists.{songs_of, playlist_songs_command, playlist_play_command}
use raag.Discovery.World.{World}
use raag.Player.{Float}

module _ {x : Float} {w : World} {k : Crypto} where
  module _ (m : Machine x) (g : IsGob m) where
    songs_of-none :
        (name : Str) (a : App x w k)
        → ((songs_of m 0 name a).0 ≡ a) × ((songs_of m 0 name a).2 ≡ none)
    unfolding songs_of invoke require_daemon replied ◌==◌
    songs_of-none name a =
        let refused =
          g.no_common_field (codes "Playlist" ∷ []) ((codes "Name", name) ∷ []) ((refl, tt), tt) in
        rw refused (ground arith, ground arith)

    -- The commands `playlist songs` and `playlist play` exit with 1 and change nothing, for every
    -- name, whatever playlists the daemon has: the name is sent as a field that is not wanted.
    pub playlist_commands_refused :
        (name : Str) (a : App x w k)
        → let (a', _, shown) = playlist_songs_command m name a in
          let (a'', _, played) = playlist_play_command m name a in
          (a' ≡ a) × (shown ≡ none) × (a'' ≡ a) × (played ≡ none)
    unfolding playlist_songs_command playlist_play_command
    playlist_commands_refused name a = ground (arith, songs_of-none name a)
