-- ===== src/Cli/Playlists.antt =====
-- cmd/raag/playlist.go: the commands about playlists.
pub mod Refused
use raag.Prelude.{
  ℕ, suc, ◌+◌, Str, codes, ◌==◌, List, [], ◌∷◌, ◌++◌, Option, none, some, Result, ok, err, length,
  map, ◌≡◌, refl, if◌then◌else◌,
}
use raag.Prelude.Int.{ℤ, pos}
use raag.Auth.{Crypto}
use raag.App.{App}
use raag.Cli.{
  Cli, Fields, Line, Machine, IsGob, info, error, ◌>>=◌, ◌>>◌, say, invoke, always, reads, tries,
}
use raag.Discovery.World.{World}
use raag.Player.{Float}
use raag.Rpc.{Error, not_decoded}
use raag.Rpc.Playback.{play_song}
use raag.Rpc.Songs.{
  playlist_create, playlist_delete, playlist_list, playlist_songs, playlist_add, playlist_remove,
}
use raag.Song.{Song}
use raag.Tui.Style.{Format}

-- The value of a field; one that was not sent is empty.
abbrev field_of : Str → Fields → Str
field_of name [] = []
field_of name ((n, v) ∷ fields) = if n == name then v else field_of name fields

song_lines : {x : Float} → Format x → ℕ → List Song → List Line
song_lines f i [] = []
song_lines f i (song ∷ songs) =
    info (
      codes "song index="
      ++ (f.d (pos (suc i))
          ++ (codes " title=" ++ (song.title ++ (codes " artist=" ++ song.artist)))))
    ∷ song_lines f (suc i) songs

abbrev name_lines : List Str → List Line
name_lines [] = info (codes "no playlists found") ∷ []
name_lines names =
    info (codes "playlists") ∷ map (λ name. info (codes "playlist name=" ++ name)) names

shown_songs : {x : Float} → Format x → Str → List Song → List Line
unfolding song_lines
shown_songs f name [] = info (codes "playlist is empty playlist=" ++ name) ∷ []
shown_songs f name songs = info (codes "songs in playlist playlist=" ++ name) ∷ song_lines f 0 songs

module _ {x : Float} {w : World} {k : Crypto} (m : Machine x) where
  unfoldable pub playlist_create_command : Str → Cli x w k Unit
  playlist_create_command name = do
    invoke m 0 (codes "DaemonService.PlaylistCreate") (playlist_create name)
    say (info (codes "playlist created name=" ++ name) ∷ [])

  unfoldable pub playlist_delete_command : Str → Cli x w k Unit
  playlist_delete_command name = do
    invoke m 0 (codes "DaemonService.PlaylistDelete") (playlist_delete name)
    say (info (codes "playlist deleted name=" ++ name) ∷ [])

  unfoldable pub playlist_list_command : Cli x w k Unit
  playlist_list_command = do
    names ← invoke m 0 (codes "DaemonService.PlaylistList") (reads playlist_list)
    say (name_lines names)

  unfoldable pub playlist_add_command : Str → Str → Cli x w k Unit
  playlist_add_command name song = do
    invoke m 0 (codes "DaemonService.PlaylistAdd") (playlist_add name song)
    say (info (codes "song added to playlist song=" ++ (song ++ (codes " playlist=" ++ name))) ∷ [])

  -- The text of a parse error is left out.
  remove_at : Str → Option ℤ → Cli x w k Unit
  remove_at name none = say (error (codes "invalid index error=") ∷ [])
  remove_at name (some index) = do
    invoke m 0 (codes "DaemonService.PlaylistRemove") (playlist_remove name index)
    say (
        info (
          codes "song removed from playlist index="
          ++ (m.format.d index ++ (codes " playlist=" ++ name)))
        ∷ [])

  unfoldable pub playlist_remove_command : Str → Str → Cli x w k Unit
  unfolding remove_at
  playlist_remove_command name index = remove_at name (m.atoi index)

  -- The arguments that are sent are those of PlaylistDelete, with the field Name, and those that are
  -- wanted have the field Playlist.
  abbrev wanted_songs : Option Fields → App x w k → Result Error (List Song)
  wanted_songs none a = err not_decoded
  wanted_songs (some fields) a = playlist_songs (field_of (codes "Playlist") fields) a

  unfoldable pub songs_of : ℕ → Str → Cli x w k (List Song)
  songs_of i name =
      invoke m i (codes "DaemonService.PlaylistSongs")
        (tries (wanted_songs (m.decode (codes "Playlist" ∷ []) ((codes "Name", name) ∷ []))))

  unfoldable pub playlist_songs_command : Str → Cli x w k Unit
  unfolding shown_songs
  playlist_songs_command name = do songs ← songs_of 0 name; say (shown_songs m.format name songs)

  -- The i-th call plays the first of the songs.
  unfoldable pub play_all : ℕ → List Song → Cli x w k Unit
  play_all i [] = say []
  play_all i (song ∷ songs) = do
    invoke m i (codes "DaemonService.Play") (play_song (m.opening i) song.title)
    play_all (suc i) songs

  unfoldable pub playlist_play_command : Str → Cli x w k Unit
  playlist_play_command name = do
    songs ← songs_of 0 name
    play_all 1 songs
    say (
        info (
          codes "playing playlist playlist="
          ++ (name ++ (codes " song_count=" ++ m.format.d (pos (length songs)))))
        ∷ [])
