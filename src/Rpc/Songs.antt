-- ===== src/Rpc/Songs.antt =====
-- rpc/service.go: the library and the playlists.
use raag.Prelude.{
  ℕ, Str, Bool, ◌||◌, List, Result, ok, err, map, retain, length, contains, to_lower,
}
use raag.Prelude.Int.{ℤ}
use raag.Song.{Song, Reader}
use raag.Auth.{Crypto}
use raag.Discovery.World.{World}
use raag.App.{App}
use raag.Library
use raag.Library.{
  Library, Stat, Walked, all_songs, find_song, add_song, remove_song, scan_music_library,
}
use raag.Player.{Float}
use raag.Playlist
use raag.Playlist.Names.{list_names}
use raag.Rpc.{Error, LibrarySong, song_to_info, lift, library_error, playlist_error}

unfoldable pub matches : Str → Song → Bool
matches q song =
    contains (to_lower song.title) q
    || contains (to_lower song.artist) q
    || contains (to_lower song.album) q

module _ {x : Float} {w : World} {k : Crypto} where
  unfoldable pub library_list : App x w k → List LibrarySong
  library_list a = map song_to_info (all_songs a.lib)

  unfoldable pub library_search : Str → App x w k → List LibrarySong
  unfolding matches
  library_search query a = map song_to_info (retain (matches (to_lower query)) (all_songs a.lib))

  abbrev pub on_library :
      App x w k → Library × Result Library.Error Unit → App x w k × Result Error Unit
  on_library a (l, r) = (record a { lib = l }, lift library_error r)

  unfoldable pub library_add : Reader → Str → App x w k → App x w k × Result Error Unit
  library_add r path a = on_library a (add_song r path a.lib)

  unfoldable pub library_remove : Str → App x w k → App x w k × Result Error Unit
  library_remove title a = on_library a (remove_song title a.lib)

  counted : App x w k × Result Error Unit → App x w k × Result Error ℕ
  counted (a, err e) = (a, err e)
  counted (a, ok _) = (a, ok (length (all_songs a.lib)))

  -- `stat` and `ws` are what the music directory holds.
  unfoldable pub library_rescan :
      Reader → Stat → List Walked → App x w k → App x w k × Result Error ℕ
  unfolding counted
  library_rescan r stat ws a = counted (on_library a (scan_music_library r stat ws a.lib))

  abbrev pub on_playlists :
      App x w k → Playlist.Manager × Result Playlist.Error Unit → App x w k × Result Error Unit
  on_playlists a (m, r) = (record a { pm = m }, lift playlist_error r)

  unfoldable pub playlist_create : Str → App x w k → App x w k × Result Error Unit
  playlist_create name a = on_playlists a (Playlist.create name a.pm)

  unfoldable pub playlist_delete : Str → App x w k → App x w k × Result Error Unit
  playlist_delete name a = on_playlists a (Playlist.delete name a.pm)

  unfoldable pub playlist_list : App x w k → List Str
  playlist_list a = list_names a.pm

  unfoldable pub playlist_songs : Str → App x w k → Result Error (List Song)
  playlist_songs name a = lift playlist_error (Playlist.get_songs name a.pm)

  unfoldable pub playlist_add : Str → Str → App x w k → App x w k × Result Error Unit
  playlist_add name title a = elim (find_song title a.lib) [
    | err e ↦ (a, err (library_error e))
    | ok song ↦ on_playlists a (Playlist.add_song name song a.pm)
  ]

  unfoldable pub playlist_remove : Str → ℤ → App x w k → App x w k × Result Error Unit
  playlist_remove name index a = on_playlists a (Playlist.remove_song name index a.pm)
