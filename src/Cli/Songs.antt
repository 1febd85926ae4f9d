-- ===== src/Cli/Songs.antt =====
-- cmd/raag/library.go: the commands about the library.
use raag.Prelude.{ℕ, suc, Str, codes, List, [], ◌∷◌, ◌++◌, length, map}
use raag.Prelude.Int.{pos}
use raag.Auth.{Crypto}
use raag.Cli.{Cli, Line, Machine, info, ◌>>=◌, ◌>>◌, say, invoke, reads}
use raag.Discovery.World.{World}
use raag.Player.{Float}
use raag.Rpc.{LibrarySong}
use raag.Rpc.Songs.{library_list, library_search, library_rescan, library_add, library_remove}
use raag.Song.{Reader}
use raag.Tui.Style.{Format}

module _ {x : Float} (f : Format x) where
  -- The songs from the i-th on.
  list_lines : ℕ → List LibrarySong → List Line
  list_lines i [] = []
  list_lines i (song ∷ songs) =
      info (
        codes "song index="
        ++ (f.d (pos (suc i))
            ++ (codes " title="
                ++ (song.title
                    ++ (codes " artist=" ++ (song.artist ++ (codes " album=" ++ song.album)))))))
      ∷ list_lines (suc i) songs

  shown_library : List LibrarySong → List Line
  unfolding list_lines
  shown_library [] = info (codes "library is empty") ∷ []
  shown_library songs =
      info (codes "library contents count=" ++ f.d (pos (length songs))) ∷ list_lines 0 songs

  shown_matches : Str → List LibrarySong → List Line
  shown_matches query [] = info (codes "no songs found matching query=" ++ query) ∷ []
  shown_matches query songs =
      info (codes "matching songs found count=" ++ f.d (pos (length songs)))
      ∷ map (λ song. info (codes "result song=" ++ (song.title ++ (codes " - " ++ song.artist))))
          songs

module _ {x : Float} {w : World} {k : Crypto} (r : Reader) (m : Machine x) where
  unfoldable pub library_rescan_command : Cli x w k Unit
  library_rescan_command = do
    count ← invoke m 0 (codes "DaemonService.LibraryRescan") (library_rescan r m.stat m.walked)
    say (info (codes "library rescanned song_count=" ++ m.format.d (pos count)) ∷ [])

  unfoldable pub library_add_command : Str → Cli x w k Unit
  library_add_command path = do
    invoke m 0 (codes "DaemonService.LibraryAdd") (library_add r path)
    say (info (codes "song added path=" ++ path) ∷ [])

module _ {x : Float} {w : World} {k : Crypto} (m : Machine x) where
  unfoldable pub library_list_command : Cli x w k Unit
  unfolding shown_library
  library_list_command = do
    songs ← invoke m 0 (codes "DaemonService.LibraryList") (reads library_list)
    say (shown_library m.format songs)

  unfoldable pub library_search_command : Str → Cli x w k Unit
  unfolding shown_matches
  library_search_command query = do
    songs ← invoke m 0 (codes "DaemonService.LibrarySearch") (reads (library_search query))
    say (shown_matches m.format query songs)

  unfoldable pub library_remove_command : Str → Cli x w k Unit
  library_remove_command title = do
    invoke m 0 (codes "DaemonService.LibraryRemove") (library_remove title)
    say (info (codes "song removed title=" ++ title) ∷ [])
