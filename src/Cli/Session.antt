-- ===== src/Cli/Session.antt =====
-- cmd/raag: all commands, and what a user types one after the other while calls of other processes
-- come between them.
pub mod Calls
use raag.Prelude.{Str, List, [], ◌∷◌, Option, none, some}
use raag.App.{App}
use raag.Auth.{Crypto}
use raag.Cli.{Cli, Line, Machine}
use raag.Cli.Network.{
  peers_list_command, peers_info_command, peers_connect_command, peers_disconnect_command,
  peers_tracker_command, peers_bootstrap_command, share_command, status_command,
  network_status_command, network_auth_key_command, config_show_command, config_set_command,
  config_reset_command,
}
use raag.Cli.Playback.{
  play_command, pause_command, resume_command, stop_command, next_command, previous_command,
  queue_command, volume_command, seek_command, nowplaying_command,
}
use raag.Cli.Playlists.{
  playlist_create_command, playlist_delete_command, playlist_list_command, playlist_add_command,
  playlist_remove_command, playlist_songs_command, playlist_play_command,
}
use raag.Cli.Songs.{
  library_list_command, library_search_command, library_rescan_command, library_add_command,
  library_remove_command,
}
use raag.Config.{Value}
use raag.Discovery.{Multiaddrs}
use raag.Discovery.World.{World, Urls}
use raag.Player.{Float}
use raag.Rpc.History.{Call, step}
use raag.Song.{Reader}

pub data Command : Type 0 where
  play seek : Str → Command
  pause resume stop next previous queue nowplaying : Command
  volume : Option Str → Command
  playlist_create playlist_delete playlist_songs playlist_play : Str → Command
  playlist_add playlist_remove : Str → Str → Command
  playlist_list library_list library_rescan : Command
  library_search library_add library_remove : Str → Command
  peers_list peers_info status network_status network_auth_key : Command
  peers_connect peers_disconnect peers_tracker peers_bootstrap : Str → Command
  share config_set : Str → Str → Command
  config_show config_reset : Command

-- What comes to the daemon: a command, with what the machine answers to it, or a call of another
-- process, such as one that a command gave up.
pub data Event (x : Float) : Type 0 where
  types : Command → Machine x → Event x
  arrives : Call x → Event x

module _ {x : Float} {w : World} {k : Crypto} (r : Reader) (u : Urls) (ma : Multiaddrs)
    (t : Value → Str) where
  unfoldable pub cli : Command → Machine x → Cli x w k Unit
  cli (play song) m = play_command m song
  cli (seek text) m = seek_command m text
  cli pause m = pause_command m
  cli resume m = resume_command m
  cli stop m = stop_command m
  cli next m = next_command m
  cli previous m = previous_command m
  cli queue m = queue_command m
  cli nowplaying m = nowplaying_command m
  cli (volume text) m = volume_command m text
  cli (playlist_create name) m = playlist_create_command m name
  cli (playlist_delete name) m = playlist_delete_command m name
  cli (playlist_songs name) m = playlist_songs_command m name
  cli (playlist_play name) m = playlist_play_command m name
  cli (playlist_add name song) m = playlist_add_command m name song
  cli (playlist_remove name index) m = playlist_remove_command m name index
  cli playlist_list m = playlist_list_command m
  cli library_list m = library_list_command m
  cli library_rescan m = library_rescan_command r m
  cli (library_search query) m = library_search_command m query
  cli (library_add path) m = library_add_command r m path
  cli (library_remove title) m = library_remove_command m title
  cli peers_list m = peers_list_command m
  cli peers_info m = peers_info_command ma m
  cli status m = status_command m
  cli network_status m = network_status_command m
  cli network_auth_key m = network_auth_key_command m
  cli (peers_connect text) m = peers_connect_command u ma m text
  cli (peers_disconnect id) m = peers_disconnect_command ma m id
  cli (peers_tracker url) m = peers_tracker_command m url
  cli (peers_bootstrap text) m = peers_bootstrap_command ma m text
  cli (share id song) m = share_command ma m id song
  cli (config_set key value) m = config_set_command m key value
  cli config_show m = config_show_command t m
  cli config_reset m = config_reset_command m

  -- Each command is a process of its own.
  unfoldable pub session : List (Event x) → App x w k → App x w k
  session [] a = a
  session (types c m ∷ rest) a = session rest (cli c m a).0
  session (arrives call ∷ rest) a = session rest (step r u ma call a)
