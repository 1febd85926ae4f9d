-- ===== src/App.antt =====
-- app/app.go: the parts of the program, as one state; how it starts, and what it saves when it ends.
pub mod Started
use raag.Prelude.{
  ℕ, Str, Bool, true, false, List, [], Option, none, some, Result, ok, err, ◌>>=◌, ◌>>◌, fail_if,
  or_fail, if◌then◌else◌,
}
use raag.Prelude.Int.{ℤ, pos}
use raag.Auth.{Crypto}
use raag.Config
use raag.Config.{Config, Viper, save_config}
use raag.Discovery.World.{World}
use raag.Library
use raag.Library.{Library, Stat, Walked, new_library}
use raag.Network.Calls.{Net}
use raag.Player
use raag.Player.{Float, Player, new_player, get_current_song}
use raag.Player.Volume.{set_volume, get_volume}
use raag.Player.Seek.{get_position}
use raag.Playlist
use raag.Song.{Song, Reader}
use raag.Storage.{Faults, Store}
use raag.Storage.Playlists
use raag.Storage.Playlists.{Lookup, load_playlists, save_playlists}
use raag.Storage.State
use raag.Storage.State.{PlayerState, save_state}

pub data Error : Type 0 where
  storage_failed no_player no_network : Error
  library_failed : Library.Error → Error
  volume_refused : Player.Error → Error

module _ (x : Float) (w : World) (k : Crypto) where
  pub record App : Type 0 where
    pub cfg : Config
    pub lib : Library
    pub player : Player x
    pub net_mgr : Net w k
    pub pm : Playlist.Manager
    pub start_time : ℕ

  -- What the machine answers at the start: whether the directories can be made and the player can
  -- be, what the music directory holds, the network manager, and the file of the playlists.
  pub record Startup : Type 0 where
    pub no_storage : Bool
    pub made : Bool
    pub stat : Stat
    pub walked : List Walked
    pub no_player : Bool
    pub network : Option (Net w k)
    pub codec : Playlists.Codec
    pub lookup : Lookup
    pub now : ℕ

  abbrev with_volume : Player x × Result Player.Error Unit → Result Error (Player x)
  with_volume (p, ok _) = ok p
  with_volume (p, err e) = err (volume_refused e)

  abbrev library_of : Result Library.Error Library → Result Error Library
  library_of (ok l) = ok l
  library_of (err e) = err (library_failed e)

  -- SetNextCallback makes the end of a track play the next one, which is `track_end true`. An error
  -- in loading the playlists is only printed.
  unfoldable pub new_app : Reader → Startup → Config → Result Error App
  new_app r s cfg = do
    fail_if s.no_storage storage_failed
    lib ← library_of (new_library s.made r s.stat s.walked cfg.music_dir)
    fail_if s.no_player Error.no_player
    player ← with_volume (set_volume (x.of_ℤ cfg.volume) (new_player x))
    net_mgr ← or_fail s.network no_network
    ok (record {
      cfg = cfg;
      lib = lib;
      player = player;
      net_mgr = net_mgr;
      pm = (load_playlists s.codec s.lookup Playlist.new_manager).0;
      start_time = s.now;
    })

-- What saving takes: conversion to an integer, where the stream stands, the paths or none, the names
-- of the temporary files, what fails, and the encodings.
pub record Saving (x : Float) : Type 0 where
  pub to_int : x.F → ℤ
  pub at : ℕ
  pub state_path : Option Str
  pub playlists_path : Option Str
  pub state_tmp : Str
  pub playlists_tmp : Str
  pub state_faults : Faults
  pub playlists_faults : Faults
  pub state_codec : State.Codec
  pub playlists_codec : Playlists.Codec

module _ {x : Float} {w : World} {k : Crypto} where
  unfoldable pub player_state : Saving x → App x w k → PlayerState
  player_state s a = record {
    last_song = elim (get_current_song a.player) [ none ↦ [] | some song ↦ song.title ];
    position = elim (get_current_song a.player) [
      | none ↦ pos 0
      | some _ ↦ get_position s.at a.player
    ];
    volume = s.to_int (get_volume a.player);
    queue = [];
    current_idx = pos 0;
    shuffle = false;
    repeat = false;
    last_played = pos 0;
  }

  -- Every error is only printed.
  unfoldable pub save_app :
      (y : Viper) → Saving x → App x w k → Store × y.V × Option y.File → Store × y.V × Option y.File
  unfolding player_state
  save_app y s a (store, v, file) =
      let (_, store') =
        save_state s.state_codec s.state_faults s.state_tmp s.state_path (player_state s a) store in
      let (_, store'') =
        save_playlists s.playlists_codec s.playlists_faults s.playlists_tmp s.playlists_path a.pm
          store' in
      let (v', file', _) = save_config y a.cfg v file in (store'', v', file')
