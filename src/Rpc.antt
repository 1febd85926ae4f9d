-- ===== src/Rpc.antt =====
-- rpc/service.go: what the daemon does for its clients. What the machine answers to a call is a
-- parameter of it, as it is for the functions called. The lists that are returned have one entry for
-- each song or peer, as the source's `make` and loop give.
pub mod Playback
pub mod Songs
pub mod Peers
pub mod Overview
pub mod History
use raag.Prelude.{ℕ, Str, Bool, true, List, [], ◌∷◌, Option, Result, ok, err, map}
use raag.Song.{Song}
use raag.Auth.{Crypto}
use raag.Discovery.{AddrInfo}
use raag.Discovery.World.{World}
use raag.Discovery.Connect.{first_or_empty}
use raag.App.{App}
use raag.Library
use raag.Player
use raag.Player.{Float, Player}
use raag.Playlist
use raag.Network.Calls
use raag.Network.Share

pub data Error : Type 0 where
  library_error : Library.Error → Error
  player_error : Player.Error → Error
  playlist_error : Playlist.Error → Error
  network_error : Calls.Error → Error
  share_error : Share.ShareError → Error
  bad_multiaddr bad_peer_id peer_not_found no_network : Error
  config_set_unimplemented no_config_file not_removed not_decoded : Error

pub record PeerInfo : Type 0 where
  pub id : Str
  pub addr : Str
  pub connected : Bool

pub record LibrarySong : Type 0 where
  pub title : Str
  pub artist : Str
  pub album : Str
  pub path : Str

unfoldable pub peer_to_info : AddrInfo → PeerInfo
peer_to_info p = record { id = p.id; addr = first_or_empty p.addrs; connected = true }

unfoldable pub song_to_info : Song → LibrarySong
song_to_info s = record { title = s.title; artist = s.artist; album = s.album; path = s.path }

-- The error of a part is the method's error.
abbrev pub lift : {E A : Type 0} → (E → Error) → Result E A → Result Error A
lift f (ok a) = ok a
lift f (err e) = err (f e)
