-- ===== src/Rpc/Peers.antt =====
-- rpc/service.go: the network, the status and the configuration.
use raag.Prelude.{
  ℕ, ◌-◌, Str, codes, Bool, true, List, [], ◌∷◌, Option, none, some, Result, ok, err, map, length,
}
use raag.Auth.{Crypto}
use raag.Song.{Song}
use raag.App.{App}
use raag.Discovery.{Multiaddrs}
use raag.Discovery.World.{World, Urls}
use raag.Discovery.Status.{NetworkState}
use raag.Library.{find_song}
use raag.Network.Calls
use raag.Network.Calls.{
  Net, host, get_peers, get_peer_count, is_online, get_peer_id, get_multiaddr, get_all_known_peers,
  network_state, auth_public_key, update_tracker, add_bootstrap,
}
use raag.Network.Share.{ShareError, Sending, share_song}
use raag.Network.Transfer.{Codec}
use raag.Player.{Float}
use raag.Rpc.{
  Error, PeerInfo, peer_to_info, lift, library_error, network_error, share_error, bad_multiaddr,
  bad_peer_id, peer_not_found, config_set_unimplemented, no_config_file, not_removed,
}

pub record PeersInfoResult : Type 0 where
  pub self_id : Str
  pub self_multiaddr : Str
  pub connected_peers : List PeerInfo
  pub connected_count : ℕ
  pub known_peers : List PeerInfo
  pub known_count : ℕ

pub record StatusResult : Type 0 where
  pub running : Bool
  pub peer_count : ℕ
  pub connected : Bool
  pub uptime : ℕ
  pub version : Str

-- What os.Remove says of the file of the configuration.
pub data Removal : Type 0 where
  removed absent failed : Removal

unfoldable pub config_set : Str → Str → Result Error Unit
config_set key value = err config_set_unimplemented

-- `path` is config.FilePath.
unfoldable pub config_reset : Option Str → Removal → Result Error Unit
config_reset none r = err no_config_file
config_reset (some path) Removal.removed = ok tt
config_reset (some path) Removal.absent = ok tt
config_reset (some path) Removal.failed = err not_removed

module _ {x : Float} {w : World} {k : Crypto} where
  unfoldable pub peers_list : App x w k → List PeerInfo
  peers_list a = map peer_to_info (get_peers a.net_mgr)

  unfoldable pub known_peers : App x w k → List PeerInfo
  known_peers a = map peer_to_info (get_all_known_peers a.net_mgr)

  unfoldable pub peers_info : Multiaddrs → App x w k → PeersInfoResult
  unfolding peers_list known_peers
  peers_info m a = record {
    self_id = get_peer_id a.net_mgr;
    self_multiaddr = get_multiaddr m a.net_mgr;
    connected_peers = peers_list a;
    connected_count = length (get_peers a.net_mgr);
    known_peers = known_peers a;
    known_count = length (get_all_known_peers a.net_mgr);
  }

  abbrev pub on_network :
      App x w k → Net w k × Result Calls.Error Unit → App x w k × Result Error Unit
  on_network a (n, r) = (record a { net_mgr = n }, lift network_error r)

  unfoldable pub connect_peer : Urls → Multiaddrs → Str → App x w k → App x w k × Result Error Unit
  connect_peer u m text a = elim (m.addr_info_from_string text) [
    | none ↦ (a, err bad_multiaddr)
    | some p ↦ on_network a (Calls.connect u m p a.net_mgr)
  ]

  unfoldable pub disconnect_peer : Multiaddrs → Str → App x w k → App x w k × Result Error Unit
  disconnect_peer m text a = elim (m.decode_peer_id text) [
    | none ↦ (a, err bad_peer_id)
    | some id ↦ on_network a (Calls.disconnect id a.net_mgr)
  ]

  unfoldable pub update_tracker_to : Str → App x w k → App x w k
  update_tracker_to url a = record a { net_mgr = update_tracker url a.net_mgr }

  unfoldable pub add_bootstrap_addr : Multiaddrs → Str → App x w k → App x w k × Result Error Unit
  add_bootstrap_addr m text a = on_network a (add_bootstrap m text a.net_mgr)

  unfoldable pub network_status : App x w k → Result Error NetworkState
  network_status a = lift network_error (network_state a.net_mgr)

  unfoldable pub auth_key : App x w k → Str
  auth_key a = auth_public_key a.net_mgr

  -- The uptime is in nanoseconds, of which the source prints the text.
  unfoldable pub status : App x w k → StatusResult
  status a = record {
    running = true;
    peer_count = get_peer_count a.net_mgr;
    connected = is_online a.net_mgr;
    uptime = w.now (host a.net_mgr) - a.start_time;
    version = codes "1.0.0";
  }

  shared : App x w k → Net w k × Result ShareError Str → App x w k × Result Error Str
  shared a (n, r) = (record a { net_mgr = n }, lift share_error r)

  abbrev share_found : Sending → Codec → List Str → Song → App x w k → App x w k × Result Error Str
  share_found s c [] song a = (a, err peer_not_found)
  share_found s c (_ ∷ _) song a = shared a (share_song s c a.cfg.music_dir song a.net_mgr)

  -- What goes to the peer is returned.
  unfoldable pub share :
      Multiaddrs → Sending → Codec → Str → Str → App x w k → App x w k × Result Error Str
  unfolding shared
  share m s c peer_id title a = elim (m.decode_peer_id peer_id) [
    | none ↦ (a, err bad_peer_id)
    | some id ↦ elim (find_song title a.lib) [
      | err e ↦ (a, err (library_error e))
      | ok song ↦ share_found s c (w.known_addrs (host a.net_mgr) id) song a
    ]
  ]
