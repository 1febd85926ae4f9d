-- ===== src/Cli/Network.antt =====
-- cmd/raag/peers.go, network.go and config.go: the commands about peers, the daemon and its
-- configuration.
use raag.Prelude.{
  ℕ, Str, codes, List, [], ◌∷◌, ◌++◌, Result, ok, err, length, take, map, ltb, eqb, is_empty,
  if◌then◌else◌,
}
use raag.Prelude.Int.{pos}
use raag.Auth.{Crypto}
use raag.Cli.{
  Cli, Line, Machine, info, error, ◌>>=◌, ◌>>◌, say, invoke, require_daemon, always, reads, tries,
}
use raag.Config.{Value}
use raag.Discovery.{Multiaddrs}
use raag.Discovery.Status
use raag.Discovery.Status.{NetworkState}
use raag.Discovery.World.{World, Urls}
use raag.Player.{Float}
use raag.Rpc.{Error, PeerInfo}
use raag.Rpc.Overview.{config_get}
use raag.Rpc.Peers.{
  PeersInfoResult, StatusResult, peers_list, peers_info, connect_peer, disconnect_peer,
  update_tracker_to, add_bootstrap_addr, network_status, auth_key, status, share, config_set,
  config_reset,
}
use raag.Tui.Style.{Format, bool_text}

abbrev addr_text : Str → Str
addr_text addr = if is_empty addr then codes "unknown" else addr

module _ {x : Float} (f : Format x) where
  abbrev count : ℕ → Str
  count n = f.d (pos n)

  peer_line : PeerInfo → Line
  peer_line p = info (codes "  " ++ (p.id ++ (codes " " ++ addr_text p.addr)))

  shown_peers : List PeerInfo → List Line
  unfolding peer_line
  shown_peers [] = info (codes "No peers connected") ∷ []
  shown_peers peers =
      info (codes "Connected peers (" ++ (count (length peers) ++ codes "):")) ∷ map peer_line peers

  peer_lines : List PeerInfo → List Line
  peer_lines [] = []
  peer_lines (p ∷ ps) =
      info (codes "  " ++ p.id) ∷ (info (codes "    Address: " ++ addr_text p.addr) ∷ peer_lines ps)

  abbrev id_line : PeerInfo → Line
  id_line p = info (codes "  " ++ p.id)

  known_lines : ℕ → List PeerInfo → List Line
  known_lines n peers =
      if ltb 20 n
      then info (codes "  (showing first 20 of " ++ (count n ++ codes ")"))
        ∷ map id_line (take 20 peers)
      else if ltb 0 n
      then map id_line peers
      else []

  shown_info : PeersInfoResult → List Line
  unfolding peer_lines known_lines
  shown_info result =
      info (codes "=== Self ===")
      ∷ (info (codes "Peer ID: " ++ result.self_id)
          ∷ (info (codes "Multiaddr: " ++ result.self_multiaddr)
              ∷ (info (
                      codes "\n=== Connected Peers ("
                      ++ (count result.connected_count ++ codes ") ==="))
                    ∷ (if eqb result.connected_count 0
                        then info (codes "  No peers connected") ∷ []
                        else [])
                  ++ (peer_lines result.connected_peers
                      ++ (info (codes "\n=== Known Peers (DHT) ===")
                          ∷ (info (codes "Total known: " ++ count result.known_count)
                              ∷ known_lines result.known_count result.known_peers))))))

  state_lines : NetworkState → List Line
  state_lines s =
      info (codes "=== P2P Network Status ===")
      ∷ (info (codes "Peer ID: " ++ s.self_id)
          ∷ (info (codes "Listen Addr: " ++ s.listen_addr)
              ∷ (info (codes "Mode: " ++ s.mode)
                  ∷ (info (
                        codes "DHT: enabled="
                        ++ (bool_text s.dht_enabled ++ (codes " peers=" ++ count s.dht_peers)))
                      ∷ (info (
                            codes "mDNS: enabled="
                            ++ (bool_text s.mdns_enabled
                                ++ (codes " discovered=" ++ count s.mdns_discovered)))
                          ∷ (info (
                                codes "Tracker: "
                                ++ (s.tracker_url
                                    ++ (codes " (" ++ (s.tracker_status ++ codes ")"))))
                              ∷ (info []
                                  ∷ (info (codes "=== Connections ===")
                                      ∷ (info (
                                            codes "Connected: " ++ count (length s.connected_peers))
                                          ∷ (info (codes "Known: " ++ count (length s.known_peers))
                                              ∷ []))))))))))

  conn_line : Status.PeerInfo → Line
  conn_line p = info (codes "  " ++ p.id)

  conn_lines : List Status.PeerInfo → List Line
  unfolding conn_line
  conn_lines [] = []
  conn_lines peers = info [] ∷ (info (codes "Connected Peers:") ∷ map conn_line peers)

  status_lines : (ℕ → Str) → StatusResult → List Line
  status_lines duration_text s =
      info (codes "=== Raag Daemon ===")
      ∷ (info (codes "Running: " ++ bool_text s.running)
          ∷ (info (codes "Uptime: " ++ duration_text s.uptime)
              ∷ (info (codes "Version: " ++ s.version)
                  ∷ (info []
                      ∷ (info (codes "=== Network ===")
                          ∷ (info (codes "Online: " ++ bool_text s.connected)
                              ∷ (info (codes "Peers: " ++ count s.peer_count) ∷ [])))))))

-- The order in which the map is shown is not specified, nor is the text of a value.
config_lines : (Value → Str) → List (Str × Value) → List Line
config_lines value_text [] = []
config_lines value_text ((key, value) ∷ rest) =
    info (codes "config key=" ++ (key ++ (codes " value=" ++ value_text value)))
    ∷ config_lines value_text rest

abbrev auth_lines : Str → List Line
auth_lines [] = error (codes "No auth key available") ∷ []
auth_lines key = info (codes "Auth key: " ++ key) ∷ []

module _ {x : Float} {w : World} {k : Crypto} (u : Urls) (ma : Multiaddrs) (m : Machine x) where
  unfoldable pub peers_connect_command : Str → Cli x w k Unit
  peers_connect_command text = do
    invoke m 0 (codes "DaemonService.Connect") (connect_peer u ma text)
    say (info (codes "connected to peer") ∷ [])

module _ {x : Float} {w : World} {k : Crypto} (ma : Multiaddrs) (m : Machine x) where
  unfoldable pub peers_info_command : Cli x w k Unit
  unfolding shown_info
  peers_info_command = do
    result ← invoke m 0 (codes "DaemonService.PeersInfo") (reads (peers_info ma))
    say (shown_info m.format result)

  unfoldable pub peers_disconnect_command : Str → Cli x w k Unit
  peers_disconnect_command id = do
    invoke m 0 (codes "DaemonService.Disconnect") (disconnect_peer ma id)
    say (info (codes "disconnected from peer") ∷ [])

  unfoldable pub peers_bootstrap_command : Str → Cli x w k Unit
  peers_bootstrap_command text = do
    invoke m 0 (codes "DaemonService.AddBootstrap") (add_bootstrap_addr ma text)
    say (info (codes "bootstrap peer added successfully") ∷ [])

  unfoldable pub share_command : Str → Str → Cli x w k Unit
  share_command id song = do
    require_daemon m 0
    _ ← invoke m 1 (codes "DaemonService.ShareSong") (share ma m.sending m.codec id song)
    say (info (codes "song '" ++ (song ++ (codes "' shared with peer " ++ id))) ∷ [])

module _ {x : Float} {w : World} {k : Crypto} (value_text : Value → Str) where
  unfoldable pub shown_config : Cli x w k Unit
  unfolding config_lines
  shown_config a =
      say (info (codes "current configuration") ∷ config_lines value_text (config_get a)) a

  unfoldable pub config_show_command : Machine x → Cli x w k Unit
  config_show_command m = do require_daemon m 0; shown_config

module _ {x : Float} {w : World} {k : Crypto} (m : Machine x) where
  unfoldable pub peers_list_command : Cli x w k Unit
  unfolding shown_peers
  peers_list_command = do
    peers ← invoke m 0 (codes "DaemonService.PeersList") (reads peers_list)
    say (shown_peers m.format peers)

  unfoldable pub peers_tracker_command : Str → Cli x w k Unit
  peers_tracker_command url = do
    invoke m 0 (codes "DaemonService.UpdateTracker") (always (update_tracker_to url))
    say (info (codes "tracker URL updated successfully url=" ++ url) ∷ [])

  unfoldable pub status_command : Cli x w k Unit
  unfolding status_lines
  status_command = do
    result ← invoke m 0 (codes "DaemonService.Status") (reads status)
    say (status_lines m.format m.duration_text result)

  unfoldable pub network_status_command : Cli x w k Unit
  unfolding state_lines conn_lines
  network_status_command = do
    state ← invoke m 0 (codes "DaemonService.NetworkStatus") (tries network_status)
    say (state_lines m.format state ++ conn_lines m.format state.connected_peers)

  unfoldable pub network_auth_key_command : Cli x w k Unit
  network_auth_key_command = do
    key ← invoke m 0 (codes "DaemonService.AuthKey") (reads auth_key)
    say (auth_lines key)

  -- The configuration's commands say what failed, and do not exit with 1 for it.
  unfoldable pub said : Str → List Line → Result Error Unit → Cli x w k Unit
  said problem lines (ok _) = say lines
  said problem lines (err e) = say (error (problem ++ m.error_text e) ∷ [])

  unfoldable pub config_set_command : Str → Str → Cli x w k Unit
  config_set_command key value = do
    require_daemon m 0
    said (codes "failed to set config error=")
        (info (codes "config updated key=" ++ (key ++ (codes " value=" ++ value))) ∷ [])
        (config_set key value)

  unfoldable pub config_reset_command : Cli x w k Unit
  config_reset_command = do
    require_daemon m 0
    said (codes "failed to reset config error=")
        (info (codes "configuration reset to defaults (restart daemon to apply)") ∷ [])
        (config_reset m.config_file m.removal)
