-- ===== src/Lib.antt =====
-- Raag: a model of the music player's and the tracker's state, and theorems about it.
--
-- Raag is a music player that scans a directory, keeps playlists, and sends songs to peers over
-- libp2p; a tracker is an HTTP server at which peers register and find each other. The parts, the
-- files that model them, and the code that they stand for:
--
-- - Playlist: internal/playlist/playlist.go. `Manager` is the map from names to playlists, and each
--   method is a function from a manager to a manager and a result. Playlist/Names is List.
-- - Storage: internal/storage/storage.go, WriteJSONAtomic, over a disk that is a map from paths to
--   contents; Storage/Playlists is SavePlaylists and LoadPlaylists, Storage/State is
--   internal/storage/state.go. They use the playlists' manager.
-- - Song: internal/metadata/metadata.go. Library: internal/library/library.go, the songs by hash
--   and the index by title, with a call as one step; Library/Concurrent has the stores of AddSong,
--   RemoveSong and ScanMusicLibrary one by one, as goroutines interleave them. Player:
--   internal/player/player.go, with Player/Volume and Player/Seek.
-- - Auth: internal/auth/auth.go, tokens and trusted keys.
-- - Tracker: tracker/server.go. Tracker/RateLimit is RateLimiter, Tracker/Request what a request
--   carries, Tracker/State the Tracker and isNonceValid, Tracker/Register handleRegisterPeer,
--   Tracker/Sweep the cleanup, Tracker/Serve the queries and ServeHTTP. It uses Auth for tokens.
-- - Network: internal/network. Network/Transfer is transfer.go; of network.go, Network/State is the
--   NetworkManager and its authorization, Network/Access VerifyAuthToken and verifyNonceUsed,
--   Network/Receive handleStream, Network/Handshake waitForHandshake, signalHandshakeDone and the
--   two handlers, Network/Peers the connected peers. It uses Auth for tokens. Network/Calls is what
--   the others call, Network/Share ShareSong, and Network/Identity the key.
-- - Discovery: internal/discovery. Discovery/World are the libraries and the machine,
--   Discovery/Client is tracker.go, Discovery/Peers the peers that are kept, with persistence.go
--   and addr.go; of manager.go, Discovery/State is the Manager, Discovery/Addresses the choice of
--   addresses, Discovery/Register the token and the registration, Discovery/Backoff the retries,
--   Discovery/Connect and Discovery/Rounds how peers are found and connected, Discovery/Start the
--   start and mDNS, Discovery/Status what is shown. It uses Auth, Storage and, in theorems,
--   Tracker.
-- - Config: internal/config, Config/Start its InitViper, Config/Documented what package viper
--   documents of the file and the flags. App: app/app.go, the parts as one state. Rpc:
--   rpc/service.go, the methods by what they are about, which call the parts of an App.
-- - Cli: cmd/raag, a file for each file of commands, and Cli/Session all of them and what a user
--   types one after the other, with calls of other processes between. A command is a process: it
--   calls the methods of Rpc, writes lines and may exit with 1; a call that it gave up comes later.
-- - Tui: internal/tui. Tui is model.go, Tui/Update the RPCModel and Update, Tui/Render View with
--   the styles of Tui/Style; Tui/Render/Parts is about what stands on the screen. In Tui/Daemon and
--   Tui/Fetched it meets the methods of Rpc.
-- - Clock: the durations of internal/constants/constants.go that these parts share.
-- - Prelude: shared helpers. Go strings are lists of bytes, maps are association lists.
-- - Tests: the theorems at concrete inputs.
--
-- A method that changes its receiver is a function that returns the changed record beside its
-- result. A lock makes a call one step. The library has no lock: its calls are single steps in what
-- is built on it, and their stores are taken apart in Library/Concurrent. Where a goroutine waits,
-- the call is split into the steps before and after. Times are native numbers of nanoseconds and
-- are arguments. Which system calls fail, what files hold, and which branch a select takes are
-- arguments too, so that a theorem is about all of them. The libraries are records of functions:
-- Auth.Crypto the signatures and encodings, Tracker.Request.Addresses the parsing of addresses,
-- Song.Reader the file system and the tag reader, Player.Float the arithmetic of float64,
-- Discovery.World.World libp2p's host with the clock and the network, Config.Viper the
-- configuration and its file, Tui.Bubbles the text field and the keys, Tui.Style.Format package
-- fmt, and one Codec for each use of JSON. No definition uses fuel: every loop is over a list, and
-- one that ends only with its context over a list of what happens in each turn. Sizes that the code
-- bounds by int64 stay far below the bound; the lengths in a frame are bytes with their
-- wrap-around.
--
-- Not modelled: the flags and the daemon process of cmd/raag, tracker/cmd, internal/logger, the
-- certificates of tracker/tls.go, the transport of rpc, the file watcher of the library, the
-- options of the libp2p host, the start of the servers, and the tickers and logging loops of
-- discovery. They wire parts together, draw, print or only call libraries. The goroutines that
-- Discovery starts are taken one at a time. A saved transfer is followed by a scan of the library,
-- which is Library.scan_music_library.
pub mod Prelude
pub mod Song
pub mod Playlist
pub mod Storage
pub mod Auth
pub mod Clock
pub mod Tracker
pub mod Player
pub mod Library
pub mod Network
pub mod Discovery
pub mod Config
pub mod App
pub mod Rpc
pub mod Cli
pub mod Tui
pub mod Tests
