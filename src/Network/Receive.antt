-- ===== src/Network/Receive.antt =====
-- internal/network/network.go, handleStream: a file that a peer sends. The disk is the directory
-- that it is saved in. Which system calls fail is an argument.
pub mod Saved
pub mod Whole
use raag.Prelude.{
  ℕ, Str, codes, ◌==◌, ◌≡◌, ◌≢◌, Bool, true, false, not, ◌&&◌, ◌||◌, List, [], ◌∷◌, ◌++◌, Option,
  none, some, Result, ok, err, ◌>>=◌, ◌>>◌, fail_if, is_empty, length, take, ltb, eqb, to_lower,
  if◌then◌else◌,
}
use raag.Prelude.Int.{ℤ, pos, negsuc, ltb_ℤ, leb_ℤ}
use raag.Prelude.Dict.{Dict, get, put, remove, has}
use raag.Auth.{Crypto}
use raag.Network.State.{NetworkManager}
use raag.Network.Access
use raag.Network.Transfer
use raag.Network.Access.{verify_auth_token}
use raag.Network.Transfer.{
  TransferMetadata, Codec, transfer_max_file_size, read_transfer_metadata, sanitize_transfer_name,
}

pub data Refusal : Type 0 where
  bad_metadata not_authenticated too_large : Refusal
  mkdir_failed create_failed copy_failed hash_mismatch sync_failed close_failed rename_failed :
      Refusal

-- The stream is reset for every refusal but that of the directory.
unfoldable pub resets : Refusal → Bool
resets mkdir_failed = false
resets _ = true

pub data Outcome : Type 0 where
  empty_transfer : Outcome
  saved : Str → Outcome

-- `tmp` is the name that os.CreateTemp chose, `written` what reached it when the copy failed.
pub record Faults : Type 0 where
  pub mkdir : Bool
  pub create : Bool
  pub copy : Bool
  pub sync : Bool
  pub close : Bool
  pub rename : Bool
  pub tmp : Str
  pub written : Str

abbrev or_bin : Str → Str
or_bin [] = codes ".bin"
or_bin (c ∷ s) = c ∷ s

unfoldable pub file_name : Str → TransferMetadata → Str
file_name peer_id meta =
    peer_id
    ++ (codes "_" ++ (sanitize_transfer_name meta.title ++ or_bin (to_lower meta.extension)))

unfoldable pub has_byte : ℕ → Str → Bool
has_byte b [] = false
has_byte b (c ∷ s) = eqb c b || has_byte b s

unfoldable pub to_size : ℤ → ℕ
to_size (pos n) = n
to_size (negsuc n) = 0

-- What is on the stream after the metadata, in the temporary file. The deferred os.Remove takes it
-- away unless it was renamed.
copied : Faults → ℕ → Str → Str
copied f size body = if f.copy then f.written else take size body

module _ (hash : Str → Str) where
  checked : Faults → TransferMetadata → Str → Result Refusal Unit
  checked f meta body = do
    let size = to_size meta.size_bytes
    fail_if (f.copy || ltb (length body) size) copy_failed
    fail_if (not (is_empty meta.sha256) && not (hash (take size body) == meta.sha256)) hash_mismatch
    fail_if f.sync sync_failed
    fail_if f.close close_failed
    fail_if f.rename rename_failed

  finish :
      Faults
      → Str
      → TransferMetadata
      → Str
      → Result Refusal Unit
      → Dict Str
      → Result Refusal Outcome × Dict Str
  finish f name meta body (err e) disk = (err e, remove f.tmp disk)
  finish f name meta body (ok _) disk =
      (ok (saved name), put name (take (to_size meta.size_bytes) body) (remove f.tmp disk))

  -- os.CreateTemp refuses a pattern with a path separator.
  unfoldable pub save_file :
      Faults → Str → TransferMetadata → Str → Dict Str → Result Refusal Outcome × Dict Str
  unfolding checked finish copied has_byte
  save_file f name meta body disk =
      if f.mkdir
      then (err mkdir_failed, disk)
      else if f.create || has_byte b'/' name
      then (err create_failed, disk)
      else finish f name meta body (checked f meta body)
          (put f.tmp (copied f (to_size meta.size_bytes) body) disk)

  receive_sized :
      Faults → Str → TransferMetadata → Str → Dict Str → Result Refusal Outcome × Dict Str
  unfolding save_file
  receive_sized f peer_id meta body disk =
      if ltb_ℤ (pos transfer_max_file_size) meta.size_bytes
      then (err too_large, disk)
      else save_file f (file_name peer_id meta) meta body disk

  receive_admitted :
      Faults → Str → TransferMetadata → Str → Dict Str → Result Refusal Outcome × Dict Str
  unfolding receive_sized
  receive_admitted f peer_id meta body disk =
      if leb_ℤ meta.size_bytes (pos 0) && leb_ℤ (pos 0) meta.size_bytes
      then (ok empty_transfer, disk)
      else receive_sized f peer_id meta body disk

-- How the handler ended, the manager, and the directory.
pub record Received : Type 0 where
  pub result : Result Refusal Outcome
  pub network : NetworkManager
  pub disk : Dict Str

module _ (hash : Str → Str) (k : Crypto) (f : Faults) (now : ℕ) (peer_id : Str) where
  with_network : NetworkManager → Result Refusal Outcome × Dict Str → Received
  with_network n (r, disk) = record { result = r; network = n; disk = disk }

  receive_verified :
      TransferMetadata → Str → Dict Str → Result Access.Refusal Unit × NetworkManager → Received
  unfolding with_network receive_admitted
  receive_verified meta body disk (err e, n) = with_network n (err not_authenticated, disk)
  receive_verified meta body disk (ok _, n) =
      with_network n (receive_admitted hash f peer_id meta body disk)

  receive_read :
      Result Transfer.Error (TransferMetadata × Str) → NetworkManager → Dict Str → Received
  unfolding receive_verified with_network
  receive_read (err e) n disk = with_network n (err bad_metadata, disk)
  receive_read (ok (meta, body)) n disk =
      receive_verified meta body disk
        (verify_auth_token k now meta.auth_token peer_id meta.session_nonce n)

  -- A saved file is followed by a scan of the library, which is Library.scan_music_library.
  unfoldable pub handle_stream : Codec → Str → NetworkManager → Dict Str → Received
  unfolding receive_read
  handle_stream c stream n disk = receive_read (read_transfer_metadata c stream) n disk
