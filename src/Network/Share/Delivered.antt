-- ===== src/Network/Share/Delivered.antt =====
-- A shared song arrives.
use raag.Prelude.{
  ℕ, ◌≤◌, ◌<◌, ◌≡◌, sym, ◌∙◌, Str, false, ◌++◌, some, ok, length, arith, Result-cases, inl, inr,
}
use raag.Prelude.Int.{pos, ◌≤ℤ◌}
use raag.Prelude.Dict.{Dict, get}
use raag.Song.{Song}
use raag.Auth.{Crypto}
use raag.Discovery.World.{World}
use raag.Network.State.{NetworkManager}
use raag.Network.Access.{verify_auth_token}
use raag.Network.Transfer.{
  TransferMetadata, Codec, transfer_max_file_size, write_transfer_metadata, with_extension,
  build_transfer_metadata,
}
use raag.Network.Transfer.Frame.{read-write}
use raag.Network.Receive.{Faults, saved, handle_stream, file_name, has_byte}
use raag.Network.Receive.Whole.{IsFaultless, handle_stream-whole}
use raag.Network.Calls.{Net, auth_data}
use raag.Network.Share.{Sending, open_shared, shared_metadata, share_song, send_frame}

-- The song's record is that of the file: its size, which is permitted, and its hash.
pub record IsOf (hash : Str → Str) (song : Song) (content : Str) : Type 0 where
  pub sized : song.size ≡ pos (length content)
  pub some_bytes : 0 < length content
  pub permitted : length content ≤ transfer_max_file_size
  pub hashed : hash content ≡ song.hash

-- The codec gives the metadata back, and what it writes is not empty.
pub record IsCodec (c : Codec) (meta : TransferMetadata) : Type 0 where
  pub back : c.decode (c.encode meta) ≡ some (meta, length (c.encode meta))
  pub some_bytes : 0 < length (c.encode meta)

same_size : (m : TransferMetadata) → (with_extension m).size_bytes ≡ m.size_bytes
unfolding with_extension
same_size m = ground arith

same_hash : (m : TransferMetadata) → (with_extension m).sha256 ≡ m.sha256
unfolding with_extension
same_hash m = ground arith

sizes :
    {hash : Str → Str} {song : Song} {content : Str}
    → IsOf hash song content
    → (pos 0 ≤ℤ song.size) × (song.size ≤ℤ pos transfer_max_file_size)
sizes o = ground (arith, o.sized, o.permitted)

module _ {w : World} {k : Crypto} (s : Sending) (c : Codec) (music_dir : Str) (song : Song)
    (n n' : Net w k) where
  share_song-frame :
      (bytes content : Str)
      → open_shared s music_dir song ≡ ok content
      → share_song s c music_dir song n ≡ (n', ok bytes)
      → (frame : Str) × (write_transfer_metadata c s.no_length s.no_payload
            (shared_metadata s song (auth_data n).1)
          ≡ ok frame)
        × (bytes ≡ frame ++ content)
  unfolding share_song send_frame
  share_song-frame bytes content opened e =
      elim (Result-cases (
        write_transfer_metadata c s.no_length s.no_payload
          (shared_metadata s song (auth_data n).1))) [
            | inl (frame, f) ↦ (frame, f, ground (arith, f, opened))
            | inr (x, f) ↦ ground (arith, f, opened)
          ]

  -- A song that is shared arrives: the receiver, whose system calls succeed and who accepts the
  -- token and the nonce that were sent, saves the file's contents under the name made from the
  -- sender and the title. The song's record has the size and the hash of the file, which is not
  -- empty nor too large; the name holds no slash; and the decoder gives the metadata back.
  pub share_song-delivered :
      (hash : Str → Str) (f : Faults) (j : Crypto) (now : ℕ) (peer_id bytes content : Str)
      (r : NetworkManager) (disk : Dict Str)
      → open_shared s music_dir song ≡ ok content
      → share_song s c music_dir song n ≡ (n', ok bytes)
      → IsOf hash song content
      → IsFaultless f
      → let sent = shared_metadata s song (auth_data n).1 in
        let meta = with_extension sent in
        IsCodec c sent
        → has_byte b'/' (file_name peer_id meta) ≡ false
        → (verify_auth_token j now meta.auth_token peer_id meta.session_nonce r).0 ≡ ok tt
        → let d = handle_stream hash j f now peer_id c bytes r disk in
          (d.result ≡ ok (saved (file_name peer_id meta)))
          × (get (file_name peer_id meta) d.disk ≡ some content)
  unfolding shared_metadata build_transfer_metadata
  share_song-delivered hash f j now peer_id bytes content r disk opened e song_of whole codec plain
        let_in =
      let (frame, wrote, is) = share_song-frame bytes content opened e in
      let sent = shared_metadata s song (auth_data n).1 in
      handle_stream-whole hash f whole j now peer_id c bytes (with_extension sent) content r disk
        (ground (
          arith,
          is,
          read-write c s.no_length s.no_payload sent frame content codec.back codec.some_bytes
              (sizes song_of) wrote,
        ))
        (same_size sent ∙ song_of.sized) song_of.some_bytes song_of.permitted
        (song_of.hashed ∙ sym (same_hash sent)) plain let_in
