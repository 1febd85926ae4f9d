-- ===== src/Network/Share.antt =====
-- internal/network/network.go, ShareSong: a file is sent to a peer. Which calls fail is an argument.
pub mod Delivered
use raag.Prelude.{
  ℕ, Str, codes, Bool, true, false, not, List, [], ◌∷◌, ◌++◌, Option, none, some, Result, ok, err,
  ◌>>=◌, ◌>>◌, fail_if, or_fail, if◌then◌else◌,
}
use raag.Prelude.Int.{ℤ, pos, ltb_ℤ}
use raag.Song.{Song}
use raag.Auth.{Crypto}
use raag.Discovery.World.{World}
use raag.Network.Transfer
use raag.Network.Transfer.{
  Codec, TransferMetadata, transfer_max_file_size, build_transfer_metadata, write_transfer_metadata,
}
use raag.Network.Calls.{Net, auth_data}

pub data ShareError : Type 0 where
  too_large no_absolute_path no_music_root no_relative_path open_failed no_stream : ShareError
  not_sent : Transfer.Error → ShareError
  copy_failed : ShareError

-- The libraries and the machine: `open_in` gives the contents of a file below the music directory,
-- `random` is the nonce in hex, or none where there is none, and `nanoseconds` the time as a text.
pub record Sending : Type 0 where
  pub clean : Str → Str
  pub abs : Str → Option Str
  pub rel : Str → Str → Option Str
  pub open_root : Str → Bool
  pub open_in : Str → Option Str
  pub opens_stream : Bool
  pub no_length : Bool
  pub no_payload : Bool
  pub no_data : Bool
  pub random : Option Str
  pub nanoseconds : Str

unfoldable pub generate_session_nonce : Sending → Str
generate_session_nonce s = elim s.random [ none ↦ s.nanoseconds | some hex ↦ hex ]

-- What ShareSong does before it has a stream: the contents of the file.
unfoldable pub open_shared : Sending → Str → Song → Result ShareError Str
open_shared s music_dir song = do
  fail_if (ltb_ℤ (pos transfer_max_file_size) song.size) too_large
  abs_path ← or_fail (s.abs (s.clean song.path)) no_absolute_path
  fail_if (not (s.open_root music_dir)) no_music_root
  rel_path ← or_fail (s.rel music_dir abs_path) no_relative_path
  content ← or_fail (s.open_in rel_path) open_failed
  fail_if (not s.opens_stream) no_stream
  ok content

or_no_token : Option Str → Str
or_no_token none = []
or_no_token (some token) = token

unfoldable pub shared_metadata : Sending → Song → Option Str → TransferMetadata
unfolding or_no_token
shared_metadata s song token =
    build_transfer_metadata song song.size song.hash (or_no_token token) (generate_session_nonce s)

send_frame : Sending → Str → Result Transfer.Error Str → Result ShareError Str
send_frame s content (err e) = err (not_sent e)
send_frame s content (ok frame) = if s.no_data then err copy_failed else ok (frame ++ content)

module _ {w : World} {k : Crypto} where
  -- What is on the stream after a transfer that succeeded; for a later error the stream is reset.
  unfoldable pub share_song :
      Sending → Codec → Str → Song → Net w k → Net w k × Result ShareError Str
  unfolding send_frame
  share_song s c music_dir song n =
      let (n', token) = auth_data n in
      elim (open_shared s music_dir song) [
        | err e ↦ (n, err e)
        | ok content ↦ (
          n',
          send_frame s content
              (write_transfer_metadata c s.no_length s.no_payload (shared_metadata s song token)),
        )
      ]
