-- ===== src/Network/Transfer.antt =====
-- internal/network/transfer.go: the frame in front of a transferred file.
pub mod Frame
pub mod Names
use raag.Prelude.{
  ℕ, ◌+◌, ◌*◌, ◌/◌, ◌%◌, ◌^◌, Str, codes, Bool, true, false, ◌||◌, List, [], ◌∷◌, ◌++◌, Option,
  none, some, Result, ok, err, ◌>>=◌, ◌>>◌, fail_if, or_fail, is_empty, length, take, drop, ltb,
  eqb, to_lower, trim_space, replace_byte, if◌then◌else◌,
}
use raag.Prelude.Int.{ℤ, pos, ltb_ℤ}
use raag.Prelude.Paths.{ext, base}
use raag.Song.{Song}

pub record TransferMetadata : Type 0 where
  pub version : Str
  pub title : Str
  pub artist : Str
  pub album : Str
  pub filename : Str
  pub extension : Str
  pub size_bytes : ℤ
  pub sha256 : Str
  pub auth_token : Str
  pub session_nonce : Str

-- constants.TransferMaxMetadataSize and TransferMaxFileSize
abbrev pub transfer_max_metadata_size : ℕ
transfer_max_metadata_size = 64 * 1024

abbrev pub transfer_max_file_size : ℕ
transfer_max_file_size = 256 * 1024 * 1024

unfoldable pub build_transfer_metadata : Song → ℤ → Str → Str → Str → TransferMetadata
build_transfer_metadata song file_size digest auth_token session_nonce = record {
  version = codes "1.0.0";
  title = song.title;
  artist = song.artist;
  album = song.album;
  filename = base song.path;
  extension = to_lower (ext song.path);
  size_bytes = file_size;
  sha256 = digest;
  auth_token = auth_token;
  session_nonce = session_nonce;
}

pub data Error : Type 0 where
  metadata_too_large write_length_failed write_payload_failed : Error
  read_length_failed empty_frame frame_too_large decode_failed : Error
  invalid_size file_too_large : Error

-- encoding/json at the type of the metadata. The decoder reads from a stream of at most the given
-- bytes, and says how many it took.
pub record Codec : Type 0 where
  pub encode : TransferMetadata → Str
  pub decode : Str → Option (TransferMetadata × ℕ)

-- binary.BigEndian.PutUint32
unfoldable pub put_uint32 : ℕ → Str
put_uint32 n = (n / 16777216 % 256) ∷ (n / 65536 % 256) ∷ (n / 256 % 256) ∷ (n % 256) ∷ []

-- binary.BigEndian.Uint32
unfoldable pub uint32 : ℕ → ℕ → ℕ → ℕ → ℕ
uint32 a b c d = a * 16777216 + b * 65536 + c * 256 + d

-- What the stream carries after a write that succeeded; `no_length` and `no_payload` are whether
-- the two writes fail.
unfoldable pub write_transfer_metadata : Codec → Bool → Bool → TransferMetadata → Result Error Str
write_transfer_metadata c no_length no_payload meta = do
  let bytes = c.encode meta
  fail_if (ltb transfer_max_metadata_size (length bytes)) metadata_too_large
  fail_if (ltb 4294967295 (length bytes)) metadata_too_large
  fail_if no_length write_length_failed
  fail_if no_payload write_payload_failed
  ok (put_uint32 (length bytes) ++ bytes)

-- As the program does after reading: an absent extension is that of the file name.
unfoldable pub with_extension : TransferMetadata → TransferMetadata
with_extension meta =
    if is_empty meta.extension
    then record meta { extension = to_lower (ext meta.filename) }
    else meta

unfoldable check_metadata : TransferMetadata × ℕ → Str → Result Error (TransferMetadata × Str)
unfolding with_extension
check_metadata (meta, taken) stream = do
  fail_if (ltb_ℤ meta.size_bytes (pos 0)) invalid_size
  fail_if (ltb_ℤ (pos transfer_max_file_size) meta.size_bytes) file_too_large
  ok (with_extension meta, drop taken stream)

unfoldable read_payload : Codec → ℕ → Str → Result Error (TransferMetadata × Str)
unfolding check_metadata
read_payload c len stream = do
  fail_if (eqb len 0) empty_frame
  fail_if (ltb transfer_max_metadata_size len) frame_too_large
  found ← or_fail (c.decode (take len stream)) decode_failed
  check_metadata found stream

-- The metadata, and what is left of the stream.
unfoldable pub read_transfer_metadata : Codec → Str → Result Error (TransferMetadata × Str)
unfolding read_payload
read_transfer_metadata c (a ∷ b ∷ d ∷ e ∷ stream) = read_payload c (uint32 a b d e) stream
read_transfer_metadata c _ = err read_length_failed

abbrev or_received : Str → Str
or_received [] = codes "received"
or_received (c ∷ s) = c ∷ s

-- On Unix the separator is the slash again.
unfoldable pub sanitize_transfer_name : Str → Str
sanitize_transfer_name name =
    or_received
      (replace_byte b'/' b'_' (replace_byte 92 b'_' (replace_byte b'/' b'_' (trim_space name))))
