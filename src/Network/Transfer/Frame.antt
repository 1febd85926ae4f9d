-- ===== src/Network/Transfer/Frame.antt =====
-- The reader takes what the writer sent.
use raag.Prelude.{
  ℕ, ◌/◌, ◌%◌, ◌≤◌, ◌<◌, ◌≡◌, refl, ap, Str, Bool, List, [], ◌∷◌, ◌++◌, some, ok, length, take,
  drop, arith,
}
use raag.Prelude.Int.{pos, ◌≤ℤ◌}
use raag.Network.Transfer.{
  TransferMetadata, Codec, transfer_max_metadata_size, transfer_max_file_size, put_uint32, uint32,
  write_transfer_metadata, read_transfer_metadata, read_payload, check_metadata, with_extension,
}

pub put_uint32-uint32 :
    (n : ℕ)
    → n < 4294967296
    → uint32 (n / 16777216 % 256) (n / 65536 % 256) (n / 256 % 256) (n % 256) ≡ n
unfolding uint32
put_uint32-uint32 n h = omega arith

take-append {ℓ} : {A : Type ℓ} (xs ys : List A) → take (length xs) (xs ++ ys) ≡ xs
take-append [] ys = refl
take-append (x ∷ xs) ys = ap (x ∷◌) (take-append xs ys)

drop-append {ℓ} : {A : Type ℓ} (xs ys : List A) → drop (length xs) (xs ++ ys) ≡ ys
drop-append [] ys = refl
drop-append (x ∷ xs) ys = drop-append xs ys

read_payload_lem :
    (c : Codec) (meta : TransferMetadata) (bytes rest : Str)
    → c.decode bytes ≡ some (meta, length bytes)
    → 0 < length bytes
    → length bytes ≤ transfer_max_metadata_size
    → (pos 0 ≤ℤ meta.size_bytes) × (meta.size_bytes ≤ℤ pos transfer_max_file_size)
    → read_payload c (length bytes) (bytes ++ rest) ≡ ok (with_extension meta, rest)
unfolding read_payload check_metadata with_extension
read_payload_lem c meta bytes rest decoded nonempty short sizes =
    grind (arith, decoded, take-append bytes rest, drop-append bytes rest)

-- What was written is read back, and the rest of the stream is left, for metadata of a file of
-- permitted size that do not encode to nothing and that the decoder gives back; an empty
-- extension comes back as that of the file name.
pub read-write :
    (c : Codec) (no_length no_payload : Bool) (meta : TransferMetadata) (bytes rest : Str)
    → c.decode (c.encode meta) ≡ some (meta, length (c.encode meta))
    → 0 < length (c.encode meta)
    → (pos 0 ≤ℤ meta.size_bytes) × (meta.size_bytes ≤ℤ pos transfer_max_file_size)
    → write_transfer_metadata c no_length no_payload meta ≡ ok bytes
    → read_transfer_metadata c (bytes ++ rest) ≡ ok (with_extension meta, rest)
unfolding write_transfer_metadata read_transfer_metadata put_uint32
read-write c no_length no_payload meta bytes rest decoded some_bytes sizes written = grind (
  arith,
  put_uint32-uint32 (length (c.encode meta)),
  read_payload_lem c meta (c.encode meta) rest decoded some_bytes,
)
