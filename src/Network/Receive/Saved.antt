-- ===== src/Network/Receive/Saved.antt =====
-- What a transfer leaves in the directory.
use raag.Prelude.{
  ℕ, ◌≤◌, Str, eq_iff, mismatch_iff, ◌≡◌, ◌≢◌, ◌⊎◌, inl, inr, refl, false, [], Option, some, Result,
  ok, err, length, take, arith, length-take, Result-cases,
}
use raag.Prelude.Dict.{Dict, get, put, remove, get-put, get-put_self, get-remove}
use raag.Auth.{Crypto}
use raag.Network.State.{NetworkManager}
use raag.Network.Access.{verify_auth_token}
use raag.Network.Transfer.{
  TransferMetadata, Codec, transfer_max_file_size, read_transfer_metadata, sanitize_transfer_name,
}
use raag.Network.Access
use raag.Network.Transfer
use raag.Network.Receive.{
  Faults, file_name, has_byte, to_size, copied, checked, finish, save_file, receive_sized,
  receive_admitted, with_network, receive_verified, receive_read, handle_stream, saved,
}

-- The file is complete: it has the announced size and, where one was announced, the announced hash.
pub IsComplete : (Str → Str) → TransferMetadata → Option Str → Type 0
IsComplete hash meta content =
    (bytes : Str) × (content ≡ some bytes)
    × (length bytes ≡ to_size meta.size_bytes)
    × ((meta.sha256 ≡ []) ⊎ (hash bytes ≡ meta.sha256))

module _ (hash : Str → Str) (f : Faults) (meta : TransferMetadata) (body : Str) where
  checked_ok :
      checked hash f meta body ≡ ok tt
      → (to_size meta.size_bytes ≤ length body)
        × ((meta.sha256 ≡ []) ⊎ (hash (take (to_size meta.size_bytes) body) ≡ meta.sha256))
  unfolding checked
  checked_ok e =
      grind (arith, mismatch_iff meta.sha256 (hash (take (to_size meta.size_bytes) body)))

  save_file_ok :
      (name path : Str) (disk : Dict Str)
      → (save_file hash f name meta body disk).0 ≡ ok (saved path)
      → (path ≡ name)
        × (has_byte b'/' name ≡ false)
        × (checked hash f meta body ≡ ok tt)
        × (get name (save_file hash f name meta body disk).1
            ≡ some (take (to_size meta.size_bytes) body))
  unfolding save_file finish
  save_file_ok name path disk e = elim (Result-cases (checked hash f meta body)) [
    | inl (u, c) ↦ ground (
      arith,
      c,
      get-put name name (take (to_size meta.size_bytes) body) (remove f.tmp disk),
      get-put_self name (take (to_size meta.size_bytes) body)
          (remove f.tmp (put f.tmp (copied f (to_size meta.size_bytes) body) disk)),
    )
    | inr (u, c) ↦ ground (arith, c)
  ]

  save_file-saved :
      (name path : Str) (disk : Dict Str)
      → (save_file hash f name meta body disk).0 ≡ ok (saved path)
      → (path ≡ name)
        × (has_byte b'/' name ≡ false)
        × IsComplete hash meta (get name (save_file hash f name meta body disk).1)
  unfolding IsComplete
  save_file-saved name path disk e =
      let bytes = take (to_size meta.size_bytes) body in
      let facts = save_file_ok name path disk e in
      let (long, right) = checked_ok facts.2 in
      let size = length-take (to_size meta.size_bytes) body in
      (facts.0, facts.1, (bytes, facts.3, omega (arith, size, long), right))

  save_file-kept :
      (name j : Str) (disk : Dict Str)
      → j ≢ f.tmp
      → (save_file hash f name meta body disk).0 ≢ ok (saved j)
      → get j (save_file hash f name meta body disk).1 ≡ get j disk
  unfolding save_file finish
  save_file-kept name j disk other h = grind (arith, get-put, get-remove, eq_iff)

  receive_admitted-saved :
      (peer_id path : Str) (disk : Dict Str)
      → (receive_admitted hash f peer_id meta body disk).0 ≡ ok (saved path)
      → (path ≡ file_name peer_id meta)
        × (has_byte b'/' path ≡ false)
        × IsComplete hash meta (get path (receive_admitted hash f peer_id meta body disk).1)
  unfolding receive_admitted receive_sized
  receive_admitted-saved peer_id path disk e =
      grind (arith, save_file-saved (file_name peer_id meta) path disk)

  receive_admitted-kept :
      (peer_id j : Str) (disk : Dict Str)
      → j ≢ f.tmp
      → (receive_admitted hash f peer_id meta body disk).0 ≢ ok (saved j)
      → get j (receive_admitted hash f peer_id meta body disk).1 ≡ get j disk
  unfolding receive_admitted receive_sized
  receive_admitted-kept peer_id j disk other h =
      grind (arith, save_file-kept (file_name peer_id meta) j disk other)

module _ (hash : Str → Str) (k : Crypto) (f : Faults) (now : ℕ) (peer_id path : Str) where
  receive_verified-saved :
      (meta : TransferMetadata) (body : Str) (disk : Dict Str)
      (r : Result Access.Refusal Unit × NetworkManager)
      → (receive_verified hash k f now peer_id meta body disk r).result ≡ ok (saved path)
      → (r.0 ≡ ok tt)
        × (path ≡ file_name peer_id meta)
        × (has_byte b'/' path ≡ false)
        × IsComplete hash meta
            (get path (receive_verified hash k f now peer_id meta body disk r).disk)
  unfolding receive_verified with_network
  receive_verified-saved meta body disk (ok u, n) e =
      let found = receive_admitted-saved hash f meta body peer_id path disk e in
      (refl, found.0, found.1, found.2)
  receive_verified-saved meta body disk (err x, n) e = ground (arith, e)

  receive_read-saved :
      (n : NetworkManager) (disk : Dict Str) (r : Result Transfer.Error (TransferMetadata × Str))
      → (receive_read hash k f now peer_id r n disk).result ≡ ok (saved path)
      → (meta : TransferMetadata) × (body : Str) × (r ≡ ok (meta, body))
        × ((verify_auth_token k now meta.auth_token peer_id meta.session_nonce n).0 ≡ ok tt)
        × (path ≡ file_name peer_id meta)
        × (has_byte b'/' path ≡ false)
        × IsComplete hash meta (get path (receive_read hash k f now peer_id r n disk).disk)
  unfolding receive_read with_network
  receive_read-saved n disk (ok (meta, body)) e =
      let checked = verify_auth_token k now meta.auth_token peer_id meta.session_nonce n in
      let found = receive_verified-saved meta body disk checked e in
      (meta, body, refl, found.0, found.1, found.2, found.3)
  receive_read-saved n disk (err x) e = ground (arith, e)

  -- A transfer that ends with a file saved under a name had readable metadata and a token that
  -- was accepted for the sender, the name is that made from the sender and the title and holds no
  -- slash, and the file under it has the announced size and, where one was announced, the
  -- announced hash.
  pub handle_stream-saved :
      (c : Codec) (stream : Str) (n : NetworkManager) (disk : Dict Str)
      → (handle_stream hash k f now peer_id c stream n disk).result ≡ ok (saved path)
      → (meta : TransferMetadata) × (body : Str) × (read_transfer_metadata c stream
          ≡ ok (meta, body))
        × ((verify_auth_token k now meta.auth_token peer_id meta.session_nonce n).0 ≡ ok tt)
        × (path ≡ file_name peer_id meta)
        × (has_byte b'/' path ≡ false)
        × IsComplete hash meta (get path (handle_stream hash k f now peer_id c stream n disk).disk)
  unfolding handle_stream
  handle_stream-saved c stream n disk = receive_read-saved n disk (read_transfer_metadata c stream)

module _ (hash : Str → Str) (k : Crypto) (f : Faults) (now : ℕ) (peer_id : Str) where
  receive_verified-kept :
      (meta : TransferMetadata) (body : Str) (disk : Dict Str)
      (r : Result Access.Refusal Unit × NetworkManager) (j : Str)
      → j ≢ f.tmp
      → (receive_verified hash k f now peer_id meta body disk r).result ≢ ok (saved j)
      → get j (receive_verified hash k f now peer_id meta body disk r).disk ≡ get j disk
  unfolding receive_verified with_network
  receive_verified-kept meta body disk (ok u, n) j other h =
      receive_admitted-kept hash f meta body peer_id j disk other h
  receive_verified-kept meta body disk (err x, n) j other h = refl

  receive_read-kept :
      (n : NetworkManager) (disk : Dict Str) (r : Result Transfer.Error (TransferMetadata × Str))
      (j : Str)
      → j ≢ f.tmp
      → (receive_read hash k f now peer_id r n disk).result ≢ ok (saved j)
      → get j (receive_read hash k f now peer_id r n disk).disk ≡ get j disk
  unfolding receive_read with_network
  receive_read-kept n disk (ok (meta, body)) j other h =
      let checked = verify_auth_token k now meta.auth_token peer_id meta.session_nonce n in
      receive_verified-kept meta body disk checked j other h
  receive_read-kept n disk (err x) j other h = refl

  -- However a transfer ends and whatever calls fail, every name but that of the saved file and that
  -- of the temporary file keeps its content.
  pub handle_stream-kept :
      (c : Codec) (stream : Str) (n : NetworkManager) (disk : Dict Str) (j : Str)
      → j ≢ f.tmp
      → (handle_stream hash k f now peer_id c stream n disk).result ≢ ok (saved j)
      → get j (handle_stream hash k f now peer_id c stream n disk).disk ≡ get j disk
  unfolding handle_stream
  handle_stream-kept c stream n disk j other h =
      receive_read-kept n disk (read_transfer_metadata c stream) j other h
