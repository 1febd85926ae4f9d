-- ===== src/Network/Receive/Whole.antt =====
-- A transfer of a whole file, with no system call failing, is saved.
use raag.Prelude.{
  ℕ, ◌≤◌, ◌<◌, ◌≡◌, refl, ap, Str, false, [], ◌∷◌, some, ok, length, take, arith, eq_refl,
}
use raag.Prelude.Int.{pos}
use raag.Prelude.Dict.{Dict, get, put, remove, get-put_self}
use raag.Auth.{Crypto}
use raag.Network.State.{NetworkManager}
use raag.Network.Access.{verify_auth_token}
use raag.Network.Transfer.{TransferMetadata, Codec, transfer_max_file_size, read_transfer_metadata}
use raag.Network.Receive.{
  Faults, saved, file_name, has_byte, save_file, to_size, with_network, receive_admitted,
  receive_sized, receive_verified, receive_read, handle_stream,
}

-- The receiver's system calls succeed.
pub record IsFaultless (f : Faults) : Type 0 where
  pub mkdir : f.mkdir ≡ false
  pub create : f.create ≡ false
  pub copy : f.copy ≡ false
  pub sync : f.sync ≡ false
  pub close : f.close ≡ false
  pub rename : f.rename ≡ false

take-all : (s : Str) → take (length s) s ≡ s
take-all [] = refl
take-all (b ∷ s) = ap (b ∷◌) (take-all s)

module _ (hash : Str → Str) (f : Faults) (whole : IsFaultless f) where
  save_file-whole :
      (name : Str) (meta : TransferMetadata) (content : Str) (disk : Dict Str)
      → meta.size_bytes ≡ pos (length content)
      → hash content ≡ meta.sha256
      → has_byte b'/' name ≡ false
      → let (r, d) = save_file hash f name meta content disk in
        (r ≡ ok (saved name)) × (get name d ≡ some content)
  unfolding save_file to_size
  save_file-whole name meta content disk sized hashed plain = ground (
    arith,
    whole.mkdir,
    whole.create,
    whole.copy,
    whole.sync,
    whole.close,
    whole.rename,
    take-all content,
    eq_refl meta.sha256,
    get-put_self name content (remove f.tmp (put f.tmp content disk)),
  )

  receive_read-whole :
      (k : Crypto) (now : ℕ) (peer_id : Str) (meta : TransferMetadata) (content : Str)
      (r : NetworkManager) (disk : Dict Str)
      → meta.size_bytes ≡ pos (length content)
      → 0 < length content
      → length content ≤ transfer_max_file_size
      → hash content ≡ meta.sha256
      → has_byte b'/' (file_name peer_id meta) ≡ false
      → (verify_auth_token k now meta.auth_token peer_id meta.session_nonce r).0 ≡ ok tt
      → let d = receive_read hash k f now peer_id (ok (meta, content)) r disk in
        (d.result ≡ ok (saved (file_name peer_id meta)))
        × (get (file_name peer_id meta) d.disk ≡ some content)
  unfolding receive_read receive_verified with_network receive_admitted receive_sized
  receive_read-whole k now peer_id meta content r disk sized some_bytes permitted hashed plain
        let_in =
      ground (
        arith,
        let_in,
        sized,
        some_bytes,
        permitted,
        save_file-whole (file_name peer_id meta) meta content disk sized hashed plain,
      )

  pub handle_stream-whole :
      (k : Crypto) (now : ℕ) (peer_id : Str) (c : Codec) (stream : Str) (meta : TransferMetadata)
      (content : Str) (r : NetworkManager) (disk : Dict Str)
      → read_transfer_metadata c stream ≡ ok (meta, content)
      → meta.size_bytes ≡ pos (length content)
      → 0 < length content
      → length content ≤ transfer_max_file_size
      → hash content ≡ meta.sha256
      → has_byte b'/' (file_name peer_id meta) ≡ false
      → (verify_auth_token k now meta.auth_token peer_id meta.session_nonce r).0 ≡ ok tt
      → let d = handle_stream hash k f now peer_id c stream r disk in
        (d.result ≡ ok (saved (file_name peer_id meta)))
        × (get (file_name peer_id meta) d.disk ≡ some content)
  unfolding handle_stream
  handle_stream-whole k now peer_id c stream meta content r disk read sized some_bytes permitted
        hashed plain let_in =
      ground (
        arith,
        read,
        receive_read-whole k now peer_id meta content r disk sized some_bytes permitted hashed plain
            let_in,
      )
