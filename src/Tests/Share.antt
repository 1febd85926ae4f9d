-- ===== src/Tests/Share.antt =====
-- A song that is shared.
use raag.Prelude.{
  ◌≡◌, refl, Str, codes, ◌==◌, true, false, [], ◌∷◌, ◌++◌, some, none, ok, to_lower, lower_byte,
  trim_space, trim_left, is_space, replace_byte, arith, if◌then◌else◌,
}
use raag.Prelude.Int.{pos}
use raag.Prelude.Dict.{get}
use raag.Prelude.Paths.{base, ext}
use raag.Clock.{unix}
use raag.Auth.{
  generate_token, sign_token, serialize_token, deserialize_token, payload, verify_token,
}
use raag.Discovery.Register.{get_auth_data, regenerate_auth_token}
use raag.Network.Access.{verify_auth_token, verify_nonce_used}
use raag.Network.Calls.{Net, auth_data}
use raag.Network.Receive.{saved, handle_stream, file_name, has_byte}
use raag.Network.Share.{Sending, open_shared, shared_metadata, share_song, generate_session_nonce}
use raag.Network.Share.Delivered.{share_song-delivered}
use raag.Network.State.{new_network}
use raag.Network.Transfer.{
  TransferMetadata, Codec, build_transfer_metadata, put_uint32, write_transfer_metadata,
  with_extension, sanitize_transfer_name,
}
use raag.Song.{Song}
use raag.Tests.Network.{hash, faultless, alice}
use raag.Tests.Samples.{crypto}
use raag.Tests.World.{world, made, start_time}

abbrev song : Song
song = record {
  title = codes "t";
  artist = [];
  album = [];
  path = codes "/music/a.mp3";
  hash = codes "ab";
  size = pos 3;
}

abbrev pub sending : Sending
sending = record {
  clean = λ s. s;
  abs = some;
  rel = λ dir path. some path;
  open_root = λ dir. true;
  open_in = λ path. some (codes "abc");
  opens_stream = true;
  no_length = false;
  no_payload = false;
  no_data = false;
  random = some (codes "77");
  nanoseconds = [];
}

abbrev net : Net world crypto
net = record { manager = made; has_discovery = true }

abbrev sent : TransferMetadata
sent = shared_metadata sending song (auth_data net).1

abbrev pub codec : Codec
codec = record {
  encode = λ m. codes "{m}";
  decode = λ s. if s == codes "{m}" then some (sent, 3) else none;
}

abbrev bytes : Str
bytes = (0 ∷ (0 ∷ (0 ∷ (3 ∷ codes "{m}")))) ++ codes "abc"

shares : share_song sending codec (codes "/music") song net ≡ ((auth_data net).0, ok bytes)
unfolding share_song open_shared write_transfer_metadata put_uint32
shares = refl

opens : open_shared sending (codes "/music") song ≡ ok (codes "abc")
unfolding open_shared
opens = refl

abbrev name : Str
name = codes "alice_t.mp3"

names : file_name alice (with_extension sent) ≡ name
unfolding file_name with_extension shared_metadata build_transfer_metadata sanitize_transfer_name
    to_lower lower_byte trim_space trim_left is_space replace_byte ext base
names = refl

plain : has_byte b'/' (file_name alice (with_extension sent)) ≡ false
unfolding file_name with_extension shared_metadata build_transfer_metadata sanitize_transfer_name
    to_lower lower_byte trim_space trim_left is_space replace_byte ext base has_byte
plain = refl

let_in :
    (verify_auth_token crypto start_time
      (with_extension sent).auth_token
      alice
      (with_extension sent).session_nonce
      (new_network (codes "bob"))).0
    ≡ ok tt
unfolding verify_auth_token with_extension shared_metadata build_transfer_metadata verify_nonce_used
    deserialize_token serialize_token sign_token payload verify_token unix ◌==◌ get new_network
    auth_data get_auth_data regenerate_auth_token generate_token generate_session_nonce to_lower ext
let_in = refl

share_song-delivered_example :
    let d =
      handle_stream hash crypto faultless start_time alice codec bytes
        (new_network (codes "bob"))
        [] in
    (d.result ≡ ok (saved (file_name alice (with_extension sent))))
    × (get (file_name alice (with_extension sent)) d.disk ≡ some (codes "abc"))
unfolding ◌==◌
share_song-delivered_example =
    share_song-delivered sending codec (codes "/music") song net (auth_data net).0 hash faultless
      crypto start_time alice bytes (codes "abc") (new_network (codes "bob")) [] opens shares
      (record { sized = refl; some_bytes = omega arith; permitted = omega arith; hashed = refl })
      (record {
        mkdir = refl;
        create = refl;
        copy = refl;
        sync = refl;
        close = refl;
        rename = refl;
      })
      (record { back = refl; some_bytes = omega arith }) plain let_in
