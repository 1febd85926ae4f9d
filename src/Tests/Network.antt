-- ===== src/Tests/Network.antt =====
-- The network at concrete peers and transfers.
use raag.Prelude.{
  ℕ, ◌+◌, ◌*◌, ◌≡◌, refl, ◌≢◌, inr, Str, codes, true, false, not, List, [], ◌∷◌, ◌++◌, none, some,
  ok, take, to_lower, lower_byte, trim_space, trim_left, is_space, replace_byte, ◌==◌,
  if◌then◌else◌, arith,
}
use raag.Prelude.Dict.{Dict, get, put, remove}
use raag.Prelude.Int.{pos}
use raag.Clock.{second, minute, unix}
use raag.Auth.{sign_token, serialize_token, deserialize_token, payload, verify_token}
use raag.Tests.Samples.{crypto, key}
use raag.Tests.Auth.{token, token-made, token-IsSound}
use raag.Network.State.{NetworkManager, new_network, set_auth_enabled}
use raag.Network.Access.{verify_auth_token, verify_nonce_used}
use raag.Network.Access.Tokens.{IsFresh, verify_auth_token_any_key}
use raag.Network.Access.Nonces.{done, session_nonce_once}
use raag.Network.Transfer.{
  TransferMetadata, Codec, uint32, read_transfer_metadata, with_extension, sanitize_transfer_name,
}
use raag.Network.Receive.{Faults, saved, handle_stream, file_name, has_byte, save_file, to_size}
use raag.Network.Receive.Saved.{IsComplete, handle_stream-saved, handle_stream-kept}
use raag.Network.Handshake.{begin_wait, end_first, signal_handshake_done, close_channel, is_closed}
use raag.Network.Handshake.Panic
use raag.Network.Handshake.Panic.{end_first_panics}
use raag.Network.Handshake.Handlers.{Exchange, handle_handshake, initiate_handshake}
use raag.Network.Handshake.Handlers.Signals.{IsOpen, Releases, handshake-Releases}
use raag.Network.Peers.{no_conns}
use raag.Network.Peers.Online.{IsForeign, Event, connect, disconnect, run, run-online}

abbrev pub alice : Str
alice = codes "alice"

-- A manager with authentication on.
abbrev manager : NetworkManager
manager = set_auth_enabled true (new_network (codes "me"))

abbrev now : ℕ
now = 2000 * second

abbrev text : Str
text = serialize_token crypto token

text-back : deserialize_token crypto text ≡ ok token
unfolding deserialize_token serialize_token sign_token payload
text-back = refl

verify_auth_token_any_key_example :
    (verify_auth_token crypto now text alice (codes "s1") manager).0 ≡ ok tt
unfolding IsFresh set_auth_enabled new_network get unix serialize_token
verify_auth_token_any_key_example =
    verify_auth_token_any_key crypto alice (codes "n1") (codes "s1") key 1000 now manager
      (ground arith) token-made token-IsSound (ground arith) text-back (ground arith) (inr refl)

abbrev met : NetworkManager
met = (verify_auth_token crypto now text alice (codes "s1") manager).1

session_nonce_once_example :
    (verify_auth_token crypto (now + minute) text alice (codes "s1") met).0 ≢ ok tt
unfolding serialize_token
session_nonce_once_example =
    session_nonce_once crypto now (now + minute) (now + minute) text text alice alice (codes "s1")
      manager met (ground arith) (ground arith) (ground arith) verify_auth_token_any_key_example
      (omega arith) (done met)

abbrev meta : TransferMetadata
meta = record {
  version = codes "1.0.0";
  title = codes "a/b";
  artist = [];
  album = [];
  filename = codes "a.mp3";
  extension = codes ".mp3";
  size_bytes = pos 3;
  sha256 = codes "ab";
  auth_token = text;
  session_nonce = codes "s1";
}

-- A codec that knows one value, and a hash that is the first two bytes.
abbrev codec : Codec
codec = record {
  encode = λ m. codes "{m}";
  decode = λ s. if s == codes "{m}" then some (meta, 3) else none;
}

abbrev frame : Str
frame = 0 ∷ 0 ∷ 0 ∷ 3 ∷ codes "{m}"

abbrev pub hash : Str → Str
hash s = take 2 s

abbrev pub faultless : Faults
faultless = record {
  mkdir = false;
  create = false;
  copy = false;
  sync = false;
  close = false;
  rename = false;
  tmp = codes "x.part";
  written = [];
}

abbrev path : Str
path = codes "alice_a_b.mp3"

abbrev disk : Dict Str
disk = (codes "old.mp3", codes "old") ∷ []

received :
    (handle_stream hash crypto faultless now alice codec (frame ++ codes "abc") manager disk).result
    ≡ ok (saved path)
unfolding handle_stream read_transfer_metadata uint32 with_extension verify_auth_token
    verify_nonce_used deserialize_token serialize_token sign_token payload verify_token unix ◌==◌
    get put remove set_auth_enabled new_network to_lower lower_byte trim_space trim_left is_space
    replace_byte sanitize_transfer_name file_name has_byte save_file to_size
received = refl

handle_stream-saved_example :
    (m : TransferMetadata) × (body : Str) × (read_transfer_metadata codec (frame ++ codes "abc")
      ≡ ok (m, body))
    × ((verify_auth_token crypto now m.auth_token alice m.session_nonce manager).0 ≡ ok tt)
    × (path ≡ file_name alice m)
    × (has_byte b'/' path ≡ false)
    × IsComplete hash m (
        get path
          (handle_stream hash crypto faultless now alice codec
            (frame ++ codes "abc")
            manager
            disk).disk)
handle_stream-saved_example =
    handle_stream-saved hash crypto faultless now alice path codec (frame ++ codes "abc") manager
      disk received

abbrev full_disk : Faults
full_disk = record faultless { create = true }

refused :
    (handle_stream hash crypto full_disk now alice codec (frame ++ codes "abc") manager disk).result
    ≢ ok (saved (codes "old.mp3"))
unfolding handle_stream read_transfer_metadata uint32 with_extension verify_auth_token
    verify_nonce_used deserialize_token serialize_token sign_token payload verify_token unix ◌==◌
    get put remove set_auth_enabled new_network to_lower lower_byte trim_space trim_left is_space
    replace_byte sanitize_transfer_name file_name has_byte save_file to_size
refused = ground arith

handle_stream-kept_example :
    get
      (codes "old.mp3")
      (handle_stream hash crypto full_disk now alice codec (frame ++ codes "abc") manager disk).disk
    ≡ get (codes "old.mp3") disk
handle_stream-kept_example =
    handle_stream-kept hash crypto full_disk now alice codec (frame ++ codes "abc") manager disk
      (codes "old.mp3") (ground arith) refused

abbrev waiting : NetworkManager
waiting = (begin_wait alice manager).1

abbrev signalled : NetworkManager
signalled = record waiting { pending_handshakes = []; closed = 0 ∷ [] }

end_first_panics_example : end_first alice 0 signalled ≡ none
unfolding begin_wait signal_handshake_done close_channel is_closed get put remove ◌==◌
    set_auth_enabled new_network
end_first_panics_example =
    end_first_panics alice 0 waiting signalled signalled refl refl (Panic.done signalled)

abbrev events : List Event
events = connect alice ∷ connect alice ∷ disconnect alice ∷ []

run-online_example :
    (run events ([], new_network (codes "me"))).1.online
    ≡ not (no_conns (run events ([], new_network (codes "me"))).0)
unfolding new_network ◌==◌ IsForeign
run-online_example =
    run-online events [] (new_network (codes "me")) (codes "me") refl (refl, (refl, (tt, tt))) refl

-- The peer sends a token, and the answer to it cannot be written.
abbrev exchange : Exchange
exchange = record { auth_data = some text; no_stream = false; answer = some text; no_write = true }

waiting-IsOpen : IsOpen alice waiting
unfolding IsOpen begin_wait set_auth_enabled new_network is_closed get
waiting-IsOpen ch e = refl

handshake-Releases_example :
    Releases alice waiting (handle_handshake crypto now alice exchange waiting)
    × Releases alice waiting (initiate_handshake crypto now alice exchange waiting)
unfolding begin_wait get set_auth_enabled new_network
handshake-Releases_example =
    handshake-Releases crypto now alice exchange waiting refl waiting-IsOpen
