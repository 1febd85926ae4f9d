-- ===== src/Tests/Samples.antt =====
-- Concrete stand-ins for the libraries: texts that are their own encodings, a signature that is the
-- key in front of the message, and addresses that are read off their text.
use raag.Prelude.{
  ◌*◌, ◌+◌, Str, codes, ◌==◌, [], ◌∷◌, ◌++◌, Option, none, some, length, take, drop, has_prefix,
  before_byte,
}
use raag.Prelude.Int.{ℤ, pos, negsuc}
use raag.Prelude.Paths.{base}
use raag.Auth.{AuthToken, Crypto}
use raag.Tracker.Request.{Registration, Request, Addresses}

-- A text behind its length.
abbrev pub put_text : Str → Str
put_text s = length s ∷ s

abbrev pub get_text : Str → Str × Str
get_text [] = ([], [])
get_text (n ∷ s) = (take n s, drop n s)

abbrev pub decimal : ℤ → Str
decimal (pos n) = (2 * n + 60) ∷ []
decimal (negsuc n) = (2 * n + 61) ∷ []

abbrev time_of : ℤ → Str
time_of (pos n) = n ∷ []
time_of (negsuc n) = []

abbrev pub encode_token : AuthToken → Str
encode_token t =
    put_text t.peer_id
    ++ (put_text t.public_key
        ++ (put_text t.signature
            ++ (put_text t.nonce ++ (time_of t.timestamp ++ time_of t.expires_at))))

abbrev timed : Str → Str → Str → Str → Str → Option AuthToken
timed peer_id public_key signature nonce (made ∷ expires ∷ _) = some (record {
  peer_id = peer_id;
  public_key = public_key;
  signature = signature;
  timestamp = pos made;
  expires_at = pos expires;
  nonce = nonce;
})
timed _ _ _ _ _ = none

abbrev pub decode_token : Str → Option AuthToken
decode_token s =
    let a = get_text s in
    let b = get_text a.1 in
    let c = get_text b.1 in let d = get_text c.1 in timed a.0 b.0 c.0 d.0 d.1

abbrev pub crypto : Crypto
crypto = record {
  PrivKey = Str;
  public = λ key. key;
  sign = λ key message. key ++ message;
  verify = λ key message signature. signature == key ++ message;
  hex_encode = λ s. s;
  hex_decode = some;
  base64_encode = λ s. s;
  base64_decode = some;
  decimal = decimal;
  to_json = encode_token;
  from_json = decode_token;
}

abbrev pub key : Str
key = codes "0123456789abcdef0123456789abcdef"

abbrev registration : Str × Str → Str → Registration
registration (auth, []) peer_id = record { addrs = []; peer_id = peer_id; auth_data = auth }
registration (auth, c ∷ s) peer_id = record {
  addrs = (c ∷ s) ∷ [];
  peer_id = peer_id;
  auth_data = auth;
}

abbrev pub decode_registration : Str → Option Registration
decode_registration [] = none
decode_registration (c ∷ s) = let a = get_text (c ∷ s) in some (registration (get_text a.1) a.0)

abbrev pub addresses : Addresses
addresses = record {
  Ip = Str;
  Multiaddr = Str;
  split_host_port = λ s. some (before_byte b':' s);
  parse_ip = some;
  is_private = λ s. has_prefix s (codes "192.168.");
  new_multiaddr = some;
  ip4_value = λ s. some (before_byte b'/' (drop 5 s));
  addr_info_id = λ s. some (base s);
  decode_registration = decode_registration;
}

abbrev pub addr : Str
addr = codes "/ip4/9.8.7.6/tcp/1/p2p/alice"

abbrev pub body_of : Str → Str → Str
body_of auth addr = put_text (codes "alice") ++ (put_text auth ++ addr)

abbrev pub post_of : Str → Request
post_of body = record {
  method = codes "POST";
  path = codes "/register";
  x_forwarded_for = codes "9.8.7.6, 10.0.0.1";
  remote_addr = codes "10.0.0.1:4000";
  body = body;
}
