-- ===== src/Network/Identity.antt =====
-- internal/network/network.go: the key that names the host, kept in a file. libp2p's keys, the JSON of
-- `serializedKey` and the system calls are parameters.
use raag.Prelude.{
  ◌≡◌, Str, codes, ◌==◌, Bool, false, ◌||◌, Option, none, some, Result, ok, err, or_fail,
  if◌then◌else◌, arith,
}
use raag.Prelude.Dict.{Dict, get, put, get-put_self}

pub record SerializedKey : Type 0 where
  pub key_type : Str
  pub key_data : Str

pub record KeyLib : Type 1 where
  pub PrivKey : Type 0
  pub marshal : PrivKey → Option Str
  pub unmarshal : Str → Option PrivKey
  pub to_json : SerializedKey → Str
  pub from_json : Str → Option SerializedKey

pub data Error : Type 0 where
  not_generated not_marshalled no_config_dir : Error

-- What the machine answers: no path or directory for the key, a directory that cannot be opened, no
-- relative path, a file that cannot be read, a directory that cannot be made, a failed
-- write, after which the file may hold a part of what was written.
pub record Machine : Type 0 where
  pub no_path : Bool
  pub no_dir : Bool
  pub no_root : Bool
  pub no_rel : Bool
  pub no_read : Bool
  pub no_mkdir : Bool
  pub no_write : Bool
  pub partial : Option Str

abbrev pub Disk : Type 0
Disk = Dict Str

module _ (l : KeyLib) where
  open l use {PrivKey, marshal, unmarshal, to_json, from_json}

  -- `generated` is what crypto.GenerateKeyPair gives. A failed write is only logged.
  abbrev written : Machine → Str → SerializedKey → Disk → Disk
  written m path sk disk =
      if m.no_write
      then elim m.partial [ none ↦ disk | some text ↦ put path text disk ]
      else put path (to_json sk) disk

  unfoldable pub generate_and_save_key :
      Option PrivKey → Machine → Str → Disk → Disk × Result Error PrivKey
  generate_and_save_key generated m path disk = elim generated [
    | none ↦ (disk, err not_generated)
    | some key ↦ elim (marshal key) [
      | none ↦ (disk, err not_marshalled)
      | some bytes ↦
          if m.no_mkdir
          then (disk, err no_config_dir)
          else (written m path (record { key_type = codes "RSA"; key_data = bytes }) disk, ok key)
    ]
  ]

  known_type : SerializedKey → Bool
  known_type sk = sk.key_type == codes "RSA" || sk.key_type == codes "Ed25519"

  -- The key of a file's contents, if they are one.
  unfoldable pub parse_key : Str → Option PrivKey
  unfolding known_type
  parse_key text = elim (from_json text) [
    | none ↦ none
    | some sk ↦ if known_type sk then unmarshal sk.key_data else none
  ]

  or_generate : Option PrivKey → Machine → Str → Disk → Option PrivKey → Disk × Result Error PrivKey
  or_generate generated m path disk none = generate_and_save_key generated m path disk
  or_generate generated m path disk (some key) = (disk, ok key)

  only_generate : Option PrivKey → Disk → Disk × Result Error PrivKey
  only_generate generated disk = (disk, or_fail generated not_generated)

  contents : Machine → Str → Disk → Option Str
  contents m path disk = if m.no_read then none else get path disk

  unfoldable pub load_or_generate_identity :
      Option PrivKey → Machine → Str → Disk → Disk × Result Error PrivKey
  unfolding or_generate only_generate contents
  load_or_generate_identity generated m path disk =
      if m.no_path || m.no_dir || m.no_root || m.no_rel
      then only_generate generated disk
      else elim (contents m path disk) [
        | none ↦ generate_and_save_key generated m path disk
        | some text ↦ or_generate generated m path disk (parse_key text)
      ]

-- The calls that keep a key succeed.
pub record IsWorking (m : Machine) : Type 0 where
  pub path : m.no_path ≡ false
  pub dir : m.no_dir ≡ false
  pub root : m.no_root ≡ false
  pub rel : m.no_rel ≡ false
  pub read : m.no_read ≡ false
  pub mkdir : m.no_mkdir ≡ false
  pub write : m.no_write ≡ false

abbrev pub rsa : Str → SerializedKey
rsa bytes = record { key_type = codes "RSA"; key_data = bytes }

-- What the libraries document, at one key: its bytes and their JSON decode to it.
pub record IsKeyLib (l : KeyLib) (key : l.PrivKey) (bytes : Str) : Type 0 where
  pub marshalled : l.marshal key ≡ some bytes
  pub back : l.unmarshal bytes ≡ some key
  pub json_back : l.from_json (l.to_json (rsa bytes)) ≡ some (rsa bytes)

-- The program keeps its identity: where there is no file of a key, a start makes one, and a later
-- start has the same key and leaves the file as it is, whatever key would be generated then. The
-- system calls of the two starts succeed, and the key's encodings decode to it.
pub identity_kept :
    (l : KeyLib) (key : l.PrivKey) (bytes : Str) (other : Option l.PrivKey) (m m' : Machine)
    (path : Str) (disk : Dict Str)
    → IsKeyLib l key bytes
    → IsWorking m
    → IsWorking m'
    → get path disk ≡ none
    → let (disk', first) = load_or_generate_identity l (some key) m path disk in
      (first ≡ ok key) × (load_or_generate_identity l other m' path disk' ≡ (disk', ok key))
unfolding load_or_generate_identity generate_and_save_key parse_key ◌==◌
identity_kept l key bytes other m m' path disk lib works works' fresh = ground (
  arith,
  fresh,
  lib.marshalled,
  lib.back,
  lib.json_back,
  works.path,
  works.dir,
  works.root,
  works.rel,
  works.read,
  works.mkdir,
  works.write,
  works'.path,
  works'.dir,
  works'.root,
  works'.rel,
  works'.read,
  get-put_self path (l.to_json (rsa bytes)) disk,
)
