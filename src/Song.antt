-- ===== src/Song.antt =====
-- The song record of internal/metadata/metadata.go, and how it is read from a file.
use raag.Prelude.{Str, Result, ◌>>=◌, or_fail, Option}
use raag.Prelude.Int.{ℤ}

pub record Song : Type 0 where
  pub title : Str
  pub artist : Str
  pub album : Str
  pub path : Str
  pub hash : Str
  pub size : ℤ

pub data MetadataError : Type 0 where
  no_music_dir no_music_root no_relative_path open_failed stat_failed bad_tags hash_failed :
      MetadataError

-- The tags that the tag reader finds.
pub record Tags : Type 0 where
  pub title : Str
  pub artist : Str
  pub album : Str

-- What the operating system, the tag reader and the hash answer; `none` is an error.
pub record Reader : Type 1 where
  pub File : Type 0
  pub music_dir : Option Str
  pub open_root : Str → Option Str
  pub clean : Str → Str
  pub rel : Str → Str → Option Str
  pub open_in : Str → Str → Option File
  pub stat_size : File → Option ℤ
  pub read_tags : File → Option Tags
  pub sha256_hex : File → Option Str

module _ (r : Reader) where
  open r use {music_dir, open_root, clean, rel, open_in, stat_size, read_tags, sha256_hex}

  unfoldable pub extract_metadata : Str → Result MetadataError Song
  extract_metadata file_path = do
    let clean_path = clean file_path
    dir ← or_fail music_dir no_music_dir
    root ← or_fail (open_root dir) no_music_root
    rel_path ← or_fail (rel dir clean_path) no_relative_path
    file ← or_fail (open_in root rel_path) open_failed
    size ← or_fail (stat_size file) stat_failed
    tags ← or_fail (read_tags file) bad_tags
    hash ← or_fail (sha256_hex file) hash_failed
    Result.ok (record {
      title = tags.title;
      artist = tags.artist;
      album = tags.album;
      path = file_path;
      hash = hash;
      size = size;
    })
