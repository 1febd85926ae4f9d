-- ===== src/Player.antt =====
-- internal/player/player.go: the queue and the one song that plays. Each method holds the player's
-- lock, but for the part of Play before it and the file system's and the decoder's answers, which
-- are arguments. `effects` records what was done to the speaker and to files, the latest first.
pub mod Queue
pub mod Files
pub mod Volume
pub mod Seek
use raag.Prelude.{
  ℕ, zero, suc, ◌+◌, ◌-◌, ◌/◌, Str, Bool, true, false, not, ◌&&◌, ◌||◌, List, [], ◌∷◌, ◌++◌, Option,
  none, some, Result, ok, err, ltb, leb, eqb, length, get_elem?, if◌then◌else◌,
}
use raag.Prelude.Int.{ℤ, pos, negsuc, pos_part, ltb_ℤ, leb_ℤ, ◌+ℤ◌}
use raag.Song.{Song}

pub data Error : Type 0 where
  no_music_dir no_music_root no_relative_path open_failed decode_failed : Error
  queue_empty invalid_index end_of_queue beginning_of_queue : Error
  volume_out_of_range no_song_playing seek_failed index_panic : Error

-- A decoded file: its handle, its length in samples and its sample rate.
pub record Stream : Type 0 where
  pub handle : ℕ
  pub len : ℕ
  pub rate : ℕ

pub data Effect : Type 0 where
  clears opens_root : Effect
  starts closes_stream opens_file closes_file closes_channel : ℕ → Effect

-- The arithmetic of float64 that the volume needs.
pub record Float : Type 1 where
  pub F : Type 0
  pub of_ℤ : ℤ → F
  pub half : F
  pub ltb_F : F → F → Bool
  pub add : F → F → F
  pub minus : F → F → F
  pub mul : F → F → F
  pub div : F → F → F

module _ (x : Float) where
  open x use {F, of_ℤ, half}

  pub record Player : Type 0 where
    pub ctrl : Option Bool
    pub rate : ℕ
    pub streamer : Option Stream
    pub stream_closer : Option Stream
    pub file : Option ℕ
    pub queue : List Song
    pub current_index : ℤ
    pub volume : F
    pub position : ℤ
    pub duration : ℕ
    pub volume_ctrl : Option F
    pub track_ended : Option ℕ
    pub effects : List Effect

  unfoldable pub new_player : Player
  new_player = record {
    ctrl = none;
    rate = 0;
    streamer = none;
    stream_closer = none;
    file = none;
    queue = [];
    current_index = negsuc 0;
    volume = half;
    position = pos 0;
    duration = 0;
    volume_ctrl = none;
    track_ended = none;
    effects = [];
  }

-- What the system answers while a song is opened: each failure, the new file's handle, the length
-- and the rate of its stream, and the new channel.
pub record Opening : Type 0 where
  pub no_dir : Bool
  pub no_root : Bool
  pub no_rel : Bool
  pub no_file : Bool
  pub no_decode : Bool
  pub handle : ℕ
  pub len : ℕ
  pub rate : ℕ
  pub channel : ℕ

abbrev duration_of : Opening → ℕ
duration_of o = if ltb 0 o.len then o.len / o.rate else 0

-- `p.Queue[index]`; out of range it panics.
abbrev pub song_at : List Song → ℤ → Option Song
song_at queue (pos i) = get_elem? queue i
song_at queue (negsuc i) = none

abbrev pub paused_as : Bool → Option Bool → Option Bool
paused_as b none = none
paused_as b (some _) = some b

module _ {x : Float} where
  open x use {F}

  log : Effect → Player x → Player x
  log e p = record p { effects = e ∷ p.effects }

  abbrev clear_speaker : Option Bool → Option Stream → Player x → Player x
  clear_speaker none none p = p
  clear_speaker _ _ p = log clears p

  abbrev close_channel : Option ℕ → Player x → Player x
  close_channel none p = p
  close_channel (some c) p = log (closes_channel c) (record p { track_ended = none })

  abbrev close_stream : Option Stream → Player x → Player x
  close_stream none p = p
  close_stream (some s) p = log (closes_stream s.handle) (record p { stream_closer = none })

  abbrev close_file : Option ℕ → Player x → Player x
  close_file none p = p
  close_file (some f) p = log (closes_file f) (record p { file = none })

  unfoldable pub stop_playback : Player x → Player x
  unfolding log
  stop_playback p =
      let cleared = close_channel p.track_ended (clear_speaker p.ctrl p.streamer p) in
      let silent = record cleared { ctrl = none; streamer = none; volume_ctrl = none; rate = 0 } in
      close_file p.file (close_stream p.stream_closer silent)

  start : Opening → F → Player x → Player x
  unfolding log
  start o volume p =
      let stream : Stream = record { handle = o.handle; len = o.len; rate = o.rate } in
      log (starts o.handle) (record p {
        track_ended = some o.channel;
        file = some o.handle;
        streamer = some stream;
        stream_closer = some stream;
        rate = o.rate;
        position = pos 0;
        duration = duration_of o;
        ctrl = some false;
        volume_ctrl = some volume;
      })

  -- A song plays if its file opens and decodes; a file that does not decode is closed again. The
  -- root, the handle of the music directory, is opened and never closed.
  unfoldable pub play : Opening → Player x → Player x × Result Error Unit
  unfolding log stop_playback start
  play o p =
      if o.no_dir
      then (p, err no_music_dir)
      else if o.no_root
      then (p, err no_music_root)
      else let rooted = log opens_root p in
        if o.no_rel
        then (rooted, err no_relative_path)
        else if o.no_file
        then (rooted, err open_failed)
        else if o.no_decode
        then (log (closes_file o.handle) (log (opens_file o.handle) rooted), err decode_failed)
        else (start o p.volume (stop_playback (log (opens_file o.handle) rooted)), ok tt)

  abbrev pub play_at : Opening → Player x → Option Song → Player x × Result Error Unit
  play_at o p none = (p, err index_panic)
  play_at o p (some song) = play o p

  unfoldable pub select_song_at_index : ℤ → Player x → Player x × Result Error Song
  select_song_at_index index p = elim p.queue [
    | [] ↦ (p, err queue_empty)
    | s ∷ ss ↦
        if ltb_ℤ index (pos 0) || leb_ℤ (pos (length p.queue)) index
        then (p, err invalid_index)
        else elim (song_at p.queue index) [
          | none ↦ (p, err index_panic)
          | some song ↦ (record p { current_index = index }, ok song)
        ]
  ]

  abbrev play_selected : Opening → Player x × Result Error Song → Player x × Result Error Unit
  play_selected o (p, err e) = (p, err e)
  play_selected o (p, ok song) = play o p

  unfoldable pub play_queue : Opening → Player x → Player x × Result Error Unit
  unfolding select_song_at_index
  play_queue o p = play_selected o (select_song_at_index (pos 0) p)

  unfoldable pub move_to : Opening → ℤ → Player x → Player x × Result Error Unit
  move_to o index p = play_at o (record p { current_index = index }) (song_at p.queue index)

  unfoldable pub next : Opening → Player x → Player x × Result Error Unit
  next o p = elim p.queue [
    | [] ↦ (p, err queue_empty)
    | s ∷ ss ↦
        if leb_ℤ (pos (length p.queue - 1)) p.current_index
        then (p, err end_of_queue)
        else move_to o (p.current_index +ℤ pos 1) p
  ]

  unfoldable pub previous : Opening → Player x → Player x × Result Error Unit
  previous o p = elim p.queue [
    | [] ↦ (p, err queue_empty)
    | s ∷ ss ↦
        if leb_ℤ p.current_index (pos 0)
        then (p, err beginning_of_queue)
        else move_to o (p.current_index +ℤ negsuc 0) p
  ]

  unfoldable pub stop : Player x → Player x
  unfolding stop_playback
  stop p = record (stop_playback p) {
    queue = [];
    current_index = negsuc 0;
    position = pos 0;
    duration = 0;
  }

  unfoldable pub add_to_queue : Song → Player x → Player x
  add_to_queue song p = record p { queue = p.queue ++ song ∷ [] }

  unfoldable pub get_queue : Player x → List Song
  get_queue p = p.queue

  unfoldable pub get_current_song : Player x → Option Song
  get_current_song p =
      if ltb_ℤ p.current_index (pos 0) || leb_ℤ (pos (length p.queue)) p.current_index
      then none
      else song_at p.queue p.current_index

  unfoldable pub pause : Player x → Player x
  pause p = record p { ctrl = paused_as true p.ctrl }

  unfoldable pub resume : Player x → Player x
  resume p = record p { ctrl = paused_as false p.ctrl }

  unfoldable pub is_playing : Player x → Bool
  is_playing p = elim p.ctrl [ none ↦ false | some paused ↦ not paused ]

  unfoldable pub is_paused : Player x → Bool
  is_paused p = elim p.ctrl [ none ↦ false | some paused ↦ paused ]

  -- The end of a song, as the goroutine that Play started sees it: a callback, if one is set,
  -- plays the next song. `next_set` is `p.playerNext != nil`.
  unfoldable pub track_end : Bool → Opening → Player x → Player x
  unfolding next
  track_end next_set o p = if next_set then (next o p).0 else p
