-- ===== src/Tests/Cli.antt =====
-- The command line at a concrete machine.
use raag.Prelude.{
  ◌≡◌, refl, Str, codes, ◌==◌, true, false, List, [], ◌∷◌, Option, none, some, All, retain, arith,
}
use raag.Prelude.Int.{pos}
use raag.Prelude.Sort.{elem}
use raag.Cli.{Fields, Machine, IsGob}
use raag.Cli.Playlists.{playlist_songs_command, playlist_play_command}
use raag.Cli.Playlists.Refused.{playlist_commands_refused}
use raag.Cli.Session.{Command, Event, types, arrives}
use raag.Library.{a_directory}
use raag.Rpc.History.{sets_volume}
use raag.Rpc.Peers.{Removal}
use raag.Tests.App.{app, opening}
use raag.Tests.Library.{a}
use raag.Tests.Player.{whole}
use raag.Tests.Share.{sending, codec}
use raag.Tests.Tui.{format}

-- The fields that are wanted, if there are any.
abbrev kept : List Str → Fields → Fields
kept wanted fields = retain (λ field. elem field.0 wanted) fields

abbrev some_kept : Fields → Option Fields
some_kept [] = none
some_kept (field ∷ fields) = some (field ∷ fields)

abbrev machine : Machine whole
machine = record {
  reachable = λ i. true;
  in_time = λ i. true;
  abandoned = λ i. false;
  opening = λ i. opening;
  stat = a_directory;
  walked = [];
  samples = λ rate seconds. seconds;
  refused = false;
  at = 0;
  sending = sending;
  codec = codec;
  config_file = none;
  removal = Removal.absent;
  atoi = λ s. some (pos 3);
  parse_float = λ s. some (pos 30);
  format = format;
  duration_text = λ n. [];
  error_text = λ e. [];
  decode = λ wanted sent. some_kept (kept wanted sent);
}

not_elem :
    (k : Str) (wanted : List Str) → All (λ name. (name == k) ≡ false) wanted → elem k wanted ≡ false
unfolding elem
not_elem k [] h = refl
not_elem k (name ∷ wanted) h = ground (arith, h.0, not_elem k wanted h.1)

kept-none :
    (wanted : List Str) (sent : Fields)
    → All (λ field. All (λ name. (name == field.0) ≡ false) wanted) sent
    → kept wanted sent ≡ []
kept-none wanted [] h = refl
kept-none wanted (field ∷ sent) h =
    ground (arith, not_elem field.0 wanted h.0, kept-none wanted sent h.1)

none_kept : (fields : Fields) → fields ≡ [] → some_kept fields ≡ none
none_kept [] e = refl
none_kept (field ∷ fields) e = cc

machine-IsGob : IsGob machine
machine-IsGob = record {
  no_common_field = λ wanted sent h. none_kept (kept wanted sent) (kept-none wanted sent h);
}

playlist_commands_refused_example :
    let (a', _, shown) = playlist_songs_command machine (codes "mix") app in
    let (a'', _, played) = playlist_play_command machine (codes "mix") app in
    (a' ≡ app) × (shown ≡ none) × (a'' ≡ app) × (played ≡ none)
playlist_commands_refused_example =
    playlist_commands_refused machine machine-IsGob (codes "mix") app

-- The daemon is busy for longer than a command waits.
abbrev busy : Machine whole
busy = record machine { abandoned = λ i. true }

-- The volume is set to 10, then to 30, and the first call comes last.
abbrev typed : List (Event whole)
typed =
    types (Command.play a) machine
    ∷ (types (Command.volume (some (codes "10"))) busy
        ∷ (types (Command.volume (some (codes "30"))) machine
            ∷ (arrives (sets_volume (pos 10)) ∷ [])))
