-- ===== src/Tui.antt =====
-- internal/tui/model.go: the keys and the views of the terminal interface, and what it takes from the
-- libraries bubbles and bubbletea. A key message is its text, and a binding its keys: the help
-- texts are not shown.
pub mod Update
pub mod Keys
pub mod Style
pub mod Render
pub mod Quit
pub mod Search
pub mod Fetches
pub mod Daemon
pub mod Fetched
use raag.Prelude.{
  ℕ, suc, Str, codes, Bool, true, false, List, [], ◌∷◌, Option, none, some, ◌==◌, ◌≡◌,
}
use raag.Prelude.Sort.{elem}

abbrev pub Binding : Type 0
Binding = List Str

-- The text field of bubbles, whose commands are not looked at, and key.Matches.
pub record Bubbles : Type 1 where
  pub Input : Type 0
  pub new_input : Input
  pub with_prompt : Str → Str → Input → Input
  pub focus : Input → Input
  pub blur : Input → Input
  pub focused : Input → Bool
  pub set_value : Str → Input → Input
  pub value : Input → Str
  pub type_key : Str → Input → Input
  pub view : Input → Str
  pub key_matches : Str → Binding → Bool

-- A key matches a binding that has it.
pub record IsBubbles (b : Bubbles) : Type 0 where
  pub matches_iff : (k : Str) (ks : Binding) → b.key_matches k ks ≡ elem k ks

pub record KeyMap : Type 0 where
  pub quit : Binding
  pub tab : Binding
  pub play_pause : Binding
  pub next : Binding
  pub prev : Binding
  pub vol_up : Binding
  pub vol_down : Binding
  pub up : Binding
  pub down : Binding
  pub enter : Binding
  pub search_key : Binding
  pub backspace : Binding
  pub view_player : Binding
  pub view_library : Binding
  pub view_playlist : Binding
  pub view_peers : Binding
  pub help : Binding

abbrev pub default_key_map : KeyMap
default_key_map = record {
  quit = codes "ctrl+c" ∷ (codes "q" ∷ []);
  tab = codes "tab" ∷ [];
  play_pause = codes " " ∷ [];
  next = codes "n" ∷ [];
  prev = codes "p" ∷ [];
  vol_up = codes "+" ∷ (codes "=" ∷ []);
  vol_down = codes "-" ∷ [];
  up = codes "up" ∷ (codes "k" ∷ []);
  down = codes "down" ∷ (codes "j" ∷ []);
  enter = codes "enter" ∷ [];
  search_key = codes "/" ∷ [];
  backspace = codes "backspace" ∷ [];
  view_player = codes "1" ∷ [];
  view_library = codes "2" ∷ [];
  view_playlist = codes "3" ∷ [];
  view_peers = codes "4" ∷ [];
  help = codes "?" ∷ [];
}

pub data View : Type 0 where
  player library playlist peers help : View

module _ (b : Bubbles) where
  match_from : ℕ → Str → List Binding → Option ℕ
  match_from i k [] = none
  match_from i k (ks ∷ rest) = elim (b.key_matches k ks) [
    | true ↦ some i
    | false ↦ match_from (suc i) k rest
  ]

  -- The index of the first binding that matches; none is -1 with false.
  unfoldable pub match_any : Str → List Binding → Option ℕ
  unfolding match_from
  match_any = match_from 0
