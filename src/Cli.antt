-- ===== src/Cli.antt =====
-- cmd/raag: the commands of the command line, which ask the daemon through rpc_helper.go's
-- invokeRPC. Cobra, which splits the line and counts the arguments, is outside: a command has its
-- arguments.
pub mod Playback
pub mod Playlists
pub mod Songs
pub mod Network
pub mod Session
use raag.Prelude.{
  ℕ, Str, codes, ◌==◌, Bool, not, List, [], ◌∷◌, ◌++◌, Option, none, some, Result, ok, err, ◌≡◌,
  All, false, if◌then◌else◌,
}
use raag.Prelude.Int.{ℤ, pos}
use raag.Auth.{Crypto}
use raag.App.{App}
use raag.Discovery.World.{World}
use raag.Library.{Stat, Walked}
use raag.Network.Share.{Sending}
use raag.Network.Transfer.{Codec}
use raag.Player.{Float, Opening}
use raag.Rpc.{Error}
use raag.Rpc.Peers.{Removal}
use raag.Tui.Style.{Format}

-- What a command writes: by the logger, or to standard error.
pub data Line : Type 0 where
  info error stderr : Str → Line

-- A struct as encoding/gob sends it: its fields by name.
abbrev pub Fields : Type 0
Fields = List (Str × Str)

-- What the machine answers to a command. Of the i-th call, `reachable` says whether the daemon can
-- be dialled, by the check and by the call alike; `in_time` whether it replies in ten seconds; and
-- `abandoned` whether the daemon gets to the call only after the command gave up. `decode` is what gob makes of a struct that was
-- sent where one with other fields is wanted; `opening` is by the number of the call.
pub record Machine (x : Float) : Type 0 where
  pub reachable : ℕ → Bool
  pub in_time : ℕ → Bool
  pub abandoned : ℕ → Bool
  pub opening : ℕ → Opening
  pub stat : Stat
  pub walked : List Walked
  pub samples : ℕ → ℤ → ℤ
  pub refused : Bool
  pub at : ℕ
  pub sending : Sending
  pub codec : Codec
  pub config_file : Option Str
  pub removal : Removal
  pub atoi : Str → Option ℤ
  pub parse_float : Str → Option x.F
  pub format : Format x
  pub duration_text : ℕ → Str
  pub error_text : Error → Str
  pub decode : List Str → Fields → Option Fields

-- Gob documents that a struct is not received into one that has no field name in common with it.
pub record IsGob {x : Float} (m : Machine x) : Type 0 where
  pub no_common_field :
      (wanted : List Str) (sent : Fields)
      → All (λ field. All (λ name. (name == field.0) ≡ false) wanted) sent
      → m.decode wanted sent ≡ none

abbrev pub failed : Str → Str → Line
failed method text = error (codes "RPC call '" ++ (method ++ (codes "' failed: " ++ text)))

module _ (x : Float) (w : World) (k : Crypto) where
  -- A command changes the daemon and writes lines; without a result the process has exited with 1.
  abbrev pub Cli : Type 0 → Type 0
  Cli A = App x w k → App x w k × List Line × Option A

module _ {x : Float} {w : World} {k : Crypto} where
  abbrev pub then_do :
      {A B : Type 0}
      → (A → Cli x w k B)
      → App x w k × List Line × Option A
      → App x w k × List Line × Option B
  then_do f (a, lines, none) = (a, lines, none)
  then_do f (a, lines, some v) = let (a', more, r) = f v a in (a', lines ++ more, r)

  infixl 5 ◌>>=◌ ◌>>◌
  abbrev pub ◌>>=◌ : {A B : Type 0} → Cli x w k A → (A → Cli x w k B) → Cli x w k B
  ◌>>=◌ c f a = then_do f (c a)

  abbrev pub ◌>>◌ : {B : Type 0} → Cli x w k Unit → Cli x w k B → Cli x w k B
  c >> d = c >>= λ _. d

  abbrev pub say : List Line → Cli x w k Unit
  say lines a = (a, lines, some tt)

  abbrev pub exit : {A : Type 0} → List Line → Cli x w k A
  exit lines a = (a, lines, none)

  unfoldable pub replied :
      {A : Type 0}
      → Machine x
      → Bool
      → Str
      → App x w k × Result Error A
      → App x w k × List Line × Option A
  replied m timely method (a, ok v) =
      if timely
      then (a, [], some v)
      else (a, failed method (codes "context deadline exceeded") ∷ [], none)
  replied m timely method (a, err e) =
      let text = if timely then m.error_text e else codes "context deadline exceeded" in
      (a, failed method text ∷ [], none)

  unfoldable pub require_daemon : Machine x → ℕ → Cli x w k Unit
  require_daemon m i a =
      if m.reachable i
      then (a, [], some tt)
      else (a, stderr (codes "Daemon not running. Start it with: raag daemon") ∷ [], none)

  call : {A : Type 0} → Machine x → ℕ → Str → (App x w k → App x w k × Result Error A) → Cli x w k A
  call m i method f a =
      if m.abandoned i
      then (a, failed method (codes "context deadline exceeded") ∷ [], none)
      else replied m (m.in_time i) method (f a)

  -- invokeRPC, the i-th call of a command. A late reply comes after the effect; an abandoned call
  -- has its effect after the command, if it has one.
  unfoldable pub invoke :
      {A : Type 0} → Machine x → ℕ → Str → (App x w k → App x w k × Result Error A) → Cli x w k A
  unfolding call
  invoke m i method f = require_daemon m i >> call m i method f

  -- A method that cannot fail, and one that changes nothing.
  abbrev pub always : (App x w k → App x w k) → App x w k → App x w k × Result Error Unit
  always f a = (f a, ok tt)

  abbrev pub reads : {A : Type 0} → (App x w k → A) → App x w k → App x w k × Result Error A
  reads f a = (a, ok (f a))

  abbrev pub tries :
      {A : Type 0} → (App x w k → Result Error A) → App x w k → App x w k × Result Error A
  tries f a = (a, f a)
