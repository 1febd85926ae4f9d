-- ===== src/Player/Volume.antt =====
-- internal/player/player.go: the volume.
use raag.Prelude.{◌≡◌, false, ◌||◌, Option, none, some, Result, ok, err, arith, if◌then◌else◌}
use raag.Prelude.Int.{pos, negsuc}
use raag.Player.{Float, Player, Error, volume_out_of_range}

abbrev set_ctrl : {F : Type 0} → F → Option F → Option F
set_ctrl v none = none
set_ctrl v (some _) = some v

module _ (x : Float) where
  open x use {F, of_ℤ, ltb_F}

  abbrev clamp : F → F
  clamp v =
      if ltb_F (of_ℤ (pos 10)) v
      then of_ℤ (pos 10)
      else if ltb_F v (of_ℤ (negsuc 9))
      then of_ℤ (negsuc 9)
      else v

module _ {x : Float} where
  open x use {F, of_ℤ, ltb_F, add, minus, mul, div}

  set_level : F → Player x → Player x
  set_level v p = record p { volume = v; volume_ctrl = set_ctrl v p.volume_ctrl }

  unfoldable pub set_volume : F → Player x → Player x × Result Error Unit
  unfolding set_level
  set_volume level p =
      if ltb_F level (of_ℤ (pos 0)) || ltb_F (of_ℤ (pos 100)) level
      then (p, err volume_out_of_range)
      else (
        set_level (mul (minus (div level (of_ℤ (pos 100))) (of_ℤ (pos 1))) (of_ℤ (pos 10))) p,
        ok tt,
      )

  unfoldable pub get_volume : Player x → F
  get_volume p = mul (add (div p.volume (of_ℤ (pos 10))) (of_ℤ (pos 1))) (of_ℤ (pos 100))

  unfoldable pub adjust_volume : F → Player x → Player x
  unfolding set_level
  adjust_volume delta p = set_level (clamp x (add p.volume (div delta (of_ℤ (pos 10))))) p

  unfoldable pub volume_up : F → Player x → Player x
  unfolding adjust_volume
  volume_up amount = adjust_volume amount

  -- `-amount` is an argument.
  unfoldable pub volume_down : (F → F) → F → Player x → Player x
  unfolding adjust_volume
  volume_down negate amount = adjust_volume (negate amount)

  -- The number that the speaker plays at is the player's, whenever a song is loaded.
  abbrev pub InTune : Player x → Type 0
  InTune p = set_ctrl p.volume p.volume_ctrl ≡ p.volume_ctrl

  -- Whatever the step, the volume after an adjustment lies between -10 and 10, and the speaker has
  -- it, if the comparison tells 10 and -10 from themselves and each other in the right order.
  pub adjust_volume_bounds :
      (delta : F) (p : Player x)
      → ltb_F (of_ℤ (pos 10)) (of_ℤ (pos 10)) ≡ false
      → ltb_F (of_ℤ (negsuc 9)) (of_ℤ (negsuc 9)) ≡ false
      → ltb_F (of_ℤ (pos 10)) (of_ℤ (negsuc 9)) ≡ false
      → (ltb_F (of_ℤ (pos 10)) (adjust_volume delta p).volume ≡ false)
        × (ltb_F (adjust_volume delta p).volume (of_ℤ (negsuc 9)) ≡ false)
        × InTune (adjust_volume delta p)
  unfolding adjust_volume
  adjust_volume_bounds delta p a b c = ground arith
