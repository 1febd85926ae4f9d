-- ===== src/Tui/Style.antt =====
-- What the terminal interface shows: texts with the styles of internal/tui/styles.go, and the parts
-- of packages fmt and strings that make them. A text that is not ASCII is the list of its code
-- points.
use raag.Prelude.{
  ℕ, zero, suc, ◌+◌, ◌%◌, Str, codes, Bool, true, false, List, [], ◌∷◌, ◌++◌, Result, ok, err,
}
use raag.Prelude.Int.{ℤ, pos, negsuc, sub_ℕ}
use raag.Player.{Float}

-- The styles of internal/tui/styles.go that are used, and text without one.
pub data Style : Type 0 where
  plain title_style subtitle_style label_style value_style progress_bar_style : Style
  progress_empty_style list_item_style list_selected_style status_online_style help_style : Style
  error_style highlight_style : Style

abbrev pub Screen : Type 0
Screen = List (Style × Str)

-- strings.Repeat panics if the count is negative.
pub data Panic : Type 0 where
  negative_repeat : Panic

-- The verbs %d, %02d and %.0f of package fmt, and the conversion of a float64 to an int.
pub record Format (x : Float) : Type 0 where
  pub d : ℤ → Str
  pub d02 : ℤ → Str
  pub f0 : x.F → Str
  pub to_int : x.F → ℤ

repeated : Str → ℕ → Str
repeated s zero = []
repeated s (suc n) = s ++ repeated s n

-- strings.Repeat
unfoldable pub repeat : Str → ℤ → Result Panic Str
unfolding repeated
repeat s (pos n) = ok (repeated s n)
repeat s (negsuc n) = err negative_repeat

-- `n - k`
abbrev pub less : ℕ → ℤ → ℤ
less n (pos k) = sub_ℕ n k
less n (negsuc k) = pos (n + suc k)

-- Go's remainder has the sign of what is divided.
abbrev pub rem_ℤ : ℤ → ℕ → ℤ
rem_ℤ (pos n) d = pos (n % d)
rem_ℤ (negsuc n) d = sub_ℕ 0 (suc n % d)

abbrev pub line : Style → Str → Screen
line style s = (style, s) ∷ ((plain, codes "\n") ∷ [])

abbrev pub field : Str → Str → Screen
field name value = (label_style, name) ∷ line value_style value

abbrev pub bool_text : Bool → Str
bool_text true = codes "true"
bool_text false = codes "false"
