-- ===== src/TerminalPreferences/Examples.antt =====
-- Runs of the preferences of frontend/src/lib/terminal-preferences.ts at concrete inputs: numbers are
-- tenths, and the text of an appearance is the list of its values.
use friendly_ai_explorer.Common.{
  leb, ◌==◌, if◌then◌else◌, ℕ, zero, suc, ◌+◌, ◌*◌, ◌/◌, ◌≡◌, refl, ap₂, ◌∙◌, Bool, true, false,
  Option, none, some, List, [], ◌∷◌, arith,
}
use friendly_ai_explorer.TerminalPreferences.{
  Font, consolas, courier, system, Theme, dark, light, Cursor, block, bar, underline, Numbers,
  finite, not_finite, TerminalPreferences, Stored, Patch, or_default, merge, clamp, normal_size,
  normal_height, normalize_terminal_preferences, fresh_page, default_terminal_preferences, load,
  set,
}
use friendly_ai_explorer.TerminalPreferences.Normal.{IsNumbers, IsNormal, as_stored, load-set}

abbrev tenths : Numbers ℕ
tenths = record {
  at_most = leb;
  round = λ n. (n + 5) / 10 * 10;
  smallest_font = 100;
  default_font = 130;
  largest_font = 280;
  smallest_line = 10;
  default_line = 12;
  largest_line = 18;
}

tenths-IsNumbers : IsNumbers tenths
tenths-IsNumbers = record {
  reflexive = λ a. ground arith;
  whole = λ a. omega arith;
  whole_smallest = refl;
  whole_default = refl;
  whole_largest = refl;
  fonts_low = refl;
  fonts_high = refl;
  fonts = refl;
  lines_low = refl;
  lines_high = refl;
  lines = refl;
}

font_code : Font → ℕ
font_code consolas = 0
font_code courier = 1
font_code system = 2

theme_code : Theme → ℕ
theme_code dark = 0
theme_code light = 1

cursor_code : Cursor → ℕ
cursor_code block = 0
cursor_code bar = 1
cursor_code underline = 2

font_at : ℕ → Font
font_at zero = consolas
font_at (suc zero) = courier
font_at (suc (suc n)) = system

theme_at : ℕ → Theme
theme_at zero = dark
theme_at (suc n) = light

cursor_at : ℕ → Cursor
cursor_at zero = block
cursor_at (suc zero) = bar
cursor_at (suc (suc n)) = underline

font_at-font_code : (f : Font) → font_at (font_code f) ≡ f
unfolding font_at font_code
font_at-font_code consolas = refl
font_at-font_code courier = refl
font_at-font_code system = refl

theme_at-theme_code : (t : Theme) → theme_at (theme_code t) ≡ t
unfolding theme_at theme_code
theme_at-theme_code dark = refl
theme_at-theme_code light = refl

cursor_at-cursor_code : (c : Cursor) → cursor_at (cursor_code c) ≡ c
unfolding cursor_at cursor_code
cursor_at-cursor_code block = refl
cursor_at-cursor_code bar = refl
cursor_at-cursor_code underline = refl

print : TerminalPreferences ℕ → List ℕ
print p =
    p.font_size
    ∷ p.line_height
    ∷ font_code p.font
    ∷ theme_code p.theme
    ∷ cursor_code p.cursor
    ∷ (if p.highlight then 1 else 0)
    ∷ []

parse : List ℕ → Option (Stored ℕ)
parse (size ∷ height ∷ font ∷ theme ∷ cursor ∷ highlight ∷ []) = some (record {
  font_size = finite size;
  font = some (font_at font);
  line_height = finite height;
  theme = some (theme_at theme);
  cursor = some (cursor_at cursor);
  highlight = highlight == 1;
})
parse _ = none

parse-print :
    (p : TerminalPreferences ℕ) → parse (print p) ≡ some (as_stored tenths tenths-IsNumbers p)
unfolding parse print
parse-print p =
    ap₂
      (λ f t. some (record (as_stored tenths tenths-IsNumbers p) {
        font = some f;
        theme = some t;
        cursor = some (cursor_at (cursor_code p.cursor));
        highlight = (if p.highlight then 1 else 0) == 1;
      }))
      (font_at-font_code p.font) (theme_at-theme_code p.theme)
    ∙ ap₂
        (λ c h.
          some (record (as_stored tenths tenths-IsNumbers p) { cursor = some c; highlight = h }))
        (cursor_at-cursor_code p.cursor) (flag p.highlight)
  where
    flag : (b : Bool) → ((if b then 1 else 0) == 1) ≡ b
    flag true = refl
    flag false = refl

-- A font that is too large, and a line height that is not a number.
abbrev odd_values : Patch ℕ
odd_values = record {
  font_size = some (finite 999);
  font = some courier;
  line_height = some not_finite;
  theme = none;
  cursor = some bar;
  highlight = none;
}

odd_values_test :
    (set tenths print true odd_values (fresh_page tenths none)).item
    ≡ some (280 ∷ 12 ∷ 1 ∷ 0 ∷ 1 ∷ 0 ∷ [])
unfolding set normalize_terminal_preferences merge or_default normal_size normal_height clamp print
    font_code theme_code cursor_code fresh_page default_terminal_preferences
odd_values_test = refl

load-set_example :
    (let s' = set tenths print true odd_values (fresh_page tenths none) in
      IsNormal tenths tenths-IsNumbers s'.current
      × ((load tenths parse (fresh_page tenths s'.item)).current ≡ s'.current))
load-set_example =
    load-set tenths tenths-IsNumbers print parse parse-print odd_values (fresh_page tenths none)
