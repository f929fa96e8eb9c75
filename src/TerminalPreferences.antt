-- ===== src/TerminalPreferences.antt =====
-- frontend/src/lib/terminal-preferences.ts: the normalisation of a terminal's appearance, and its store
-- in the page and in the browser. The numbers of the language and JSON are parameters; the palettes
-- and the listeners are left out.
use friendly_ai_explorer.Common.{
  ltb, leb, ◌==◌, if◌then◌else◌, within, ltb→lt, lt→ltb, leb→le, ==_iff, Bool-cases, Option-cases,
  length, take, drop, replicate, get_elem?, get_or, length-append, length-take, length-drop,
  take-append-drop, take-length_append, drop-length_append, take-append_le, drop-append_le,
  get_or-append_lt, get_elem?-below, get_elem?-above, length-replicate, replicate-add, set-append,
  All, Any, All-map, All-append, flatten-append, any, includes, ℤ, Number, is_integer, number_below,
  number_above, natural, pos, negsuc, integer, fractional, Bytes, IsByte, le32, get_u32, utf8_char,
  utf8, utf8-append, utf16_length, is_space, trim_start, is_nil, trim_end, trim, ℕ, zero, suc, ◌+◌,
  ◌-◌, ◌*◌, ◌/◌, ◌%◌, ◌^◌, ◌≤◌, ◌<◌, min, max, pred, bit_and, bit_or, bit_xor, ◌≡◌, refl, sym, ap,
  ap₂, subst, ◌∙◌, ◌≡⟨◌⟩◌, ◌∎, ◌≢◌, ◌↔◌, ◌⊎◌, inl, inr, Bool, true, false, not, ◌&&◌, ◌||◌, Option,
  none, some, List, [], ◌∷◌, ◌++◌, map, append-nil, append_assoc, arith, flatten,
}
pub mod Normal
pub mod Examples

pub data Font : Type 0 where
  consolas courier system : Font

pub data Theme : Type 0 where
  dark light : Theme

pub data Cursor : Type 0 where
  block bar underline : Cursor

-- The finite numbers, their order, `Math.round`, and the numbers that the source names.
pub record Numbers (N : Type 0) : Type 0 where
  pub at_most : N → N → Bool
  pub round : N → N
  pub smallest_font : N
  pub default_font : N
  pub largest_font : N
  pub smallest_line : N
  pub default_line : N
  pub largest_line : N

-- A value where a number is expected: `Number.isFinite`, or not.
pub data NumberValue (N : Type 0) : Type 0 where
  finite : N → NumberValue N
  not_finite : NumberValue N

pub record TerminalPreferences (N : Type 0) : Type 0 where
  pub font_size : N
  pub font : Font
  pub line_height : N
  pub theme : Theme
  pub cursor : Cursor
  pub highlight : Bool

-- `Partial<TerminalPreferences>`, as it may come from the storage: `none` is a value that is missing
-- or unknown, and `highlight` says that the value is `true`.
pub record Stored (N : Type 0) : Type 0 where
  pub font_size : NumberValue N
  pub font : Option Font
  pub line_height : NumberValue N
  pub theme : Option Theme
  pub cursor : Option Cursor
  pub highlight : Bool

-- The argument of `set`, whose fields may be missing.
pub record Patch (N : Type 0) : Type 0 where
  pub font_size : Option (NumberValue N)
  pub font : Option Font
  pub line_height : Option (NumberValue N)
  pub theme : Option Theme
  pub cursor : Option Cursor
  pub highlight : Option Bool

-- The variables of the module, and the item of the browser's storage.
pub record Preferences (N : Type 0) : Type 0 where
  pub current : TerminalPreferences N
  pub loaded : Bool
  pub item : Option (List ℕ)

unfoldable pub or_default : {A : Type 0} → Option A → A → A
or_default none a = a
or_default (some b) a = b

-- `{ ...current, ...value }` for a value of the declared type: an explicit `undefined`, or a font, theme
-- or cursor that is none of the known ones, is not represented.
unfoldable pub merge : {N : Type 0} → TerminalPreferences N → Patch N → Stored N
merge p v = record {
  font_size = or_default v.font_size (finite p.font_size);
  font = some (or_default v.font p.font);
  line_height = or_default v.line_height (finite p.line_height);
  theme = some (or_default v.theme p.theme);
  cursor = some (or_default v.cursor p.cursor);
  highlight = or_default v.highlight p.highlight;
}

-- The empty object.
unfoldable pub nothing_stored : {N : Type 0} → Stored N
nothing_stored = record {
  font_size = not_finite;
  font = none;
  line_height = not_finite;
  theme = none;
  cursor = none;
  highlight = false;
}

module _ {N : Type 0} (numbers : Numbers N) where
  -- `Math.min(hi, Math.max(lo, n))`
  unfoldable pub clamp : N → N → N → N
  clamp lo hi n =
      let above = if numbers.at_most lo n then n else lo in
      if numbers.at_most above hi then above else hi

  unfoldable pub normal_size : NumberValue N → N
  normal_size not_finite = numbers.default_font
  normal_size (finite n) = clamp numbers.smallest_font numbers.largest_font (numbers.round n)

  unfoldable pub normal_height : NumberValue N → N
  normal_height not_finite = numbers.default_line
  normal_height (finite n) = clamp numbers.smallest_line numbers.largest_line n

  unfoldable pub normalize_terminal_preferences : Stored N → TerminalPreferences N
  normalize_terminal_preferences v = record {
    font_size = normal_size v.font_size;
    font = or_default v.font consolas;
    line_height = normal_height v.line_height;
    theme = or_default v.theme dark;
    cursor = or_default v.cursor block;
    highlight = v.highlight;
  }

  unfoldable pub default_terminal_preferences : TerminalPreferences N
  default_terminal_preferences = record {
    font_size = numbers.default_font;
    font = consolas;
    line_height = numbers.default_line;
    theme = dark;
    cursor = block;
    highlight = false;
  }

  unfoldable pub fresh_page : Option (List ℕ) → Preferences N
  fresh_page item = record { current = default_terminal_preferences; loaded = false; item = item }

  -- `JSON.parse` of the stored text; `none` is an error.
  unfoldable pub normalized : Option (Stored N) → TerminalPreferences N → TerminalPreferences N
  normalized none current = current
  normalized (some value) current = normalize_terminal_preferences value

  unfoldable pub parse_item : (List ℕ → Option (Stored N)) → Option (List ℕ) → Option (Stored N)
  parse_item parse none = some nothing_stored
  parse_item parse (some text) = parse text

  unfoldable pub load : (List ℕ → Option (Stored N)) → Preferences N → Preferences N
  load parse s =
      if s.loaded
      then s
      else record s { loaded = true; current = normalized (parse_item parse s.item) s.current }

  -- `set`; the flag says that the storage takes the item.
  unfoldable pub set :
      (TerminalPreferences N → List ℕ) → Bool → Patch N → Preferences N → Preferences N
  set print stores value s =
      let next = normalize_terminal_preferences (merge s.current value) in
      record s { current = next; item = if stores then some (print next) else s.item }
