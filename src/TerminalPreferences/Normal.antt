-- ===== src/TerminalPreferences/Normal.antt =====
-- The values of a normalised appearance, in frontend/src/lib/terminal-preferences.ts.
use friendly_ai_explorer.Common.{
  if◌then◌else◌, ℕ, ◌≡◌, refl, ap, ap₂, ◌∙◌, Bool, true, false, Option, some, List,
}
use friendly_ai_explorer.TerminalPreferences.{
  Numbers, NumberValue, finite, not_finite, TerminalPreferences, Stored, Patch, Preferences,
  or_default, merge, clamp, normal_size, normal_height, normalize_terminal_preferences,
  default_terminal_preferences, fresh_page, normalized, parse_item, load, set,
}

-- What the source relies on: a number is at most itself, rounding
-- a whole number leaves it, and the numbers
-- that the source names are in their ranges.
pub record IsNumbers {N : Type 0} (numbers : Numbers N) : Type 0 where
  pub reflexive : (a : N) → numbers.at_most a a ≡ true
  pub whole : (a : N) → numbers.round (numbers.round a) ≡ numbers.round a
  pub whole_smallest : numbers.round numbers.smallest_font ≡ numbers.smallest_font
  pub whole_default : numbers.round numbers.default_font ≡ numbers.default_font
  pub whole_largest : numbers.round numbers.largest_font ≡ numbers.largest_font
  pub fonts_low : numbers.at_most numbers.smallest_font numbers.default_font ≡ true
  pub fonts_high : numbers.at_most numbers.default_font numbers.largest_font ≡ true
  pub fonts : numbers.at_most numbers.smallest_font numbers.largest_font ≡ true
  pub lines_low : numbers.at_most numbers.smallest_line numbers.default_line ≡ true
  pub lines_high : numbers.at_most numbers.default_line numbers.largest_line ≡ true
  pub lines : numbers.at_most numbers.smallest_line numbers.largest_line ≡ true

module _ {N : Type 0} (numbers : Numbers N) (laws : IsNumbers numbers) where
  abbrev pub IsWithin : N → N → N → Type 0
  IsWithin lo hi n = (numbers.at_most lo n ≡ true) × (numbers.at_most n hi ≡ true)

  -- An appearance that the settings offer.
  pub record IsNormal (p : TerminalPreferences N) : Type 0 where
    pub size_in_range : IsWithin numbers.smallest_font numbers.largest_font p.font_size
    pub size_whole : numbers.round p.font_size ≡ p.font_size
    pub height_in_range : IsWithin numbers.smallest_line numbers.largest_line p.line_height

  clamp-IsWithin :
      (lo hi n : N) → numbers.at_most lo hi ≡ true → IsWithin lo hi (clamp numbers lo hi n)
  unfolding clamp
  clamp-IsWithin lo hi n l = go (numbers.at_most lo n) refl
    where
      under :
          (m : N) (b : Bool)
          → numbers.at_most lo m ≡ true
          → numbers.at_most m hi ≡ b
          → IsWithin lo hi (if b then m else hi)
      under m true k e = (k, e)
      under m false k e = (l, laws.reflexive hi)

      go :
          (b : Bool)
          → numbers.at_most lo n ≡ b
          → IsWithin lo hi
              (if numbers.at_most (if b then n else lo) hi then (if b then n else lo) else hi)
      go true e = under n (numbers.at_most n hi) e refl
      go false e = under lo (numbers.at_most lo hi) (laws.reflexive lo) refl

  clamp-fixed : (lo hi n : N) → IsWithin lo hi n → clamp numbers lo hi n ≡ n
  unfolding clamp
  clamp-fixed lo hi n (l, h) =
      ap (λ m. if numbers.at_most m hi then m else hi) (ap (λ b. if b then n else lo) l)
      ∙ ap (λ b. if b then n else hi) h

  round-clamp :
      (n : N)
      → numbers.round n ≡ n
      → (let size = clamp numbers numbers.smallest_font numbers.largest_font n in
          numbers.round size ≡ size)
  unfolding clamp
  round-clamp n w =
      go (numbers.at_most numbers.smallest_font n) (λ m. numbers.at_most m numbers.largest_font)
    where
      under :
          (m : N) (b : Bool)
          → numbers.round m ≡ m
          → numbers.round (if b then m else numbers.largest_font)
            ≡ (if b then m else numbers.largest_font)
      under m true k = k
      under m false k = laws.whole_largest

      go :
          (a : Bool) (test : N → Bool)
          → (let above = if a then n else numbers.smallest_font in
              numbers.round (if test above then above else numbers.largest_font)
              ≡ (if test above then above else numbers.largest_font))
      go true test = under n (test n) w
      go false test = under numbers.smallest_font (test numbers.smallest_font) laws.whole_smallest

  normalize-IsNormal : (v : Stored N) → IsNormal (normalize_terminal_preferences numbers v)
  unfolding normalize_terminal_preferences normal_size normal_height
  normalize-IsNormal v = record {
    size_in_range = size v.font_size;
    size_whole = whole v.font_size;
    height_in_range = height v.line_height;
  }
    where
      size :
          (n : NumberValue N)
          → IsWithin numbers.smallest_font numbers.largest_font (normal_size numbers n)
      size not_finite = (laws.fonts_low, laws.fonts_high)
      size (finite n) =
          clamp-IsWithin numbers.smallest_font numbers.largest_font (numbers.round n) laws.fonts

      whole : (n : NumberValue N) → numbers.round (normal_size numbers n) ≡ normal_size numbers n
      whole not_finite = laws.whole_default
      whole (finite n) = round-clamp (numbers.round n) (laws.whole n)

      height :
          (n : NumberValue N)
          → IsWithin numbers.smallest_line numbers.largest_line (normal_height numbers n)
      height not_finite = (laws.lines_low, laws.lines_high)
      height (finite n) = clamp-IsWithin numbers.smallest_line numbers.largest_line n laws.lines

  -- All fields of an appearance, as they come back from the storage.
  abbrev pub as_stored : TerminalPreferences N → Stored N
  as_stored p = record {
    font_size = finite p.font_size;
    font = some p.font;
    line_height = finite p.line_height;
    theme = some p.theme;
    cursor = some p.cursor;
    highlight = p.highlight;
  }

  -- Normalisation leaves an appearance that the settings offer.
  normalize-as_stored :
      (p : TerminalPreferences N)
      → IsNormal p
      → normalize_terminal_preferences numbers (as_stored p) ≡ p
  unfolding normalize_terminal_preferences normal_size normal_height or_default
  normalize-as_stored p i =
      ap₂ (λ size height. record p { font_size = size; line_height = height })
        (ap (clamp numbers numbers.smallest_font numbers.largest_font) i.size_whole
          ∙ clamp-fixed numbers.smallest_font numbers.largest_font p.font_size i.size_in_range)
        (clamp-fixed numbers.smallest_line numbers.largest_line p.line_height i.height_in_range)

  -- Setting an appearance, from whatever values and whatever the page shows, gives one whose font size
  -- is a whole number in its range and whose line height is in its range; and if the storage takes it,
  -- a page that loads it later shows the same, provided that parsing undoes printing.
  pub load-set :
      (print : TerminalPreferences N → List ℕ) (parse : List ℕ → Option (Stored N))
      → ((p : TerminalPreferences N) → parse (print p) ≡ some (as_stored p))
      → (value : Patch N) (s : Preferences N)
      → (let s' = set numbers print true value s in
          IsNormal s'.current
          × ((load numbers parse (fresh_page numbers s'.item)).current ≡ s'.current))
  unfolding set load fresh_page parse_item normalized
  load-set print parse json value s =
      let next : TerminalPreferences N =
        normalize_terminal_preferences numbers (merge s.current value) in
      let normal : IsNormal next = normalize-IsNormal (merge s.current value) in
      (
        normal,
        ap (λ v. normalized numbers v (default_terminal_preferences numbers)) (json next)
            ∙ normalize-as_stored next normal,
      )
