-- ===== src/TerminalPaste.antt =====
-- frontend/src/lib/terminal-paste.ts. A JavaScript string is the list of its UTF-16 code units.
-- The chunk loop recurs on the rest of the value; its fuel is the value's length.
pub mod Chunks
pub mod Plan
pub mod Sent
pub mod Examples
use friendly_ai_explorer.Common.{
  ℕ, zero, suc, ◌+◌, ◌-◌, ◌≡◌, Bool, true, false, not, ◌&&◌, ◌||◌, Option, none, some, List, [],
  ◌∷◌, ◌++◌, min, flatten, ltb, leb, ◌==◌, if◌then◌else◌, within, length, take, drop, get_elem?,
  any, includes, Number, is_integer, number_below, number_above,
}

pub record PasteOptions : Type 0 where
  pub delay_ms : Number
  pub ending : List ℕ
  pub append_enter : Bool
  pub bracketed : Bool

pub data PasteError : Type 0 where
  bad_length control_character bad_settings too_many_lines : PasteError

pub data Planned : Type 0 where
  ok : List (List ℕ) → Planned
  err : PasteError → Planned

abbrev pub tab : ℕ
tab = 9

abbrev pub lf : ℕ
lf = 10

abbrev pub cr : ℕ
cr = 13

abbrev pub is_high : ℕ → Bool
is_high c = within 0xD800 0xDBFF c

abbrev pub is_low : ℕ → Bool
is_low c = within 0xDC00 0xDFFF c

-- `Array.from(text)` with `charCodeAt(0)` of each item: the first unit of each code point. The flag
-- says that the unit before was a high surrogate that still wants its second half.
unfoldable pub char_codes : Bool → List ℕ → List ℕ
char_codes after_high [] = []
char_codes after_high (c ∷ cs) =
    let rest = char_codes (is_high c) cs in if after_high && is_low c then rest else c ∷ rest

unfoldable pub is_control : ℕ → Bool
is_control code =
    ltb code 32 && not (includes (tab ∷ cr ∷ lf ∷ []) code) || leb 127 code && leb code 159

-- `["\r", "\n", "\r\n"].includes(ending)`
unfoldable pub is_ending : List ℕ → Bool
is_ending (a ∷ []) = a == cr || a == lf
is_ending (a ∷ b ∷ []) = a == cr && b == lf
is_ending _ = false

-- `text.replace(/\r\n?/g, "\n")`; the flag says that the unit before was a carriage return.
unfoldable pub unix_lines : Bool → List ℕ → List ℕ
unix_lines after_cr [] = []
unix_lines after_cr (c ∷ cs) =
    let rest = unix_lines (c == cr) cs in
    if after_cr && c == lf then rest else (if c == cr then lf else c) ∷ rest

unfoldable pub cons_first : ℕ → List (List ℕ) → List (List ℕ)
cons_first c [] = (c ∷ []) ∷ []
cons_first c (line ∷ lines) = (c ∷ line) ∷ lines

-- `.split("\n")`
unfoldable pub split_lines : List ℕ → List (List ℕ)
split_lines [] = [] ∷ []
split_lines (c ∷ cs) = let rest = split_lines cs in if c == lf then [] ∷ rest else cons_first c rest

-- `value[i] === unit`, false past the end
abbrev pub unit_is : Option ℕ → (ℕ → Bool) → Bool
unit_is none p = false
unit_is (some c) p = p c

-- `end` after its first adjustment: at most 256 units, and not between the two halves of a pair.
unfoldable pub chunk_stop : List ℕ → ℕ
chunk_stop value =
    let stop = min (length value) 256 in
    if ltb stop (length value) && unit_is (get_elem? value (stop - 1)) is_high
    then stop - 1
    else stop

-- `value[end - 1] === "\r" && value[end] === "\n"`
unfoldable pub crosses_newline : List ℕ → ℕ → Bool
crosses_newline value stop =
    unit_is (get_elem? value (stop - 1)) (λ c. c == cr)
    && unit_is (get_elem? value stop) (λ c. c == lf)

-- The end of the first chunk of `value`, counted from its start.
unfoldable pub chunk_end : List ℕ → ℕ
chunk_end value =
    if crosses_newline value (chunk_stop value) then chunk_stop value - 1 else chunk_stop value

-- `for (let start = 0; start < value.length; )`
unfoldable pub chunk_value : ℕ → List ℕ → List (List ℕ)
chunk_value fuel [] = []
chunk_value zero (c ∷ cs) = []
chunk_value (suc fuel) (c ∷ cs) =
    let stop = chunk_end (c ∷ cs) in take stop (c ∷ cs) ∷ chunk_value fuel (drop stop (c ∷ cs))

unfoldable pub is_empty : List ℕ → Bool
is_empty [] = true
is_empty (c ∷ cs) = false

-- `line + (i < lines.length - 1 || (appendEnter && line) ? ending : "")`
unfoldable pub line_value : PasteOptions → List ℕ → Bool → List ℕ
line_value o line last =
    line ++ (if not last || o.append_enter && not (is_empty line) then o.ending else [])

-- `lines.forEach(...)`
unfoldable pub chunk_lines : PasteOptions → List (List ℕ) → List (List ℕ)
chunk_lines o [] = []
chunk_lines o (line ∷ []) = let value = line_value o line true in chunk_value (length value) value
chunk_lines o (line ∷ next ∷ lines) =
    let value = line_value o line false in
    chunk_value (length value) value ++ chunk_lines o (next ∷ lines)

unfoldable pub bad_options : PasteOptions → Bool
bad_options o =
    not (is_ending o.ending)
    || not (is_integer o.delay_ms)
    || number_below o.delay_ms 0
    || number_above o.delay_ms 5000

unfoldable pub plan_paste : List ℕ → PasteOptions → Planned
plan_paste text o =
    if is_empty text || ltb 65536 (length text)
    then err bad_length
    else if any is_control (char_codes false text)
    then err control_character
    else if bad_options o
    then err bad_settings
    else if ltb 2000 (length (split_lines (unix_lines false text)))
    then err too_many_lines
    else ok (chunk_lines o (split_lines (unix_lines false text)))
