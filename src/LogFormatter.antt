-- ===== src/LogFormatter.antt =====
-- `LogFormatter` of frontend/src/lib/terminal-recording.ts: the removal of ANSI escapes from a log.
-- A text is the list of its code points, as the loop `for (const char of data)` takes it; the decoder
-- that feeds it never splits one, and a chunk that ends inside a surrogate pair is not covered.
-- `stamp` is the text `[<ISO time>] ` of the call's time.
pub mod Stream
pub mod Clean
pub mod Sequences
pub mod Examples
use friendly_ai_explorer.Common.{
  ltb, leb, ◌==◌, if◌then◌else◌, within, ltb→lt, lt→ltb, leb→le, ==_iff, Bool-cases, Option-cases,
  length, take, drop, replicate, set, get_elem?, get_or, length-append, length-take, length-drop,
  take-append-drop, take-length_append, drop-length_append, take-append_le, drop-append_le,
  get_or-append_lt, get_elem?-below, get_elem?-above, length-replicate, replicate-add, set-append,
  All, Any, All-append, flatten-append, any, includes, ℤ, Number, is_integer, number_below,
  number_above, natural, pos, negsuc, integer, fractional, Bytes, IsByte, le32, get_u32, ℕ, zero,
  suc, ◌+◌, ◌-◌, ◌*◌, ◌/◌, ◌%◌, ◌^◌, ◌≤◌, ◌<◌, min, max, pred, bit_and, bit_or, bit_xor, ◌≡◌, refl,
  sym, ap, ap₂, subst, ◌∙◌, ◌≡⟨◌⟩◌, ◌∎, ◌≢◌, ◌↔◌, ◌⊎◌, inl, inr, Bool, true, false, not, ◌&&◌, ◌||◌,
  Option, none, some, List, [], ◌∷◌, ◌++◌, map, append-nil, append_assoc, arith, flatten,
}

pub record RecordingOptions : Type 0 where
  pub raw : Bool
  pub timestamps : Bool
  pub rotate_mib : ℕ

pub data Escape : Type 0 where
  text esc intermediate csi osc osc_esc : Escape

-- The two fields that change.
pub record LogFormatter : Type 0 where
  pub escape : Escape
  pub line_start : Bool

abbrev pub initial : LogFormatter
initial = record { escape = text; line_start = true }

-- `char.charCodeAt(0)`: the first UTF-16 unit of a code point.
unfoldable pub char_code : ℕ → ℕ
char_code char = if ltb char 0x10000 then char else 0xD800 + (char - 0x10000) / 0x400

-- The state after a character that is part of an escape sequence, or that begins one.
unfoldable pub osc_step : ℕ → Escape
osc_step code = if code == 7 || code == 0x9c then text else if code == 27 then osc_esc else osc

-- `char === "["`, `"]PX^_".includes(char)`
unfoldable pub esc_step : ℕ → ℕ → Escape
esc_step char code =
    if char == 0x5b
    then csi
    else if includes (0x5d ∷ 0x50 ∷ 0x58 ∷ 0x5e ∷ 0x5f ∷ []) char
    then osc
    else if within 0x20 0x2f code
    then intermediate
    else text

-- What is done with a character outside every escape sequence.
pub data Action : Type 0 where
  enter : Escape → Action
  skip : Action
  keep : Action

unfoldable pub text_action : ℕ → ℕ → Action
text_action char code =
    if code == 27
    then enter esc
    else if code == 0x9b
    then enter csi
    else if includes (0x90 ∷ 0x98 ∷ 0x9d ∷ 0x9e ∷ 0x9f ∷ []) code
    then enter osc
    else if within 0x7f 0x9f code
    then skip
    else if ltb code 32 && not (char == 10) && not (char == 13) && not (char == 9)
    then skip
    else keep

-- The characters that are written for a kept one, and the new `lineStart`.
unfoldable pub kept_text : Bool → List ℕ → Bool → ℕ → List ℕ
kept_text timestamps stamp line_start char =
    (if line_start && timestamps && not (char == 10) && not (char == 13) then stamp else [])
    ++ (char ∷ [])

unfoldable pub next_line_start : Bool → ℕ → Bool
next_line_start line_start char =
    if char == 10 then true else if not (char == 13) then false else line_start

unfoldable pub act : Action → RecordingOptions → List ℕ → LogFormatter → ℕ → LogFormatter × List ℕ
act (enter e) o stamp f char = (record f { escape = e }, [])
act skip o stamp f char = (f, [])
act keep o stamp f char = (
  record f { line_start = next_line_start f.line_start char },
  kept_text o.timestamps stamp f.line_start char,
)

-- One round of the loop: the new state, and what is added to the result.
unfoldable pub step_in :
    Escape → RecordingOptions → List ℕ → LogFormatter → ℕ → LogFormatter × List ℕ
step_in osc o stamp f char = (record f { escape = osc_step (char_code char) }, [])
step_in osc_esc o stamp f char = (record f { escape = if char == 0x5c then text else osc }, [])
step_in esc o stamp f char = (record f { escape = esc_step char (char_code char) }, [])
step_in intermediate o stamp f char =
    (record f { escape = if within 0x30 0x7e (char_code char) then text else intermediate }, [])
step_in csi o stamp f char =
    (record f { escape = if within 0x40 0x7e (char_code char) then text else csi }, [])
step_in text o stamp f char = act (text_action char (char_code char)) o stamp f char

unfoldable pub format_loop :
    RecordingOptions → List ℕ → LogFormatter → List ℕ → LogFormatter × List ℕ
format_loop o stamp f [] = (f, [])
format_loop o stamp f (char ∷ chars) =
    let (f', out) = step_in f.escape o stamp f char in
    let (f'', rest) = format_loop o stamp f' chars in (f'', out ++ rest)

unfoldable pub format : RecordingOptions → List ℕ → LogFormatter → List ℕ → LogFormatter × List ℕ
format o stamp f chars = if o.raw then (f, chars) else format_loop o stamp f chars
