-- ===== src/SerialText.antt =====
-- `encodeSerialText` of frontend/src/lib/serial-text.ts. A string is the list of its UTF-16 units. The
-- browser's `TextDecoder("gbk", { fatal: true })` on two bytes is a parameter, `none` where it throws;
-- the map that the source fills once is the search for the first pair of bytes with the character.
pub mod RoundTrip
pub mod Examples
use friendly_ai_explorer.Common.{
  ltb, leb, ◌==◌, if◌then◌else◌, within, ltb→lt, lt→ltb, leb→le, ==_iff, Bool-cases, Option-cases,
  length, take, drop, replicate, set, get_elem?, get_or, length-append, length-take, length-drop,
  take-append-drop, take-length_append, drop-length_append, take-append_le, drop-append_le,
  get_or-append_lt, get_elem?-below, get_elem?-above, length-replicate, replicate-add, set-append,
  All, Any, All-append, flatten-append, any, includes, ℤ, Number, is_integer, number_below,
  number_above, natural, pos, negsuc, integer, fractional, Bytes, IsByte, le32, get_u32, utf8_char,
  utf8, utf8-append, utf16_length, ℕ, zero, suc, ◌+◌, ◌-◌, ◌*◌, ◌/◌, ◌%◌, ◌^◌, ◌≤◌, ◌<◌, min, max,
  pred, bit_and, bit_or, bit_xor, ◌≡◌, refl, sym, ap, ap₂, subst, ◌∙◌, ◌≡⟨◌⟩◌, ◌∎, ◌≢◌, ◌↔◌, ◌⊎◌,
  inl, inr, Bool, true, false, not, ◌&&◌, ◌||◌, Option, none, some, List, [], ◌∷◌, ◌++◌, map,
  append-nil, append_assoc, arith, flatten,
}

pub data SendEncoding : Type 0 where
  utf_8 gbk : SendEncoding

unfoldable pub is_high_unit : ℕ → Bool
is_high_unit = within 0xD800 0xDBFF

unfoldable pub is_low_unit : ℕ → Bool
is_low_unit = within 0xDC00 0xDFFF

-- `for (const char of text)`: the code points, after a high surrogate that waits for its other half.
-- A lone half of a pair stands for itself.
unfoldable pub next_points : Option ℕ → ℕ → List ℕ
next_points none u = if is_high_unit u then [] else u ∷ []
next_points (some high) u =
    if is_low_unit u
    then (0x10000 + (high - 0xD800) * 0x400 + (u - 0xDC00)) ∷ []
    else high ∷ (if is_high_unit u then [] else u ∷ [])

unfoldable pub code_points : Option ℕ → List ℕ → List ℕ
code_points none [] = []
code_points (some high) [] = high ∷ []
code_points waiting (u ∷ us) =
    let rest = code_points (if is_high_unit u then some u else none) us in
    next_points waiting u ++ rest

-- `new TextEncoder().encode(text)`: a lone half of a pair is replaced.
unfoldable pub scalar : ℕ → ℕ
scalar c = if within 0xD800 0xDFFF c then 0xFFFD else c

unfoldable pub encode_utf8 : List ℕ → Bytes
encode_utf8 text = utf8 (map scalar (code_points none text))

module _ (decode : ℕ → ℕ → Option (List ℕ)) where
  -- Whether two bytes stand for this character, and for nothing else.
  unfoldable pub stands_for : ℕ → Option (List ℕ) → Bool
  stands_for char (some (c ∷ [])) = c == char
  stands_for char _ = false

  -- `for (let trail = 0x40; trail <= 0xfe; trail++)`, on the number of rounds left.
  unfoldable pub find_trail : ℕ → ℕ → ℕ → ℕ → Option (ℕ × ℕ)
  find_trail zero lead trail char = none
  find_trail (suc n) lead trail char =
      let rest = find_trail n lead (trail + 1) char in
      if not (trail == 0x7f) && stands_for char (decode lead trail)
      then some (lead, trail)
      else rest

  unfoldable pub or_else : Option (ℕ × ℕ) → Option (ℕ × ℕ) → Option (ℕ × ℕ)
  or_else none other = other
  or_else (some found) other = some found

  -- `for (let lead = 0x81; lead <= 0xfe; lead++)`
  unfoldable pub find_lead : ℕ → ℕ → ℕ → Option (ℕ × ℕ)
  find_lead zero lead char = none
  find_lead (suc n) lead char =
      let rest = find_lead n (lead + 1) char in or_else (find_trail 191 lead 0x40 char) rest

  -- `gbkBytes.get(char)`
  unfoldable pub gbk_bytes : ℕ → Option (ℕ × ℕ)
  gbk_bytes char = find_lead 126 0x81 char

  unfoldable pub pair_bytes : Option (ℕ × ℕ) → Option Bytes
  pair_bytes none = none
  pair_bytes (some (lead, trail)) = some (lead ∷ trail ∷ [])

  unfoldable pub encode_char : ℕ → Option Bytes
  encode_char code =
      let table = pair_bytes (gbk_bytes code) in
      if ltb code 128 then some (code ∷ []) else if code == 0x20ac then some (0x80 ∷ []) else table

  unfoldable pub join_bytes : Option Bytes → Option Bytes → Option Bytes
  join_bytes (some first) (some rest) = some (first ++ rest)
  join_bytes _ _ = none

  unfoldable pub encode_chars : List ℕ → Option Bytes
  encode_chars [] = some []
  encode_chars (c ∷ cs) = join_bytes (encode_char c) (encode_chars cs)

  -- `none` is the error of a character that GBK does not have.
  unfoldable pub encode_serial_text : List ℕ → SendEncoding → Option Bytes
  encode_serial_text text utf_8 = some (encode_utf8 text)
  encode_serial_text text gbk = encode_chars (code_points none text)
