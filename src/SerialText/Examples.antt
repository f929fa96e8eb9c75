-- ===== src/SerialText/Examples.antt =====
-- "A", the first character of the GBK table, and the euro sign.
use friendly_ai_explorer.Common.{
  ◌==◌, if◌then◌else◌, ℕ, ◌≡◌, refl, ◌&&◌, Option, none, some, List, [], ◌∷◌,
}
use friendly_ai_explorer.SerialText.{
  gbk, is_high_unit, is_low_unit, next_points, code_points, stands_for, find_trail, or_else,
  find_lead, gbk_bytes, pair_bytes, encode_char, join_bytes, encode_chars, encode_serial_text,
}
use friendly_ai_explorer.SerialText.RoundTrip.{read_gbk, read_gbk-encode_chars}

-- The part of the browser's table that is asked for.
abbrev table : ℕ → ℕ → Option (List ℕ)
table lead trail = if lead == 0x81 && trail == 0x40 then some (0x4e02 ∷ []) else none

encoded_text :
    encode_serial_text table (0x41 ∷ 0x4e02 ∷ 0x20ac ∷ []) gbk
    ≡ some (0x41 ∷ 0x81 ∷ 0x40 ∷ 0x80 ∷ [])
unfolding is_high_unit is_low_unit next_points code_points stands_for find_trail or_else find_lead
    gbk_bytes pair_bytes encode_char join_bytes encode_chars encode_serial_text
encoded_text = refl

encoded_chars :
    encode_chars table (0x41 ∷ 0x4e02 ∷ 0x20ac ∷ []) ≡ some (0x41 ∷ 0x81 ∷ 0x40 ∷ 0x80 ∷ [])
unfolding stands_for find_trail or_else find_lead gbk_bytes pair_bytes encode_char join_bytes
    encode_chars
encoded_chars = refl

read_gbk-encode_chars_example :
    read_gbk table (0x41 ∷ 0x81 ∷ 0x40 ∷ 0x80 ∷ []) ≡ some (0x41 ∷ 0x4e02 ∷ 0x20ac ∷ [])
read_gbk-encode_chars_example =
    read_gbk-encode_chars table (0x41 ∷ 0x4e02 ∷ 0x20ac ∷ []) (0x41 ∷ 0x81 ∷ 0x40 ∷ 0x80 ∷ [])
      encoded_chars
