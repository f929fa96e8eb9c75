-- ===== src/AdbUsb/Numbers.antt =====
-- The big-number helpers of the ADB key and signature: `bytesToBigInt`, `bigIntToLEWords`, and in
-- `doAuth` the padding, the modular power and the bytes of the signature. A `bigint` here is never
-- negative. The bits of `n << 8` and of a byte are apart, so their `|` is a sum.
pub mod Laws
pub mod Power
pub mod Padding
use friendly_ai_explorer.Common.{
  ltb, leb, ◌==◌, if◌then◌else◌, within, ltb→lt, lt→ltb, leb→le, ==_iff, Bool-cases, Option-cases,
  length, take, drop, replicate, set, get_elem?, get_or, length-append, length-take, length-drop,
  take-append-drop, take-length_append, drop-length_append, take-append_le, drop-append_le,
  get_or-append_lt, get_elem?-below, get_elem?-above, All, Any, All-append, flatten-append, any,
  includes, ℤ, Number, is_integer, number_below, number_above, natural, pos, negsuc, integer,
  fractional, Bytes, IsByte, le32, get_u32, ℕ, zero, suc, ◌+◌, ◌-◌, ◌*◌, ◌/◌, ◌%◌, ◌^◌, ◌≤◌, ◌<◌,
  min, max, pred, bit_and, bit_or, bit_xor, ◌≡◌, refl, sym, ap, ap₂, subst, ◌∙◌, ◌≡⟨◌⟩◌, ◌∎, ◌≢◌,
  ◌↔◌, ◌⊎◌, inl, inr, Bool, true, false, not, ◌&&◌, ◌||◌, Option, none, some, List, [], ◌∷◌, ◌++◌,
  map, append-nil, append_assoc, arith, flatten,
}

unfoldable pub bytes_onto : ℕ → Bytes → ℕ
bytes_onto n [] = n
bytes_onto n (byte ∷ bytes) = bytes_onto (n * 256 + byte) bytes

unfoldable pub bytes_to_big_int : Bytes → ℕ
bytes_to_big_int = bytes_onto 0

unfoldable pub big_int_to_le_words : ℕ → ℕ → List ℕ
big_int_to_le_words n zero = []
big_int_to_le_words n (suc words) = n % 4294967296 ∷ big_int_to_le_words (n / 4294967296) words

-- `sig[i] = Number(signed & 255n); signed >>= 8n` from the last byte to the first; the bytes behind
-- `i` are written already.
unfoldable pub signature_onto : ℕ → ℕ → Bytes → Bytes
signature_onto signed zero written = written
signature_onto signed (suc i) written = signature_onto (signed / 256) i (signed % 256 ∷ written)

unfoldable pub signature_bytes : ℕ → ℕ → Bytes
signature_bytes signed size = signature_onto signed size []

-- `while (power)`. Each round halves the power, so `power` itself is fuel enough.
unfoldable pub power_loop : ℕ → ℕ → ℕ → ℕ → ℕ → ℕ
power_loop zero n signed base power = signed
power_loop (suc fuel) n signed base power =
    let signed' = if power % 2 == 1 then signed * base % n else signed in
    let rest = power_loop fuel n signed' (base * base % n) (power / 2) in
    if power == 0 then signed else rest

unfoldable pub power_mod : ℕ → ℕ → ℕ → ℕ
power_mod base power n = power_loop power n 1 base power

-- The ASN.1 prefix of a SHA-1 digest.
abbrev pub sha1_prefix : Bytes
sha1_prefix =
    0x30 ∷ 0x21 ∷ 0x30 ∷ 0x09 ∷ 0x06 ∷ 0x05 ∷ 0x2b ∷ 0x0e ∷ 0x03 ∷ 0x02 ∷ 0x1a ∷ 0x05 ∷ 0x00 ∷ 0x04
    ∷ 0x14 ∷ []

-- `encoded[i] = v`, and `encoded.set(bytes, offset)`, which writes one byte after the other.
unfoldable pub set_bytes : Bytes → ℕ → Bytes → Bytes
set_bytes encoded offset [] = encoded
set_bytes encoded offset (byte ∷ bytes) = set_bytes (set encoded offset byte) (offset + 1) bytes

-- The source has no test here: `none` stands for the RangeError that `set` throws at an offset that is
-- negative.
pub pkcs1_encode : ℕ → Bytes → Option Bytes
pkcs1_encode size token =
    let blank = set (set (replicate size 0xff) 0 0) 1 1 in
    let offset = size - length sha1_prefix - length token in
    let zeroed = if offset == 0 then blank else set blank (offset - 1) 0 in
    if ltb size (length sha1_prefix + length token)
    then none
    else some (set_bytes (set_bytes zeroed offset sha1_prefix) (offset + length sha1_prefix) token)
