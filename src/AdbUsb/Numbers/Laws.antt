-- ===== src/AdbUsb/Numbers/Laws.antt =====
-- The conversions between bytes, words and numbers keep the value.
use friendly_ai_explorer.Common.{
  length, All, Bytes, ℕ, zero, suc, ◌+◌, ◌*◌, ◌/◌, ◌%◌, ◌^◌, ◌<◌, ◌≡◌, refl, ap, ◌∙◌, List, [], ◌∷◌,
  arith,
}
use native.Mathlib.Nat.{pow-suc}
use friendly_ai_explorer.AdbUsb.Numbers.{
  bytes_onto, bytes_to_big_int, big_int_to_le_words, signature_onto, signature_bytes,
}

-- The number that little-endian words stand for.
abbrev pub le_value : List ℕ → ℕ
le_value [] = 0
le_value (w ∷ ws) = w + 4294967296 * le_value ws

-- The words of a number that fits are in range, as many as asked for, and stand for the number.
pub le_value-big_int_to_le_words :
    (n words : ℕ)
    → n < 4294967296 ^ words
    → (le_value (big_int_to_le_words n words) ≡ n)
      × (length (big_int_to_le_words n words) ≡ words)
      × All (λ w. w < 4294967296) (big_int_to_le_words n words)
unfolding big_int_to_le_words
le_value-big_int_to_le_words n zero h = (omega arith, refl, tt)
le_value-big_int_to_le_words n (suc words) h =
    let (value, size, small) =
      le_value-big_int_to_le_words (n / 4294967296) words
        (omega (arith, pow-suc 4294967296 words)) in
    (omega (arith, value), ap suc size, (omega arith, small))

signature-bytes :
    (signed size : ℕ) (written : Bytes) (acc : ℕ)
    → signed < 256 ^ size
    → bytes_onto acc (signature_onto signed size written)
      ≡ bytes_onto (acc * 256 ^ size + signed) written
unfolding signature_onto bytes_onto
signature-bytes signed zero written acc h = ap (λ n. bytes_onto n written) (omega arith)
signature-bytes signed (suc size) written acc h =
    signature-bytes (signed / 256) size (signed % 256 ∷ written) acc
      (omega (arith, pow-suc 256 size))
    ∙ ap (λ n. bytes_onto n written) (rw (pow-suc 256 size) (omega arith))

length-signature_onto :
    (signed size : ℕ) (written : Bytes)
    → length (signature_onto signed size written) ≡ size + length written
unfolding signature_onto
length-signature_onto signed zero written = omega arith
length-signature_onto signed (suc size) written =
    omega (arith, length-signature_onto (signed / 256) size (signed % 256 ∷ written))

-- A signature that fits the key's size keeps its value: read back as a big-endian number, the bytes
-- that are sent are the signature, and they are as many as the key has.
pub bytes_to_big_int-signature_bytes :
    (signed size : ℕ)
    → signed < 256 ^ size
    → (bytes_to_big_int (signature_bytes signed size) ≡ signed)
      × (length (signature_bytes signed size) ≡ size)
unfolding bytes_to_big_int signature_bytes
bytes_to_big_int-signature_bytes signed size h = (
  signature-bytes signed size [] 0 h ∙ (unfold bytes_onto in omega arith),
  omega (arith, length-signature_onto signed size []),
)
