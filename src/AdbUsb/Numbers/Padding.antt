-- ===== src/AdbUsb/Numbers/Padding.antt =====
-- The PKCS#1 block that `doAuth` signs.
use friendly_ai_explorer.Common.{
  ltb, ◌==◌, length, replicate, set, length-append, length-replicate, replicate-add, set-append,
  Bytes, ℕ, suc, ◌+◌, ◌-◌, ◌≡◌, refl, sym, ap, ◌∙◌, false, some, [], ◌∷◌, ◌++◌, append-nil,
  append_assoc, arith,
}
use friendly_ai_explorer.AdbUsb.Numbers.{sha1_prefix, set_bytes, pkcs1_encode}

set_bytes-append :
    (bytes before old after : Bytes)
    → length old ≡ length bytes
    → set_bytes (before ++ (old ++ after)) (length before) bytes ≡ before ++ (bytes ++ after)
unfolding set_bytes
set_bytes-append [] before [] after h = refl
set_bytes-append [] before (o ∷ old) after h = absurd (omega arith)
set_bytes-append (b ∷ bytes) before [] after h = absurd (omega arith)
set_bytes-append (b ∷ bytes) before (o ∷ old) after h =
    let next = before ++ (b ∷ []) in
    ap (λ e. set_bytes e (length before + 1) bytes)
      (set-append before o b (old ++ after) ∙ sym (append_assoc before (b ∷ []) (old ++ after)))
    ∙ ap (λ k. set_bytes (next ++ (old ++ after)) k bytes) (sym (length-append before (b ∷ [])))
    ∙ set_bytes-append bytes next old after (omega arith)
    ∙ append_assoc before (b ∷ []) (bytes ++ after)

-- A zero, then two runs of bytes, written one behind the other.
write_parts :
    (before : Bytes) (z : ℕ) (old₁ old₂ p t : Bytes)
    → length old₁ ≡ length p
    → length old₂ ≡ length t
    → set_bytes
        (set_bytes
          (set (before ++ (z ∷ (old₁ ++ (old₂ ++ [])))) (length before) 0)
          (length before + 1)
          p)
        (length before + 1 + length p)
        t
      ≡ before ++ (0 ∷ (p ++ t))
write_parts before z old₁ old₂ p t h k =
    let zeroed = before ++ (0 ∷ []) in
    let prefixed = zeroed ++ p in
    let one : length before + 1 ≡ length zeroed = sym (length-append before (0 ∷ [])) in
    let two : length before + 1 + length p ≡ length prefixed =
      omega (arith, length-append before (0 ∷ []), length-append zeroed p) in
    rw
      (
        two,
        one,
        set-append before z 0 (old₁ ++ (old₂ ++ [])),
        ← append_assoc before (0 ∷ []) (old₁ ++ (old₂ ++ [])),
      )
      (ap (λ e. set_bytes e (length prefixed) t)
          (set_bytes-append p zeroed old₁ (old₂ ++ []) h ∙ sym (append_assoc zeroed p (old₂ ++ [])))
        ∙ set_bytes-append t prefixed old₂ [] k
        ∙ append_assoc zeroed p (t ++ [])
        ∙ append_assoc before (0 ∷ []) (p ++ (t ++ []))
        ∙ rw (append-nil t))

abbrev full : ℕ
full = 0xff

-- The start of the block: the two leading bytes and the run.
abbrev lead : ℕ → Bytes
lead fill = 0 ∷ 1 ∷ replicate fill full

length-lead : (fill : ℕ) → length (lead fill) ≡ fill + 2
length-lead fill = omega (arith, length-replicate fill full)

-- The blank block, cut where it will be written.
blank-lead :
    (fill t : ℕ)
    → set (set (replicate (fill + 18 + t) full) 0 0) 1 1
      ≡ lead fill ++ (full ∷ (replicate 15 full ++ (replicate t full ++ [])))
blank-lead fill t =
    let size : fill + 18 + t ≡ suc (suc (fill + suc (15 + t))) = omega arith in
    rw (
      size,
      replicate-add fill (suc (15 + t)) full,
      replicate-add 15 t full,
      append-nil (replicate t full),
    )

-- For a key with room for it the block is 0, 1, a run of 255 over all the room that is left, 0, the
-- SHA-1 prefix and the token.
pub pkcs1_encode_block :
    (fill : ℕ) (token : Bytes)
    → pkcs1_encode (fill + 18 + length token) token
      ≡ some (0 ∷ 1 ∷ (replicate fill full ++ (0 ∷ (sha1_prefix ++ token))))
unfolding pkcs1_encode
pkcs1_encode_block fill token =
    let t = length token in
    let room : ltb (fill + 18 + t) (15 + t) ≡ false = ground arith in
    let offset : fill + 18 + t - 15 - t ≡ length (lead fill) + 1 =
      omega (arith, length-lead fill) in
    let nonzero : (length (lead fill) + 1 == 0) ≡ false = ground arith in
    let last : length (lead fill) + 1 - 1 ≡ length (lead fill) = omega arith in
    rw (room, offset, nonzero, last, blank-lead fill t)
      (ap some (
        write_parts (lead fill) full (replicate 15 full) (replicate t full) sha1_prefix token refl
          (length-replicate t full)))
