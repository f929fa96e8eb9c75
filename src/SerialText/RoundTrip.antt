-- ===== src/SerialText/RoundTrip.antt =====
-- What a receiver reads from the bytes of `encodeSerialText` in GBK.
use friendly_ai_explorer.Common.{
  ltb, ◌==◌, if◌then◌else◌, ==_iff, Bytes, ℕ, zero, suc, ◌+◌, ◌<◌, ◌≡◌, refl, sym, ap, subst, ◌∙◌,
  Bool, true, false, not, ◌&&◌, Option, none, some, List, [], ◌∷◌, ◌++◌, arith,
}
use friendly_ai_explorer.SerialText.{
  stands_for, find_trail, or_else, find_lead, gbk_bytes, pair_bytes, encode_char, join_bytes,
  encode_chars,
}

module _ (decode : ℕ → ℕ → Option (List ℕ)) where
  abbrev prepend : ℕ → Option (List ℕ) → Option (List ℕ)
  prepend c none = none
  prepend c (some cs) = some (c ∷ cs)

  abbrev single : Option (List ℕ) → Option (List ℕ) → Option (List ℕ)
  single (some (c ∷ [])) rest = prepend c rest
  single _ rest = none

  abbrev euro : ℕ
  euro = 0x20ac

  -- A receiver: ASCII, the single byte of the euro sign, and pairs that the decoder knows.
  pub read_gbk : Bytes → Option (List ℕ)
  read_gbk [] = some []
  read_gbk (b ∷ []) =
      if ltb b 0x80 then some (b ∷ []) else if b == 0x80 then some (euro ∷ []) else none
  read_gbk (b ∷ t ∷ bs) =
      let one = read_gbk (t ∷ bs) in
      let two = read_gbk bs in
      if ltb b 0x80
      then prepend b one
      else if b == 0x80
      then prepend euro one
      else single (decode b t) two

  stands_for-eq :
      (char : ℕ) (o : Option (List ℕ)) → stands_for decode char o ≡ true → o ≡ some (char ∷ [])
  unfolding stands_for
  stands_for-eq char none h = absurd (cc h)
  stands_for-eq char (some []) h = absurd (cc h)
  stands_for-eq char (some (c ∷ [])) h = ap (λ x. some (x ∷ [])) ((==_iff c char).0 h)
  stands_for-eq char (some (c ∷ d ∷ cs)) h = absurd (cc h)

  -- What the table holds of a character: a pair with a lead byte, which decodes to it.
  abbrev IsPair : ℕ → Option (ℕ × ℕ) → Type 0
  IsPair char none = Unit
  IsPair char (some (lead, trail)) = (0x80 < lead) × (decode lead trail ≡ some (char ∷ []))

  find_trail-IsPair :
      (n lead trail char : ℕ) → 0x80 < lead → IsPair char (find_trail decode n lead trail char)
  unfolding find_trail
  find_trail-IsPair zero lead trail char h = tt
  find_trail-IsPair (suc n) lead trail char h =
      go (not (trail == 0x7f)) (stands_for decode char (decode lead trail)) refl
        (find_trail-IsPair n lead (trail + 1) char h)
    where
      go :
          (a b : Bool)
          → stands_for decode char (decode lead trail) ≡ b
          → IsPair char (find_trail decode n lead (trail + 1) char)
          → IsPair char
              (if a && b then some (lead, trail) else find_trail decode n lead (trail + 1) char)
      go false b e i = i
      go true false e i = i
      go true true e i = (h, stands_for-eq char (decode lead trail) e)

  or_else-IsPair :
      (char : ℕ) (o p : Option (ℕ × ℕ))
      → IsPair char o
      → IsPair char p
      → IsPair char (or_else decode o p)
  unfolding or_else
  or_else-IsPair char none p i j = j
  or_else-IsPair char (some x) p i j = i

  find_lead-IsPair : (n lead char : ℕ) → 0x80 < lead → IsPair char (find_lead decode n lead char)
  unfolding find_lead
  find_lead-IsPair zero lead char h = tt
  find_lead-IsPair (suc n) lead char h =
      or_else-IsPair char (find_trail decode 191 lead 0x40 char)
        (find_lead decode n (lead + 1) char) (find_trail-IsPair 191 lead 0x40 char h)
        (find_lead-IsPair n (lead + 1) char (omega arith))

  read_pair :
      (char : ℕ) (o : Option (ℕ × ℕ)) (bytes rest : Bytes)
      → IsPair char o
      → pair_bytes decode o ≡ some bytes
      → read_gbk (bytes ++ rest) ≡ prepend char (read_gbk rest)
  unfolding pair_bytes read_gbk
  read_pair char none bytes rest i e = absurd (cc e)
  read_pair char (some (lead, trail)) bytes rest i e =
      let same : lead ∷ trail ∷ [] ≡ bytes = cc e in
      subst (λ bs. read_gbk (bs ++ rest) ≡ prepend char (read_gbk rest)) same
        (ground (arith, i.0, i.1))

  -- A byte that stands for itself, or the euro sign, before the rest.
  read_ascii :
      (b : ℕ) (rest : Bytes) → ltb b 128 ≡ true → read_gbk (b ∷ rest) ≡ prepend b (read_gbk rest)
  unfolding read_gbk
  read_ascii b [] h = ground arith
  read_ascii b (t ∷ rest) h = ground arith

  read_euro : (rest : Bytes) → read_gbk (0x80 ∷ rest) ≡ prepend euro (read_gbk rest)
  unfolding read_gbk
  read_euro [] = refl
  read_euro (t ∷ rest) = refl

  read-encode_char :
      (char : ℕ) (bytes rest : Bytes)
      → encode_char decode char ≡ some bytes
      → read_gbk (bytes ++ rest) ≡ prepend char (read_gbk rest)
  unfolding encode_char gbk_bytes
  read-encode_char char bytes rest e = go (ltb char 128) (char == 0x20ac) refl refl e
    where
      go :
          (a b : Bool)
          → ltb char 128 ≡ a
          → (char == 0x20ac) ≡ b
          → (if a
              then some (char ∷ [])
              else if b
              then some (0x80 ∷ [])
              else pair_bytes decode (find_lead decode 126 0x81 char))
            ≡ some bytes
          → read_gbk (bytes ++ rest) ≡ prepend char (read_gbk rest)
      go true b h k e =
          let same : char ∷ [] ≡ bytes = cc e in
          subst (λ bs. read_gbk (bs ++ rest) ≡ prepend char (read_gbk rest)) same
            (read_ascii char rest h)
      go false true h k e =
          let same : 0x80 ∷ [] ≡ bytes = cc e in
          subst (λ bs. read_gbk (bs ++ rest) ≡ prepend char (read_gbk rest)) same
            (read_euro rest ∙ ap (λ c. prepend c (read_gbk rest)) (sym ((==_iff char 0x20ac).0 k)))
      go false false h k e =
          read_pair char (find_lead decode 126 0x81 char) bytes rest
            (find_lead-IsPair 126 0x81 char (omega arith)) e

  -- A text that was encoded in GBK is what a receiver reads: no character was replaced.
  pub read_gbk-encode_chars :
      (chars : List ℕ) (bytes : Bytes)
      → encode_chars decode chars ≡ some bytes
      → read_gbk bytes ≡ some chars
  unfolding encode_chars
  read_gbk-encode_chars [] bytes e =
      let same : [] ≡ bytes = cc e in
      subst (λ bs. read_gbk bs ≡ some []) same (unfold read_gbk in refl)
  read_gbk-encode_chars (c ∷ cs) bytes e =
      go (encode_char decode c) (encode_chars decode cs) refl e
        (λ rest e'. read_gbk-encode_chars cs rest e')
    where
      go :
          (first others : Option Bytes)
          → encode_char decode c ≡ first
          → join_bytes decode first others ≡ some bytes
          → ((rest : Bytes) → others ≡ some rest → read_gbk rest ≡ some cs)
          → read_gbk bytes ≡ some (c ∷ cs)
      go (some first) (some rest) h e' ih =
          let same : first ++ rest ≡ bytes = unfold join_bytes in cc e' in
          ap read_gbk (sym same) ∙ read-encode_char c first rest h ∙ ap (prepend c) (ih rest refl)
      go none others h e' ih = absurd (unfold join_bytes in cc e')
      go (some first) none h e' ih = absurd (unfold join_bytes in cc e')
