-- ===== src/TerminalPaste/Chunks.antt =====
-- The chunk loop of `planPaste`: where it cuts, and that the pieces are the whole.
use friendly_ai_explorer.Common.{
  Bool-cases, length, take, drop, get_elem?, length-take, length-drop, take-append-drop,
  get_elem?-above, All, ℕ, zero, suc, ◌-◌, ◌≤◌, ◌<◌, min, ◌≡◌, refl, sym, ap, ◌∙◌, inl, inr, true,
  false, ◌&&◌, some, List, [], ◌∷◌, ◌++◌, arith, flatten,
}
use friendly_ai_explorer.TerminalPaste.{
  is_high, is_low, unit_is, chunk_stop, crosses_newline, chunk_end, chunk_value,
}

-- A cut at `stop` leaves a first piece of 1 to 256 units.
pub record IsCut (value : List ℕ) (stop : ℕ) : Type 0 where
  pub progress : 0 < stop
  pub small : stop ≤ 256
  pub inside : stop ≤ length value

chunk_stop_bounds :
    (value : List ℕ)
    → 0 < length value
    → IsCut value (chunk_stop value) × (chunk_stop value < length value → 255 ≤ chunk_stop value)
unfolding chunk_stop
chunk_stop_bounds value h = ground arith

crosses_newline-lt :
    (value : List ℕ) (stop : ℕ) → crosses_newline value stop ≡ true → stop < length value
unfolding crosses_newline
crosses_newline-lt value stop h = ground (arith, get_elem?-above value stop)

pub chunk_end-IsCut : (value : List ℕ) → 0 < length value → IsCut value (chunk_end value)
unfolding chunk_end
chunk_end-IsCut value h =
    ground (arith, chunk_stop_bounds value h, crosses_newline-lt value (chunk_stop value))

-- The unit before a cut is a carriage return, and the one behind it a line feed.
abbrev pub CutsNewline : List ℕ → ℕ → Type 0
CutsNewline value stop = (get_elem? value (stop - 1) ≡ some 13) × (get_elem? value stop ≡ some 10)

-- The units before and behind a cut are the two halves of a surrogate pair.
abbrev pub CutsPair : List ℕ → ℕ → Type 0
CutsPair value stop =
    (c : ℕ) × (d : ℕ) × (get_elem? value (stop - 1) ≡ some c)
    × (get_elem? value stop ≡ some d)
    × (0xD800 ≤ c)
    × (c ≤ 0xDBFF)
    × (0xDC00 ≤ d)
    × (d ≤ 0xDFFF)

pub record IsSafe (value : List ℕ) (stop : ℕ) : Type 0 where
  pub newline_whole : ¬ CutsNewline value stop
  pub pair_whole : ¬ CutsPair value stop

-- The test of the code finds every cut inside a newline.
CutsNewline-crosses :
    (value : List ℕ) (stop : ℕ) → CutsNewline value stop → crosses_newline value stop ≡ true
unfolding crosses_newline
CutsNewline-crosses value stop h = rw (h.0, h.1) refl

CutsPair-halves :
    (value : List ℕ) (stop : ℕ)
    → CutsPair value stop
    → unit_is (get_elem? value (stop - 1)) is_high && unit_is (get_elem? value stop) is_low ≡ true
CutsPair-halves value stop (c, d, p, q, l, m, n, o) = rw (p, q) (ground arith)

apart_IsSafe :
    (value : List ℕ) (stop : ℕ)
    → crosses_newline value stop ≡ false
    → unit_is (get_elem? value (stop - 1)) is_high && unit_is (get_elem? value stop) is_low ≡ false
    → IsSafe value stop
apart_IsSafe value stop p q = record {
  newline_whole = λ h. cc (sym p ∙ CutsNewline-crosses value stop h);
  pair_whole = λ h. cc (sym q ∙ CutsPair-halves value stop h);
}

chunk_stop-pair :
    (value : List ℕ)
    → 0 < length value
    → unit_is (get_elem? value (chunk_stop value - 1)) is_high
        && unit_is (get_elem? value (chunk_stop value)) is_low
      ≡ false
unfolding chunk_stop
chunk_stop-pair value h = ground (arith, get_elem?-above value (min (length value) 256))

-- Where the second adjustment is made, the new cut has a carriage return behind it.
crossing : (value : List ℕ) (stop : ℕ) → crosses_newline value stop ≡ true → IsSafe value (stop - 1)
unfolding crosses_newline
crossing value stop h = apart_IsSafe value (stop - 1) (ground arith) (ground arith)

-- The cut of a value that has units never falls between a high and a low surrogate, nor between a
-- carriage return and a line feed.
pub chunk_end-IsSafe : (value : List ℕ) → 0 < length value → IsSafe value (chunk_end value)
unfolding chunk_end
chunk_end-IsSafe value h = elim (Bool-cases (crosses_newline value (chunk_stop value))) [
  | inl cross ↦ rw cross (crossing value (chunk_stop value) cross)
  | inr apart ↦ rw apart (apart_IsSafe value (chunk_stop value) apart (chunk_stop-pair value h))
]

pub flatten-chunk_value :
    (fuel : ℕ) (value : List ℕ) → length value ≤ fuel → flatten (chunk_value fuel value) ≡ value
unfolding chunk_value flatten
flatten-chunk_value fuel [] h = refl
flatten-chunk_value zero (c ∷ cs) h = absurd (omega arith)
flatten-chunk_value (suc fuel) (c ∷ cs) h =
    let stop = chunk_end (c ∷ cs) in
    let cut = chunk_end-IsCut (c ∷ cs) (omega arith) in
    ap (◌++◌ (take stop (c ∷ cs))) (
      flatten-chunk_value fuel (drop stop (c ∷ cs))
        (omega (arith, length-drop stop (c ∷ cs), cut.progress)))
    ∙ take-append-drop stop (c ∷ cs)

abbrev pub IsChunk : List ℕ → Type 0
IsChunk c = (0 < length c) × (length c ≤ 256)

pub chunk_value-IsChunk : (fuel : ℕ) (value : List ℕ) → All IsChunk (chunk_value fuel value)
unfolding chunk_value
chunk_value-IsChunk fuel [] = tt
chunk_value-IsChunk zero (c ∷ cs) = tt
chunk_value-IsChunk (suc fuel) (c ∷ cs) =
    let stop = chunk_end (c ∷ cs) in
    let cut = chunk_end-IsCut (c ∷ cs) (omega arith) in
    (
      omega (arith, length-take stop (c ∷ cs), cut.progress, cut.small, cut.inside),
      chunk_value-IsChunk fuel (drop stop (c ∷ cs)),
    )
