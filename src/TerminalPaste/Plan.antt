-- ===== src/TerminalPaste/Plan.antt =====
-- What `planPaste` of frontend/src/lib/terminal-paste.ts accepts, and the size of its chunks.
use friendly_ai_explorer.Common.{
  ltb, length, All, All-append, any, Number, is_integer, number_below, number_above, natural, pos,
  negsuc, integer, fractional, ℕ, ◌≤◌, ◌<◌, ◌≡◌, refl, sym, subst, ◌∙◌, ◌⊎◌, inl, inr, Bool, true,
  false, ◌||◌, List, [], ◌∷◌, arith,
}
use friendly_ai_explorer.TerminalPaste.{
  PasteOptions, ok, tab, lf, cr, is_high, char_codes, is_control, is_ending, unix_lines,
  split_lines, chunk_value, is_empty, chunk_lines, bad_options, plan_paste,
}
use friendly_ai_explorer.TerminalPaste.Chunks.{IsChunk, chunk_value-IsChunk}

pub planned :
    (text : List ℕ) (o : PasteOptions) {chunks : List (List ℕ)}
    → plan_paste text o ≡ ok chunks
    → chunks ≡ chunk_lines o (split_lines (unix_lines false text))
unfolding plan_paste
planned text o e = ground arith

chunk_lines-IsChunk : (o : PasteOptions) (lines : List (List ℕ)) → All IsChunk (chunk_lines o lines)
unfolding chunk_lines
chunk_lines-IsChunk o [] = tt
chunk_lines-IsChunk o (line ∷ []) = chunk_value-IsChunk _ _
chunk_lines-IsChunk o (line ∷ next ∷ lines) =
    All-append IsChunk (chunk_value _ _) _ (chunk_value-IsChunk _ _)
      (chunk_lines-IsChunk o (next ∷ lines))

-- Every chunk of an accepted paste has 1 to 256 units.
pub plan_paste-IsChunk :
    (text : List ℕ) (o : PasteOptions) {chunks : List (List ℕ)}
    → plan_paste text o ≡ ok chunks
    → All IsChunk chunks
plan_paste-IsChunk text o e =
    subst (All IsChunk) (sym (planned text o e))
      (chunk_lines-IsChunk o (split_lines (unix_lines false text)))

-- A unit that may be pasted.
abbrev pub IsPasteUnit : ℕ → Type 0
IsPasteUnit c = ((32 ≤ c) ⊎ (c ≡ tab) ⊎ (c ≡ cr) ⊎ (c ≡ lf)) × ((c < 127) ⊎ (159 < c))

any_control-char_codes :
    (after_high : Bool) (text : List ℕ)
    → any is_control (char_codes after_high text) ≡ any is_control text
unfolding char_codes is_control
any_control-char_codes after_high [] = refl
any_control-char_codes after_high (c ∷ cs) = ground (arith, any_control-char_codes (is_high c) cs)

no_control-All : (text : List ℕ) → any is_control text ≡ false → All IsPasteUnit text
unfolding is_control
no_control-All [] h = tt
no_control-All (c ∷ cs) h = ground (arith, no_control-All cs)

All-no_control : (text : List ℕ) → All IsPasteUnit text → any is_control text ≡ false
unfolding is_control
All-no_control [] h = refl
All-no_control (c ∷ cs) h = ground (arith, All-no_control cs h.1)

abbrev pub IsEnding : List ℕ → Type 0
IsEnding e = (e ≡ cr ∷ []) ⊎ (e ≡ lf ∷ []) ⊎ (e ≡ cr ∷ lf ∷ [])

-- The requests that `planPaste` serves.
pub record IsAccepted (text : List ℕ) (o : PasteOptions) : Type 0 where
  pub not_empty : 0 < length text
  pub not_long : length text ≤ 65536
  pub units : All IsPasteUnit text
  pub known_ending : IsEnding o.ending
  pub delay : (n : ℕ) × (o.delay_ms ≡ natural n) × (n ≤ 5000)
  pub lines : length (split_lines (unix_lines false text)) ≤ 2000

IsEnding-known : (e : List ℕ) → is_ending e ≡ true → IsEnding e
unfolding is_ending
IsEnding-known [] h = cc
IsEnding-known (a ∷ []) h = ground arith
IsEnding-known (a ∷ b ∷ []) h = ground arith
IsEnding-known (a ∷ b ∷ c ∷ r) h = cc

delay_known :
    (d : Number)
    → is_integer d ≡ true
    → number_below d 0 ≡ false
    → number_above d 5000 ≡ false
    → (n : ℕ) × (d ≡ natural n) × (n ≤ 5000)
delay_known (integer (pos n)) i lo hi = (n, refl, ground arith)
delay_known (integer (negsuc n)) i lo hi = cc
delay_known fractional i lo hi = cc

good_options :
    (o : PasteOptions)
    → bad_options o ≡ false
    → (is_ending o.ending ≡ true)
      × (is_integer o.delay_ms ≡ true)
      × (number_below o.delay_ms 0 ≡ false)
      × (number_above o.delay_ms 5000 ≡ false)
unfolding bad_options
good_options o h = ground arith

IsEnding-is_ending : (e : List ℕ) → IsEnding e → is_ending e ≡ true
unfolding is_ending
IsEnding-is_ending e (inl h) = rw h
IsEnding-is_ending e (inr (inl h)) = rw h
IsEnding-is_ending e (inr (inr h)) = rw h

accepted_options :
    (o : PasteOptions)
    → IsEnding o.ending
    → (n : ℕ) × (o.delay_ms ≡ natural n) × (n ≤ 5000)
    → bad_options o ≡ false
unfolding bad_options
accepted_options o e (n, d, h) = rw (IsEnding-is_ending o.ending e, d) (ground arith)

-- The answers of the four tests that a planned paste has passed.
passed :
    (text : List ℕ) (o : PasteOptions) {chunks : List (List ℕ)}
    → plan_paste text o ≡ ok chunks
    → (is_empty text || ltb 65536 (length text) ≡ false)
      × (any is_control (char_codes false text) ≡ false)
      × (bad_options o ≡ false)
      × (ltb 2000 (length (split_lines (unix_lines false text))) ≡ false)
unfolding plan_paste
passed text o e = ground arith

not_empty : (text : List ℕ) → is_empty text ≡ false → 0 < length text
unfolding is_empty
not_empty [] h = cc
not_empty (c ∷ cs) h = omega arith

-- A paste is planned only if it has 1 to 65,536 allowed units, a known ending, a whole delay of at
-- most 5,000 ms and at most 2,000 lines.
pub plan_paste-IsAccepted :
    (text : List ℕ) (o : PasteOptions) {chunks : List (List ℕ)}
    → plan_paste text o ≡ ok chunks
    → IsAccepted text o
plan_paste-IsAccepted text o e =
    let (sized, plain, set, short) = passed text o e in
    let good = good_options o set in
    let plain' = any_control-char_codes false text in
    record {
      not_empty = ground (arith, not_empty text);
      not_long = ground arith;
      units = no_control-All text (sym plain' ∙ plain);
      known_ending = IsEnding-known o.ending good.0;
      delay = delay_known o.delay_ms good.1 good.2 good.3;
      lines = ground arith;
    }

-- Every paste of 1 to 65,536 allowed units, with a known ending, a whole delay of at most 5,000 ms
-- and at most 2,000 lines is planned.
pub IsAccepted-plan_paste :
    (text : List ℕ) (o : PasteOptions)
    → IsAccepted text o
    → (chunks : List (List ℕ)) × (plan_paste text o ≡ ok chunks)
unfolding plan_paste
IsAccepted-plan_paste [] o h = absurd (omega arith)
IsAccepted-plan_paste (c ∷ cs) o h =
    let plain = any_control-char_codes false (c ∷ cs) ∙ All-no_control (c ∷ cs) h.units in
    (
      chunk_lines o (split_lines (unix_lines false (c ∷ cs))),
      rw (plain, accepted_options o h.known_ending h.delay)
          (unfold is_empty in ground (arith, h.not_long, h.lines)),
    )
