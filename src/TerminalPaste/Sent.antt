-- ===== src/TerminalPaste/Sent.antt =====
-- What the chunks of `planPaste` in frontend/src/lib/terminal-paste.ts are, joined: the whole text.
use friendly_ai_explorer.Common.{
  ◌==◌, if◌then◌else◌, Bool-cases, length, flatten-append, ℕ, ◌≡◌, ◌≢◌, refl, sym, ap, ap₂, subst,
  ◌∙◌, inl, inr, Bool, true, false, not, ◌&&◌, ◌||◌, List, [], ◌∷◌, ◌++◌, append_assoc, arith,
  flatten,
}
use friendly_ai_explorer.TerminalPaste.{
  PasteOptions, ok, lf, cr, unix_lines, cons_first, split_lines, chunk_value, is_empty, line_value,
  chunk_lines, plan_paste,
}
use friendly_ai_explorer.TerminalPaste.Chunks.{flatten-chunk_value}
use friendly_ai_explorer.TerminalPaste.Plan.{planned}

-- The bytes of a paste, read off the text in one pass: each line feed becomes the chosen ending, and
-- the last line gets one if Enter is asked for and the line is not empty.
pub paste_text : PasteOptions → Bool → List ℕ → List ℕ
paste_text o line_start [] = if o.append_enter && not line_start then o.ending else []
paste_text o line_start (c ∷ cs) =
    let rest = paste_text o (c == lf) cs in if c == lf then o.ending ++ rest else c ∷ rest

-- The values of the lines, joined; the flag says that the first line has begun before.
joined : PasteOptions → Bool → List (List ℕ) → List ℕ
joined o begun [] = []
joined o begun (line ∷ []) =
    line ++ (if o.append_enter && (begun || not (is_empty line)) then o.ending else [])
joined o begun (line ∷ next ∷ lines) = line ++ (o.ending ++ joined o false (next ∷ lines))

flatten-chunk_lines :
    (o : PasteOptions) (lines : List (List ℕ))
    → flatten (chunk_lines o lines) ≡ joined o false lines
unfolding chunk_lines joined line_value flatten
flatten-chunk_lines o [] = refl
flatten-chunk_lines o (line ∷ []) = flatten-chunk_value _ _ (omega arith)
flatten-chunk_lines o (line ∷ next ∷ lines) =
    flatten-append (chunk_value (length (line ++ o.ending)) (line ++ o.ending))
      (chunk_lines o (next ∷ lines))
    ∙ ap₂ (◌++◌) (flatten-chunk_value (length (line ++ o.ending)) (line ++ o.ending) (omega arith))
        (flatten-chunk_lines o (next ∷ lines))
    ∙ append_assoc line o.ending _

split_lines-cons : (u : List ℕ) → (l : List ℕ) × (ls : List (List ℕ)) × (split_lines u ≡ l ∷ ls)
unfolding split_lines cons_first
split_lines-cons [] = ([], [], refl)
split_lines-cons (c ∷ cs) =
    let (l, ls, e) = split_lines-cons cs in
    elim (Bool-cases (c == lf)) [
      | inl end ↦ ([], l ∷ ls, rw (end, e))
      | inr inner ↦ (c ∷ l, ls, rw (inner, e))
    ]

joined-cons_first :
    (o : PasteOptions) (begun : Bool) (c : ℕ) (l : List ℕ) (ls : List (List ℕ))
    → joined o begun (cons_first c (l ∷ ls)) ≡ c ∷ joined o true (l ∷ ls)
unfolding joined cons_first is_empty
joined-cons_first o begun c l [] = ground arith
joined-cons_first o begun c l (next ∷ ls) = refl

joined-split_lines :
    (o : PasteOptions) (begun : Bool) (u : List ℕ)
    → joined o begun (split_lines u) ≡ paste_text o (not begun) u
unfolding split_lines joined paste_text is_empty
joined-split_lines o begun [] = ground arith
joined-split_lines o begun (c ∷ cs) =
    let (l, ls, e) = split_lines-cons cs in
    elim (Bool-cases (c == lf)) [
      | inl end ↦ rw (end, e) (ap (◌++◌ o.ending) (rw e at (joined-split_lines o false cs)))
      | inr inner ↦
          rw (inner, e)
            (joined-cons_first o begun c l ls ∙ ap (◌∷◌ c) (rw e at (joined-split_lines o true cs)))
    ]

flatten-planned :
    (text : List ℕ) (o : PasteOptions) {chunks : List (List ℕ)}
    → plan_paste text o ≡ ok chunks
    → flatten chunks ≡ paste_text o true (unix_lines false text)
flatten-planned text o e = rw (planned text o e) (
    flatten-chunk_lines o (split_lines (unix_lines false text))
    ∙ joined-split_lines o false (unix_lines false text))

-- What a terminal is sent for a text: each line break, be it a line feed (10), a carriage return (13)
-- or a carriage return and its line feed, becomes one chosen ending, and every other unit stays
-- itself. The flag says that a line begins here; a last line that is not empty is ended if Enter is
-- asked for.
pub data Pastes (o : PasteOptions) : Bool → List ℕ → List ℕ → Type 0 where
  finish :
      (begins : Bool) → Pastes o begins [] (if o.append_enter && not begins then o.ending else [])
  unit :
      (begins : Bool) (c : ℕ) (cs sent : List ℕ)
      → c ≢ 13
      → c ≢ 10
      → Pastes o false cs sent
      → Pastes o begins (c ∷ cs) (c ∷ sent)
  line_feed :
      (begins : Bool) (cs sent : List ℕ)
      → Pastes o true cs sent
      → Pastes o begins (10 ∷ cs) (o.ending ++ sent)
  return_line_feed :
      (begins : Bool) (cs sent : List ℕ)
      → Pastes o true cs sent
      → Pastes o begins (13 ∷ 10 ∷ cs) (o.ending ++ sent)
  return_end : (begins : Bool) → Pastes o begins (13 ∷ []) (o.ending ++ [])
  return_unit :
      (begins : Bool) (c : ℕ) (cs sent : List ℕ)
      → c ≢ 10
      → Pastes o true (c ∷ cs) sent
      → Pastes o begins (13 ∷ c ∷ cs) (o.ending ++ sent)

-- A unit that is no line feed is read alike behind a carriage return.
unix_lines-other :
    (c : ℕ) (cs : List ℕ) → (c == lf) ≡ false → unix_lines true (c ∷ cs) ≡ unix_lines false (c ∷ cs)
unfolding unix_lines
unix_lines-other c cs h = rw h refl

unix_lines-feed : (cs : List ℕ) → unix_lines true (10 ∷ cs) ≡ unix_lines false cs
unfolding unix_lines
unix_lines-feed cs = refl

after_last :
    (o : PasteOptions) (begins : Bool) (c : ℕ)
    → (c == cr) ≡ true
    → Pastes o begins (c ∷ []) (o.ending ++ paste_text o true (unix_lines true []))
unfolding unix_lines paste_text
after_last o begins c p =
    let same : c ≡ 13 = ground arith in
    let no_more : (if o.append_enter && false then o.ending else []) ≡ [] = ground arith in
    rw (same, no_more) (return_end begins)

-- What follows a carriage return.
after_return :
    (o : PasteOptions) (begins : Bool) (c d : ℕ) (ds : List ℕ)
    → Pastes o true ds (paste_text o true (unix_lines false ds))
    → Pastes o true (d ∷ ds) (paste_text o true (unix_lines false (d ∷ ds)))
    → (c == cr) ≡ true
    → Pastes o begins (c ∷ d ∷ ds) (o.ending ++ paste_text o true (unix_lines true (d ∷ ds)))
after_return o begins c d ds ended next p =
    subst
      (λ x. Pastes o begins (x ∷ d ∷ ds) (o.ending ++ paste_text o true (unix_lines true (d ∷ ds))))
      (sym same) (go (d == lf) refl)
  where
    same : c ≡ 13
    same = ground arith

    go :
        (b : Bool)
        → (d == lf) ≡ b
        → Pastes o begins (13 ∷ d ∷ ds) (o.ending ++ paste_text o true (unix_lines true (d ∷ ds)))
    go true q =
        let feed : d ≡ 10 = ground arith in
        let sent : Pastes o begins (13 ∷ 10 ∷ ds)
            (o.ending ++ paste_text o true (unix_lines false ds)) =
          return_line_feed begins ds (paste_text o true (unix_lines false ds)) ended in
        subst
          (λ x.
            Pastes o begins (13 ∷ x ∷ ds)
              (o.ending ++ paste_text o true (unix_lines true (x ∷ ds))))
          (sym feed) (rw (unix_lines-feed ds) sent)
    go false q = rw (unix_lines-other d ds q) (return_unit begins d ds _ (ground arith) next)

-- What a step of the conversion sends, told the answers of its two tests of the unit.
step_Pastes :
    (o : PasteOptions) (begins : Bool) (c : ℕ) (cs : List ℕ)
    → ((c == cr) ≡ true
        → Pastes o begins (c ∷ cs) (o.ending ++ paste_text o true (unix_lines true cs)))
    → Pastes o true cs (paste_text o true (unix_lines false cs))
    → Pastes o false cs (paste_text o false (unix_lines false cs))
    → Pastes o begins (c ∷ cs) (paste_text o begins (unix_lines false (c ∷ cs)))
unfolding unix_lines paste_text
step_Pastes o begins c cs back feed inner = go (c == cr) (c == lf) refl refl
  where
    go :
        (a b : Bool)
        → (c == cr) ≡ a
        → (c == lf) ≡ b
        → Pastes o begins (c ∷ cs) (paste_text o begins ((if a then lf else c) ∷ unix_lines a cs))
    go true b p q = back p
    go false true p q =
        let same : c ≡ 10 = ground arith in
        rw q (
          subst
            (λ x. Pastes o begins (x ∷ cs) (o.ending ++ paste_text o true (unix_lines false cs)))
            (sym same) (line_feed begins cs _ feed))
    go false false p q = rw q (unit begins c cs _ (ground arith) (ground arith) inner)

paste_text-Pastes :
    (o : PasteOptions) (begins : Bool) (text : List ℕ)
    → Pastes o begins text (paste_text o begins (unix_lines false text))
unfolding unix_lines paste_text
paste_text-Pastes o begins [] = finish begins
paste_text-Pastes o begins (c ∷ []) =
    step_Pastes o begins c [] (after_last o begins c) (paste_text-Pastes o true [])
      (paste_text-Pastes o false [])
paste_text-Pastes o begins (c ∷ d ∷ ds) =
    let ended = paste_text-Pastes o true ds in
    let next = paste_text-Pastes o true (d ∷ ds) in
    step_Pastes o begins c (d ∷ ds) (after_return o begins c d ds ended next) next
      (paste_text-Pastes o false (d ∷ ds))

-- The chunks of an accepted paste, joined, are the text with each of its line breaks turned into one
-- chosen ending, and with one behind a last line that is not empty if Enter is asked for: nothing else
-- is added, lost, doubled or reordered.
pub plan_paste-Pastes :
    (text : List ℕ) (o : PasteOptions) {chunks : List (List ℕ)}
    → plan_paste text o ≡ ok chunks
    → Pastes o true text (flatten chunks)
plan_paste-Pastes text o e =
    subst (Pastes o true text) (sym (flatten-planned text o e)) (paste_text-Pastes o true text)
