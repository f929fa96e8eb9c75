-- ===== src/LogFormatter/Stream.antt =====
-- The timestamps of `LogFormatter` in frontend/src/lib/terminal-recording.ts.
use friendly_ai_explorer.Common.{
  ◌==◌, if◌then◌else◌, ℕ, ◌≡◌, refl, sym, ap, ◌∙◌, Bool, true, false, not, ◌&&◌, List, [], ◌∷◌,
  ◌++◌, append_assoc,
}
use friendly_ai_explorer.LogFormatter.{
  RecordingOptions, Escape, text, esc, intermediate, csi, osc, osc_esc, LogFormatter, Action, enter,
  skip, keep, act, kept_text, next_line_start, step_in, format_loop, format,
}

abbrev pub plain : RecordingOptions → RecordingOptions
plain o = record o { timestamps = false }

-- A stamp before the first character of each line of a text that is neither a line feed (10) nor a
-- carriage return (13); a line ends behind its line feed, and the flag says that none of its
-- characters has been stamped.
pub stamp_lines : List ℕ → Bool → List ℕ → List ℕ
stamp_lines stamp begins [] = []
stamp_lines stamp begins (c ∷ cs) =
    let next_line = stamp_lines stamp true cs in
    let same_start = stamp_lines stamp begins cs in
    let inside = stamp_lines stamp false cs in
    if c == 10
    then c ∷ next_line
    else if c == 13
    then c ∷ same_start
    else (if begins then stamp else []) ++ (c ∷ inside)

stamp_lines-kept :
    (stamp : List ℕ) (begins : Bool) (c : ℕ) (cs : List ℕ)
    → stamp_lines stamp begins (c ∷ cs)
      ≡ kept_text true stamp begins c ++ stamp_lines stamp (next_line_start begins c) cs
unfolding stamp_lines kept_text next_line_start
stamp_lines-kept stamp begins c cs = go begins (c == 10) (c == 13)
  where
    go :
        (begins a b : Bool)
        → (if a
            then c ∷ stamp_lines stamp true cs
            else if b
            then c ∷ stamp_lines stamp begins cs
            else (if begins then stamp else []) ++ (c ∷ stamp_lines stamp false cs))
          ≡ ((if begins && true && not a && not b then stamp else []) ++ (c ∷ []))
            ++ stamp_lines stamp (if a then true else if not b then false else begins) cs
    go true true b = refl
    go true false true = refl
    go true false false = sym (append_assoc stamp (c ∷ []) _)
    go false true b = refl
    go false false true = refl
    go false false false = refl

pub plain_kept : (stamp : List ℕ) (begins : Bool) (c : ℕ) → kept_text false stamp begins c ≡ c ∷ []
unfolding kept_text
plain_kept stamp true c = refl
plain_kept stamp false c = refl

act-Stamps :
    (a : Action) (o : RecordingOptions) (stamp : List ℕ) (f : LogFormatter) (c : ℕ) (rest : List ℕ)
    → o.timestamps ≡ true
    → ((act a o stamp f c).0 ≡ (act a (plain o) stamp f c).0)
      × ((act a o stamp f c).1 ++ stamp_lines stamp (act a o stamp f c).0.line_start rest
          ≡ stamp_lines stamp f.line_start ((act a (plain o) stamp f c).1 ++ rest))
unfolding act
act-Stamps (enter e) o stamp f c rest h = (refl, refl)
act-Stamps skip o stamp f c rest h = (refl, refl)
act-Stamps keep o stamp f c rest h = (
  refl,
  rw (h, plain_kept stamp f.line_start c) (sym (stamp_lines-kept stamp f.line_start c rest)),
)

step_in-Stamps :
    (e : Escape) (o : RecordingOptions) (stamp : List ℕ) (f : LogFormatter) (c : ℕ) (rest : List ℕ)
    → o.timestamps ≡ true
    → ((step_in e o stamp f c).0 ≡ (step_in e (plain o) stamp f c).0)
      × ((step_in e o stamp f c).1 ++ stamp_lines stamp (step_in e o stamp f c).0.line_start rest
          ≡ stamp_lines stamp f.line_start ((step_in e (plain o) stamp f c).1 ++ rest))
unfolding step_in
step_in-Stamps osc o stamp f c rest h = (refl, refl)
step_in-Stamps osc_esc o stamp f c rest h = (refl, refl)
step_in-Stamps esc o stamp f c rest h = (refl, refl)
step_in-Stamps intermediate o stamp f c rest h = (refl, refl)
step_in-Stamps csi o stamp f c rest h = (refl, refl)
step_in-Stamps text o stamp f c rest h = act-Stamps _ o stamp f c rest h

format_loop-Stamps :
    (o : RecordingOptions) (stamp : List ℕ) (f : LogFormatter) (cs : List ℕ)
    → o.timestamps ≡ true
    → ((format_loop o stamp f cs).0 ≡ (format_loop (plain o) stamp f cs).0)
      × ((format_loop o stamp f cs).1
          ≡ stamp_lines stamp f.line_start (format_loop (plain o) stamp f cs).1)
unfolding format_loop
format_loop-Stamps o stamp f [] h = (refl, unfold stamp_lines in refl)
format_loop-Stamps o stamp f (c ∷ cs) h =
    let f₁ = (step_in f.escape o stamp f c).0 in
    let f₂ = (step_in f.escape (plain o) stamp f c).0 in
    let out₁ = (step_in f.escape o stamp f c).1 in
    let out₂ = (step_in f.escape (plain o) stamp f c).1 in
    let later = format_loop-Stamps o stamp f₁ cs h in
    let now = step_in-Stamps f.escape o stamp f c (format_loop (plain o) stamp f₁ cs).1 h in
    (
      later.0 ∙ ap (λ g. (format_loop (plain o) stamp g cs).0) now.0,
      ap (◌++◌ out₁) later.1
          ∙ now.1
          ∙ ap (λ g. stamp_lines stamp f.line_start (out₂ ++ (format_loop (plain o) stamp g cs).1))
              now.0,
    )

pub cooked_format :
    (o : RecordingOptions) (stamp : List ℕ) (f : LogFormatter) (cs : List ℕ)
    → o.raw ≡ false
    → format o stamp f cs ≡ format_loop o stamp f cs
unfolding format
cooked_format o stamp f cs h = simp h

-- With timestamps the log is the log without them, with the stamp put before the first character of
-- each line that has one; the formatter's state does not depend on the setting.
pub format-stamp_lines :
    (o : RecordingOptions) (stamp : List ℕ) (f : LogFormatter) (cs : List ℕ)
    → o.raw ≡ false
    → o.timestamps ≡ true
    → ((format o stamp f cs).0 ≡ (format (plain o) stamp f cs).0)
      × ((format o stamp f cs).1 ≡ stamp_lines stamp f.line_start (format (plain o) stamp f cs).1)
format-stamp_lines o stamp f cs cooked h =
    rw (cooked_format o stamp f cs cooked, cooked_format (plain o) stamp f cs cooked)
      (format_loop-Stamps o stamp f cs h)
