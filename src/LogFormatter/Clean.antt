-- ===== src/LogFormatter/Clean.antt =====
-- Which characters `LogFormatter` of frontend/src/lib/terminal-recording.ts writes.
use friendly_ai_explorer.Common.{
  if◌then◌else◌, All, All-append, ℕ, ◌≤◌, ◌<◌, ◌≡◌, refl, ap, ◌∙◌, ◌⊎◌, Bool, true, false, List, [],
  ◌∷◌, arith,
}
use friendly_ai_explorer.LogFormatter.{
  RecordingOptions, Escape, text, esc, intermediate, csi, osc, osc_esc, LogFormatter, char_code,
  text_action, Action, enter, skip, keep, act, kept_text, next_line_start, step_in, format_loop,
  format,
}
use friendly_ai_explorer.LogFormatter.Stream.{cooked_format, plain_kept}

-- A character that a log may hold: tab, line feed, carriage return, or no control character.
abbrev pub IsLogged : ℕ → Type 0
IsLogged c = ((c ≡ 9) ⊎ (c ≡ 10) ⊎ (c ≡ 13) ⊎ (32 ≤ c)) × ((c < 127) ⊎ (159 < c))

text_action-keep : (c : ℕ) → text_action c (char_code c) ≡ keep → IsLogged c
unfolding text_action char_code
text_action-keep c h = ground arith

All-if : (b : Bool) (cs : List ℕ) → All IsLogged cs → All IsLogged (if b then cs else [])
All-if true cs h = h
All-if false cs h = tt

kept_text-IsLogged :
    (timestamps : Bool) (stamp : List ℕ) (begins : Bool) (c : ℕ)
    → All IsLogged stamp
    → IsLogged c
    → All IsLogged (kept_text timestamps stamp begins c)
unfolding kept_text
kept_text-IsLogged timestamps stamp begins c s h =
    All-append IsLogged _ (c ∷ []) (All-if _ stamp s) (h, tt)

act-IsLogged :
    (a : Action) (o : RecordingOptions) (stamp : List ℕ) (f : LogFormatter) (c : ℕ)
    → All IsLogged stamp
    → (a ≡ keep → IsLogged c)
    → All IsLogged (act a o stamp f c).1
unfolding act
act-IsLogged (enter e) o stamp f c s h = tt
act-IsLogged skip o stamp f c s h = tt
act-IsLogged keep o stamp f c s h = kept_text-IsLogged o.timestamps stamp f.line_start c s (h refl)

step_in-IsLogged :
    (e : Escape) (o : RecordingOptions) (stamp : List ℕ) (f : LogFormatter) (c : ℕ)
    → All IsLogged stamp
    → All IsLogged (step_in e o stamp f c).1
unfolding step_in
step_in-IsLogged osc o stamp f c s = tt
step_in-IsLogged osc_esc o stamp f c s = tt
step_in-IsLogged esc o stamp f c s = tt
step_in-IsLogged intermediate o stamp f c s = tt
step_in-IsLogged csi o stamp f c s = tt
step_in-IsLogged text o stamp f c s =
    act-IsLogged (text_action c (char_code c)) o stamp f c s (text_action-keep c)

format_loop-IsLogged :
    (o : RecordingOptions) (stamp : List ℕ) (f : LogFormatter) (cs : List ℕ)
    → All IsLogged stamp
    → All IsLogged (format_loop o stamp f cs).1
unfolding format_loop
format_loop-IsLogged o stamp f [] s = tt
format_loop-IsLogged o stamp f (c ∷ cs) s =
    All-append IsLogged _ _ (step_in-IsLogged f.escape o stamp f c s)
      (format_loop-IsLogged o stamp (step_in f.escape o stamp f c).0 cs s)

-- Unless raw output was asked for, a log holds no control character but tab, line feed and carriage
-- return, in particular no escape character, whatever the device sends and from any state.
pub format-IsLogged :
    (o : RecordingOptions) (stamp : List ℕ) (f : LogFormatter) (cs : List ℕ)
    → o.raw ≡ false
    → All IsLogged stamp
    → All IsLogged (format o stamp f cs).1
format-IsLogged o stamp f cs cooked s =
    rw (cooked_format o stamp f cs cooked) (format_loop-IsLogged o stamp f cs s)

-- The characters that may be logged are kept.
IsLogged-keep : (c : ℕ) → IsLogged c → text_action c (char_code c) ≡ keep
unfolding text_action char_code
IsLogged-keep c h = ground arith

format_loop-keeps :
    (o : RecordingOptions) (stamp : List ℕ) (f : LogFormatter) (cs : List ℕ)
    → o.timestamps ≡ false
    → f.escape ≡ text
    → All IsLogged cs
    → ((format_loop o stamp f cs).0.escape ≡ text) × ((format_loop o stamp f cs).1 ≡ cs)
unfolding format_loop step_in act
format_loop-keeps o stamp f [] t e h = (e, refl)
format_loop-keeps o stamp f (c ∷ cs) t e h =
    let f' : LogFormatter = record f { line_start = next_line_start f.line_start c } in
    let acted : act keep o stamp f c ≡ (f', c ∷ []) =
      ap (λ b. (f', kept_text b stamp f.line_start c)) t
      ∙ ap (λ x. (f', x)) (plain_kept stamp f.line_start c) in
    let stepped : step_in f.escape o stamp f c ≡ (f', c ∷ []) =
      ap (λ x. step_in x o stamp f c) e
      ∙ ap (λ a. act a o stamp f c) (IsLogged-keep c h.0)
      ∙ acted in
    let later : ((format_loop o stamp f' cs).0.escape ≡ text)
        × ((format_loop o stamp f' cs).1 ≡ cs) =
      format_loop-keeps o stamp f' cs t e h.1 in
    rw stepped (later.0, ap (◌∷◌ c) later.1)

-- Without timestamps, from plain text, a text of tabs, line feeds, carriage returns and characters that
-- are no control characters is written as it is, and leaves the formatter in plain text.
pub format-keeps :
    (o : RecordingOptions) (stamp : List ℕ) (f : LogFormatter) (cs : List ℕ)
    → o.raw ≡ false
    → o.timestamps ≡ false
    → f.escape ≡ text
    → All IsLogged cs
    → ((format o stamp f cs).0.escape ≡ text) × ((format o stamp f cs).1 ≡ cs)
format-keeps o stamp f cs cooked t e h =
    rw (cooked_format o stamp f cs cooked) (format_loop-keeps o stamp f cs t e h)
