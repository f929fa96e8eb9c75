-- ===== src/LogFormatter/Sequences.antt =====
-- What `LogFormatter` of frontend/src/lib/terminal-recording.ts does with escape sequences.
use friendly_ai_explorer.Common.{
  inl, inr, within, All, ℕ, ◌≤◌, ◌<◌, ◌≡◌, refl, sym, ap, ◌∙◌, ◌≢◌, ◌⊎◌, true, false, List, [], ◌∷◌,
  ◌++◌, append_assoc, arith,
}
use friendly_ai_explorer.LogFormatter.{
  RecordingOptions, Escape, text, esc, intermediate, csi, osc, LogFormatter, char_code, osc_step,
  esc_step, text_action, enter, act, step_in, format_loop,
}

-- What begins a control sequence, and what begins a string (title, device control, private message):
-- ESC and a character, or one control character.
abbrev IsControlStart : List ℕ → Type 0
IsControlStart start = (start ≡ 27 ∷ 0x5b ∷ []) ⊎ (start ≡ 0x9b ∷ [])

abbrev IsStringKind : ℕ → Type 0
IsStringKind c = (c ≡ 0x5d) ⊎ (c ≡ 0x50) ⊎ (c ≡ 0x58) ⊎ (c ≡ 0x5e) ⊎ (c ≡ 0x5f)

abbrev IsStringStart : List ℕ → Type 0
IsStringStart start =
    ((kind : ℕ) × IsStringKind kind × (start ≡ 27 ∷ kind ∷ []))
    ⊎ ((c : ℕ) × ((c ≡ 0x90) ⊎ (c ≡ 0x98) ⊎ (c ≡ 0x9d) ⊎ (c ≡ 0x9e) ⊎ (c ≡ 0x9f))
        × (start ≡ c ∷ []))

-- BEL, ST, or ESC \
abbrev IsStringEnd : List ℕ → Type 0
IsStringEnd end = (end ≡ 7 ∷ []) ⊎ (end ≡ 0x9c ∷ []) ⊎ (end ≡ 27 ∷ 0x5c ∷ [])

-- The escape sequences: a control sequence with its final byte, a string with its end, whose body has
-- none of BEL, ST and ESC, ESC and one final character that begins neither, and ESC, intermediate
-- characters and a final one.
pub data IsEscape : List ℕ → Type 0 where
  control :
      (start params : List ℕ) (final : ℕ)
      → IsControlStart start
      → All (λ c. (c < 0x40) ⊎ (0x7e < c)) params
      → 0x40 ≤ final
      → final ≤ 0x7e
      → IsEscape (start ++ (params ++ (final ∷ [])))
  string :
      (start body end : List ℕ)
      → IsStringStart start
      → All (λ c. (c ≢ 7) × (c ≢ 0x9c) × (c ≢ 27)) body
      → IsStringEnd end
      → IsEscape (start ++ (body ++ end))
  single :
      (final : ℕ)
      → 0x30 ≤ final
      → final ≤ 0x7e
      → final ≢ 0x5b
      → ¬ IsStringKind final
      → IsEscape (27 ∷ final ∷ [])
  marked :
      (first : ℕ) (others : List ℕ) (final : ℕ)
      → All (λ c. (0x20 ≤ c) × (c ≤ 0x2f)) (first ∷ others)
      → 0x30 ≤ final
      → final ≤ 0x7e
      → IsEscape (27 ∷ first ∷ (others ++ (final ∷ [])))

abbrev at : Escape → LogFormatter → LogFormatter
at e f = record f { escape = e }

csi_params :
    (o : RecordingOptions) (stamp : List ℕ) (f : LogFormatter) (params rest : List ℕ)
    → All (λ c. (c < 0x40) ⊎ (0x7e < c)) params
    → format_loop o stamp (at csi f) (params ++ rest) ≡ format_loop o stamp (at csi f) rest
unfolding format_loop step_in char_code
csi_params o stamp f [] rest h = refl
csi_params o stamp f (c ∷ params) rest h =
    let inside : within 0x40 0x7e (char_code c) ≡ false = ground (arith, h.0) in
    rw inside (csi_params o stamp f params rest h.1)

osc_body :
    (o : RecordingOptions) (stamp : List ℕ) (f : LogFormatter) (body rest : List ℕ)
    → All (λ c. (c ≢ 7) × (c ≢ 0x9c) × (c ≢ 27)) body
    → format_loop o stamp (at osc f) (body ++ rest) ≡ format_loop o stamp (at osc f) rest
unfolding format_loop step_in char_code osc_step
osc_body o stamp f [] rest h = refl
osc_body o stamp f (c ∷ body) rest h =
    let inside : osc_step (char_code c) ≡ osc = ground (arith, h.0) in
    rw inside (osc_body o stamp f body rest h.1)

csi_final :
    (o : RecordingOptions) (stamp : List ℕ) (f : LogFormatter) (final : ℕ) (rest : List ℕ)
    → 0x40 ≤ final
    → final ≤ 0x7e
    → format_loop o stamp (at csi f) (final ∷ rest) ≡ format_loop o stamp (at text f) rest
unfolding format_loop step_in char_code
csi_final o stamp f final rest lo hi =
    let ends : within 0x40 0x7e (char_code final) ≡ true = ground arith in rw ends

-- From plain text a character that enters a state is not written.
enters :
    (o : RecordingOptions) (stamp : List ℕ) (f : LogFormatter) (c : ℕ) (e : Escape) (rest : List ℕ)
    → f.escape ≡ text
    → text_action c (char_code c) ≡ enter e
    → format_loop o stamp f (c ∷ rest) ≡ format_loop o stamp (at e f) rest
unfolding format_loop step_in act
enters o stamp f c e rest plain h =
    let begins : step_in f.escape o stamp f c ≡ (at e f, []) =
      ap (λ x. step_in x o stamp f c) plain ∙ ap (λ a. act a o stamp f c) h in
    rw begins refl

escape_start :
    (o : RecordingOptions) (stamp : List ℕ) (f : LogFormatter) (rest : List ℕ)
    → f.escape ≡ text
    → format_loop o stamp f (27 ∷ rest) ≡ format_loop o stamp (at esc f) rest
escape_start o stamp f rest plain =
    enters o stamp f 27 esc rest plain (unfold text_action char_code in refl)

-- The character behind ESC.
escape_step :
    (o : RecordingOptions) (stamp : List ℕ) (f : LogFormatter) (c : ℕ) (e : Escape) (rest : List ℕ)
    → esc_step c (char_code c) ≡ e
    → format_loop o stamp (at esc f) (c ∷ rest) ≡ format_loop o stamp (at e f) rest
unfolding format_loop step_in
escape_step o stamp f c e rest h = rw h refl

control_start :
    (o : RecordingOptions) (stamp : List ℕ) (f : LogFormatter) (start rest : List ℕ)
    → f.escape ≡ text
    → IsControlStart start
    → format_loop o stamp f (start ++ rest) ≡ format_loop o stamp (at csi f) rest
control_start o stamp f start rest plain (inl h) = rw h (
    escape_start o stamp f (0x5b ∷ rest) plain
    ∙ escape_step o stamp f 0x5b csi rest (unfold esc_step in refl))
control_start o stamp f start rest plain (inr h) =
    rw h (enters o stamp f 0x9b csi rest plain (unfold text_action char_code in refl))

string_start :
    (o : RecordingOptions) (stamp : List ℕ) (f : LogFormatter) (start rest : List ℕ)
    → f.escape ≡ text
    → IsStringStart start
    → format_loop o stamp f (start ++ rest) ≡ format_loop o stamp (at osc f) rest
string_start o stamp f start rest plain (inl (kind, k, h)) =
    let starts : esc_step kind (char_code kind) ≡ osc = unfold esc_step in ground arith in
    rw h (escape_start o stamp f (kind ∷ rest) plain ∙ escape_step o stamp f kind osc rest starts)
string_start o stamp f start rest plain (inr (c, k, h)) =
    let starts : text_action c (char_code c) ≡ enter osc =
      unfold text_action char_code in ground arith in
    rw h (enters o stamp f c osc rest plain starts)

string_end :
    (o : RecordingOptions) (stamp : List ℕ) (f : LogFormatter) (end rest : List ℕ)
    → IsStringEnd end
    → format_loop o stamp (at osc f) (end ++ rest) ≡ format_loop o stamp (at text f) rest
unfolding format_loop step_in char_code osc_step
string_end o stamp f end rest (inl h) = rw h refl
string_end o stamp f end rest (inr (inl h)) = rw h refl
string_end o stamp f end rest (inr (inr h)) = rw h refl

intermediates :
    (o : RecordingOptions) (stamp : List ℕ) (f : LogFormatter) (others rest : List ℕ)
    → All (λ c. (0x20 ≤ c) × (c ≤ 0x2f)) others
    → format_loop o stamp (at intermediate f) (others ++ rest)
      ≡ format_loop o stamp (at intermediate f) rest
unfolding format_loop step_in char_code
intermediates o stamp f [] rest h = refl
intermediates o stamp f (c ∷ others) rest h =
    let inside : within 0x30 0x7e (char_code c) ≡ false = ground (arith, h.0) in
    rw inside (intermediates o stamp f others rest h.1)

intermediate_end :
    (o : RecordingOptions) (stamp : List ℕ) (f : LogFormatter) (final : ℕ) (rest : List ℕ)
    → 0x30 ≤ final
    → final ≤ 0x7e
    → format_loop o stamp (at intermediate f) (final ∷ rest) ≡ format_loop o stamp (at text f) rest
unfolding format_loop step_in char_code
intermediate_end o stamp f final rest lo hi =
    let ends : within 0x30 0x7e (char_code final) ≡ true = ground arith in rw ends refl

back : (f : LogFormatter) → f.escape ≡ text → at text f ≡ f
back f e = ap (λ x. at x f) (sym e)

-- From plain text an escape sequence leaves no trace, whatever follows: the log and the state are those
-- of the text without it. A sequence is a control sequence up to its final byte, introduced by ESC [ or
-- 0x9b; a string, introduced by ESC and one of ] P X ^ _ or by 0x90, 0x98, 0x9d, 0x9e or 0x9f, with a
-- body without BEL, ST and ESC, and ended by BEL, ST (0x9c) or ESC \; ESC and one other final
-- character; or ESC, intermediate characters and a final one.
pub format_loop-IsEscape :
    (o : RecordingOptions) (stamp : List ℕ) (f : LogFormatter) {sequence : List ℕ} (rest : List ℕ)
    → f.escape ≡ text
    → IsEscape sequence
    → format_loop o stamp f (sequence ++ rest) ≡ format_loop o stamp f rest
format_loop-IsEscape o stamp f rest e (control start params final starts outside lo hi) =
    rw (append_assoc start (params ++ (final ∷ [])) rest, append_assoc params (final ∷ []) rest)
      (control_start o stamp f start (params ++ (final ∷ rest)) e starts
        ∙ csi_params o stamp f params (final ∷ rest) outside
        ∙ csi_final o stamp f final rest lo hi
        ∙ ap (λ g. format_loop o stamp g rest) (back f e))
format_loop-IsEscape o stamp f rest e (string start body end starts inside ends) =
    rw (append_assoc start (body ++ end) rest, append_assoc body end rest)
      (string_start o stamp f start (body ++ (end ++ rest)) e starts
        ∙ osc_body o stamp f body (end ++ rest) inside
        ∙ string_end o stamp f end rest ends
        ∙ ap (λ g. format_loop o stamp g rest) (back f e))
format_loop-IsEscape o stamp f rest e (single final lo hi other no_string) =
    let ends : esc_step final (char_code final) ≡ text =
      unfold esc_step char_code in ground arith in
    escape_start o stamp f (final ∷ rest) e
    ∙ escape_step o stamp f final text rest ends
    ∙ ap (λ g. format_loop o stamp g rest) (back f e)
format_loop-IsEscape o stamp f rest e (marked first others final inside lo hi) =
    let begins : esc_step first (char_code first) ≡ intermediate =
      unfold esc_step char_code in ground (arith, inside.0) in
    rw (append_assoc others (final ∷ []) rest) (
      escape_start o stamp f (first ∷ (others ++ (final ∷ rest))) e
      ∙ escape_step o stamp f first intermediate (others ++ (final ∷ rest)) begins
      ∙ intermediates o stamp f others (final ∷ rest) inside.1
      ∙ intermediate_end o stamp f final rest lo hi
      ∙ ap (λ g. format_loop o stamp g rest) (back f e))
