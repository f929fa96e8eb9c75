-- ===== src/LogFormatter/Examples.antt =====
-- A coloured prompt, and the theorems at it.
use friendly_ai_explorer.Common.{All, inl, inr, ℕ, ◌≡◌, refl, true, false, List, [], ◌∷◌, arith}
use friendly_ai_explorer.LogFormatter.{
  RecordingOptions, initial, text, char_code, esc_step, text_action, act, kept_text,
  next_line_start, step_in, format_loop, format,
}
use friendly_ai_explorer.LogFormatter.Stream.{plain, stamp_lines, format-stamp_lines}
use friendly_ai_explorer.LogFormatter.Clean.{IsLogged, format-IsLogged, format-keeps}
use friendly_ai_explorer.LogFormatter.Sequences.{string, format_loop-IsEscape}

abbrev stamped : RecordingOptions
stamped = record { raw = false; timestamps = true; rotate_mib = 4 }

abbrev stamp : List ℕ
stamp = 91 ∷ 49 ∷ 93 ∷ 32 ∷ []

-- ESC [ 3 2 m o k LF $
abbrev prompt : List ℕ
prompt = 27 ∷ 91 ∷ 51 ∷ 50 ∷ 109 ∷ 111 ∷ 107 ∷ 10 ∷ 36 ∷ []

prompt_logged :
    (format stamped stamp initial prompt).1
    ≡ 91 ∷ 49 ∷ 93 ∷ 32 ∷ 111 ∷ 107 ∷ 10 ∷ 91 ∷ 49 ∷ 93 ∷ 32 ∷ 36 ∷ []
unfolding format format_loop step_in char_code esc_step text_action act kept_text next_line_start
prompt_logged = refl

format-stamp_lines_example :
    ((format stamped stamp initial prompt).0 ≡ (format (plain stamped) stamp initial prompt).0)
    × ((format stamped stamp initial prompt).1
        ≡ stamp_lines stamp true (format (plain stamped) stamp initial prompt).1)
format-stamp_lines_example = format-stamp_lines stamped stamp initial prompt refl refl

format-IsLogged_example : All IsLogged (format stamped stamp initial prompt).1
format-IsLogged_example = format-IsLogged stamped stamp initial prompt refl (ground arith)

-- ESC ] 0 ; a ESC \, a title, and o
format_loop-IsEscape_example :
    format_loop stamped stamp initial (27 ∷ 0x5d ∷ 48 ∷ 59 ∷ 97 ∷ 27 ∷ 0x5c ∷ 111 ∷ [])
    ≡ format_loop stamped stamp initial (111 ∷ [])
format_loop-IsEscape_example = format_loop-IsEscape stamped stamp initial (111 ∷ []) refl (
    string (27 ∷ 0x5d ∷ []) (48 ∷ 59 ∷ 97 ∷ []) (27 ∷ 0x5c ∷ []) (inl (0x5d, inl refl, refl))
      (ground arith) (inr (inr refl)))

format-keeps_example :
    ((format (plain stamped) stamp initial (111 ∷ 107 ∷ 10 ∷ [])).0.escape ≡ text)
    × ((format (plain stamped) stamp initial (111 ∷ 107 ∷ 10 ∷ [])).1 ≡ 111 ∷ 107 ∷ 10 ∷ [])
format-keeps_example =
    format-keeps (plain stamped) stamp initial (111 ∷ 107 ∷ 10 ∷ []) refl refl refl (ground arith)
