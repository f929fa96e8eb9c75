-- ===== src/TerminalPaste/Examples.antt =====
-- Pastes of a few lines, and the theorems at them.
use friendly_ai_explorer.Common.{
  All, natural, ℕ, zero, suc, ◌≡◌, refl, inr, true, false, List, [], ◌∷◌, arith, flatten,
}
use friendly_ai_explorer.TerminalPaste.{
  PasteOptions, ok, err, bad_length, control_character, bad_settings, lf, cr, char_codes,
  is_control, is_ending, unix_lines, cons_first, split_lines, chunk_stop, crosses_newline,
  chunk_end, chunk_value, is_empty, line_value, chunk_lines, bad_options, plan_paste,
}
use friendly_ai_explorer.TerminalPaste.Chunks.{IsSafe, IsChunk, chunk_end-IsSafe}
use friendly_ai_explorer.TerminalPaste.Plan.{
  IsAccepted, plan_paste-IsChunk, plan_paste-IsAccepted, IsAccepted-plan_paste,
}
use friendly_ai_explorer.TerminalPaste.Sent.{Pastes, plan_paste-Pastes}

abbrev options : PasteOptions
options = record {
  delay_ms = natural 50;
  ending = cr ∷ lf ∷ [];
  append_enter = true;
  bracketed = false;
}

-- "ls\r\nid"
abbrev two_lines : List ℕ
two_lines = 108 ∷ 115 ∷ cr ∷ lf ∷ 105 ∷ 100 ∷ []

abbrev two_chunks : List (List ℕ)
two_chunks = (108 ∷ 115 ∷ cr ∷ lf ∷ []) ∷ (105 ∷ 100 ∷ cr ∷ lf ∷ []) ∷ []

two_lines_planned : plan_paste two_lines options ≡ ok two_chunks
unfolding plan_paste char_codes is_control bad_options is_ending unix_lines split_lines cons_first
    chunk_lines line_value is_empty chunk_value chunk_end chunk_stop crosses_newline
two_lines_planned = refl

refused :
    (plan_paste [] options ≡ err bad_length)
    × (plan_paste (27 ∷ []) options ≡ err control_character)
    × (plan_paste two_lines (record options { delay_ms = natural 5001 }) ≡ err bad_settings)
unfolding plan_paste char_codes is_control bad_options is_ending is_empty
refused = (refl, refl, refl)

plan_paste-Pastes_example : Pastes options true two_lines (flatten two_chunks)
plan_paste-Pastes_example = plan_paste-Pastes two_lines options two_lines_planned

plan_paste-IsChunk_example : All IsChunk two_chunks
plan_paste-IsChunk_example = plan_paste-IsChunk two_lines options two_lines_planned

plan_paste-IsAccepted_example : IsAccepted two_lines options
plan_paste-IsAccepted_example = plan_paste-IsAccepted two_lines options two_lines_planned

two_lines-IsAccepted : IsAccepted two_lines options
unfolding unix_lines split_lines cons_first
two_lines-IsAccepted = record {
  not_empty = omega arith;
  not_long = omega arith;
  units = ground arith;
  known_ending = inr (inr refl);
  delay = (50, refl, omega arith);
  lines = omega arith;
}

IsAccepted-plan_paste_example :
    (chunks : List (List ℕ)) × (plan_paste two_lines options ≡ ok chunks)
IsAccepted-plan_paste_example = IsAccepted-plan_paste two_lines options two_lines-IsAccepted

-- 255 letters, then an astral character
abbrev letters : ℕ → List ℕ → List ℕ
letters zero rest = rest
letters (suc n) rest = 97 ∷ letters n rest

chunk_end-IsSafe_example :
    IsSafe (letters 255 (0xD83D ∷ 0xDE00 ∷ [])) (chunk_end (letters 255 (0xD83D ∷ 0xDE00 ∷ [])))
chunk_end-IsSafe_example = chunk_end-IsSafe (letters 255 (0xD83D ∷ 0xDE00 ∷ [])) (omega arith)
