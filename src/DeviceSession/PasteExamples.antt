-- ===== src/DeviceSession/PasteExamples.antt =====
-- A paste over a session of frontend/src/lib/device-session.ts at a concrete input.
use friendly_ai_explorer.Common.{natural, ℕ, ◌⊎◌, inl, inr, false, Option, none, List, [], ◌∷◌}
use friendly_ai_explorer.TerminalPaste.{PasteOptions, lf}
use friendly_ai_explorer.DeviceSession.State.{Paste, sending}
use friendly_ai_explorer.DeviceSession.Link.{granted}
use friendly_ai_explorer.DeviceSession.Steps.{pastes, UserCall, connects, Arrival, advances}

abbrev no_characters : ℕ → ℕ → Option (List ℕ)
no_characters a b = none

abbrev one_line : PasteOptions
one_line = record {
  delay_ms = natural 0;
  ending = lf ∷ [];
  append_enter = false;
  bracketed = false;
}

-- A connection, and the paste of "A".
abbrev pasting : List ((UserCall ⊎ Arrival) × ℕ)
pasting =
    (inl connects, 1)
    ∷ (inr (advances 0 granted), 2)
    ∷ (inr (advances 0 granted), 3)
    ∷ (inl (pastes (65 ∷ []) one_line (1, 0)), 4)
    ∷ []

-- The paste waits for its only chunk.
abbrev waiting_paste : Paste
waiting_paste = record {
  token = (1, 0);
  bracketed = false;
  append_enter = false;
  delayed = false;
  ending = lf ∷ [];
  phase = sending;
  awaiting = 2;
  bracket_started = false;
  completed = false;
  current = (65 ∷ []) ∷ [];
  rest = [];
  written = [];
  chunks = (65 ∷ []) ∷ [];
}
