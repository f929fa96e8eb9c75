-- ===== src/TerminalRecorder/Steps.antt =====
-- What can happen to a recorder, and any sequence of it.
use friendly_ai_explorer.Common.{ℕ, Bool, Option, none, some, List, [], ◌∷◌}
use friendly_ai_explorer.LogFormatter.{RecordingOptions}
use friendly_ai_explorer.TerminalRecorder.State.{System}
use friendly_ai_explorer.TerminalRecorder.Session.{StartOutcome, start, append, stop}
use friendly_ai_explorer.TerminalRecorder.Job.{settle, tick}

-- What happens to a recorder, in any order.
pub data Event : Type 0 where
  appends : List ℕ → List ℕ → Event
  ticks : ℕ → Event
  settles : Bool → ℕ → Event
  stops : Event
  starts : StartOutcome → ℕ → ℕ → ℕ → ℕ → RecordingOptions → Event

abbrev pub keep : System → Option System → System
keep s none = s
keep s (some s') = s'

unfoldable pub step : Event → System → System
step (appends stamp chars) s = append stamp chars s
step (ticks now) s = tick now s
step (settles ok now) s = settle ok now s
step stops s = stop s
step (starts outcome id stem kind now o) s = keep s (start outcome id stem kind now o s)

unfoldable pub run : List Event → System → System
run [] s = s
run (e ∷ es) s = run es (step e s)
