-- ===== src/DeviceSession/Steps.antt =====
-- What can happen to a `DeviceSession`, and any sequence of it.
use friendly_ai_explorer.Common.{Number, Bytes, ℕ, ◌⊎◌, inl, inr, Bool, Option, List, [], ◌∷◌}
use friendly_ai_explorer.TerminalPaste.{PasteOptions}
use friendly_ai_explorer.SerialText.{SendEncoding}
use friendly_ai_explorer.DeviceSession.State.{DeviceSession}
use friendly_ai_explorer.DeviceSession.View.{
  Configuration, cancel_paste, set_send_encoding, configure, add_annotation, resize, clear,
  receive_bytes,
}
use friendly_ai_explorer.DeviceSession.Writes.{or_same, write, write_bytes}
use friendly_ai_explorer.DeviceSession.Paste.{send_paste, wake_paste}
use friendly_ai_explorer.DeviceSession.Work.{start_work, end_work}
use friendly_ai_explorer.DeviceSession.Link.{
  connect, ConnectOutcome, advance, ReadEvent, read_event, disconnect, finish_disconnect,
}

-- The calls of a user, with their arguments.
pub data UserCall : Type 0 where
  connects disconnects : UserCall
  writes : List ℕ → UserCall
  writes_bytes : Bytes → UserCall
  pastes : List ℕ → PasteOptions → ℕ × ℕ → UserCall
  cancels clears : UserCall
  configures : Configuration → UserCall
  annotates : List ℕ → UserCall
  encodes : SendEncoding → UserCall
  resizes : Number → Number → UserCall
  shows_hex : Bool → UserCall

-- What ends an await, and the data that arrives with the text that the decoder makes of it.
pub data Arrival : Type 0 where
  advances : ℕ → ConnectOutcome → Arrival
  reads : ReadEvent → Arrival
  receives : Bytes → List ℕ → Arrival
  finishes : Arrival
  starts_work : Arrival
  ends_work : Bool → Arrival
  wakes_paste : Arrival

module _ (table : ℕ → ℕ → Option (List ℕ)) (supported : Bool) where
  unfoldable pub call : UserCall → ℕ → DeviceSession → DeviceSession
  call connects now s = connect supported now s.serial_settings s
  call disconnects now s = disconnect now s
  call (writes text) now s = write table text s
  call (writes_bytes bytes) now s = write_bytes bytes s
  call (pastes text o token) now s = or_same s (send_paste table now text o token s)
  call cancels now s = cancel_paste s
  call clears now s = clear s
  call (configures c) now s = or_same s (configure now c s)
  call (annotates text) now s = or_same s (add_annotation now text s)
  call (encodes encoding) now s = set_send_encoding now encoding s
  call (resizes cols rows) now s = resize cols rows s
  call (shows_hex hex) now s = record s { hex = hex }

  unfoldable pub arrive : Arrival → ℕ → DeviceSession → DeviceSession
  arrive (advances n outcome) now s = advance n outcome now s
  arrive (reads e) now s = read_event e now s
  arrive (receives bytes text) now s = receive_bytes now bytes text s
  arrive finishes now s = finish_disconnect supported now s
  arrive starts_work now s = start_work table now s
  arrive (ends_work written) now s = end_work table written now s
  arrive wakes_paste now s = wake_paste s.paste now s

  -- A step, with the time at which it happens.
  unfoldable pub step : (UserCall ⊎ Arrival) × ℕ → DeviceSession → DeviceSession
  step (inl c, now) s = call c now s
  step (inr a, now) s = arrive a now s

  unfoldable pub run : List ((UserCall ⊎ Arrival) × ℕ) → DeviceSession → DeviceSession
  run [] s = s
  run (e ∷ es) s = run es (step e s)
