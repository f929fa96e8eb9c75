-- ===== src/DeviceSession/View.antt =====
-- What a session shows, in frontend/src/lib/device-session.ts: `update`, `warn`, `configure`, the
-- notes, the size of the terminal, and the text that was received. What the text decoder makes of the
-- received bytes is an argument.
use friendly_ai_explorer.Common.{
  ltb, ◌==◌, if◌then◌else◌, within, length, take, includes, Number, pos, integer, Bytes,
  utf16_length, is_nil, trim, ℕ, ◌+◌, ◌/◌, ◌%◌, Bool, true, false, not, ◌&&◌, ◌||◌, Option, none,
  some, List, [], ◌∷◌, ◌++◌, map,
}
use friendly_ai_explorer.LogFormatter.{RecordingOptions}
use friendly_ai_explorer.SerialText.{SendEncoding}
use friendly_ai_explorer.DeviceSession.State.{
  DeviceSession, SessionStatus, SessionEvent, SerialSettings, status_of, warning, is_connected,
  is_offline, same_status, same_text, last_of,
}

-- `cancelPaste`: the paste that waits, if any, will find the signal.
unfoldable pub cancel_paste : DeviceSession → DeviceSession
cancel_paste s = record s { paste_aborted = true }

-- `if (status !== this.state.status || error !== this.state.error)`
unfoldable pub note_event : Bool → ℕ → SessionStatus → List ℕ → DeviceSession → DeviceSession
note_event false now status error s = s
note_event true now status error s = record s {
  events =
      last_of 100 (
        s.events ++ (record { at = now; status = status_of status; detail = take 800 error } ∷ []));
  metrics =
      if is_connected status && s.metrics.started == 0
      then record s.metrics { started = now }
      else s.metrics;
}

unfoldable pub update : ℕ → SessionStatus → List ℕ → DeviceSession → DeviceSession
update now status error s =
    let s1 = if is_connected status then s else cancel_paste s in
    let ends = is_offline status && not (s.metrics.started == 0) && s.ended == 0 in
    let s2 = record s1 { ended = if ends then now else s1.ended } in
    let fresh = not (same_status status s.state.status) || not (same_text error s.state.error) in
    let s3 = note_event fresh now status error s2 in
    record s3 {
      state = record s3.state { status = status; error = error; revision = s3.state.revision + 1 };
    }

unfoldable pub note_warning : Bool → ℕ → List ℕ → List SessionEvent → List SessionEvent
note_warning true now text events = events
note_warning false now text events =
    last_of 100 (events ++ (record { at = now; status = warning; detail = text } ∷ []))

unfoldable pub warn : ℕ → List ℕ → DeviceSession → DeviceSession
warn now text s = if same_text s.state.warning text then s else record s {
  events = note_warning (is_nil text) now text s.events;
  state = record s.state { warning = text; revision = s.state.revision + 1 };
}

-- `this.update(this.state.status, this.state.error)`
unfoldable pub refresh : ℕ → DeviceSession → DeviceSession
refresh now s = update now s.state.status s.state.error s

unfoldable pub set_send_encoding : ℕ → SendEncoding → DeviceSession → DeviceSession
set_send_encoding now encoding s = refresh now (record s { send_encoding = encoding })

pub record Configuration : Type 0 where
  pub serial_settings : Option SerialSettings
  pub profile_name : Option (List ℕ)
  pub line_ending : Option (List ℕ)
  pub paste_delay_ms : Option ℕ
  pub recording_options : Option RecordingOptions

unfoldable pub or_keep : {A : Type 0} → Option A → A → A
or_keep none old = old
or_keep (some new) old = new

unfoldable pub is_given : {A : Type 0} → Option A → Bool
is_given none = false
is_given (some a) = true

-- `none` is the error of serial settings that are changed while connected.
unfoldable pub configure : ℕ → Configuration → DeviceSession → Option DeviceSession
configure now c s =
    if is_given c.serial_settings && not (is_offline s.state.status)
    then none
    else some (
        refresh now (record s {
          serial_settings = or_keep c.serial_settings s.serial_settings;
          profile_name = or_keep c.profile_name s.profile_name;
          line_ending = or_keep c.line_ending s.line_ending;
          paste_delay_ms = or_keep c.paste_delay_ms s.paste_delay_ms;
          recording_options = or_keep c.recording_options s.recording_options;
        }))

-- A note's characters: a control character becomes a space. The note is a list of code points.
unfoldable pub plain_char : ℕ → ℕ
plain_char code = if ltb code 32 || within 127 159 code then 32 else code

unfoldable pub note_text : List ℕ → List ℕ
note_text value = trim (map plain_char value)

-- `none` is the error of a note that is empty or too long.
unfoldable pub add_annotation : ℕ → List ℕ → DeviceSession → Option DeviceSession
add_annotation now value s =
    let text = note_text value in
    if is_nil text || ltb 200 (utf16_length text)
    then none
    else some (
        refresh now (record s {
          annotations = last_of 100 (s.annotations ++ (record { at = now; text = text } ∷ []));
        }))

unfoldable pub resize : Number → Number → DeviceSession → DeviceSession
resize (integer (pos cols)) (integer (pos rows)) s =
    if ltb cols 2 || ltb 1000 cols || ltb rows 1 || ltb 500 rows
    then s
    else record s { cols = cols; rows = rows }
resize _ _ s = s

unfoldable pub output : List ℕ → DeviceSession → DeviceSession
output text s = record s { transcript = last_of 500000 (s.transcript ++ text) }

unfoldable pub clear : DeviceSession → DeviceSession
clear s = record s { transcript = [] }

-- `b.toString(16)` of a half byte
unfoldable pub hex_digit : ℕ → ℕ
hex_digit n = if ltb n 10 then 48 + n else 87 + n

unfoldable pub hex_text : Bytes → List ℕ
hex_text [] = 13 ∷ 10 ∷ []
hex_text (b ∷ []) = hex_digit (b / 16) ∷ hex_digit (b % 16) ∷ 13 ∷ 10 ∷ []
hex_text (b ∷ c ∷ bs) = hex_digit (b / 16) ∷ hex_digit (b % 16) ∷ 32 ∷ hex_text (c ∷ bs)

-- "decode"
abbrev pub decode_warning : List ℕ
decode_warning = 100 ∷ 101 ∷ 99 ∷ 111 ∷ 100 ∷ 101 ∷ []

unfoldable pub warn_decode : ℕ → List ℕ → DeviceSession → DeviceSession
warn_decode now text s =
    if includes text 0xFFFD
    then warn now decode_warning s
    else if is_nil text
    then s
    else warn now [] s

-- `bytes`, with the text that the decoder returns for the bytes.
unfoldable pub receive_bytes : ℕ → Bytes → List ℕ → DeviceSession → DeviceSession
receive_bytes now bytes text s =
    let s1 = record s {
      metrics = record s.metrics { received = s.metrics.received + length bytes };
    } in
    if s.hex then output (hex_text bytes) s1 else output text (warn_decode now text s1)
