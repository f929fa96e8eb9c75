-- ===== src/DeviceSession/Core.antt =====
-- The fields of a session that its connection and its queue depend on, across what it shows, in
-- frontend/src/lib/device-session.ts.
use friendly_ai_explorer.Common.{
  ltb, ◌==◌, if◌then◌else◌, length, includes, Number, pos, negsuc, integer, fractional, Bytes,
  utf16_length, is_nil, ℕ, ◌+◌, ◌≡◌, refl, Bool, true, false, not, ◌&&◌, ◌||◌, Option, none, some,
  List, [], ◌∷◌, ◌++◌,
}
use friendly_ai_explorer.DeviceSession.State.{
  last_of, DeviceSession, SessionStatus, Work, ConnectTask, Continuation, Reader, is_connected,
  same_status, same_text, is_offline,
}
use friendly_ai_explorer.DeviceSession.View.{
  is_given, set_send_encoding, add_annotation, Configuration, configure, output, resize, note_text,
  or_keep, receive_bytes, warn_decode, hex_text, decode_warning, cancel_paste, note_event, update,
  note_warning, warn, refresh,
}
use friendly_ai_explorer.DeviceSession.Writes.{or_same}
use friendly_ai_explorer.SerialText.{SendEncoding}

pub record Core : Type 0 where
  pub status : SessionStatus
  pub port : Option ℕ
  pub writer : Option ℕ
  pub queue : List Work
  pub writing : Bool
  pub delivered : List Work
  pub closing : Bool
  pub disconnect_task : Bool
  pub after_disconnect : List Continuation
  pub generation : ℕ
  pub connects : List ConnectTask
  pub reader : Option Reader
  pub supply : ℕ

abbrev pub core : DeviceSession → Core
core s = record {
  status = s.state.status;
  port = s.port;
  writer = s.writer;
  queue = s.queue;
  writing = s.writing;
  delivered = s.delivered;
  closing = s.closing;
  disconnect_task = s.disconnect_task;
  after_disconnect = s.after_disconnect;
  generation = s.generation;
  connects = s.connects;
  reader = s.reader;
  supply = s.supply;
}

pub core-cancel_paste : (s : DeviceSession) → core (cancel_paste s) ≡ core s
unfolding cancel_paste
core-cancel_paste s = refl

pub core-update :
    (now : ℕ) (status : SessionStatus) (error : List ℕ) (s : DeviceSession)
    → core (update now status error s) ≡ record (core s) { status = status }
unfolding update note_event cancel_paste
core-update now status error s =
    go (is_connected status)
      (not (same_status status s.state.status) || not (same_text error s.state.error))
  where
    ends : Bool
    ends = is_offline status && not (s.metrics.started == 0) && s.ended == 0

    go :
        (a b : Bool)
        → (let s1 = if a then s else cancel_paste s in
            let s2 = record s1 { ended = if ends then now else s1.ended } in
            let s3 = note_event b now status error s2 in
            core (record s3 {
              state = record s3.state {
                status = status;
                error = error;
                revision = s3.state.revision + 1;
              };
            }))
          ≡ record (core s) { status = status }
    go true true = refl
    go true false = refl
    go false true = refl
    go false false = refl

pub core-warn : (now : ℕ) (text : List ℕ) (s : DeviceSession) → core (warn now text s) ≡ core s
unfolding warn
core-warn now text s = go (same_text s.state.warning text)
  where
    told : DeviceSession
    told = record s {
      events = note_warning (is_nil text) now text s.events;
      state = record s.state { warning = text; revision = s.state.revision + 1 };
    }

    go : (b : Bool) → core (if b then s else told) ≡ core s
    go true = refl
    go false = refl

pub core-refresh : (now : ℕ) (s : DeviceSession) → core (refresh now s) ≡ core s
unfolding refresh
core-refresh now s = core-update now s.state.status s.state.error s

pub core-if :
    (b : Bool) (s t u : DeviceSession)
    → core s ≡ core u
    → core t ≡ core u
    → core (if b then s else t) ≡ core u
core-if true s t u p q = p
core-if false s t u p q = q

core-or_same-if :
    (b : Bool) (t s : DeviceSession)
    → core t ≡ core s
    → core (or_same s (if b then none else some t)) ≡ core s
unfolding or_same
core-or_same-if true t s p = refl
core-or_same-if false t s p = p

pub core-set_send_encoding :
    (now : ℕ) (encoding : SendEncoding) (s : DeviceSession)
    → core (set_send_encoding now encoding s) ≡ core s
unfolding set_send_encoding
core-set_send_encoding now encoding s = core-refresh now (record s { send_encoding = encoding })

pub core-configure :
    (now : ℕ) (c : Configuration) (s : DeviceSession)
    → core (or_same s (configure now c s)) ≡ core s
unfolding configure
core-configure now c s =
    core-or_same-if (is_given c.serial_settings && not (is_offline s.state.status))
      (refresh now set) s (core-refresh now set)
  where
    set : DeviceSession
    set = record s {
      serial_settings = or_keep c.serial_settings s.serial_settings;
      profile_name = or_keep c.profile_name s.profile_name;
      line_ending = or_keep c.line_ending s.line_ending;
      paste_delay_ms = or_keep c.paste_delay_ms s.paste_delay_ms;
      recording_options = or_keep c.recording_options s.recording_options;
    }

pub core-add_annotation :
    (now : ℕ) (value : List ℕ) (s : DeviceSession)
    → core (or_same s (add_annotation now value s)) ≡ core s
unfolding add_annotation
core-add_annotation now value s =
    core-or_same-if (is_nil (note_text value) || ltb 200 (utf16_length (note_text value)))
      (refresh now noted) s (core-refresh now noted)
  where
    noted : DeviceSession
    noted = record s {
      annotations =
          last_of 100 (s.annotations ++ (record { at = now; text = note_text value } ∷ []));
    }

pub core-resize : (cols rows : Number) (s : DeviceSession) → core (resize cols rows s) ≡ core s
unfolding resize
core-resize (integer (pos cols)) (integer (pos rows)) s =
    core-if (ltb cols 2 || ltb 1000 cols || ltb rows 1 || ltb 500 rows) s
      (record s { cols = cols; rows = rows }) s refl refl
core-resize (integer (pos cols)) (integer (negsuc rows)) s = refl
core-resize (integer (pos cols)) fractional s = refl
core-resize (integer (negsuc cols)) rows s = refl
core-resize fractional rows s = refl

core-warn_decode :
    (now : ℕ) (text : List ℕ) (s : DeviceSession) → core (warn_decode now text s) ≡ core s
unfolding warn_decode
core-warn_decode now text s =
    let silent : DeviceSession = if is_nil text then s else warn now [] s in
    core-if (includes text 0xFFFD) (warn now decode_warning s) silent s
      (core-warn now decode_warning s)
      (core-if (is_nil text) s (warn now [] s) s refl (core-warn now [] s))

pub core-receive_bytes :
    (now : ℕ) (bytes : Bytes) (text : List ℕ) (s : DeviceSession)
    → core (receive_bytes now bytes text s) ≡ core s
unfolding receive_bytes output
core-receive_bytes now bytes text s =
    let counted : DeviceSession = record s {
      metrics = record s.metrics { received = s.metrics.received + length bytes };
    } in
    core-if s.hex (output (hex_text bytes) counted) (output text (warn_decode now text counted)) s
      refl (core-warn_decode now text counted)
