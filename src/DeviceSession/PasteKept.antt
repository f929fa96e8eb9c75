-- ===== src/DeviceSession/PasteKept.antt =====
-- The paste of a session of frontend/src/lib/device-session.ts across what the session shows and the
-- steps of `connect` and `disconnect`.
use friendly_ai_explorer.Common.{
  ltb, ◌==◌, if◌then◌else◌, length, get_elem?, includes, Number, pos, negsuc, integer, fractional,
  Bytes, is_nil, ℕ, suc, ◌+◌, ◌≡◌, refl, ◌∙◌, Bool, true, false, not, ◌&&◌, ◌||◌, Option, none,
  some, List, [], ◌∷◌, ◌++◌,
}
use friendly_ai_explorer.DeviceSession.State.{
  DeviceSession, Work, SerialSettings, SessionStatus, connecting, connected, disconnecting,
  ConnectPhase, requesting, opening, ConnectTask, Continuation, connects_with, reports, Paste,
  is_connected, is_offline, same_status, same_text, no_metrics,
}
use friendly_ai_explorer.DeviceSession.View.{
  update, warn, cancel_paste, is_given, note_event, note_warning, refresh, resize, output, hex_text,
  decode_warning, warn_decode, receive_bytes,
}
use friendly_ai_explorer.DeviceSession.Writes.{or_same}
use friendly_ai_explorer.DeviceSession.Link.{
  disconnect, disconnect_then, fail_connect, begin_connect, connect, ConnectOutcome, granted,
  refused, remove_connect, advance_phase, advance_task, advance,
}

-- The paste that is in progress, what the session shows of it, and the queue of writes.
pub record PasteView : Type 0 where
  pub paste : Option Paste
  pub sent : ℕ
  pub total : ℕ
  pub queue : List Work

abbrev pub view : DeviceSession → PasteView
view s = record {
  paste = s.paste;
  sent = s.state.paste_sent;
  total = s.state.paste_total;
  queue = s.queue;
}

pub view-update :
    (now : ℕ) (status : SessionStatus) (message : List ℕ) (s : DeviceSession)
    → view (update now status message s) ≡ view s
unfolding update note_event cancel_paste
view-update now status message s =
    go (is_connected status)
      (not (same_status status s.state.status) || not (same_text message s.state.error))
  where
    ends : Bool
    ends = is_offline status && not (s.metrics.started == 0) && s.ended == 0

    go :
        (a b : Bool)
        → (let s1 = if a then s else cancel_paste s in
            let s2 = record s1 { ended = if ends then now else s1.ended } in
            let s3 = note_event b now status message s2 in
            view (record s3 {
              state = record s3.state {
                status = status;
                error = message;
                revision = s3.state.revision + 1;
              };
            }))
          ≡ view s
    go true true = refl
    go true false = refl
    go false true = refl
    go false false = refl

pub view-if :
    (b : Bool) (s t u : DeviceSession)
    → view s ≡ view u
    → view t ≡ view u
    → view (if b then s else t) ≡ view u
view-if true s t u p q = p
view-if false s t u p q = q

pub view-warn : (now : ℕ) (text : List ℕ) (s : DeviceSession) → view (warn now text s) ≡ view s
unfolding warn
view-warn now text s =
    view-if (same_text s.state.warning text) s
      (record s {
        events = note_warning (is_nil text) now text s.events;
        state = record s.state { warning = text; revision = s.state.revision + 1 };
      })
      s refl refl

pub view-refresh : (now : ℕ) (s : DeviceSession) → view (refresh now s) ≡ view s
unfolding refresh
view-refresh now s = view-update now s.state.status s.state.error s

pub view-or_same_if :
    (b : Bool) (t s : DeviceSession)
    → view t ≡ view s
    → view (or_same s (if b then none else some t)) ≡ view s
unfolding or_same
view-or_same_if true t s p = refl
view-or_same_if false t s p = p

pub view-resize : (cols rows : Number) (s : DeviceSession) → view (resize cols rows s) ≡ view s
unfolding resize
view-resize (integer (pos cols)) (integer (pos rows)) s =
    view-if (ltb cols 2 || ltb 1000 cols || ltb rows 1 || ltb 500 rows) s
      (record s { cols = cols; rows = rows }) s refl refl
view-resize (integer (pos cols)) (integer (negsuc rows)) s = refl
view-resize (integer (pos cols)) fractional s = refl
view-resize (integer (negsuc cols)) rows s = refl
view-resize fractional rows s = refl

pub view-receive_bytes :
    (now : ℕ) (bytes : Bytes) (text : List ℕ) (s : DeviceSession)
    → view (receive_bytes now bytes text s) ≡ view s
unfolding receive_bytes output warn_decode
view-receive_bytes now bytes text s =
    let counted : DeviceSession = record s {
      metrics = record s.metrics { received = s.metrics.received + length bytes };
    } in
    view-if s.hex (output (hex_text bytes) counted) (output text (warn_decode now text counted)) s
      refl
      (view-if (includes text 0xFFFD) (warn now decode_warning counted)
        (if is_nil text then counted else warn now [] counted) s
        (view-warn now decode_warning counted)
        (view-if (is_nil text) counted (warn now [] counted) s refl (view-warn now [] counted)))

pub view-disconnect : (now : ℕ) (s : DeviceSession) → view (disconnect now s) ≡ view s
unfolding disconnect cancel_paste
view-disconnect now s =
    let s1 : DeviceSession = record (cancel_paste s) {
      closing = true;
      generation = suc s.generation;
    } in
    let s2 : DeviceSession = record s1 { disconnect_task = true } in
    view-if s.disconnect_task s1 (update now disconnecting [] s2) s refl
      (view-update now disconnecting [] s2)

view-disconnect_then :
    (now : ℕ) (next : Continuation) (s : DeviceSession) → view (disconnect_then now next s) ≡ view s
unfolding disconnect_then
view-disconnect_then now next s =
    view-disconnect now (record s { after_disconnect = s.after_disconnect ++ (next ∷ []) })

view-fail_connect :
    (now : ℕ) (message : List ℕ) (generation : ℕ) (s : DeviceSession)
    → view (fail_connect now message generation s) ≡ view s
unfolding fail_connect
view-fail_connect now message generation s =
    view-if (generation == s.generation) (disconnect_then now (reports message) s) s s
      (view-disconnect_then now (reports message) s) refl

pub view-begin_connect :
    (supported : Bool) (now : ℕ) (settings : SerialSettings) (s : DeviceSession)
    → view (begin_connect supported now settings s) ≡ view s
unfolding begin_connect
view-begin_connect supported now settings s =
    view-if supported
      (record s2 {
        connects =
            s2.connects ++ (record { generation = suc s.generation; phase = requesting } ∷ []);
      })
      (fail_connect now [] (suc s.generation) s2) s begun
      (view-fail_connect now [] (suc s.generation) s2 ∙ begun)
  where
    s0 : DeviceSession
    s0 = record s {
      generation = suc s.generation;
      metrics = no_metrics;
      events = [];
      ended = 0;
      closing = false;
    }

    s1 : DeviceSession
    s1 = record (warn now [] s0) { serial_settings = settings }

    s2 : DeviceSession
    s2 = update now connecting [] s1

    begun : view s2 ≡ view s
    begun = view-update now connecting [] s1 ∙ view-warn now [] s0

pub view-connect :
    (supported : Bool) (now : ℕ) (settings : SerialSettings) (s : DeviceSession)
    → view (connect supported now settings s) ≡ view s
unfolding connect
view-connect supported now settings s =
    view-if (not (is_offline s.state.status)) s
      (if is_given s.port
        then disconnect_then now (connects_with settings) s
        else begin_connect supported now settings s)
      s refl
      (view-if (is_given s.port) (disconnect_then now (connects_with settings) s)
        (begin_connect supported now settings s) s
        (view-disconnect_then now (connects_with settings) s)
        (view-begin_connect supported now settings s))

pub view-advance :
    (n : ℕ) (outcome : ConnectOutcome) (now : ℕ) (s : DeviceSession)
    → view (advance n outcome now s) ≡ view s
unfolding advance advance_task advance_phase
view-advance n outcome now s = go outcome (get_elem? s.connects n)
  where
    s1 : DeviceSession
    s1 = record s { connects = remove_connect n s.connects }

    phase :
        (phase : ConnectPhase) (generation : ℕ)
        → view (advance_phase phase now generation s1) ≡ view s
    phase requesting generation = refl
    phase opening generation =
        view-update now connected [] (record s1 { writer = some s1.supply; supply = suc s1.supply })

    go :
        (outcome : ConnectOutcome) (t : Option ConnectTask)
        → view (advance_task outcome now t s1) ≡ view s
    go outcome none = refl
    go (refused message) (some t) = view-fail_connect now message t.generation s1
    go granted (some t) =
        view-if (t.generation == s.generation) (advance_phase t.phase now t.generation s1) s1 s
          (phase t.phase t.generation) refl
