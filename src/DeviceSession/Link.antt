-- ===== src/DeviceSession/Link.antt =====
-- The connection of frontend/src/lib/device-session.ts for a serial port: `connect`, `readSerial`,
-- `disconnect`, `finishDisconnect` and `closeSerial`, cut at their awaits.
use friendly_ai_explorer.Common.{
  ◌==◌, if◌then◌else◌, get_elem?, ℕ, zero, suc, ◌+◌, ◌*◌, min, Bool, true, false, not, ◌&&◌, Option,
  none, some, List, [], ◌∷◌, ◌++◌,
}
use friendly_ai_explorer.DeviceSession.State.{
  DeviceSession, SerialSettings, connecting, connected, reconnecting, disconnecting, disconnected,
  error, ConnectPhase, requesting, opening, ConnectTask, Continuation, connects_with, reports,
  ReadPhase, reading, releasing, waiting, reopening, Reader, Work, no_metrics, is_offline,
}
use friendly_ai_explorer.DeviceSession.View.{is_given, update, warn, cancel_paste}

-- `disconnect`, up to the first await of `finishDisconnect`.
unfoldable pub disconnect : ℕ → DeviceSession → DeviceSession
disconnect now s =
    let s1 = record (cancel_paste s) { closing = true; generation = suc s.generation } in
    if s.disconnect_task
    then s1
    else update now disconnecting [] (record s1 { disconnect_task = true })

-- `disconnect` with what follows its end.
unfoldable pub disconnect_then : ℕ → Continuation → DeviceSession → DeviceSession
disconnect_then now next s =
    disconnect now (record s { after_disconnect = s.after_disconnect ++ (next ∷ []) })

-- The `catch` of `connect`.
unfoldable pub fail_connect : ℕ → List ℕ → ℕ → DeviceSession → DeviceSession
fail_connect now message generation s =
    if generation == s.generation then disconnect_then now (reports message) s else s

-- `connect` from the new generation to the request of a port; the flag says that the browser has Web
-- Serial.
unfoldable pub begin_connect : Bool → ℕ → SerialSettings → DeviceSession → DeviceSession
begin_connect supported now settings s =
    let s1 = warn now [] (record s {
      generation = suc s.generation;
      metrics = no_metrics;
      events = [];
      ended = 0;
      closing = false;
    }) in
    let s2 = update now connecting [] (record s1 { serial_settings = settings }) in
    if supported
    then record s2 {
      connects = s2.connects ++ (record { generation = suc s.generation; phase = requesting } ∷ []);
    }
    else fail_connect now [] (suc s.generation) s2

unfoldable pub connect : Bool → ℕ → SerialSettings → DeviceSession → DeviceSession
connect supported now settings s =
    if not (is_offline s.state.status)
    then s
    else if is_given s.port
    then disconnect_then now (connects_with settings) s
    else begin_connect supported now settings s

-- How a request of `connect` ends.
pub data ConnectOutcome : Type 0 where
  granted : ConnectOutcome
  refused : List ℕ → ConnectOutcome

unfoldable pub remove_connect : ℕ → List ConnectTask → List ConnectTask
remove_connect n [] = []
remove_connect zero (t ∷ tasks) = tasks
remove_connect (suc n) (t ∷ tasks) = t ∷ remove_connect n tasks

-- After `requestPort` and after `open`. A stale attempt goes no further.
unfoldable pub advance_phase : ConnectPhase → ℕ → ℕ → DeviceSession → DeviceSession
advance_phase requesting now generation s = record s {
  port = some s.supply;
  supply = suc s.supply;
  connects = s.connects ++ (record { generation = generation; phase = opening } ∷ []);
}
advance_phase opening now generation s =
    record (update now connected [] (record s { writer = some s.supply; supply = suc s.supply })) {
      reader = some (record { generation = generation; phase = reading });
    }

unfoldable pub advance_task :
    ConnectOutcome → ℕ → Option ConnectTask → DeviceSession → DeviceSession
advance_task outcome now none s = s
advance_task (refused message) now (some t) s = fail_connect now message t.generation s
advance_task granted now (some t) s =
    if t.generation == s.generation then advance_phase t.phase now t.generation s else s

-- The n-th waiting call of `connect` goes on.
unfoldable pub advance : ℕ → ConnectOutcome → ℕ → DeviceSession → DeviceSession
advance n outcome now s =
    advance_task outcome now (get_elem? s.connects n)
      (record s { connects = remove_connect n s.connects })

-- `await this.queue`: every write has settled.
unfoldable pub is_idle : List Work → Bool
is_idle [] = true
is_idle (w ∷ ws) = false

-- What happens to the reader of `readSerial`: reading ends with an error that a port recovers from, or
-- otherwise; the lost port is released; the delay is over; the port has opened again, or has not.
pub data ReadEvent : Type 0 where
  read_fails : List ℕ → ReadEvent
  read_ends released woken reopened refuses : ReadEvent

-- `active()`
unfoldable pub is_active_reader : Reader → DeviceSession → Bool
is_active_reader r s = not s.closing && r.generation == s.generation

unfoldable pub end_reader : DeviceSession → DeviceSession
end_reader s = record s { reader = none }

unfoldable pub set_phase : Reader → ReadPhase → DeviceSession → DeviceSession
set_phase r phase s = record s { reader = some (record r { phase = phase }) }

unfoldable pub while_active : Reader → DeviceSession → DeviceSession → DeviceSession
while_active r s next = if is_active_reader r s then next else end_reader s

-- A recoverable error: reading goes on, and a paste is cancelled.
unfoldable pub recover_read : ℕ → List ℕ → DeviceSession → DeviceSession
recover_read now name s = warn now name (
    cancel_paste (record s {
      metrics = record s.metrics { read_recoveries = s.metrics.read_recoveries + 1 };
      transport_version = s.transport_version + 1;
    }))

unfoldable pub lose_port : ℕ → Reader → DeviceSession → DeviceSession
lose_port now r s = set_phase r releasing (
    update now reconnecting []
      (cancel_paste (record s { transport_version = s.transport_version + 1 })))

unfoldable pub reopen : ℕ → Reader → DeviceSession → DeviceSession
reopen now r s =
    let s1 =
      update now connected []
        (warn now [] (record s { writer = some s.supply; supply = suc s.supply })) in
    set_phase r reading
      (record s1 { metrics = record s1.metrics { reconnects = s1.metrics.reconnects + 1 } })

-- `Math.min(delay * 2, 5000)`
unfoldable pub next_delay : ℕ → ℕ
next_delay delay = min (delay * 2) 5000

unfoldable pub read_step : ReadPhase → ReadEvent → ℕ → Reader → DeviceSession → DeviceSession
read_step reading (read_fails name) now r s = while_active r s (recover_read now name s)
read_step reading read_ends now r s = while_active r s (lose_port now r s)
read_step releasing released now r s =
    let s1 = record s { writer = none } in
    if not (is_idle s.queue) then s else while_active r s1 (set_phase r (waiting 500) s1)
read_step (waiting delay) woken now r s = while_active r s (set_phase r (reopening delay) s)
read_step (reopening delay) reopened now r s = while_active r s (reopen now r s)
read_step (reopening delay) refuses now r s =
    while_active r s (set_phase r (waiting (next_delay delay)) s)
read_step _ _ now r s = s

unfoldable pub read_at : Option Reader → ReadEvent → ℕ → DeviceSession → DeviceSession
read_at none e now s = s
read_at (some r) e now s = read_step r.phase e now r s

unfoldable pub read_event : ReadEvent → ℕ → DeviceSession → DeviceSession
read_event e now s = read_at s.reader e now s

-- What waited for the disconnection goes on.
unfoldable pub continue_with : Bool → ℕ → Continuation → DeviceSession → DeviceSession
continue_with supported now (connects_with settings) s = begin_connect supported now settings s
continue_with supported now (reports message) s = update now error message s

unfoldable pub continue_all : Bool → ℕ → List Continuation → DeviceSession → DeviceSession
continue_all supported now [] s = s
continue_all supported now (c ∷ cs) s =
    continue_all supported now cs (continue_with supported now c s)

-- The rest of `finishDisconnect`, once the writes have settled and the reader has ended.
unfoldable pub finish_disconnect : Bool → ℕ → DeviceSession → DeviceSession
finish_disconnect supported now s =
    let s1 = update now disconnected [] (
      warn now [] (record s {
        writer = none;
        port = none;
        disconnect_task = false;
        after_disconnect = [];
      })) in
    if s.disconnect_task && is_idle s.queue && not (is_given s.reader)
    then continue_all supported now s.after_disconnect s1
    else s
