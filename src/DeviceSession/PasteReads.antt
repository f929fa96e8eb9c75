-- ===== src/DeviceSession/PasteReads.antt =====
-- The paste of a session of frontend/src/lib/device-session.ts across the events of `readSerial` and
-- the end of a disconnection.
use friendly_ai_explorer.Common.{
  ℕ, suc, ◌+◌, ◌≡◌, refl, ◌∙◌, Bool, false, not, ◌&&◌, Option, none, some, List, [], ◌∷◌,
}
use friendly_ai_explorer.DeviceSession.State.{
  DeviceSession, connected, reconnecting, disconnected, error, Continuation, connects_with, reports,
  ReadPhase, reading, releasing, waiting, reopening, Reader,
}
use friendly_ai_explorer.DeviceSession.View.{update, warn, cancel_paste, is_given}
use friendly_ai_explorer.DeviceSession.Link.{
  begin_connect, is_idle, ReadEvent, read_fails, read_ends, released, woken, reopened, refuses,
  is_active_reader, end_reader, set_phase, while_active, recover_read, lose_port, reopen,
  next_delay, read_step, read_at, read_event, continue_with, continue_all, finish_disconnect,
}
use friendly_ai_explorer.DeviceSession.PasteKept.{
  view, view-update, view-if, view-warn, view-begin_connect,
}

view-while_active :
    (r : Reader) (s next : DeviceSession)
    → view next ≡ view s
    → view (while_active r s next) ≡ view s
unfolding while_active end_reader
view-while_active r s next e =
    view-if (is_active_reader r s) next (record s { reader = none }) s e refl

view-recover_read :
    (now : ℕ) (name : List ℕ) (s : DeviceSession) → view (recover_read now name s) ≡ view s
unfolding recover_read cancel_paste
view-recover_read now name s = view-warn now name (
    cancel_paste (record s {
      metrics = record s.metrics { read_recoveries = s.metrics.read_recoveries + 1 };
      transport_version = s.transport_version + 1;
    }))

view-lose_port : (now : ℕ) (r : Reader) (s : DeviceSession) → view (lose_port now r s) ≡ view s
unfolding lose_port set_phase cancel_paste
view-lose_port now r s =
    view-update now reconnecting []
      (cancel_paste (record s { transport_version = s.transport_version + 1 }))

view-reopen : (now : ℕ) (r : Reader) (s : DeviceSession) → view (reopen now r s) ≡ view s
unfolding reopen set_phase
view-reopen now r s =
    let s0 : DeviceSession = record s { writer = some s.supply; supply = suc s.supply } in
    view-update now connected [] (warn now [] s0) ∙ view-warn now [] s0

view-read_step :
    (phase : ReadPhase) (event : ReadEvent) (now : ℕ) (r : Reader) (s : DeviceSession)
    → view (read_step phase event now r s) ≡ view s
unfolding read_step set_phase
view-read_step releasing released now r s =
    let s1 : DeviceSession = record s { writer = none } in
    let next : DeviceSession = record s1 { reader = some (record r { phase = waiting 500 }) } in
    view-if (not (is_idle s.queue)) s (while_active r s1 next) s refl
      (view-while_active r s1 next refl)
view-read_step reading (read_fails name) now r s =
    view-while_active r s (recover_read now name s) (view-recover_read now name s)
view-read_step reading read_ends now r s =
    view-while_active r s (lose_port now r s) (view-lose_port now r s)
view-read_step (waiting delay) woken now r s =
    view-while_active r s (record s { reader = some (record r { phase = reopening delay }) }) refl
view-read_step (reopening delay) reopened now r s =
    view-while_active r s (reopen now r s) (view-reopen now r s)
view-read_step (reopening delay) refuses now r s =
    view-while_active r s
      (record s { reader = some (record r { phase = waiting (next_delay delay) }) }) refl
view-read_step reading released now r s = refl
view-read_step reading woken now r s = refl
view-read_step reading reopened now r s = refl
view-read_step reading refuses now r s = refl
view-read_step releasing (read_fails name) now r s = refl
view-read_step releasing read_ends now r s = refl
view-read_step releasing woken now r s = refl
view-read_step releasing reopened now r s = refl
view-read_step releasing refuses now r s = refl
view-read_step (waiting delay) (read_fails name) now r s = refl
view-read_step (waiting delay) read_ends now r s = refl
view-read_step (waiting delay) released now r s = refl
view-read_step (waiting delay) reopened now r s = refl
view-read_step (waiting delay) refuses now r s = refl
view-read_step (reopening delay) (read_fails name) now r s = refl
view-read_step (reopening delay) read_ends now r s = refl
view-read_step (reopening delay) released now r s = refl
view-read_step (reopening delay) woken now r s = refl

pub view-read_event :
    (event : ReadEvent) (now : ℕ) (s : DeviceSession) → view (read_event event now s) ≡ view s
unfolding read_event read_at
view-read_event event now s = go s.reader
  where
    go : (r : Option Reader) → view (read_at r event now s) ≡ view s
    go none = refl
    go (some r) = view-read_step r.phase event now r s

view-continue_all :
    (supported : Bool) (now : ℕ) (cs : List Continuation) (s : DeviceSession)
    → view (continue_all supported now cs s) ≡ view s
unfolding continue_all continue_with
view-continue_all supported now [] s = refl
view-continue_all supported now (connects_with settings ∷ cs) s =
    view-continue_all supported now cs (begin_connect supported now settings s)
    ∙ view-begin_connect supported now settings s
view-continue_all supported now (reports message ∷ cs) s =
    view-continue_all supported now cs (update now error message s)
    ∙ view-update now error message s

pub view-finish_disconnect :
    (supported : Bool) (now : ℕ) (s : DeviceSession)
    → view (finish_disconnect supported now s) ≡ view s
unfolding finish_disconnect
view-finish_disconnect supported now s =
    let s0 : DeviceSession = record s {
      writer = none;
      port = none;
      disconnect_task = false;
      after_disconnect = [];
    } in
    let s1 : DeviceSession = update now disconnected [] (warn now [] s0) in
    view-if (s.disconnect_task && is_idle s.queue && not (is_given s.reader))
      (continue_all supported now s.after_disconnect s1) s s
      (view-continue_all supported now s.after_disconnect s1
        ∙ view-update now disconnected [] (warn now [] s0)
        ∙ view-warn now [] s0)
      refl
