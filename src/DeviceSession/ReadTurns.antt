-- ===== src/DeviceSession/ReadTurns.antt =====
-- The events of `readSerial` and the end of a disconnection in frontend/src/lib/device-session.ts as
-- changes of the connection alone.
use friendly_ai_explorer.Common.{
  ℕ, ◌+◌, ◌≡◌, refl, sym, ap, subst, ◌∙◌, ◌≢◌, Bool, false, not, ◌&&◌, Option, none, some, List, [],
  ◌∷◌, arith,
}
use friendly_ai_explorer.DeviceSession.State.{
  DeviceSession, disconnected, error, Continuation, connects_with, reports, ReadPhase, reading,
  releasing, waiting, reopening, Reader, is_connected,
}
use friendly_ai_explorer.DeviceSession.View.{update, warn, cancel_paste, is_given}
use friendly_ai_explorer.DeviceSession.Link.{
  begin_connect, is_idle, ReadEvent, read_fails, read_ends, released, woken, reopened, refuses,
  set_phase, while_active, recover_read, lose_port, reopen, next_delay, read_step, read_at,
  read_event, continue_with, continue_all, finish_disconnect,
}
use friendly_ai_explorer.DeviceSession.Core.{Core, core, core-update, core-warn}
use friendly_ai_explorer.DeviceSession.Linked.{IsLinked}
use friendly_ai_explorer.DeviceSession.Recovery.{waits-not_connected}
use friendly_ai_explorer.DeviceSession.Turns.{
  IsBelow, Turn, Turn-refl, Turn-trans, Turn-if, same-Turn, update-Turn,
}
use friendly_ai_explorer.DeviceSession.TurnSteps.{
  while_active-Turn, lose_port-Turn, reopen-Turn, begin_connect-Turn, warn-Turn,
}

-- A session that is not connected loses its writer.
writer_lost-Turn :
    (s t : DeviceSession)
    → is_connected s.state.status ≡ false
    → core t ≡ record (core t) {
      status = s.state.status;
      writer = none;
      queue = s.queue;
      writing = s.writing;
      delivered = s.delivered;
      supply = s.supply;
    }
    → Turn (core s) (core t)
unfolding IsBelow
writer_lost-Turn s t off e = subst (Turn (core s)) (sym e) (record {
  same_queue = refl;
  same_writing = refl;
  same_delivered = refl;
  grows = omega arith;
  back = λ l. absurd (cc (sym off ∙ l));
  bound = λ b. tt;
})

phase-Turn :
    (r : Reader) (phase : ReadPhase) (s : DeviceSession)
    → Turn (core s) (core (while_active r s (set_phase r phase s)))
unfolding set_phase
phase-Turn r phase s =
    let t : DeviceSession = record s { reader = some (record r { phase = phase }) } in
    while_active-Turn r s t (same-Turn s t refl)

recover_read-Turn :
    (now : ℕ) (name : List ℕ) (s : DeviceSession) → Turn (core s) (core (recover_read now name s))
unfolding recover_read cancel_paste
recover_read-Turn now name s =
    let t : DeviceSession = cancel_paste (record s {
      metrics = record s.metrics { read_recoveries = s.metrics.read_recoveries + 1 };
      transport_version = s.transport_version + 1;
    }) in
    warn-Turn now name s t (same-Turn s t refl)

released-Turn :
    (now : ℕ) (r : Reader) (s : DeviceSession)
    → is_connected s.state.status ≡ false
    → Turn (core s) (core (read_step releasing released now r s))
unfolding read_step
released-Turn now r s off =
    let s1 : DeviceSession = record s { writer = none } in
    let next : DeviceSession = while_active r s1 (set_phase r (waiting 500) s1) in
    Turn-if (not (is_idle s.queue)) (core s) s next (Turn-refl (core s)) (
      Turn-trans (core s) (core s1) (core next) (writer_lost-Turn s s1 off refl)
        (phase-Turn r (waiting 500) s1))

read_step-Turn :
    (phase : ReadPhase) (event : ReadEvent) (now : ℕ) (r : Reader) (s : DeviceSession)
    → (phase ≢ reading → is_connected s.state.status ≡ false)
    → Turn (core s) (core (read_step phase event now r s))
unfolding read_step
read_step-Turn releasing released now r s w = released-Turn now r s (w (λ p. cc p))
read_step-Turn reading (read_fails name) now r s w =
    while_active-Turn r s (recover_read now name s) (recover_read-Turn now name s)
read_step-Turn reading read_ends now r s w =
    while_active-Turn r s (lose_port now r s) (lose_port-Turn now r s)
read_step-Turn (waiting delay) woken now r s w = phase-Turn r (reopening delay) s
read_step-Turn (reopening delay) reopened now r s w =
    while_active-Turn r s (reopen now r s) (reopen-Turn now r s)
read_step-Turn (reopening delay) refuses now r s w = phase-Turn r (waiting (next_delay delay)) s
read_step-Turn reading released now r s w = Turn-refl (core s)
read_step-Turn reading woken now r s w = Turn-refl (core s)
read_step-Turn reading reopened now r s w = Turn-refl (core s)
read_step-Turn reading refuses now r s w = Turn-refl (core s)
read_step-Turn releasing (read_fails name) now r s w = Turn-refl (core s)
read_step-Turn releasing read_ends now r s w = Turn-refl (core s)
read_step-Turn releasing woken now r s w = Turn-refl (core s)
read_step-Turn releasing reopened now r s w = Turn-refl (core s)
read_step-Turn releasing refuses now r s w = Turn-refl (core s)
read_step-Turn (waiting delay) (read_fails name) now r s w = Turn-refl (core s)
read_step-Turn (waiting delay) read_ends now r s w = Turn-refl (core s)
read_step-Turn (waiting delay) released now r s w = Turn-refl (core s)
read_step-Turn (waiting delay) reopened now r s w = Turn-refl (core s)
read_step-Turn (waiting delay) refuses now r s w = Turn-refl (core s)
read_step-Turn (reopening delay) (read_fails name) now r s w = Turn-refl (core s)
read_step-Turn (reopening delay) read_ends now r s w = Turn-refl (core s)
read_step-Turn (reopening delay) released now r s w = Turn-refl (core s)
read_step-Turn (reopening delay) woken now r s w = Turn-refl (core s)

pub read_event-Turn :
    (event : ReadEvent) (now : ℕ) (s : DeviceSession)
    → IsLinked (core s)
    → Turn (core s) (core (read_event event now s))
unfolding read_event read_at
read_event-Turn event now s i = go s.reader refl
  where
    go : (r : Option Reader) → s.reader ≡ r → Turn (core s) (core (read_at r event now s))
    go none e = Turn-refl (core s)
    go (some r) e = read_step-Turn r.phase event now r s (λ w. waits-not_connected r s e w i)

continue_all-Turn :
    (supported : Bool) (now : ℕ) (cs : List Continuation) (s : DeviceSession)
    → Turn (core s) (core (continue_all supported now cs s))
unfolding continue_all continue_with is_connected
continue_all-Turn supported now [] s = Turn-refl (core s)
continue_all-Turn supported now (connects_with settings ∷ cs) s =
    let t : DeviceSession = begin_connect supported now settings s in
    Turn-trans (core s) (core t) (core (continue_all supported now cs t))
      (begin_connect-Turn supported now settings s) (continue_all-Turn supported now cs t)
continue_all-Turn supported now (reports message ∷ cs) s =
    let t : DeviceSession = update now error message s in
    Turn-trans (core s) (core t) (core (continue_all supported now cs t))
      (update-Turn now error message s refl) (continue_all-Turn supported now cs t)

disconnected-Turn :
    (now : ℕ) (s t : DeviceSession)
    → core t ≡ record (core s) {
      writer = none;
      port = none;
      disconnect_task = false;
      after_disconnect = [];
    }
    → Turn (core s) (core (update now disconnected [] t))
unfolding IsBelow is_connected
disconnected-Turn now s t e =
    subst (Turn (core s)) (sym (core-update now disconnected [] t ∙ ap as_disconnected e)) (record {
      same_queue = refl;
      same_writing = refl;
      same_delivered = refl;
      grows = omega arith;
      back = λ l. absurd (cc l);
      bound = λ b. tt;
    })
  where
    as_disconnected : Core → Core
    as_disconnected c = record c { status = disconnected }

pub finish_disconnect-Turn :
    (supported : Bool) (now : ℕ) (s : DeviceSession)
    → Turn (core s) (core (finish_disconnect supported now s))
unfolding finish_disconnect
finish_disconnect-Turn supported now s =
    let s0 : DeviceSession = record s {
      writer = none;
      port = none;
      disconnect_task = false;
      after_disconnect = [];
    } in
    let s1 : DeviceSession = update now disconnected [] (warn now [] s0) in
    let s2 : DeviceSession = continue_all supported now s.after_disconnect s1 in
    Turn-if (s.disconnect_task && is_idle s.queue && not (is_given s.reader)) (core s) s2 s
      (Turn-trans (core s) (core s1) (core s2)
        (disconnected-Turn now s (warn now [] s0) (core-warn now [] s0))
        (continue_all-Turn supported now s.after_disconnect s1))
      (Turn-refl (core s))
