-- ===== src/DeviceSession/TurnSteps.antt =====
-- The calls and awaits of `connect`, `readSerial` and `disconnect` in frontend/src/lib/device-session.ts
-- as changes of the connection alone.
use friendly_ai_explorer.Common.{
  ◌==◌, if◌then◌else◌, get_elem?, ℕ, suc, ◌+◌, refl, sym, subst, inl, Bool, false, not, Option,
  none, some, List, [], ◌∷◌, ◌++◌, arith,
}
use friendly_ai_explorer.DeviceSession.State.{
  DeviceSession, SerialSettings, connecting, connected, reconnecting, ConnectPhase, requesting,
  opening, ConnectTask, Continuation, connects_with, reports, reading, releasing, Reader,
  is_connected, is_offline, no_metrics,
}
use friendly_ai_explorer.DeviceSession.View.{update, warn, cancel_paste, is_given}
use friendly_ai_explorer.DeviceSession.Link.{
  disconnect, disconnect_then, fail_connect, begin_connect, connect, ConnectOutcome, granted,
  refused, remove_connect, advance_phase, advance_task, advance, is_active_reader, end_reader,
  set_phase, while_active, lose_port, reopen,
}
use friendly_ai_explorer.DeviceSession.Core.{core, core-warn}
use friendly_ai_explorer.DeviceSession.Turns.{
  IsBelow, Turn, Turn-refl, Turn-trans, Turn-if, same-Turn, update-Turn, connected-Turn,
  disconnect-Turn,
}

disconnect_then-Turn :
    (now : ℕ) (next : Continuation) (s : DeviceSession)
    → Turn (core s) (core (disconnect_then now next s))
unfolding disconnect_then
disconnect_then-Turn now next s =
    let s1 : DeviceSession = record s { after_disconnect = s.after_disconnect ++ (next ∷ []) } in
    Turn-trans (core s) (core s1) (core (disconnect now s1)) (same-Turn s s1 refl)
      (disconnect-Turn now s1)

fail_connect-Turn :
    (now : ℕ) (message : List ℕ) (generation : ℕ) (s : DeviceSession)
    → Turn (core s) (core (fail_connect now message generation s))
unfolding fail_connect
fail_connect-Turn now message generation s =
    Turn-if (generation == s.generation) (core s) (disconnect_then now (reports message) s) s
      (disconnect_then-Turn now (reports message) s) (Turn-refl (core s))

pub warn-Turn :
    (now : ℕ) (text : List ℕ) (s t : DeviceSession)
    → Turn (core s) (core t)
    → Turn (core s) (core (warn now text t))
warn-Turn now text s t u = subst (Turn (core s)) (sym (core-warn now text t)) u

pub begin_connect-Turn :
    (supported : Bool) (now : ℕ) (settings : SerialSettings) (s : DeviceSession)
    → Turn (core s) (core (begin_connect supported now settings s))
unfolding begin_connect is_connected
begin_connect-Turn supported now settings s =
    Turn-if supported (core s)
      (record s2 {
        connects =
            s2.connects ++ (record { generation = suc s.generation; phase = requesting } ∷ []);
      })
      (fail_connect now [] (suc s.generation) s2)
      (Turn-trans (core s) (core s2)
        (core (record s2 {
          connects =
              s2.connects ++ (record { generation = suc s.generation; phase = requesting } ∷ []);
        }))
        begun
        (same-Turn s2
          (record s2 {
            connects =
                s2.connects ++ (record { generation = suc s.generation; phase = requesting } ∷ []);
          })
          refl))
      (Turn-trans (core s) (core s2) (core (fail_connect now [] (suc s.generation) s2)) begun
        (fail_connect-Turn now [] (suc s.generation) s2))
  where
    s0 : DeviceSession
    s0 = record s {
      generation = suc s.generation;
      metrics = no_metrics;
      events = [];
      ended = 0;
      closing = false;
    }

    s1 : DeviceSession
    s1 = record (warn now [] s0) { serial_settings = settings }

    s2 : DeviceSession
    s2 = update now connecting [] s1

    begun : Turn (core s) (core s2)
    begun =
        Turn-trans (core s) (core s1) (core s2) (warn-Turn now [] s s0 (same-Turn s s0 refl))
          (update-Turn now connecting [] s1 refl)

pub connect-Turn :
    (supported : Bool) (now : ℕ) (settings : SerialSettings) (s : DeviceSession)
    → Turn (core s) (core (connect supported now settings s))
unfolding connect
connect-Turn supported now settings s =
    Turn-if (not (is_offline s.state.status)) (core s) s
      (if is_given s.port
        then disconnect_then now (connects_with settings) s
        else begin_connect supported now settings s)
      (Turn-refl (core s))
      (Turn-if (is_given s.port) (core s) (disconnect_then now (connects_with settings) s)
        (begin_connect supported now settings s)
        (disconnect_then-Turn now (connects_with settings) s)
        (begin_connect-Turn supported now settings s))

advance_phase-Turn :
    (phase : ConnectPhase) (now generation : ℕ) (s : DeviceSession)
    → Turn (core s) (core (advance_phase phase now generation s))
unfolding advance_phase IsBelow
advance_phase-Turn requesting now generation s = record {
  same_queue = refl;
  same_writing = refl;
  same_delivered = refl;
  grows = omega arith;
  back = λ l. inl (l, refl);
  bound = λ b. weaker s.writer b;
}
  where
    weaker : (v : Option ℕ) → IsBelow s.supply v → IsBelow (suc s.supply) v
    weaker none b = tt
    weaker (some v) b = omega arith
advance_phase-Turn opening now generation s =
    let s1 : DeviceSession = record s { writer = some s.supply; supply = suc s.supply } in
    let s2 : DeviceSession = update now connected [] s1 in
    let s3 : DeviceSession = record s2 {
      reader = some (record { generation = generation; phase = reading });
    } in
    Turn-trans (core s) (core s2) (core s3) (connected-Turn now s s1 refl) (same-Turn s2 s3 refl)

pub advance-Turn :
    (n : ℕ) (outcome : ConnectOutcome) (now : ℕ) (s : DeviceSession)
    → Turn (core s) (core (advance n outcome now s))
unfolding advance advance_task
advance-Turn n outcome now s =
    Turn-trans (core s) (core s1) (core (advance n outcome now s)) (same-Turn s s1 refl)
      (go outcome (get_elem? s.connects n))
  where
    s1 : DeviceSession
    s1 = record s { connects = remove_connect n s.connects }

    go :
        (outcome : ConnectOutcome) (t : Option ConnectTask)
        → Turn (core s1) (core (advance_task outcome now t s1))
    go outcome none = Turn-refl (core s1)
    go (refused message) (some t) = fail_connect-Turn now message t.generation s1
    go granted (some t) =
        Turn-if (t.generation == s.generation) (core s1) (advance_phase t.phase now t.generation s1)
          s1 (advance_phase-Turn t.phase now t.generation s1) (Turn-refl (core s1))

pub while_active-Turn :
    (r : Reader) (s next : DeviceSession)
    → Turn (core s) (core next)
    → Turn (core s) (core (while_active r s next))
unfolding while_active end_reader
while_active-Turn r s next t =
    Turn-if (is_active_reader r s) (core s) next (record s { reader = none }) t
      (same-Turn s (record s { reader = none }) refl)

pub lose_port-Turn :
    (now : ℕ) (r : Reader) (s : DeviceSession) → Turn (core s) (core (lose_port now r s))
unfolding lose_port set_phase cancel_paste is_connected
lose_port-Turn now r s =
    let s1 : DeviceSession =
      cancel_paste (record s { transport_version = s.transport_version + 1 }) in
    let s2 : DeviceSession = update now reconnecting [] s1 in
    let s3 : DeviceSession = record s2 { reader = some (record r { phase = releasing }) } in
    Turn-trans (core s) (core s1) (core s3) (same-Turn s s1 refl) (
      Turn-trans (core s1) (core s2) (core s3) (update-Turn now reconnecting [] s1 refl)
        (same-Turn s2 s3 refl))

pub reopen-Turn : (now : ℕ) (r : Reader) (s : DeviceSession) → Turn (core s) (core (reopen now r s))
unfolding reopen set_phase
reopen-Turn now r s =
    let s1 : DeviceSession =
      warn now [] (record s { writer = some s.supply; supply = suc s.supply }) in
    let s2 : DeviceSession = update now connected [] s1 in
    let s3 : DeviceSession = record s2 {
      metrics = record s2.metrics { reconnects = s2.metrics.reconnects + 1 };
      reader = some (record r { phase = reading });
    } in
    Turn-trans (core s) (core s2) (core s3)
      (connected-Turn now s s1
        (core-warn now [] (record s { writer = some s.supply; supply = suc s.supply })))
      (same-Turn s2 s3 refl)
