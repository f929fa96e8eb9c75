-- ===== src/DeviceSession/Attempts.antt =====
-- The invariant of a session's connection under the calls of `connect` and what ends their awaits, in
-- frontend/src/lib/device-session.ts.
use friendly_ai_explorer.Common.{
  All-map, ◌==◌, if◌then◌else◌, ==_iff, Bool-cases, length, get_elem?, All, All-append, ℕ, suc, ◌≤◌,
  ◌≡◌, refl, sym, ap, subst, ◌∙◌, inl, inr, Bool, true, false, not, Option, none, some, List, [],
  ◌∷◌, ◌++◌, arith,
}
use friendly_ai_explorer.DeviceSession.State.{
  DeviceSession, SerialSettings, connecting, connected, ConnectPhase, requesting, opening,
  ConnectTask, Continuation, connects_with, reports, Reader, is_connected, is_offline, no_metrics,
}
use friendly_ai_explorer.DeviceSession.View.{update, warn, is_given}
use friendly_ai_explorer.DeviceSession.Link.{
  disconnect_then, fail_connect, begin_connect, connect, ConnectOutcome, granted, refused,
  remove_connect, advance_phase, advance_task, advance,
}
use friendly_ai_explorer.DeviceSession.Core.{Core, core, core-update, core-warn}
use friendly_ai_explorer.DeviceSession.Linked.{
  IsOldTask, IsOpenTask, current_reader, IsLive, IsEnding, IsLinked, All-get, All-remove_connect,
  relink, calm_open, disconnect-IsLinked_fresh,
}

disconnect_then-IsLinked :
    (now : ℕ) (next : Continuation) (s : DeviceSession)
    → s.disconnect_task ≡ false
    → s.after_disconnect ≡ []
    → All (IsOldTask s.generation) s.connects
    → IsLinked (core (disconnect_then now next s))
unfolding disconnect_then
disconnect_then-IsLinked now next s f e o =
    disconnect-IsLinked_fresh now
      (record s { after_disconnect = s.after_disconnect ++ (next ∷ []) }) f o
      (let one : length (s.after_disconnect ++ (next ∷ [])) ≡ 1 =
          ap (λ xs. length (xs ++ (next ∷ []))) e in
        omega arith)

fail_connect-IsLinked :
    (now : ℕ) (message : List ℕ) (t : ConnectTask) (s : DeviceSession)
    → IsOpenTask (core s) t
    → IsLinked (core s)
    → IsLinked (core (fail_connect now message t.generation s))
unfolding fail_connect
fail_connect-IsLinked now message t s o i = go (t.generation == s.generation) refl
  where
    go :
        (b : Bool)
        → t.generation == s.generation ≡ b
        → IsLinked (core (if b then disconnect_then now (reports message) s else s))
    go false e = i
    go true e =
        let f : s.disconnect_task ≡ false =
          calm_open (core s) i (o ((==_iff t.generation s.generation).0 e)) in
        disconnect_then-IsLinked now (reports message) s f (i.calm f) i.old

-- A session whose last attempt is the one that waits.
IsLinked-attempt :
    (c : Core)
    → c.status ≡ connecting
    → c.closing ≡ false
    → c.disconnect_task ≡ false
    → c.after_disconnect ≡ []
    → All (IsOldTask c.generation) c.connects
    → IsLinked c
unfolding is_connected
IsLinked-attempt c e k f a o = record {
  live = λ l. absurd (cc (sym l ∙ ap is_connected e));
  ending = λ t. absurd (cc (sym t ∙ f));
  calm = λ d. a;
  old = o;
  opens = All-map (IsOldTask c.generation) (IsOpenTask c) c.connects (λ t p g. k) o;
}

-- `connect` has begun: an attempt of a new generation waits for the choice of a port.
pub begin_connect-IsLinked :
    (supported : Bool) (now : ℕ) (settings : SerialSettings) (s : DeviceSession)
    → s.disconnect_task ≡ false
    → s.after_disconnect ≡ []
    → All (IsOldTask s.generation) s.connects
    → IsLinked (core (begin_connect supported now settings s))
unfolding begin_connect
begin_connect-IsLinked supported now settings s f a o = go supported
  where
    s0 : DeviceSession
    s0 = record s {
      generation = suc s.generation;
      metrics = no_metrics;
      events = [];
      ended = 0;
      closing = false;
    }

    s2 : DeviceSession
    s2 = update now connecting [] (record (warn now [] s0) { serial_settings = settings })

    task : ConnectTask
    task = record { generation = suc s.generation; phase = requesting }

    c2 : Core
    c2 = record (core s0) { status = connecting }

    older : All (IsOldTask (suc s.generation)) s.connects
    older =
        All-map (IsOldTask s.generation) (IsOldTask (suc s.generation)) s.connects
          (λ t p. omega arith) o

    as_connecting : Core → Core
    as_connecting c = record c { status = connecting }

    core-s2 : core s2 ≡ c2
    core-s2 =
        core-update now connecting [] (record (warn now [] s0) { serial_settings = settings })
        ∙ ap as_connecting (core-warn now [] s0)

    with_task : Core → Core
    with_task c = record c { connects = c.connects ++ (task ∷ []) }

    go :
        (b : Bool)
        → IsLinked (
            core (
              if b
              then record s2 {
                connects =
                    s2.connects
                    ++ (record { generation = suc s.generation; phase = requesting } ∷ []);
              }
              else fail_connect now [] (suc s.generation) s2))
    go true =
        subst (λ c. IsLinked (with_task c)) (sym core-s2)
          (IsLinked-attempt (with_task c2) refl refl f a (
            All-append (IsOldTask (suc s.generation)) s.connects (task ∷ []) older
              (omega arith, tt)))
    go false =
        fail_connect-IsLinked now [] task s2
          (subst (λ c. IsOpenTask c task) (sym core-s2) (λ e. refl))
          (subst IsLinked (sym core-s2) (IsLinked-attempt c2 refl refl f a older))

-- A session that is offline has no disconnection under way.
calm_offline : (c : Core) → IsLinked c → is_offline c.status ≡ true → c.disconnect_task ≡ false
unfolding is_offline
calm_offline c i o = elim (Bool-cases c.disconnect_task) [
  | inl t ↦ absurd (cc (sym o ∙ ap is_offline (i.ending t).shown))
  | inr f ↦ f
]

pub connect-IsLinked :
    (supported : Bool) (now : ℕ) (settings : SerialSettings) (s : DeviceSession)
    → IsLinked (core s)
    → IsLinked (core (connect supported now settings s))
unfolding connect
connect-IsLinked supported now settings s i = go (is_offline s.state.status) (is_given s.port) refl
  where
    go :
        (a b : Bool)
        → is_offline s.state.status ≡ a
        → IsLinked (
            core (
              if not a
              then s
              else if b
              then disconnect_then now (connects_with settings) s
              else begin_connect supported now settings s))
    go false b e = i
    go true true e =
        let f : s.disconnect_task ≡ false = calm_offline (core s) i e in
        disconnect_then-IsLinked now (connects_with settings) s f (i.calm f) i.old
    go true false e =
        let f : s.disconnect_task ≡ false = calm_offline (core s) i e in
        begin_connect-IsLinked supported now settings s f (i.calm f) i.old

advance_phase-IsLinked :
    (phase : ConnectPhase) (now generation : ℕ) (s : DeviceSession)
    → s.closing ≡ false
    → generation ≡ s.generation
    → IsLinked (core s)
    → IsLinked (core (advance_phase phase now generation s))
unfolding advance_phase
advance_phase-IsLinked requesting now generation s k e i = record {
  live = λ l.
      let v : IsLive (core s) = i.live l in
      record { not_closing = v.not_closing; has_writer = v.has_writer; is_reading = v.is_reading };
  ending = λ t. absurd (cc (sym k ∙ (i.ending t).is_closing));
  calm = i.calm;
  old = All-append (IsOldTask s.generation) s.connects (task ∷ []) i.old (old, tt);
  opens = All-append (IsOpenTask (core s)) s.connects (task ∷ []) i.opens ((λ p. k), tt);
}
  where
    task : ConnectTask
    task = record { generation = generation; phase = opening }

    old : generation ≤ s.generation
    old = omega arith
advance_phase-IsLinked opening now generation s k e i =
    let s1 : DeviceSession = record s { writer = some s.supply; supply = suc s.supply } in
    let reads : Option Reader = some (current_reader generation) in
    subst (λ c. IsLinked (record c { reader = reads })) (sym (core-update now connected [] s1))
      (relink (core s) (record (core s1) { status = connected; reader = reads }) i
        (λ l. record {
          not_closing = k;
          has_writer = (s.supply, refl);
          is_reading = ap (λ g. some (current_reader g)) e;
        })
        (λ t. absurd (cc (sym k ∙ (i.ending t).is_closing))))

advance_task-IsLinked :
    (outcome : ConnectOutcome) (now : ℕ) (t : ConnectTask) (s : DeviceSession)
    → IsOpenTask (core s) t
    → IsLinked (core s)
    → IsLinked (core (advance_task outcome now (some t) s))
unfolding advance_task
advance_task-IsLinked (refused message) now t s o i = fail_connect-IsLinked now message t s o i
advance_task-IsLinked granted now t s o i = go (t.generation == s.generation) refl
  where
    go :
        (b : Bool)
        → t.generation == s.generation ≡ b
        → IsLinked (core (if b then advance_phase t.phase now t.generation s else s))
    go false e = i
    go true e =
        let same : t.generation ≡ s.generation = (==_iff t.generation s.generation).0 e in
        advance_phase-IsLinked t.phase now t.generation s (o same) same i

-- An attempt leaves the list of those that wait.
remove_connect-IsLinked :
    (n : ℕ) (s : DeviceSession)
    → IsLinked (core s)
    → IsLinked (core (record s { connects = remove_connect n s.connects }))
remove_connect-IsLinked n s i = record {
  live = λ l.
      let v : IsLive (core s) = i.live l in
      record { not_closing = v.not_closing; has_writer = v.has_writer; is_reading = v.is_reading };
  ending = λ t.
      let v : IsEnding (core s) = i.ending t in
      record { shown = v.shown; is_closing = v.is_closing; at_most_one = v.at_most_one };
  calm = i.calm;
  old = All-remove_connect (IsOldTask s.generation) s.connects n i.old;
  opens = All-remove_connect (IsOpenTask (core s)) s.connects n i.opens;
}

pub advance-IsLinked :
    (n : ℕ) (outcome : ConnectOutcome) (now : ℕ) (s : DeviceSession)
    → IsLinked (core s)
    → IsLinked (core (advance n outcome now s))
unfolding advance advance_task
advance-IsLinked n outcome now s i = go (get_elem? s.connects n) refl
  where
    s1 : DeviceSession
    s1 = record s { connects = remove_connect n s.connects }

    go :
        (t : Option ConnectTask)
        → get_elem? s.connects n ≡ t
        → IsLinked (core (advance_task outcome now t s1))
    go none e = remove_connect-IsLinked n s i
    go (some t) e =
        advance_task-IsLinked outcome now t s1
          (All-get (IsOpenTask (core s)) s.connects n t e i.opens) (remove_connect-IsLinked n s i)
