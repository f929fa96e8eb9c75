-- ===== src/DeviceSession/Recovery.antt =====
-- The invariant of a session's connection under the events of `readSerial` and the end of a
-- disconnection, in frontend/src/lib/device-session.ts.
use friendly_ai_explorer.Common.{
  ◌==◌, if◌then◌else◌, ==_iff, Bool-cases, length, ℕ, suc, ◌+◌, ◌≤◌, ◌≡◌, refl, sym, ap, subst, ◌∙◌,
  ◌≢◌, inl, inr, Bool, true, false, not, ◌&&◌, Option, none, some, List, [], ◌∷◌, arith,
}
use friendly_ai_explorer.DeviceSession.State.{
  DeviceSession, connected, reconnecting, disconnected, error, Continuation, connects_with, reports,
  ReadPhase, reading, releasing, waiting, reopening, Reader, is_connected,
}
use friendly_ai_explorer.DeviceSession.View.{update, warn, cancel_paste, is_given}
use friendly_ai_explorer.DeviceSession.Link.{
  is_idle, ReadEvent, read_fails, read_ends, released, woken, reopened, refuses, is_active_reader,
  end_reader, set_phase, while_active, recover_read, lose_port, reopen, next_delay, read_step,
  read_at, read_event, continue_with, continue_all, finish_disconnect,
}
use friendly_ai_explorer.DeviceSession.Core.{Core, core, core-update, core-warn}
use friendly_ai_explorer.DeviceSession.Linked.{current_reader, IsLive, IsLinked, relink}
use friendly_ai_explorer.DeviceSession.Attempts.{begin_connect-IsLinked}

-- The reader of a session that is not connected may stop or wait for anything.
reader-IsLinked :
    (r : Option Reader) (s : DeviceSession)
    → is_connected s.state.status ≡ false
    → IsLinked (core s)
    → IsLinked (core (record s { reader = r }))
reader-IsLinked r s c i =
    relink (core s) (core (record s { reader = r })) i (λ l. absurd (cc (sym c ∙ l)))
      (λ t. (i.ending t).shown)

-- A session that waits for a lost port is not connected.
pub waits-not_connected :
    (r : Reader) (s : DeviceSession)
    → s.reader ≡ some r
    → r.phase ≢ reading
    → IsLinked (core s)
    → is_connected s.state.status ≡ false
waits-not_connected r s e w i = elim (Bool-cases (is_connected s.state.status)) [
  | inr f ↦ f
  | inl l ↦
      let same : some r ≡ some (current_reader s.generation) = sym e ∙ (i.live l).is_reading in
      let own : r ≡ current_reader s.generation = cc same in absurd (w (ap (λ x. x.phase) own))
]

-- What an active reader does, or its end.
while_active-IsLinked :
    (r : Reader) (s next : DeviceSession)
    → s.reader ≡ some r
    → (s.closing ≡ false → r.generation ≡ s.generation → IsLinked (core next))
    → IsLinked (core s)
    → IsLinked (core (while_active r s next))
unfolding while_active is_active_reader end_reader is_connected
while_active-IsLinked r s next e n i = go s.closing (r.generation == s.generation) refl refl
  where
    ended :
        (is_connected s.state.status ≡ true → IsLive (core s) → ⊥)
        → IsLinked (core (record s { reader = none }))
    ended dead =
        relink (core s) (core (record s { reader = none })) i (λ l. absurd (dead l (i.live l)))
          (λ t. (i.ending t).shown)

    go :
        (a b : Bool)
        → s.closing ≡ a
        → r.generation == s.generation ≡ b
        → IsLinked (core (if not a && b then next else record s { reader = none }))
    go true b k g = ended (λ l v. cc (sym k ∙ v.not_closing))
    go false true k g = n k ((==_iff r.generation s.generation).0 g)
    go false false k g = ended (λ l v.
        let same : some r ≡ some (current_reader s.generation) = sym e ∙ v.is_reading in
        let own : r ≡ current_reader s.generation = cc same in
        let own_generation : r.generation ≡ s.generation = ap (λ x. x.generation) own in
        let equal : (r.generation == s.generation) ≡ true =
          (==_iff r.generation s.generation).1 own_generation in
        cc (sym g ∙ equal))

reopen-IsLinked :
    (now : ℕ) (r : Reader) (s : DeviceSession)
    → s.closing ≡ false
    → r.generation ≡ s.generation
    → IsLinked (core s)
    → IsLinked (core (reopen now r s))
unfolding reopen set_phase
reopen-IsLinked now r s k g i =
    subst (λ c. IsLinked (record c { reader = reads })) (sym core-reopened)
      (relink (core s) (record (core s1) { status = connected; reader = reads }) i
        (λ l. record {
          not_closing = k;
          has_writer = (s.supply, refl);
          is_reading = ap (λ g. some (current_reader g)) g;
        })
        (λ t. absurd (cc (sym k ∙ (i.ending t).is_closing))))
  where
    s1 : DeviceSession
    s1 = record s { writer = some s.supply; supply = suc s.supply }

    reads : Option Reader
    reads = some (record r { phase = reading })

    as_connected : Core → Core
    as_connected c = record c { status = connected }

    core-reopened : core (update now connected [] (warn now [] s1)) ≡ as_connected (core s1)
    core-reopened =
        core-update now connected [] (warn now [] s1) ∙ ap as_connected (core-warn now [] s1)

lose_port-IsLinked :
    (now : ℕ) (r : Reader) (s : DeviceSession)
    → s.closing ≡ false
    → IsLinked (core s)
    → IsLinked (core (lose_port now r s))
unfolding lose_port set_phase cancel_paste is_connected
lose_port-IsLinked now r s k i =
    subst (λ c. IsLinked (record c { reader = lost })) (sym (core-update now reconnecting [] s1))
      (relink (core s) (record (core s) { status = reconnecting; reader = lost }) i
        (λ l. absurd (cc l)) (λ t. absurd (cc (sym k ∙ (i.ending t).is_closing))))
  where
    s1 : DeviceSession
    s1 = cancel_paste (record s { transport_version = s.transport_version + 1 })

    lost : Option Reader
    lost = some (record r { phase = releasing })

recover_read-IsLinked :
    (now : ℕ) (name : List ℕ) (s : DeviceSession)
    → IsLinked (core s)
    → IsLinked (core (recover_read now name s))
unfolding recover_read cancel_paste
recover_read-IsLinked now name s i =
    subst IsLinked
      (sym (
        core-warn now name (
          cancel_paste (record s {
            metrics = record s.metrics { read_recoveries = s.metrics.read_recoveries + 1 };
            transport_version = s.transport_version + 1;
          }))))
      i

read_step-IsLinked :
    (phase : ReadPhase) (event : ReadEvent) (now : ℕ) (r : Reader) (s : DeviceSession)
    → s.reader ≡ some r
    → (phase ≢ reading → is_connected s.state.status ≡ false)
    → IsLinked (core s)
    → IsLinked (core (read_step phase event now r s))
unfolding read_step set_phase
read_step-IsLinked reading (read_fails name) now r s e w i =
    while_active-IsLinked r s (recover_read now name s) e
      (λ k g. recover_read-IsLinked now name s i) i
read_step-IsLinked reading read_ends now r s e w i =
    while_active-IsLinked r s (lose_port now r s) e (λ k g. lose_port-IsLinked now r s k i) i
read_step-IsLinked reading released now r s e w i = i
read_step-IsLinked reading woken now r s e w i = i
read_step-IsLinked reading reopened now r s e w i = i
read_step-IsLinked reading refuses now r s e w i = i
read_step-IsLinked releasing released now r s e w i = go (is_idle s.queue)
  where
    s1 : DeviceSession
    s1 = record s { writer = none }

    off : is_connected s.state.status ≡ false
    off = w (λ p. cc p)

    linked : IsLinked (core s1)
    linked = relink (core s) (core s1) i (λ l. absurd (cc (sym off ∙ l))) (λ t. (i.ending t).shown)

    go :
        (b : Bool)
        → IsLinked (
            core (
              if not b
              then s
              else while_active r s1
                  (record s1 { reader = some (record r { phase = waiting 500 }) })))
    go false = i
    go true =
        while_active-IsLinked r s1 (record s1 { reader = some (record r { phase = waiting 500 }) })
          e (λ k g. reader-IsLinked (some (record r { phase = waiting 500 })) s1 off linked) linked
read_step-IsLinked releasing (read_fails name) now r s e w i = i
read_step-IsLinked releasing read_ends now r s e w i = i
read_step-IsLinked releasing woken now r s e w i = i
read_step-IsLinked releasing reopened now r s e w i = i
read_step-IsLinked releasing refuses now r s e w i = i
read_step-IsLinked (waiting delay) woken now r s e w i =
    let after : Option Reader = some (record r { phase = reopening delay }) in
    while_active-IsLinked r s (record s { reader = after }) e
      (λ k g. reader-IsLinked after s (w (λ p. cc p)) i) i
read_step-IsLinked (waiting delay) (read_fails name) now r s e w i = i
read_step-IsLinked (waiting delay) read_ends now r s e w i = i
read_step-IsLinked (waiting delay) released now r s e w i = i
read_step-IsLinked (waiting delay) reopened now r s e w i = i
read_step-IsLinked (waiting delay) refuses now r s e w i = i
read_step-IsLinked (reopening delay) reopened now r s e w i =
    while_active-IsLinked r s (reopen now r s) e (λ k g. reopen-IsLinked now r s k g i) i
read_step-IsLinked (reopening delay) refuses now r s e w i =
    let after : Option Reader = some (record r { phase = waiting (next_delay delay) }) in
    while_active-IsLinked r s (record s { reader = after }) e
      (λ k g. reader-IsLinked after s (w (λ p. cc p)) i) i
read_step-IsLinked (reopening delay) (read_fails name) now r s e w i = i
read_step-IsLinked (reopening delay) read_ends now r s e w i = i
read_step-IsLinked (reopening delay) released now r s e w i = i
read_step-IsLinked (reopening delay) woken now r s e w i = i

pub read_event-IsLinked :
    (event : ReadEvent) (now : ℕ) (s : DeviceSession)
    → IsLinked (core s)
    → IsLinked (core (read_event event now s))
unfolding read_event read_at
read_event-IsLinked event now s i = go s.reader refl
  where
    go : (r : Option Reader) → s.reader ≡ r → IsLinked (core (read_at r event now s))
    go none e = i
    go (some r) e =
        read_step-IsLinked r.phase event now r s e (λ w. waits-not_connected r s e w i) i

-- What waited for the end of a disconnection goes on, and there is at most one of these.
continue_all-IsLinked :
    (supported : Bool) (now : ℕ) (cs : List Continuation) (s : DeviceSession)
    → length cs ≤ 1
    → s.state.status ≡ disconnected
    → s.after_disconnect ≡ []
    → s.disconnect_task ≡ false
    → IsLinked (core s)
    → IsLinked (core (continue_all supported now cs s))
unfolding continue_all continue_with is_connected
continue_all-IsLinked supported now [] s l e a f i = i
continue_all-IsLinked supported now (connects_with settings ∷ []) s l e a f i =
    begin_connect-IsLinked supported now settings s f a i.old
continue_all-IsLinked supported now (reports message ∷ []) s l e a f i =
    subst IsLinked (sym (core-update now error message s)) (
      relink (core s) (record (core s) { status = error }) i (λ l. absurd (cc l))
        (λ t. absurd (cc (sym t ∙ f))))
continue_all-IsLinked supported now (c ∷ d ∷ cs) s l e a f i = absurd (omega arith)

pub finish_disconnect-IsLinked :
    (supported : Bool) (now : ℕ) (s : DeviceSession)
    → IsLinked (core s)
    → IsLinked (core (finish_disconnect supported now s))
unfolding finish_disconnect is_connected
finish_disconnect-IsLinked supported now s i =
    go s.disconnect_task (is_idle s.queue) (not (is_given s.reader)) refl
  where
    s0 : DeviceSession
    s0 = record s { writer = none; port = none; disconnect_task = false; after_disconnect = [] }

    s1 : DeviceSession
    s1 = update now disconnected [] (warn now [] s0)

    as_disconnected : Core → Core
    as_disconnected c = record c { status = disconnected }

    core-s1 : core s1 ≡ as_disconnected (core s0)
    core-s1 =
        core-update now disconnected [] (warn now [] s0) ∙ ap as_disconnected (core-warn now [] s0)

    linked : IsLinked (core s1)
    linked = subst IsLinked (sym core-s1) (record {
      live = λ l. absurd (cc l);
      ending = λ t. absurd (cc t);
      calm = λ f. refl;
      old = i.old;
      opens = i.opens;
    })

    go :
        (a b c : Bool)
        → s.disconnect_task ≡ a
        → IsLinked
            (core (if a && b && c then continue_all supported now s.after_disconnect s1 else s))
    go false b c t = i
    go true false c t = i
    go true true false t = i
    go true true true t =
        continue_all-IsLinked supported now s.after_disconnect s1 (i.ending t).at_most_one
          (ap {A = Core} (λ c. c.status) core-s1) (ap {A = Core} (λ c. c.after_disconnect) core-s1)
          (ap {A = Core} (λ c. c.disconnect_task) core-s1) linked
