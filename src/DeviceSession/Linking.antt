-- ===== src/DeviceSession/Linking.antt =====
-- The invariant of the connection, and the specification of the queue, in every reachable state of a
-- session of frontend/src/lib/device-session.ts.
use friendly_ai_explorer.Common.{
  if◌then◌else◌, length, ℕ, suc, ◌+◌, ◌≡◌, refl, sym, subst, ◌⊎◌, inl, inr, Bool, true, false,
  Option, List, [], ◌∷◌, ◌++◌,
}
use friendly_ai_explorer.DeviceSession.State.{
  DeviceSession, ConnectionKind, session, Work, is_connected,
}
use friendly_ai_explorer.DeviceSession.View.{
  cancel_paste, clear, set_send_encoding, configure, add_annotation, resize, receive_bytes,
}
use friendly_ai_explorer.DeviceSession.Writes.{or_same, write, write_bytes}
use friendly_ai_explorer.DeviceSession.Paste.{send_paste, resume_paste, wake_paste}
use friendly_ai_explorer.DeviceSession.Work.{
  is_current_work, settle_work, start_work_at, start_work, end_work_at, end_work,
}
use friendly_ai_explorer.DeviceSession.Steps.{
  UserCall, connects, disconnects, writes, writes_bytes, pastes, cancels, clears, configures,
  annotates, encodes, resizes, shows_hex, Arrival, advances, reads, receives, finishes, starts_work,
  ends_work, wakes_paste, call, arrive, step, run,
}
use friendly_ai_explorer.DeviceSession.Core.{
  Core, core, core-set_send_encoding, core-configure, core-add_annotation, core-resize,
  core-receive_bytes,
}
use friendly_ai_explorer.DeviceSession.Linked.{IsLive, IsLinked, relink, disconnect-IsLinked}
use friendly_ai_explorer.DeviceSession.Attempts.{connect-IsLinked, advance-IsLinked}
use friendly_ai_explorer.DeviceSession.Recovery.{read_event-IsLinked, finish_disconnect-IsLinked}
use friendly_ai_explorer.DeviceSession.Additions.{
  Adds, add_core, send_paste-Adds, write-Adds, write_bytes-Adds, resume_paste-Adds, wake_paste-Adds,
}
use friendly_ai_explorer.DeviceSession.Turns.{Turn-refl}
use friendly_ai_explorer.DeviceSession.Changes.{
  Change, turns, joins, Allowed, step-Allowed, step-Change,
}

-- The connection does not depend on the writes.
IsLinked-writes :
    (c : Core) (queue delivered : List Work) (writing : Bool) (supply : ℕ)
    → IsLinked c
    → IsLinked
        (record c { queue = queue; delivered = delivered; writing = writing; supply = supply })
IsLinked-writes c queue delivered writing supply i =
    relink c (record c { queue = queue; delivered = delivered; writing = writing; supply = supply })
      i
      (λ l.
        let v : IsLive c = i.live l in
        record {
          not_closing = v.not_closing;
          has_writer = v.has_writer;
          is_reading = v.is_reading;
        })
      (λ t. (i.ending t).shown)

Adds-IsLinked : (c d : Core) → Adds c d → IsLinked c → IsLinked d
Adds-IsLinked c d (inl e) i = subst IsLinked (sym e) i
Adds-IsLinked c d (inr (l, (bytes, e))) i =
    subst IsLinked (sym e)
      (IsLinked-writes c (add_core bytes c).queue c.delivered c.writing (suc c.supply) i)

same-IsLinked : (c d : Core) → d ≡ c → IsLinked c → IsLinked d
same-IsLinked c d e i = subst IsLinked (sym e) i

module _ (table : ℕ → ℕ → Option (List ℕ)) where
  settle_work-IsLinked :
      (written : Bool) (now : ℕ) (w : Work) (rest : List Work) (s : DeviceSession)
      → IsLinked (core s)
      → IsLinked (core (settle_work table written now w rest s))
  unfolding settle_work
  settle_work-IsLinked written now w rest s i =
      Adds-IsLinked (core s1) (core (resume_paste table s.paste w.id written now s1))
        (resume_paste-Adds table s.paste w.id written now s1)
        (IsLinked-writes (core s) rest s.delivered false s.supply i)
    where
      s1 : DeviceSession
      s1 = record s {
        queue = rest;
        writing = false;
        metrics =
            if written
            then record s.metrics { transmitted = s.metrics.transmitted + length w.bytes }
            else s.metrics;
      }

  start_work-IsLinked :
      (now : ℕ) (s : DeviceSession) → IsLinked (core s) → IsLinked (core (start_work table now s))
  unfolding start_work start_work_at
  start_work-IsLinked now s i = go s.writing s.queue
    where
      started :
          (w : Work) (rest : List Work) (b : Bool)
          → IsLinked (
              core (
                if b
                then record s { writing = true; delivered = s.delivered ++ (w ∷ []) }
                else settle_work table false now w rest s))
      started w rest true =
          IsLinked-writes (core s) s.queue (s.delivered ++ (w ∷ [])) true s.supply i
      started w rest false = settle_work-IsLinked false now w rest s i

      go :
          (n : Bool) (q : List Work)
          → IsLinked (core (if n then s else start_work_at table q now s))
      go true q = i
      go false [] = i
      go false (w ∷ rest) = started w rest (is_current_work w s)

  end_work-IsLinked :
      (written : Bool) (now : ℕ) (s : DeviceSession)
      → IsLinked (core s)
      → IsLinked (core (end_work table written now s))
  unfolding end_work end_work_at
  end_work-IsLinked written now s i = go s.writing s.queue
    where
      go :
          (n : Bool) (q : List Work)
          → IsLinked (core (if n then end_work_at table q written now s else s))
      go false q = i
      go true [] = i
      go true (w ∷ rest) = settle_work-IsLinked written now w rest s i

  module _ (supported : Bool) where
    call-IsLinked :
        (c : UserCall) (now : ℕ) (s : DeviceSession)
        → IsLinked (core s)
        → IsLinked (core (call table supported c now s))
    unfolding call cancel_paste clear
    call-IsLinked connects now s i = connect-IsLinked supported now s.serial_settings s i
    call-IsLinked disconnects now s i = disconnect-IsLinked now s i
    call-IsLinked (writes_bytes bytes) now s i =
        Adds-IsLinked (core s) (core (write_bytes bytes s)) (write_bytes-Adds bytes s) i
    call-IsLinked (writes text) now s i =
        Adds-IsLinked (core s) (core (write table text s)) (write-Adds table text s) i
    call-IsLinked (pastes text o token) now s i =
        Adds-IsLinked (core s) (core (or_same s (send_paste table now text o token s)))
          (send_paste-Adds table now text o token s) i
    call-IsLinked cancels now s i = i
    call-IsLinked clears now s i = i
    call-IsLinked (configures c) now s i =
        same-IsLinked (core s) (core (or_same s (configure now c s))) (core-configure now c s) i
    call-IsLinked (annotates text) now s i =
        same-IsLinked (core s) (core (or_same s (add_annotation now text s)))
          (core-add_annotation now text s) i
    call-IsLinked (encodes encoding) now s i =
        same-IsLinked (core s) (core (set_send_encoding now encoding s))
          (core-set_send_encoding now encoding s) i
    call-IsLinked (resizes cols rows) now s i =
        same-IsLinked (core s) (core (resize cols rows s)) (core-resize cols rows s) i
    call-IsLinked (shows_hex hex) now s i = i

    arrive-IsLinked :
        (a : Arrival) (now : ℕ) (s : DeviceSession)
        → IsLinked (core s)
        → IsLinked (core (arrive table supported a now s))
    unfolding arrive
    arrive-IsLinked (advances n outcome) now s i = advance-IsLinked n outcome now s i
    arrive-IsLinked (reads e) now s i = read_event-IsLinked e now s i
    arrive-IsLinked (receives bytes text) now s i =
        same-IsLinked (core s) (core (receive_bytes now bytes text s))
          (core-receive_bytes now bytes text s) i
    arrive-IsLinked finishes now s i = finish_disconnect-IsLinked supported now s i
    arrive-IsLinked starts_work now s i = start_work-IsLinked now s i
    arrive-IsLinked (ends_work written) now s i = end_work-IsLinked written now s i
    arrive-IsLinked wakes_paste now s i =
        Adds-IsLinked (core s) (core (wake_paste s.paste now s)) (wake_paste-Adds s.paste now s) i

    step-IsLinked :
        (e : (UserCall ⊎ Arrival) × ℕ) (s : DeviceSession)
        → IsLinked (core s)
        → IsLinked (core (step table supported e s))
    unfolding step
    step-IsLinked (inl c, now) s i = call-IsLinked c now s i
    step-IsLinked (inr a, now) s i = arrive-IsLinked a now s i

    pub run-IsLinked_from :
        (es : List ((UserCall ⊎ Arrival) × ℕ)) (s : DeviceSession)
        → IsLinked (core s)
        → IsLinked (core (run table supported es s))
    unfolding run
    run-IsLinked_from [] s i = i
    run-IsLinked_from (e ∷ es) s i =
        run-IsLinked_from es (step table supported e s) (step-IsLinked e s i)

    pub run-Change_from :
        (es : List ((UserCall ⊎ Arrival) × ℕ)) (s : DeviceSession)
        → IsLinked (core s)
        → Change (core s) (core (run table supported es s))
    unfolding run
    run-Change_from [] s i = turns (Turn-refl (core s))
    run-Change_from (e ∷ es) s i =
        joins (step-Change table supported e s i)
          (run-Change_from es (step table supported e s) (step-IsLinked e s i))

session-IsLinked : (kind : ConnectionKind) → IsLinked (core (session kind))
unfolding session is_connected
session-IsLinked kind = record {
  live = λ l. absurd (cc l);
  ending = λ t. absurd (cc t);
  calm = λ f. refl;
  old = tt;
  opens = tt;
}

-- In every state that a new session reaches, by any calls and by whatever ends its awaits: a connected
-- session is not being closed, has a writer, and its reader reads for the current connection; while a
-- disconnection is under way the session shows that it disconnects and at most one call waits for its
-- end; no call waits without one; and an attempt to connect that is still current is on a session that
-- is not being closed.
pub run-IsLinked :
    (table : ℕ → ℕ → Option (List ℕ)) (supported : Bool)
    → (es : List ((UserCall ⊎ Arrival) × ℕ)) (kind : ConnectionKind)
    → IsLinked (core (run table supported es (session kind)))
run-IsLinked table supported es kind =
    run-IsLinked_from table supported es (session kind) (session-IsLinked kind)

-- In every state that a new session reaches, by any calls and by whatever ends its awaits, each further
-- step does one thing only: it changes the connection and leaves the queue, the delivered writes and the
-- running one as they are; or the connection stays as it is, and a write joins the queue of a connected
-- session at its end, or the first write is handed to the writer, while none is, on a session that is
-- connected with the generation and the writer that the write was made for, or the first write leaves,
-- whereupon at most one write joins the queue of a connected session.
pub step-run_Allowed :
    (table : ℕ → ℕ → Option (List ℕ)) (supported : Bool)
    → (es : List ((UserCall ⊎ Arrival) × ℕ)) (kind : ConnectionKind)
    → (e : (UserCall ⊎ Arrival) × ℕ)
    → (let s = run table supported es (session kind) in
        Allowed (core s) (core (step table supported e s)))
step-run_Allowed table supported es kind e =
    step-Allowed table supported e (run table supported es (session kind))
      (run-IsLinked table supported es kind)

pub run-Change :
    (table : ℕ → ℕ → Option (List ℕ)) (supported : Bool)
    → (es : List ((UserCall ⊎ Arrival) × ℕ)) (kind : ConnectionKind)
    → Change (core (session kind)) (core (run table supported es (session kind)))
run-Change table supported es kind =
    run-Change_from table supported es (session kind) (session-IsLinked kind)
