-- ===== src/DeviceSession/Turns.antt =====
-- What the connection of a session does to its queue of writes and to its writer, in
-- frontend/src/lib/device-session.ts.
use friendly_ai_explorer.Common.{
  if◌then◌else◌, ℕ, suc, ◌≤◌, ◌<◌, ◌≡◌, refl, sym, ap, subst, ◌∙◌, ◌⊎◌, inl, inr, Bool, true, false,
  Option, none, some, List, [], arith,
}
use friendly_ai_explorer.DeviceSession.State.{
  DeviceSession, SessionStatus, connected, disconnecting, is_connected,
}
use friendly_ai_explorer.DeviceSession.View.{update, cancel_paste}
use friendly_ai_explorer.DeviceSession.Link.{disconnect}
use friendly_ai_explorer.DeviceSession.Core.{Core, core, core-update}

unfoldable pub IsBelow : ℕ → Option ℕ → Type 0
IsBelow n none = Unit
IsBelow n (some v) = v < n

pub IsBelow-le : (m n : ℕ) (v : Option ℕ) → m ≤ n → IsBelow m v → IsBelow n v
unfolding IsBelow
IsBelow-le m n none l b = tt
IsBelow-le m n (some v) l b = omega arith

-- A session is connected by the writer it had, or by a new one.
abbrev pub IsBack : Core → Core → Type 0
IsBack c c' =
    ((is_connected c.status ≡ true) × (c'.writer ≡ c.writer))
    ⊎ ((v : ℕ) × (c'.writer ≡ some v) × (c.supply ≤ v))

-- A change of the connection: the writes stay as they are.
pub record Turn (c c' : Core) : Type 0 where
  pub same_queue : c'.queue ≡ c.queue
  pub same_writing : c'.writing ≡ c.writing
  pub same_delivered : c'.delivered ≡ c.delivered
  pub grows : c.supply ≤ c'.supply
  pub back : is_connected c'.status ≡ true → IsBack c c'
  pub bound : IsBelow c.supply c.writer → IsBelow c'.supply c'.writer

pub Turn-refl : (c : Core) → Turn c c
Turn-refl c = record {
  same_queue = refl;
  same_writing = refl;
  same_delivered = refl;
  grows = omega arith;
  back = λ l. inl (l, refl);
  bound = λ b. b;
}

pub Turn-trans : (c d e : Core) → Turn c d → Turn d e → Turn c e
Turn-trans c d e t u = record {
  same_queue = u.same_queue ∙ t.same_queue;
  same_writing = u.same_writing ∙ t.same_writing;
  same_delivered = u.same_delivered ∙ t.same_delivered;
  grows =
      let l : c.supply ≤ d.supply = t.grows in let k : d.supply ≤ e.supply = u.grows in omega arith;
  back = λ l. back (u.back l);
  bound = λ b. u.bound (t.bound b);
}
  where
    back : IsBack d e → IsBack c e
    back (inr (v, w, l)) = inr (v, w, let g : c.supply ≤ d.supply = t.grows in omega arith)
    back (inl (l, w)) = again (t.back l)
      where
        again : IsBack c d → IsBack c e
        again (inl (k, x)) = inl (k, w ∙ x)
        again (inr (v, x, g)) = inr (v, w ∙ x, g)

pub Turn-if :
    (b : Bool) (c : Core) (s t : DeviceSession)
    → Turn c (core s)
    → Turn c (core t)
    → Turn c (core (if b then s else t))
Turn-if true c s t p q = p
Turn-if false c s t p q = q

-- A change of what the writes do not depend on.
pub same-Turn :
    (s t : DeviceSession)
    → core t ≡ record (core t) {
      status = s.state.status;
      writer = s.writer;
      queue = s.queue;
      writing = s.writing;
      delivered = s.delivered;
      supply = s.supply;
    }
    → Turn (core s) (core t)
same-Turn s t e = subst (Turn (core s)) (sym e) (record {
  same_queue = refl;
  same_writing = refl;
  same_delivered = refl;
  grows = omega arith;
  back = λ l. inl (l, refl);
  bound = λ b. b;
})

-- `update` to a status that is not connected.
pub update-Turn :
    (now : ℕ) (status : SessionStatus) (message : List ℕ) (s : DeviceSession)
    → is_connected status ≡ false
    → Turn (core s) (core (update now status message s))
update-Turn now status message s e =
    subst (Turn (core s)) (sym (core-update now status message s)) (record {
      same_queue = refl;
      same_writing = refl;
      same_delivered = refl;
      grows = omega arith;
      back = λ l. absurd (cc (sym e ∙ l));
      bound = λ b. b;
    })

-- `update` to `connected`, with a new writer.
pub connected-Turn :
    (now : ℕ) (s t : DeviceSession)
    → core t ≡ record (core s) { writer = some s.supply; supply = suc s.supply }
    → Turn (core s) (core (update now connected [] t))
unfolding IsBelow
connected-Turn now s t e =
    subst (Turn (core s)) (sym (core-update now connected [] t ∙ ap as_connected e)) (record {
      same_queue = refl;
      same_writing = refl;
      same_delivered = refl;
      grows = omega arith;
      back = λ l. inr (s.supply, refl, omega arith);
      bound = λ b. omega arith;
    })
  where
    as_connected : Core → Core
    as_connected c = record c { status = connected }

pub disconnect-Turn : (now : ℕ) (s : DeviceSession) → Turn (core s) (core (disconnect now s))
unfolding disconnect cancel_paste is_connected
disconnect-Turn now s =
    let s1 : DeviceSession = record (cancel_paste s) {
      closing = true;
      generation = suc s.generation;
    } in
    let s2 : DeviceSession = record s1 { disconnect_task = true } in
    Turn-if s.disconnect_task (core s) s1 (update now disconnecting [] s2) (same-Turn s s1 refl) (
      Turn-trans (core s) (core s2) (core (update now disconnecting [] s2)) (same-Turn s s2 refl)
        (update-Turn now disconnecting [] s2 refl))
