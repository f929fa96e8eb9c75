-- ===== src/DeviceSession/Changes.antt =====
-- The specification of a session's queue of writes, and the steps of frontend/src/lib/device-session.ts
-- as its changes.
use friendly_ai_explorer.Common.{
  ◌==◌, if◌then◌else◌, ==_iff, length, Bytes, ℕ, ◌+◌, ◌≡◌, refl, sym, ap, subst, ◌⊎◌, inl, inr,
  Bool, true, false, ◌&&◌, Option, none, some, List, [], ◌∷◌, ◌++◌,
}
use friendly_ai_explorer.DeviceSession.State.{DeviceSession, Work, is_connected}
use friendly_ai_explorer.DeviceSession.View.{
  cancel_paste, set_send_encoding, configure, add_annotation, resize, clear, receive_bytes,
}
use friendly_ai_explorer.DeviceSession.Writes.{same_id, or_same, write, write_bytes}
use friendly_ai_explorer.DeviceSession.Paste.{send_paste, wake_paste}
use friendly_ai_explorer.DeviceSession.Work.{
  is_current_work, settle_work, start_work_at, start_work, end_work_at, end_work,
}
use friendly_ai_explorer.DeviceSession.Steps.{
  UserCall, connects, disconnects, writes, writes_bytes, pastes, cancels, clears, configures,
  annotates, encodes, resizes, shows_hex, Arrival, advances, reads, receives, finishes, starts_work,
  ends_work, wakes_paste, call, arrive, step,
}
use friendly_ai_explorer.DeviceSession.Core.{
  Core, core, core-set_send_encoding, core-configure, core-add_annotation, core-resize,
  core-receive_bytes,
}
use friendly_ai_explorer.DeviceSession.Linked.{IsLinked}
use friendly_ai_explorer.DeviceSession.Additions.{
  Adds, add_core, send_paste-Adds, write-Adds, write_bytes-Adds, resume_paste-Adds, wake_paste-Adds,
}
use friendly_ai_explorer.DeviceSession.Turns.{Turn, Turn-refl, disconnect-Turn}
use friendly_ai_explorer.DeviceSession.TurnSteps.{connect-Turn, advance-Turn}
use friendly_ai_explorer.DeviceSession.ReadTurns.{read_event-Turn, finish_disconnect-Turn}

-- What may happen to the queue: the connection changes; a connected session gets a write; the first
-- write is handed to the writer, if it was made for this connection; the first write settles.
pub data Change : Core → Core → Type 0 where
  turns : {c d : Core} → Turn c d → Change c d
  adds : {c : Core} (bytes : Bytes) → is_connected c.status ≡ true → Change c (add_core bytes c)
  starts :
      {c : Core} (w : Work) (rest : List Work)
      → c.queue ≡ w ∷ rest
      → c.writing ≡ false
      → is_connected c.status ≡ true
      → w.generation ≡ c.generation
      → w.writer ≡ c.writer
      → Change c (record c { writing = true; delivered = c.delivered ++ (w ∷ []) })
  settles :
      {c : Core} (w : Work) (rest : List Work)
      → c.queue ≡ w ∷ rest
      → Change c (record c { queue = rest; writing = false })
  joins : {c d e : Core} → Change c d → Change d e → Change c e

-- What one step may do: a change of the connection that leaves the writes as they are, or, on a
-- connection that stays as it is, a new write at the end of the queue, the start of the first write,
-- or its end, and then at most one new write.
pub data Allowed : Core → Core → Type 0 where
  connection : {c d : Core} → Turn c d → Allowed c d
  addition :
      {c : Core} (bytes : Bytes) → is_connected c.status ≡ true → Allowed c (add_core bytes c)
  start :
      {c : Core} (w : Work) (rest : List Work)
      → c.queue ≡ w ∷ rest
      → c.writing ≡ false
      → is_connected c.status ≡ true
      → w.generation ≡ c.generation
      → w.writer ≡ c.writer
      → Allowed c (record c { writing = true; delivered = c.delivered ++ (w ∷ []) })
  end :
      {c d : Core} (w : Work) (rest : List Work)
      → c.queue ≡ w ∷ rest
      → Adds (record c { queue = rest; writing = false }) d
      → Allowed c d

Adds-Change : (c d : Core) → Adds c d → Change c d
Adds-Change c d (inl e) = subst (Change c) (sym e) (turns (Turn-refl c))
Adds-Change c d (inr (l, (bytes, e))) = subst (Change c) (sym e) (adds bytes l)

Allowed-Change : (c d : Core) → Allowed c d → Change c d
Allowed-Change c d (connection t) = turns t
Allowed-Change c _ (addition bytes l) = adds bytes l
Allowed-Change c _ (start w rest q n l g i) = starts w rest q n l g i
Allowed-Change c d (end w rest q a) =
    joins (settles w rest q) (Adds-Change (record c { queue = rest; writing = false }) d a)

Adds-Allowed : (c d : Core) → Adds c d → Allowed c d
Adds-Allowed c d (inl e) = subst (Allowed c) (sym e) (connection (Turn-refl c))
Adds-Allowed c d (inr (l, (bytes, e))) = subst (Allowed c) (sym e) (addition bytes l)

same-Allowed : (c d : Core) → d ≡ c → Allowed c d
same-Allowed c d e = subst (Allowed c) (sym e) (connection (Turn-refl c))

same_id-≡ : (a b : Option ℕ) → same_id a b ≡ true → a ≡ b
unfolding same_id
same_id-≡ none none e = refl
same_id-≡ none (some b) e = absurd (cc e)
same_id-≡ (some a) none e = absurd (cc e)
same_id-≡ (some a) (some b) e = ap some ((==_iff a b).0 e)

module _ (table : ℕ → ℕ → Option (List ℕ)) where
  settle_work-Allowed :
      (written : Bool) (now : ℕ) (w : Work) (rest : List Work) (s : DeviceSession)
      → s.queue ≡ w ∷ rest
      → Allowed (core s) (core (settle_work table written now w rest s))
  unfolding settle_work
  settle_work-Allowed written now w rest s e =
      end w rest e (resume_paste-Adds table s.paste w.id written now s1)
    where
      s1 : DeviceSession
      s1 = record s {
        queue = rest;
        writing = false;
        metrics =
            if written
            then record s.metrics { transmitted = s.metrics.transmitted + length w.bytes }
            else s.metrics;
      }

  pub start_work-Allowed :
      (now : ℕ) (s : DeviceSession) → Allowed (core s) (core (start_work table now s))
  unfolding start_work start_work_at is_current_work
  start_work-Allowed now s = go s.writing refl s.queue refl
    where
      started :
          (w : Work) (rest : List Work) (a b c : Bool)
          → s.writing ≡ false
          → s.queue ≡ w ∷ rest
          → is_connected s.state.status ≡ a
          → w.generation == s.generation ≡ b
          → same_id w.writer s.writer ≡ c
          → Allowed (core s) (
              core (
                if a && b && c
                then record s { writing = true; delivered = s.delivered ++ (w ∷ []) }
                else settle_work table false now w rest s))
      started w rest true true true n q l g i =
          start w rest q n l ((==_iff w.generation s.generation).0 g)
            (same_id-≡ w.writer s.writer i)
      started w rest true true false n q l g i = settle_work-Allowed false now w rest s q
      started w rest true false c n q l g i = settle_work-Allowed false now w rest s q
      started w rest false b c n q l g i = settle_work-Allowed false now w rest s q

      go :
          (n : Bool)
          → s.writing ≡ n
          → (q : List Work) → s.queue ≡ q
          → Allowed (core s) (core (if n then s else start_work_at table q now s))
      go true n q e = connection (Turn-refl (core s))
      go false n [] e = connection (Turn-refl (core s))
      go false n (w ∷ rest) e =
          started w rest (is_connected s.state.status) (w.generation == s.generation)
            (same_id w.writer s.writer) n e refl refl refl

  pub end_work-Allowed :
      (written : Bool) (now : ℕ) (s : DeviceSession)
      → Allowed (core s) (core (end_work table written now s))
  unfolding end_work end_work_at
  end_work-Allowed written now s = go s.writing s.queue refl
    where
      go :
          (n : Bool) (q : List Work)
          → s.queue ≡ q
          → Allowed (core s) (core (if n then end_work_at table q written now s else s))
      go false q e = connection (Turn-refl (core s))
      go true [] e = connection (Turn-refl (core s))
      go true (w ∷ rest) e = settle_work-Allowed written now w rest s e

  module _ (supported : Bool) where
    call-Allowed :
        (c : UserCall) (now : ℕ) (s : DeviceSession)
        → Allowed (core s) (core (call table supported c now s))
    unfolding call cancel_paste clear
    call-Allowed connects now s = connection (connect-Turn supported now s.serial_settings s)
    call-Allowed disconnects now s = connection (disconnect-Turn now s)
    call-Allowed (writes_bytes bytes) now s =
        Adds-Allowed (core s) (core (write_bytes bytes s)) (write_bytes-Adds bytes s)
    call-Allowed (writes text) now s =
        Adds-Allowed (core s) (core (write table text s)) (write-Adds table text s)
    call-Allowed (pastes text o token) now s =
        Adds-Allowed (core s) (core (or_same s (send_paste table now text o token s)))
          (send_paste-Adds table now text o token s)
    call-Allowed cancels now s = connection (Turn-refl (core s))
    call-Allowed clears now s = connection (Turn-refl (core s))
    call-Allowed (configures c) now s =
        same-Allowed (core s) (core (or_same s (configure now c s))) (core-configure now c s)
    call-Allowed (annotates text) now s =
        same-Allowed (core s) (core (or_same s (add_annotation now text s)))
          (core-add_annotation now text s)
    call-Allowed (encodes encoding) now s =
        same-Allowed (core s) (core (set_send_encoding now encoding s))
          (core-set_send_encoding now encoding s)
    call-Allowed (resizes cols rows) now s =
        same-Allowed (core s) (core (resize cols rows s)) (core-resize cols rows s)
    call-Allowed (shows_hex hex) now s = connection (Turn-refl (core s))

    arrive-Allowed :
        (a : Arrival) (now : ℕ) (s : DeviceSession)
        → IsLinked (core s)
        → Allowed (core s) (core (arrive table supported a now s))
    unfolding arrive
    arrive-Allowed (advances n outcome) now s i = connection (advance-Turn n outcome now s)
    arrive-Allowed (reads e) now s i = connection (read_event-Turn e now s i)
    arrive-Allowed (receives bytes text) now s i =
        same-Allowed (core s) (core (receive_bytes now bytes text s))
          (core-receive_bytes now bytes text s)
    arrive-Allowed finishes now s i = connection (finish_disconnect-Turn supported now s)
    arrive-Allowed starts_work now s i = start_work-Allowed now s
    arrive-Allowed (ends_work written) now s i = end_work-Allowed written now s
    arrive-Allowed wakes_paste now s i =
        Adds-Allowed (core s) (core (wake_paste s.paste now s)) (wake_paste-Adds s.paste now s)

    pub step-Allowed :
        (e : (UserCall ⊎ Arrival) × ℕ) (s : DeviceSession)
        → IsLinked (core s)
        → Allowed (core s) (core (step table supported e s))
    unfolding step
    step-Allowed (inl c, now) s i = call-Allowed c now s
    step-Allowed (inr a, now) s i = arrive-Allowed a now s i

    pub step-Change :
        (e : (UserCall ⊎ Arrival) × ℕ) (s : DeviceSession)
        → IsLinked (core s)
        → Change (core s) (core (step table supported e s))
    step-Change e s i =
        Allowed-Change (core s) (core (step table supported e s)) (step-Allowed e s i)
