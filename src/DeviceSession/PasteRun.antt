-- ===== src/DeviceSession/PasteRun.antt =====
-- The plan of a paste under the steps of `sendPaste` and of the queue of writes, in
-- frontend/src/lib/device-session.ts.
use friendly_ai_explorer.Common.{
  ◌==◌, if◌then◌else◌, length, length-append, Bytes, ℕ, ◌+◌, ◌≡◌, refl, sym, ap, subst, ◌∙◌, Bool,
  true, false, not, ◌&&◌, Option, none, some, List, [], ◌∷◌, ◌++◌, append_assoc, arith,
}
use friendly_ai_explorer.TerminalPaste.{PasteOptions}
use friendly_ai_explorer.DeviceSession.State.{
  DeviceSession, Work, Paste, PastePhase, opening_bracket, sending, delaying, closing_bracket,
  entering,
}
use friendly_ai_explorer.DeviceSession.View.{refresh}
use friendly_ai_explorer.DeviceSession.Writes.{encode}
use friendly_ai_explorer.DeviceSession.Paste.{
  bracket_open, finish_paste, paste_write, end_paste, send_chunks, has_more, chunk_written,
  new_paste, begin_paste, wake_at, wake_paste, press_enter, resume_at, resume_paste,
}
use friendly_ai_explorer.DeviceSession.Work.{
  is_current_work, settle_work, start_work_at, start_work, end_work_at, end_work,
}
use friendly_ai_explorer.DeviceSession.PasteKept.{PasteView, view, view-refresh}
use friendly_ai_explorer.DeviceSession.PastePlan.{
  is_between, IsSplit, IsPlan, IsSplit-phase, requeue, IsQueued-tail, IsPlanned, IsPlanned-if,
  some-IsPlanned, paste_write-IsPlanned, finish_paste-IsPlanned, end_paste-IsPlanned,
  send_chunks-IsPlanned,
}

chunk_written-IsPlanned :
    (now : ℕ) (p : Paste) (s : DeviceSession)
    → length p.current ≡ 1
    → IsSplit s.state.paste_sent s.state.paste_total p
    → IsPlanned (view (chunk_written now p s))
unfolding chunk_written is_between
chunk_written-IsPlanned now p s l i =
    IsPlanned-if (has_more p.rest && p.delayed) (record s1 { paste = some p2 })
      (send_chunks now p1 p.rest s1)
      (λ q e. some-IsPlanned s1.queue s1.state.paste_sent s1.state.paste_total p2 q e (record {
        queued = λ k. absurd (cc k);
        split = record {
          parts = split.parts;
          counts = split.counts;
          whole = split.whole;
          done = split.done;
        };
        one = λ k. absurd (cc k);
        between = λ k. refl;
        entered = λ k. absurd (cc k);
      }))
      (send_chunks-IsPlanned now p1 p.rest s1 refl refl split)
  where
    p1 : Paste
    p1 = record p { written = p.written ++ p.current; current = [] }

    p2 : Paste
    p2 = record p1 { phase = delaying }

    s0 : DeviceSession
    s0 = record s { state = record s.state { paste_sent = s.state.paste_sent + 1 } }

    s1 : DeviceSession
    s1 = refresh now s0

    same : view s1 ≡ view s0
    same = view-refresh now s0

    longer : s.state.paste_sent + 1 ≡ length (p.written ++ p.current)
    longer =
        let n : s.state.paste_sent ≡ length p.written = i.counts in
        let m : length (p.written ++ p.current) ≡ length p.written + length p.current =
          length-append p.written p.current in
        omega arith

    split : IsSplit s1.state.paste_sent s1.state.paste_total p1
    split = record {
      parts = append_assoc p.written p.current p.rest ∙ i.parts;
      counts = ap {A = PasteView} (λ v. v.sent) same ∙ longer;
      whole = ap {A = PasteView} (λ v. v.total) same ∙ i.whole;
      done = λ k.
          let n : length p.written ≡ length p.chunks = ap length (i.done k) in
          let m : length (p.written ++ (p.current ++ p.rest)) ≡ length p.chunks =
            ap length i.parts in
          let a : length (p.written ++ (p.current ++ p.rest))
              ≡ length p.written + length (p.current ++ p.rest) =
            length-append p.written (p.current ++ p.rest) in
          let b : length (p.current ++ p.rest) ≡ length p.current + length p.rest =
            length-append p.current p.rest in
          absurd (omega arith);
    }

pub begin_paste-IsPlanned :
    (now : ℕ) (o : PasteOptions) (token : ℕ × ℕ) (chunks : List Bytes) (s : DeviceSession)
    → IsPlanned (view (begin_paste now o token chunks s))
unfolding begin_paste is_between
begin_paste-IsPlanned now o token chunks s =
    IsPlanned-if o.bracketed
      (paste_write p opening_bracket (some bracket_open) s1 (end_paste now p s1))
      (send_chunks now p chunks s1)
      (paste_write-IsPlanned p opening_bracket (some bracket_open) s1 (end_paste now p s1)
        (λ b m. record {
          queued = λ k. absurd (cc k);
          split =
              IsSplit-phase s1.state.paste_sent s1.state.paste_total p opening_bracket s1.supply
                split;
          one = λ k. absurd (cc k);
          between = λ k. refl;
          entered = λ k. absurd (cc k);
        })
        (end_paste-IsPlanned now p s1 split))
      (send_chunks-IsPlanned now p chunks s1 refl refl split)
  where
    p : Paste
    p = new_paste o token chunks

    s0 : DeviceSession
    s0 = record s {
      paste = some p;
      paste_aborted = false;
      state = record s.state { pasting = true; paste_sent = 0; paste_total = length chunks };
    }

    s1 : DeviceSession
    s1 = refresh now s0

    same : view s1 ≡ view s0
    same = view-refresh now s0

    split : IsSplit s1.state.paste_sent s1.state.paste_total p
    split = record {
      parts = refl;
      counts = ap {A = PasteView} (λ v. v.sent) same;
      whole = ap {A = PasteView} (λ v. v.total) same;
      done = λ k. absurd (cc k);
    }

pub wake_paste-IsPlanned :
    (p : Option Paste) (now : ℕ) (s : DeviceSession)
    → s.paste ≡ p
    → IsPlanned (view s)
    → IsPlanned (view (wake_paste p now s))
unfolding wake_paste wake_at is_between
wake_paste-IsPlanned none now s e i = i
wake_paste-IsPlanned (some p) now s e i = go p.phase refl
  where
    plan : IsPlan s.queue s.state.paste_sent s.state.paste_total p
    plan = i p e

    go : (phase : PastePhase) → p.phase ≡ phase → IsPlanned (view (wake_at phase now p s))
    go delaying k =
        send_chunks-IsPlanned now p p.rest s refl (plan.between (ap is_between k)) plan.split
    go opening_bracket k = i
    go sending k = i
    go closing_bracket k = i
    go entering k = i

-- A step that leaves the paste alone.
pub kept-IsPlanned :
    (s t : DeviceSession) → view t ≡ view s → IsPlanned (view s) → IsPlanned (view t)
kept-IsPlanned s t e i = subst IsPlanned (sym e) i

module _ (table : ℕ → ℕ → Option (List ℕ)) where
  press_enter-IsPlanned :
      (now : ℕ) (p : Paste) (s : DeviceSession)
      → IsSplit s.state.paste_sent s.state.paste_total p
      → IsPlanned (view (press_enter table now p s))
  unfolding press_enter is_between
  press_enter-IsPlanned now p s i = go p.completed (p.append_enter) (not s.paste_aborted) refl
    where
      go :
          (a b c : Bool)
          → p.completed ≡ a
          → IsPlanned (
              view (
                if a && b && c
                then paste_write p entering (encode table p.ending s) s (finish_paste now s)
                else finish_paste now s))
      go false b c k = finish_paste-IsPlanned now s
      go true false c k = finish_paste-IsPlanned now s
      go true true false k = finish_paste-IsPlanned now s
      go true true true k =
          paste_write-IsPlanned p entering (encode table p.ending s) s (finish_paste now s)
            (λ b m. record {
              queued = λ e. absurd (cc e);
              split = IsSplit-phase s.state.paste_sent s.state.paste_total p entering s.supply i;
              one = λ e. absurd (cc e);
              between = λ e. absurd (cc e);
              entered = λ e. i.done k;
            })
            (finish_paste-IsPlanned now s)

  resume_at-IsPlanned :
      (phase : PastePhase) (settled : Bool) (now : ℕ) (p : Paste) (queue : List Work)
      → (s : DeviceSession) → s.paste ≡ some p
      → p.phase ≡ phase
      → IsPlan queue s.state.paste_sent s.state.paste_total p
      → IsPlanned (view (resume_at table phase settled now p s))
  unfolding resume_at is_between
  resume_at-IsPlanned opening_bracket true now p queue s h e i =
      send_chunks-IsPlanned now (record p { bracket_started = true }) p.rest s refl
        (i.between (ap is_between e))
        (record {
          parts = i.split.parts;
          counts = i.split.counts;
          whole = i.split.whole;
          done = i.split.done;
        })
  resume_at-IsPlanned opening_bracket false now p queue s h e i =
      end_paste-IsPlanned now p s i.split
  resume_at-IsPlanned sending true now p queue s h e i =
      chunk_written-IsPlanned now p s (i.one e) i.split
  resume_at-IsPlanned sending false now p queue s h e i = end_paste-IsPlanned now p s i.split
  resume_at-IsPlanned delaying settled now p queue s h e i = λ q k.
      some-IsPlanned s.queue s.state.paste_sent s.state.paste_total p q (sym h ∙ k) (
        requeue queue s.queue s.state.paste_sent s.state.paste_total p i
          (λ m. let other : delaying ≡ sending = sym e ∙ m in absurd (cc other)))
  resume_at-IsPlanned closing_bracket true now p queue s h e i =
      press_enter-IsPlanned now p s i.split
  resume_at-IsPlanned closing_bracket false now p queue s h e i = finish_paste-IsPlanned now s
  resume_at-IsPlanned entering settled now p queue s h e i = finish_paste-IsPlanned now s

  -- The first write leaves the queue.
  resume_paste-IsPlanned :
      (p : Option Paste) (w : Work) (settled : Bool) (now : ℕ) (s : DeviceSession)
      → s.paste ≡ p
      → IsPlanned (record (view s) { queue = w ∷ s.queue })
      → IsPlanned (view (resume_paste table p w.id settled now s))
  unfolding resume_paste
  resume_paste-IsPlanned none w settled now s e i =
      λ q k. let none_is : none ≡ some q = sym e ∙ k in absurd (cc none_is)
  resume_paste-IsPlanned (some p) w settled now s e i = go (p.awaiting == w.id) refl
    where
      plan : IsPlan (w ∷ s.queue) s.state.paste_sent s.state.paste_total p
      plan = i p e

      go :
          (b : Bool)
          → (p.awaiting == w.id) ≡ b
          → IsPlanned (view (if b then resume_at table p.phase settled now p s else s))
      go true k = resume_at-IsPlanned p.phase settled now p (w ∷ s.queue) s e refl plan
      go false k = λ q m.
          some-IsPlanned s.queue s.state.paste_sent s.state.paste_total p q (sym e ∙ m) (
            requeue (w ∷ s.queue) s.queue s.state.paste_sent s.state.paste_total p plan
              (λ x. IsQueued-tail p.awaiting p.current w s.queue k (plan.queued x)))

  settle_work-IsPlanned :
      (written : Bool) (now : ℕ) (w : Work) (rest : List Work) (s : DeviceSession)
      → s.queue ≡ w ∷ rest
      → IsPlanned (view s)
      → IsPlanned (view (settle_work table written now w rest s))
  unfolding settle_work
  settle_work-IsPlanned written now w rest s e i =
      resume_paste-IsPlanned s.paste w written now
        (record s {
          queue = rest;
          writing = false;
          metrics =
              if written
              then record s.metrics { transmitted = s.metrics.transmitted + length w.bytes }
              else s.metrics;
        })
        refl (subst (λ q. IsPlanned (record (view s) { queue = q })) e i)

  pub start_work-IsPlanned :
      (now : ℕ) (s : DeviceSession) → IsPlanned (view s) → IsPlanned (view (start_work table now s))
  unfolding start_work start_work_at
  start_work-IsPlanned now s i =
      IsPlanned-if s.writing s (start_work_at table s.queue now s) i (go s.queue refl)
    where
      go : (q : List Work) → s.queue ≡ q → IsPlanned (view (start_work_at table q now s))
      go [] e = i
      go (w ∷ rest) e =
          IsPlanned-if (is_current_work w s)
            (record s { writing = true; delivered = s.delivered ++ (w ∷ []) })
            (settle_work table false now w rest s) i (settle_work-IsPlanned false now w rest s e i)

  pub end_work-IsPlanned :
      (written : Bool) (now : ℕ) (s : DeviceSession)
      → IsPlanned (view s)
      → IsPlanned (view (end_work table written now s))
  unfolding end_work end_work_at
  end_work-IsPlanned written now s i =
      IsPlanned-if s.writing (end_work_at table s.queue written now s) s (go s.queue refl) i
    where
      go : (q : List Work) → s.queue ≡ q → IsPlanned (view (end_work_at table q written now s))
      go [] e = i
      go (w ∷ rest) e = settle_work-IsPlanned written now w rest s e i
