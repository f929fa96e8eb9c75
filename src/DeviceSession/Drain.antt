-- ===== src/DeviceSession/Drain.antt =====
-- The progress of the queue of writes of a session of frontend/src/lib/device-session.ts.
use friendly_ai_explorer.Common.{
  All-map, if◌then◌else◌, length, drop, All, All-append, ℕ, suc, ◌+◌, ◌≤◌, ◌≡◌, refl, sym, ap,
  subst, ◌∙◌, inl, inr, Bool, true, false, Option, List, [], ◌∷◌, ◌++◌, append-nil, append_assoc,
  arith,
}
use friendly_ai_explorer.DeviceSession.State.{DeviceSession, Work}
use friendly_ai_explorer.DeviceSession.Paste.{resume_paste}
use friendly_ai_explorer.DeviceSession.Work.{
  is_current_work, settle_work, start_work_at, start_work, end_work_at, end_work,
}
use friendly_ai_explorer.DeviceSession.Core.{Core, core}
use friendly_ai_explorer.DeviceSession.Additions.{Adds, new_work, resume_paste-Adds}

-- The queue without its first write, and with writes that are from `n` on.
record IsShorter (n : ℕ) (queue : List Work) (d : Core) : Type 0 where
  added : List Work
  rest_queue : d.queue ≡ drop 1 queue ++ added
  fresh : All (λ w. n ≤ w.id) added
  grown : n ≤ d.supply

All-rest : (P : Work → Type 0) (ws : List Work) → All P ws → All P (drop 1 ws)
All-rest P [] h = tt
All-rest P (w ∷ ws) h = h.1

Adds-IsShorter :
    (w : Work) (rest : List Work) (c d : Core)
    → c.queue ≡ rest
    → Adds c d
    → IsShorter c.supply (w ∷ rest) d
Adds-IsShorter w rest c d q (inl e) = record {
  added = [];
  rest_queue = ap {A = Core} (λ x. x.queue) e ∙ q ∙ sym (append-nil rest);
  fresh = tt;
  grown = let same : d.supply ≡ c.supply = ap {A = Core} (λ x. x.supply) e in omega arith;
}
Adds-IsShorter w rest c d q (inr (l, (bytes, e))) = record {
  added = new_work bytes c ∷ [];
  rest_queue = ap {A = Core} (λ x. x.queue) e ∙ ap (λ xs. xs ++ (new_work bytes c ∷ [])) q;
  fresh = (omega arith, tt);
  grown = let same : d.supply ≡ suc c.supply = ap {A = Core} (λ x. x.supply) e in omega arith;
}

Adds-idle : (c d : Core) → c.writing ≡ false → Adds c d → d.writing ≡ false
Adds-idle c d n (inl e) = ap {A = Core} (λ x. x.writing) e ∙ n
Adds-idle c d n (inr (l, (bytes, e))) = ap {A = Core} (λ x. x.writing) e ∙ n

module _ (table : ℕ → ℕ → Option (List ℕ)) where
  -- One turn of the queue: its first write starts, and the writer ends it, well or not.
  unfoldable pub take_turn : Bool → ℕ → DeviceSession → DeviceSession
  take_turn written now s = end_work table written now (start_work table now s)

  unfoldable pub take_turns : List (Bool × ℕ) → DeviceSession → DeviceSession
  take_turns [] s = s
  take_turns ((written, now) ∷ ts) s = take_turns ts (take_turn written now s)

  settle_work-IsShorter :
      (written : Bool) (now : ℕ) (w : Work) (rest : List Work) (s : DeviceSession)
      → IsShorter s.supply (w ∷ rest) (core (settle_work table written now w rest s))
  unfolding settle_work
  settle_work-IsShorter written now w rest s =
      Adds-IsShorter w rest (core s1) (core (resume_paste table s.paste w.id written now s1)) refl
        (resume_paste-Adds table s.paste w.id written now s1)
    where
      s1 : DeviceSession
      s1 = record s {
        queue = rest;
        writing = false;
        metrics =
            if written
            then record s.metrics { transmitted = s.metrics.transmitted + length w.bytes }
            else s.metrics;
      }

  end_work-idle :
      (written : Bool) (now : ℕ) (s : DeviceSession)
      → s.writing ≡ false
      → end_work table written now s ≡ s
  unfolding end_work
  end_work-idle written now s e = go s.writing e
    where
      go : (b : Bool) → b ≡ false → (if b then end_work_at table s.queue written now s else s) ≡ s
      go false h = refl
      go true h = absurd (cc h)

  end_work-busy :
      (written : Bool) (now : ℕ) (s : DeviceSession) (q : List Work)
      → s.writing ≡ true
      → s.queue ≡ q
      → end_work table written now s ≡ end_work_at table q written now s
  unfolding end_work
  end_work-busy written now s q e f = go s.writing e
    where
      go :
          (b : Bool)
          → b ≡ true
          → (if b then end_work_at table s.queue written now s else s)
            ≡ end_work_at table q written now s
      go true h = ap (λ xs. end_work_at table xs written now s) f
      go false h = absurd (cc h)

  settle_work-idle :
      (written : Bool) (now : ℕ) (w : Work) (rest : List Work) (s : DeviceSession)
      → (settle_work table written now w rest s).writing ≡ false
  unfolding settle_work
  settle_work-idle written now w rest s =
      Adds-idle (core s1) (core (resume_paste table s.paste w.id written now s1)) refl
        (resume_paste-Adds table s.paste w.id written now s1)
    where
      s1 : DeviceSession
      s1 = record s {
        queue = rest;
        writing = false;
        metrics =
            if written
            then record s.metrics { transmitted = s.metrics.transmitted + length w.bytes }
            else s.metrics;
      }

  empty-IsShorter : (s : DeviceSession) → s.queue ≡ [] → IsShorter s.supply [] (core s)
  empty-IsShorter s e = record { added = []; rest_queue = e; fresh = tt; grown = omega arith }

  take_turn-IsShorter :
      (written : Bool) (now : ℕ) (s : DeviceSession)
      → IsShorter s.supply s.queue (core (take_turn written now s))
  unfolding take_turn start_work start_work_at end_work_at
  take_turn-IsShorter written now s = go s.writing refl s.queue refl
    where
      ended : DeviceSession → Core
      ended t = core (end_work table written now t)

      started :
          (w : Work) (rest : List Work) (b : Bool)
          → s.writing ≡ false
          → s.queue ≡ w ∷ rest
          → IsShorter s.supply (w ∷ rest) (
              ended (
                if b
                then record s { writing = true; delivered = s.delivered ++ (w ∷ []) }
                else settle_work table false now w rest s))
      started w rest true n e =
          let t : DeviceSession = record s {
            writing = true;
            delivered = s.delivered ++ (w ∷ []);
          } in
          subst (λ u. IsShorter s.supply (w ∷ rest) (core u))
            (sym (end_work-busy written now t (w ∷ rest) refl e))
            (settle_work-IsShorter written now w rest t)
      started w rest false n e =
          let t : DeviceSession = settle_work table false now w rest s in
          subst (λ u. IsShorter s.supply (w ∷ rest) (core u))
            (sym (end_work-idle written now t (settle_work-idle false now w rest s)))
            (settle_work-IsShorter false now w rest s)

      go :
          (n : Bool)
          → s.writing ≡ n
          → (q : List Work) → s.queue ≡ q
          → IsShorter s.supply q (ended (if n then s else start_work_at table q now s))
      go true n [] e =
          subst (λ u. IsShorter s.supply [] (core u)) (sym (end_work-busy written now s [] n e))
            (empty-IsShorter s e)
      go true n (w ∷ rest) e =
          subst (λ u. IsShorter s.supply (w ∷ rest) (core u))
            (sym (end_work-busy written now s (w ∷ rest) n e))
            (settle_work-IsShorter written now w rest s)
      go false n [] e =
          subst (λ u. IsShorter s.supply [] (core u)) (sym (end_work-idle written now s n))
            (empty-IsShorter s e)
      go false n (w ∷ rest) e = started w rest (is_current_work w s) n e

  -- A queue of old writes, and of writes that are from `n` on.
  take_turns-fresh :
      (n : ℕ) (ts : List (Bool × ℕ)) (old new : List Work) (s : DeviceSession)
      → s.queue ≡ old ++ new
      → All (λ w. n ≤ w.id) new
      → n ≤ s.supply
      → length old ≤ length ts
      → All (λ w. n ≤ w.id) (take_turns ts s).queue
  unfolding take_turns
  take_turns-fresh n [] [] new s e a g l = subst (All (λ w. n ≤ w.id)) (sym e) a
  take_turns-fresh n [] (w ∷ old) new s e a g l = absurd (omega arith)
  take_turns-fresh n ((written, now) ∷ ts) [] new s e a g l =
      let t : DeviceSession = take_turn written now s in
      let k : IsShorter s.supply s.queue (core t) = take_turn-IsShorter written now s in
      take_turns-fresh n ts [] (drop 1 new ++ k.added) t
        (k.rest_queue ∙ ap (λ xs. drop 1 xs ++ k.added) e)
        (All-append (λ w. n ≤ w.id) (drop 1 new) k.added (All-rest (λ w. n ≤ w.id) new a)
          (All-map (λ w. s.supply ≤ w.id) (λ w. n ≤ w.id) k.added (λ w h. omega arith) k.fresh))
        (let h : s.supply ≤ t.supply = k.grown in omega arith) (omega arith)
  take_turns-fresh n ((written, now) ∷ ts) (w ∷ old) new s e a g l =
      let t : DeviceSession = take_turn written now s in
      let k : IsShorter s.supply s.queue (core t) = take_turn-IsShorter written now s in
      take_turns-fresh n ts old (new ++ k.added) t
        (k.rest_queue ∙ ap (λ xs. drop 1 xs ++ k.added) e ∙ append_assoc old new k.added)
        (All-append (λ w. n ≤ w.id) new k.added a
          (All-map (λ w. s.supply ≤ w.id) (λ w. n ≤ w.id) k.added (λ w h. omega arith) k.fresh))
        (let h : s.supply ≤ t.supply = k.grown in omega arith) (omega arith)

  -- The queue of writes makes progress: after as many turns of it as writes wait, each of which ends
  -- well or not, every one of these has left the queue, in any state of the session. What is in the
  -- queue then are writes whose numbers start at the next number of the first state.
  pub take_turns-settled :
      (ts : List (Bool × ℕ)) (s : DeviceSession)
      → length s.queue ≤ length ts
      → All (λ w. s.supply ≤ w.id) (take_turns ts s).queue
  take_turns-settled ts s l =
      take_turns-fresh s.supply ts s.queue [] s (sym (append-nil s.queue)) tt (omega arith) l
