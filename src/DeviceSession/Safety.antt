-- ===== src/DeviceSession/Safety.antt =====
-- The writes of a session of frontend/src/lib/device-session.ts across its connections.
use friendly_ai_explorer.Common.{
  All-map, All, All-append, ℕ, suc, ◌≤◌, ◌<◌, ◌≡◌, refl, sym, ap, subst, ◌∙◌, ◌⊎◌, inl, inr, Bool,
  true, false, Option, some, List, [], ◌∷◌, ◌++◌, append-nil, append_assoc, arith,
}
use friendly_ai_explorer.DeviceSession.State.{
  DeviceSession, ConnectionKind, session, Work, is_connected,
}
use friendly_ai_explorer.DeviceSession.Steps.{UserCall, Arrival, run}
use friendly_ai_explorer.DeviceSession.Core.{Core, core}
use friendly_ai_explorer.DeviceSession.Turns.{IsBelow, IsBelow-le, IsBack}
use friendly_ai_explorer.DeviceSession.Changes.{Change, turns, adds, starts, settles, joins}
use friendly_ai_explorer.DeviceSession.Additions.{new_work}
use friendly_ai_explorer.DeviceSession.Linking.{run-Change, run-IsLinked, run-Change_from}

-- The writers of a session and of its writes are older than the next identity.
abbrev pub IsOwned : Core → Type 0
IsOwned c = IsBelow c.supply c.writer × All (λ w. IsBelow c.supply w.writer) c.queue

-- The writes from before the identity `n` cannot be handed to the writer any more.
pub record IsCut (n : ℕ) (c : Core) : Type 0 where
  pub reached : n ≤ c.supply
  pub own : is_connected c.status ≡ true → (v : ℕ) × (c.writer ≡ some v) × (n ≤ v)
  pub past : All (λ w. (n ≤ w.id) ⊎ IsBelow n w.writer) c.queue

-- The writes that are handed over in between are from `n` on.
abbrev pub IsLater : ℕ → List Work → List Work → Type 0
IsLater n before after = (later : List Work) × (after ≡ before ++ later) × All (λ w. n ≤ w.id) later

Change-IsOwned : {c d : Core} → Change c d → IsOwned c → IsOwned d
unfolding IsBelow
Change-IsOwned {c} {d} (turns t) o = (
  t.bound o.0,
  subst (All (λ w. IsBelow d.supply w.writer)) (sym t.same_queue) (
      All-map (λ w. IsBelow c.supply w.writer) (λ w. IsBelow d.supply w.writer) c.queue
        (λ w b. IsBelow-le c.supply d.supply w.writer t.grows b) o.1),
)
Change-IsOwned {c} {d} (adds bytes l) o =
    let wider : (v : Option ℕ) → IsBelow c.supply v → IsBelow (suc c.supply) v =
      λ v. IsBelow-le c.supply (suc c.supply) v (omega arith) in
    (
      wider c.writer o.0,
      All-append (λ w. IsBelow (suc c.supply) w.writer) c.queue (new_work bytes c ∷ [])
          (All-map (λ w. IsBelow c.supply w.writer) (λ w. IsBelow (suc c.supply) w.writer) c.queue
            (λ w. wider w.writer) o.1)
          (wider c.writer o.0, tt),
    )
Change-IsOwned {c} {d} (starts w rest q n l g i) o = o
Change-IsOwned {c} {d} (settles w rest q) o =
    let all : All (λ w. IsBelow c.supply w.writer) (w ∷ rest) =
      subst (All (λ w. IsBelow c.supply w.writer)) q o.1 in
    (o.0, all.1)
Change-IsOwned {c} {d} (joins x y) o = Change-IsOwned y (Change-IsOwned x o)

-- An offline session cuts off all writes before.
offline-IsCut : (c : Core) → is_connected c.status ≡ false → IsOwned c → IsCut c.supply c
offline-IsCut c off o = record {
  reached = omega arith;
  own = λ l. absurd (cc (sym off ∙ l));
  past =
      All-map (λ w. IsBelow c.supply w.writer) (λ w. (c.supply ≤ w.id) ⊎ IsBelow c.supply w.writer)
        c.queue (λ w b. inr b) o.1;
}

IsLater-refl : (n : ℕ) (ws : List Work) → IsLater n ws ws
IsLater-refl n ws = ([], sym (append-nil ws), tt)

IsLater-trans : (n : ℕ) (us vs ws : List Work) → IsLater n us vs → IsLater n vs ws → IsLater n us ws
IsLater-trans n us vs ws (xs, e, a) (ys, f, b) = (
  xs ++ ys,
  f ∙ ap (λ zs. zs ++ ys) e ∙ append_assoc us xs ys,
  All-append (λ w. n ≤ w.id) xs ys a b,
)

-- The first write of the queue, when it is handed over.
starts-IsLater :
    (n : ℕ) (c : Core) (w : Work) (rest : List Work)
    → IsCut n c
    → c.queue ≡ w ∷ rest
    → is_connected c.status ≡ true
    → w.writer ≡ c.writer
    → n ≤ w.id
unfolding IsBelow
starts-IsLater n c w rest k q l i =
    go (k.own l) (subst (All (λ w. (n ≤ w.id) ⊎ IsBelow n w.writer)) q k.past).0
  where
    go : (v : ℕ) × (c.writer ≡ some v) × (n ≤ v) → (n ≤ w.id) ⊎ IsBelow n w.writer → n ≤ w.id
    go (v, e, m) (inl h) = h
    go (v, e, m) (inr b) = let below : v < n = subst (IsBelow n) (i ∙ e) b in absurd (omega arith)

Change-IsCut :
    (n : ℕ) {c d : Core} → Change c d → IsCut n c → IsCut n d × IsLater n c.delivered d.delivered
Change-IsCut n {c} {d} (turns t) k = (
  record {
    reached =
        let l : n ≤ c.supply = k.reached in let m : c.supply ≤ d.supply = t.grows in omega arith;
    own = λ l. owned (t.back l);
    past = subst (All (λ w. (n ≤ w.id) ⊎ IsBelow n w.writer)) (sym t.same_queue) k.past;
  },
  subst (IsLater n c.delivered) (sym t.same_delivered) (IsLater-refl n c.delivered),
)
  where
    owned : IsBack c d → (v : ℕ) × (d.writer ≡ some v) × (n ≤ v)
    owned (inr (v, e, l)) = (v, e, let m : n ≤ c.supply = k.reached in omega arith)
    owned (inl (l, e)) =
        let o : (v : ℕ) × (c.writer ≡ some v) × (n ≤ v) = k.own l in (o.0, e ∙ o.1, o.2)
Change-IsCut n {c} {d} (adds bytes l) k = (
  record {
    reached = let m : n ≤ c.supply = k.reached in omega arith;
    own = k.own;
    past =
        All-append (λ w. (n ≤ w.id) ⊎ IsBelow n w.writer) c.queue (new_work bytes c ∷ []) k.past
          (inl k.reached, tt);
  },
  IsLater-refl n c.delivered,
)
Change-IsCut n {c} {d} (starts w rest q f l g i) k = (
  record { reached = k.reached; own = k.own; past = k.past },
  (w ∷ [], refl, (starts-IsLater n c w rest k q l i, tt)),
)
Change-IsCut n {c} {d} (settles w rest q) k = (
  record {
    reached = k.reached;
    own = k.own;
    past = (subst (All (λ w. (n ≤ w.id) ⊎ IsBelow n w.writer)) q k.past).1;
  },
  IsLater-refl n c.delivered,
)
Change-IsCut n {c} {d} (joins x y) k =
    let first = Change-IsCut n x k in
    let second = Change-IsCut n y first.0 in (second.0, IsLater-trans n _ _ _ first.1 second.1)

-- Once a reachable session is not connected, no write that joined its queue before is handed to a
-- writer, whatever happens next, a new connection included: what is handed over later are writes whose
-- numbers start at the next number of that moment.
pub run-never_late :
    (table : ℕ → ℕ → Option (List ℕ)) (supported : Bool)
    → (es later : List ((UserCall ⊎ Arrival) × ℕ)) (kind : ConnectionKind)
    → (let s = run table supported es (session kind) in
        is_connected s.state.status ≡ false
        → IsLater s.supply s.delivered (run table supported later s).delivered)
unfolding session IsBelow
run-never_late table supported es later kind off =
    let s : DeviceSession = run table supported es (session kind) in
    let owned : IsOwned (core s) = Change-IsOwned (run-Change table supported es kind) (tt, tt) in
    (Change-IsCut s.supply
      (run-Change_from table supported later s (run-IsLinked table supported es kind))
      (offline-IsCut (core s) off owned)).1
