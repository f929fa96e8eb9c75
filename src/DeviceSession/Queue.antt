-- ===== src/DeviceSession/Queue.antt =====
-- The order of the writes of a session of frontend/src/lib/device-session.ts.
use friendly_ai_explorer.Common.{
  Bytes, ℕ, suc, ◌≤◌, ◌≡◌, sym, ap₂, subst, ◌⊎◌, Bool, true, false, Option, List, [], ◌∷◌, ◌++◌,
  append-nil, append_assoc, arith,
}
use friendly_ai_explorer.DeviceSession.State.{ConnectionKind, session, Work}
use friendly_ai_explorer.DeviceSession.Steps.{UserCall, Arrival, run}
use friendly_ai_explorer.DeviceSession.Core.{Core}
use friendly_ai_explorer.DeviceSession.Changes.{Change, turns, adds, starts, settles, joins}
use friendly_ai_explorer.DeviceSession.Additions.{new_work}
use friendly_ai_explorer.DeviceSession.Linking.{run-Change}

-- The writes have increasing numbers, from `lo` and below `hi`.
unfoldable pub Ordered : ℕ → List Work → ℕ → Type 0
Ordered lo [] hi = lo ≤ hi
Ordered lo (w ∷ ws) hi = (lo ≤ w.id) × Ordered (suc w.id) ws hi

-- The writes of the queue that were not handed to the writer.
unfoldable pub not_handed : Bool → List Work → List Work
not_handed writing [] = []
not_handed true (w ∷ rest) = rest
not_handed false (w ∷ rest) = w ∷ rest

abbrev pub InOrder : Core → Type 0
InOrder c = Ordered 0 (c.delivered ++ not_handed c.writing c.queue) c.supply

Ordered-widen : (lo hi hi' : ℕ) (ws : List Work) → hi ≤ hi' → Ordered lo ws hi → Ordered lo ws hi'
unfolding Ordered
Ordered-widen lo hi hi' [] l o = omega arith
Ordered-widen lo hi hi' (w ∷ ws) l o = (o.0, Ordered-widen (suc w.id) hi hi' ws l o.1)

Ordered-lower : (lo lo' hi : ℕ) (ws : List Work) → lo ≤ lo' → Ordered lo' ws hi → Ordered lo ws hi
unfolding Ordered
Ordered-lower lo lo' hi [] l o = omega arith
Ordered-lower lo lo' hi (w ∷ ws) l o = let k : lo' ≤ w.id = o.0 in (omega arith, o.1)

Ordered-add :
    (lo : ℕ) (ws : List Work) (w : Work)
    → Ordered lo ws w.id
    → Ordered lo (ws ++ (w ∷ [])) (suc w.id)
unfolding Ordered
Ordered-add lo [] w o = (o, omega arith)
Ordered-add lo (v ∷ ws) w o = (o.0, Ordered-add (suc v.id) ws w o.1)

Ordered-remove :
    (lo hi : ℕ) (vs : List Work) (w : Work) (ws : List Work)
    → Ordered lo (vs ++ (w ∷ ws)) hi
    → Ordered lo (vs ++ ws) hi
unfolding Ordered
Ordered-remove lo hi [] w ws o =
    Ordered-lower lo (suc w.id) hi ws (let k : lo ≤ w.id = o.0 in omega arith) o.1
Ordered-remove lo hi (v ∷ vs) w ws o = (o.0, Ordered-remove (suc v.id) hi vs w ws o.1)

pub Ordered-prefix : (lo hi : ℕ) (vs ws : List Work) → Ordered lo (vs ++ ws) hi → Ordered lo vs hi
unfolding Ordered
Ordered-prefix lo hi vs [] o = subst (λ xs. Ordered lo xs hi) (append-nil vs) o
Ordered-prefix lo hi vs (w ∷ ws) o = Ordered-prefix lo hi vs ws (Ordered-remove lo hi vs w ws o)

adds-InOrder :
    (c : Core) (bytes : Bytes) (writing : Bool) (queue : List Work)
    → Ordered 0 (c.delivered ++ not_handed writing queue) c.supply
    → Ordered 0
        (c.delivered ++ not_handed writing (queue ++ (new_work bytes c ∷ [])))
        (suc c.supply)
unfolding not_handed
adds-InOrder c bytes true [] o =
    Ordered-widen 0 c.supply (suc c.supply) (c.delivered ++ []) (omega arith) o
adds-InOrder c bytes false [] o =
    Ordered-add 0 c.delivered (new_work bytes c) (Ordered-prefix 0 c.supply c.delivered [] o)
adds-InOrder c bytes true (w ∷ rest) o =
    subst (λ xs. Ordered 0 xs (suc c.supply))
      (append_assoc c.delivered rest (new_work bytes c ∷ []))
      (Ordered-add 0 (c.delivered ++ rest) (new_work bytes c) o)
adds-InOrder c bytes false (w ∷ rest) o =
    subst (λ xs. Ordered 0 xs (suc c.supply))
      (append_assoc c.delivered (w ∷ rest) (new_work bytes c ∷ []))
      (Ordered-add 0 (c.delivered ++ (w ∷ rest)) (new_work bytes c) o)

settles-InOrder :
    (delivered : List Work) (hi : ℕ) (writing : Bool) (w : Work) (rest : List Work)
    → Ordered 0 (delivered ++ not_handed writing (w ∷ rest)) hi
    → Ordered 0 (delivered ++ not_handed false rest) hi
unfolding not_handed
settles-InOrder delivered hi true w [] o = o
settles-InOrder delivered hi true w (v ∷ rest) o = o
settles-InOrder delivered hi false w [] o = Ordered-remove 0 hi delivered w [] o
settles-InOrder delivered hi false w (v ∷ rest) o = Ordered-remove 0 hi delivered w (v ∷ rest) o

Change-InOrder : {c d : Core} → Change c d → InOrder c → InOrder d
unfolding not_handed
Change-InOrder {c} {d} (turns t) o =
    let same : d.delivered ++ not_handed d.writing d.queue
        ≡ c.delivered ++ not_handed c.writing c.queue =
      ap₂ (λ xs ys. xs ++ ys) t.same_delivered (ap₂ not_handed t.same_writing t.same_queue) in
    subst (λ xs. Ordered 0 xs d.supply) (sym same)
      (Ordered-widen 0 c.supply d.supply (c.delivered ++ not_handed c.writing c.queue) t.grows o)
Change-InOrder {c} {d} (adds bytes l) o = adds-InOrder c bytes c.writing c.queue o
Change-InOrder {c} {d} (starts w rest q n l g i) o =
    let waits : not_handed c.writing c.queue ≡ w ∷ rest = ap₂ not_handed n q in
    let before : Ordered 0 (c.delivered ++ (w ∷ rest)) c.supply =
      subst (λ xs. Ordered 0 (c.delivered ++ xs) c.supply) waits o in
    subst (λ xs. Ordered 0 ((c.delivered ++ (w ∷ [])) ++ not_handed true xs) c.supply) (sym q)
      (subst (λ xs. Ordered 0 xs c.supply) (sym (append_assoc c.delivered (w ∷ []) rest)) before)
Change-InOrder {c} {d} (settles w rest q) o =
    settles-InOrder c.delivered c.supply c.writing w rest
      (subst (λ xs. Ordered 0 (c.delivered ++ not_handed c.writing xs) c.supply) q o)
Change-InOrder {c} {d} (joins x y) o = Change-InOrder y (Change-InOrder x o)

-- In every state that a new session reaches, the writes that were handed to the writer, followed by
-- those that wait for it, have strictly increasing numbers, in the order in which they joined the
-- queue, and the number of the next write is above them all. So no write is handed over twice, and
-- none before an earlier one that still waits.
pub run-Ordered :
    (table : ℕ → ℕ → Option (List ℕ)) (supported : Bool)
    → (es : List ((UserCall ⊎ Arrival) × ℕ)) (kind : ConnectionKind)
    → (let s = run table supported es (session kind) in
        Ordered 0 (s.delivered ++ not_handed s.writing s.queue) s.supply)
unfolding session not_handed Ordered
run-Ordered table supported es kind =
    Change-InOrder (run-Change table supported es kind) (omega arith)
