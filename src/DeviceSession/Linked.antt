-- ===== src/DeviceSession/Linked.antt =====
-- The invariant of a session's connection, and the steps of `connect`, `readSerial` and `disconnect`.
use friendly_ai_explorer.Common.{
  All-map, if◌then◌else◌, Bool-cases, length, get_elem?, All, ℕ, zero, suc, ◌≤◌, ◌≡◌, refl, sym, ap,
  subst, ◌∙◌, inl, inr, Bool, true, false, some, List, [], ◌∷◌, arith,
}
use friendly_ai_explorer.DeviceSession.State.{
  DeviceSession, disconnecting, ConnectTask, reading, Reader, is_connected,
}
use friendly_ai_explorer.DeviceSession.View.{update, cancel_paste}
use friendly_ai_explorer.DeviceSession.Link.{disconnect, remove_connect}
use friendly_ai_explorer.DeviceSession.Core.{Core, core, core-update}

abbrev pub IsOldTask : ℕ → ConnectTask → Type 0
IsOldTask generation t = t.generation ≤ generation

abbrev pub IsOpenTask : Core → ConnectTask → Type 0
IsOpenTask c t = t.generation ≡ c.generation → c.closing ≡ false

abbrev pub current_reader : ℕ → Reader
current_reader generation = record { generation = generation; phase = reading }

-- A connected session can be used: it has a writer, and its reader reads for this connection.
pub record IsLive (c : Core) : Type 0 where
  pub not_closing : c.closing ≡ false
  pub has_writer : (v : ℕ) × (c.writer ≡ some v)
  pub is_reading : c.reader ≡ some (current_reader c.generation)

pub record IsEnding (c : Core) : Type 0 where
  pub shown : c.status ≡ disconnecting
  pub is_closing : c.closing ≡ true
  pub at_most_one : length c.after_disconnect ≤ 1

pub record IsLinked (c : Core) : Type 0 where
  pub live : is_connected c.status ≡ true → IsLive c
  pub ending : c.disconnect_task ≡ true → IsEnding c
  pub calm : c.disconnect_task ≡ false → c.after_disconnect ≡ []
  pub old : All (IsOldTask c.generation) c.connects
  pub opens : All (IsOpenTask c) c.connects

pub All-get :
    {A : Type 0} (P : A → Type 0) (xs : List A) (n : ℕ) (x : A)
    → get_elem? xs n ≡ some x
    → All P xs
    → P x
All-get P [] n x e h = absurd (cc e)
All-get P (y ∷ xs) zero x e h = let same : y ≡ x = cc e in subst P same h.0
All-get P (y ∷ xs) (suc n) x e h = All-get P xs n x e h.1

pub All-remove_connect :
    (P : ConnectTask → Type 0) (tasks : List ConnectTask) (n : ℕ)
    → All P tasks
    → All P (remove_connect n tasks)
unfolding remove_connect
All-remove_connect P [] zero h = tt
All-remove_connect P [] (suc n) h = tt
All-remove_connect P (t ∷ tasks) zero h = h.1
All-remove_connect P (t ∷ tasks) (suc n) h = (h.0, All-remove_connect P tasks n h.1)

-- A change that leaves the generation, the attempts to connect and the disconnection alone.
pub relink :
    (c rest : Core)
    → (let c' = record rest {
      closing = c.closing;
      disconnect_task = c.disconnect_task;
      after_disconnect = c.after_disconnect;
      generation = c.generation;
      connects = c.connects;
    } in
        IsLinked c
        → (is_connected rest.status ≡ true → IsLive c')
        → (c.disconnect_task ≡ true → rest.status ≡ disconnecting)
        → IsLinked c')
relink c rest i l e = record {
  live = l;
  ending = λ k. record {
    shown = e k;
    is_closing = (i.ending k).is_closing;
    at_most_one = (i.ending k).at_most_one;
  };
  calm = i.calm;
  old = i.old;
  opens = i.opens;
}

-- A session that is not being closed has no disconnection under way.
pub calm_open : (c : Core) → IsLinked c → c.closing ≡ false → c.disconnect_task ≡ false
calm_open c i k = elim (Bool-cases c.disconnect_task) [
  | inl t ↦ absurd (cc (sym k ∙ (i.ending t).is_closing))
  | inr f ↦ f
]

-- `disconnect` while no disconnection is under way.
pub disconnect-IsLinked_fresh :
    (now : ℕ) (s : DeviceSession)
    → s.disconnect_task ≡ false
    → All (IsOldTask s.generation) s.connects
    → length s.after_disconnect ≤ 1
    → IsLinked (core (disconnect now s))
unfolding disconnect cancel_paste is_connected
disconnect-IsLinked_fresh now s f o l = go s.disconnect_task f
  where
    s1 : DeviceSession
    s1 = record (cancel_paste s) { closing = true; generation = suc s.generation }

    ended : DeviceSession
    ended = record s1 { disconnect_task = true }

    go :
        (b : Bool)
        → b ≡ false
        → IsLinked (core (if b then s1 else update now disconnecting [] ended))
    go true h = absurd (cc h)
    go false h = subst IsLinked (sym (core-update now disconnecting [] ended)) (record {
      live = λ k. absurd (cc k);
      ending = λ k. record { shown = refl; is_closing = refl; at_most_one = l };
      calm = λ k. absurd (cc k);
      old =
          All-map (IsOldTask s.generation) (IsOldTask (suc s.generation)) s.connects
            (λ t p. omega arith) o;
      opens =
          All-map (IsOldTask s.generation) (IsOpenTask (core ended)) s.connects
            (λ t p e. absurd (omega arith)) o;
    })

-- `disconnect` while a disconnection is under way.
pub disconnect-IsLinked_again :
    (now : ℕ) (s : DeviceSession)
    → s.disconnect_task ≡ true
    → IsLinked (core s)
    → IsLinked (core (disconnect now s))
unfolding disconnect cancel_paste is_connected
disconnect-IsLinked_again now s t i = go s.disconnect_task t
  where
    s1 : DeviceSession
    s1 = record (cancel_paste s) { closing = true; generation = suc s.generation }

    ended : DeviceSession
    ended = record s1 { disconnect_task = true }

    go :
        (b : Bool)
        → b ≡ true
        → IsLinked (core (if b then s1 else update now disconnecting [] ended))
    go false h = absurd (cc h)
    go true h = record {
      live = λ k. absurd (cc (sym k ∙ ap is_connected (i.ending t).shown));
      ending = λ k. record {
        shown = (i.ending t).shown;
        is_closing = refl;
        at_most_one = (i.ending t).at_most_one;
      };
      calm = i.calm;
      old =
          All-map (IsOldTask s.generation) (IsOldTask (suc s.generation)) s.connects
            (λ t p. omega arith) i.old;
      opens =
          All-map (IsOldTask s.generation) (IsOpenTask (core s1)) s.connects
            (λ t p e. absurd (omega arith)) i.old;
    }

pub disconnect-IsLinked :
    (now : ℕ) (s : DeviceSession) → IsLinked (core s) → IsLinked (core (disconnect now s))
disconnect-IsLinked now s i = elim (Bool-cases s.disconnect_task) [
  | inr f ↦
      disconnect-IsLinked_fresh now s f i.old
        (let none_after : length s.after_disconnect ≡ 0 = ap length (i.calm f) in omega arith)
  | inl t ↦ disconnect-IsLinked_again now s t i
]
