-- ===== src/RemotePress/Held.antt =====
-- The invariant of the controller: the held press, its timer and its writes.
use friendly_ai_explorer.Common.{
  ◌==◌, if◌then◌else◌, ==_iff, length, get_elem?, All, All-append, Bytes, ℕ, zero, suc, ◌+◌, ◌≤◌,
  ◌<◌, ◌≡◌, refl, sym, ap, subst, ◌∙◌, Bool, true, false, not, Option, none, some, List, [], ◌∷◌,
  ◌++◌, arith,
}
use friendly_ai_explorer.RemotePress.Keys.{RemoteKey, remote_command}
use friendly_ai_explorer.RemotePress.Control.{
  Press, Flight, Timer, Remote, clear_timeout, stop, is_held, transmit_bytes, transmit, start_with,
  start, remove_at,
}

-- The writes under way for a press.
abbrev pub writes : ℕ → List Flight → ℕ
writes token [] = 0
writes token (f ∷ flights) = (if f.press.token == token then 1 else 0) + writes token flights

-- A held press has a write under way, or a timer, or neither, but never two of them.
abbrev pub AtMostOne : Option Press → List Flight → List Timer → Type 0
AtMostOne none flights pending = pending ≡ []
AtMostOne (some held) flights pending = writes held.token flights + length pending ≤ 1

-- The clock has the controller's timer and no other one, and it is the held press's.
abbrev pub IsTimed : Option ℕ → Option Press → List Timer → Type 0
IsTimed none held pending = pending ≡ []
IsTimed (some handle) held pending =
    (t : Timer) × (pending ≡ t ∷ []) × (t.handle ≡ handle) × (is_held t.press held ≡ true)

abbrev pub IsOld : ℕ → Flight → Type 0
IsOld supply f = f.press.token < supply

abbrev pub IsOldHeld : ℕ → Option Press → Type 0
IsOldHeld supply none = Unit
IsOldHeld supply (some held) = held.token < supply

pub record IsRemote (s : Remote) : Type 0 where
  pub single : AtMostOne s.held s.flights s.pending
  pub timed : IsTimed s.timer s.held s.pending
  pub old : All (IsOld s.supply) s.flights
  pub old_held : IsOldHeld s.supply s.held

-- The cleared timer was the only one.
pub stop-pending :
    (timer : Option ℕ) (held : Option Press) (pending : List Timer)
    → IsTimed timer held pending
    → clear_timeout timer pending ≡ []
unfolding clear_timeout
stop-pending none held pending h = h
stop-pending (some handle) held pending (t, e, same, h) =
    ap (clear_timeout (some handle)) e ∙ gone (t.handle == handle) ((==_iff t.handle handle).1 same)
  where
    gone : (b : Bool) → b ≡ true → (if b then [] else t ∷ []) ≡ []
    gone true k = refl
    gone false k = absurd (cc k)

pub stop-IsRemote : (s : Remote) → IsRemote s → IsRemote (stop s)
unfolding stop
stop-IsRemote s i =
    let none_left = stop-pending s.timer s.held s.pending i.timed in
    record { single = none_left; timed = none_left; old = i.old; old_held = tt }

writes-append :
    (token : ℕ) (flights : List Flight) (f : Flight)
    → writes token (flights ++ (f ∷ []))
      ≡ writes token flights + (if f.press.token == token then 1 else 0)
writes-append token [] f = omega arith
writes-append token (g ∷ flights) f = omega (arith, writes-append token flights f)

-- The write that ends is no longer under way.
pub writes-remove_at :
    (token : ℕ) (flights : List Flight) (n : ℕ) (f : Flight)
    → get_elem? flights n ≡ some f
    → writes token (remove_at flights n) + (if f.press.token == token then 1 else 0)
      ≡ writes token flights
writes-remove_at token [] n f e = absurd (cc e)
writes-remove_at token (g ∷ flights) zero f e =
    let same : g ≡ f = cc e in
    subst
      (λ x.
        writes token flights + (if x.press.token == token then 1 else 0)
        ≡ writes token (g ∷ flights))
      same (omega arith)
writes-remove_at token (g ∷ flights) (suc n) f e =
    omega (arith, writes-remove_at token flights n f e)

pub All-remove_at :
    {A : Type 0} (P : A → Type 0) (xs : List A) (n : ℕ) → All P xs → All P (remove_at xs n)
All-remove_at P [] n h = tt
All-remove_at P (x ∷ xs) zero h = h.1
All-remove_at P (x ∷ xs) (suc n) h = (h.0, All-remove_at P xs n h.1)

-- A new press has no write under way.
writes_fresh :
    (supply : ℕ) (flights : List Flight) → All (IsOld supply) flights → writes supply flights ≡ 0
writes_fresh supply [] h = refl
writes_fresh supply (f ∷ flights) h = ground (arith, writes_fresh supply flights h.1, h.0)

pub older :
    (supply : ℕ) (flights : List Flight)
    → All (IsOld supply) flights
    → All (IsOld (suc supply)) flights
older supply [] h = tt
older supply (f ∷ flights) h = (omega (arith, h.0), older supply flights h.1)

pub IsRemote-if :
    (b : Bool) (s t : Remote) → IsRemote s → IsRemote t → IsRemote (if b then s else t)
IsRemote-if true s t i j = i
IsRemote-if false s t i j = j

-- A write of a press that has neither a write nor a timer.
pub transmit_bytes-IsRemote :
    (bytes : Option Bytes) (connected : Bool) (f : Flight) (s : Remote)
    → IsRemote s
    → is_held f.press s.held ≡ true
    → s.pending ≡ []
    → writes f.press.token s.flights ≡ 0
    → IsRemote (transmit_bytes bytes connected f s)
unfolding transmit_bytes is_held
transmit_bytes-IsRemote none connected f s i h p n = i
transmit_bytes-IsRemote (some bytes) connected f s i h p n =
    IsRemote-if s.disposed s (if not connected then stop s else sent) i (
      IsRemote-if (not connected) (stop s) sent (stop-IsRemote s i) (record {
        single = single_with s.held s.pending h p;
        timed = i.timed;
        old =
            All-append (IsOld s.supply) s.flights (f ∷ []) i.old
              (old_press s.held h i.old_held, tt);
        old_held = i.old_held;
      }))
  where
    sent : Remote
    sent = record s { flights = s.flights ++ (f ∷ []); transmitted = s.transmitted ++ (bytes ∷ []) }

    single_with :
        (held : Option Press) (pending : List Timer)
        → is_held f.press held ≡ true
        → pending ≡ []
        → AtMostOne held (s.flights ++ (f ∷ [])) pending
    single_with none pending k e = absurd (cc k)
    single_with (some held) pending k e =
        let same : held.token ≡ f.press.token = (==_iff held.token f.press.token).0 k in
        let empty : length pending ≡ 0 = ap length e in
        let none_of : writes held.token s.flights ≡ 0 = ap (λ t. writes t s.flights) same ∙ n in
        let one = writes-append held.token s.flights f in
        let most : (if f.press.token == held.token then 1 else 0) ≤ 1 = ground arith in omega arith

    old_press :
        (held : Option Press)
        → is_held f.press held ≡ true
        → IsOldHeld s.supply held
        → f.press.token < s.supply
    old_press none k o = absurd (cc k)
    old_press (some held) k o =
        let same : held.token ≡ f.press.token = (==_iff held.token f.press.token).0 k in omega arith

start_with-IsRemote :
    (bytes : Option Bytes) (connected : Bool) (key : RemoteKey) (s : Remote)
    → IsRemote s
    → s.timer ≡ none
    → s.pending ≡ []
    → IsRemote (start_with bytes connected key s)
unfolding start_with transmit is_held
start_with-IsRemote none connected key s i t p = i
start_with-IsRemote (some bytes) connected key s i t p =
    transmit_bytes-IsRemote (remote_command key) connected (record { press = press; first = true })
      pressed
      (record {
        single =
            let empty : length s.pending ≡ 0 = ap length p in
            let none_of = writes_fresh s.supply s.flights i.old in omega arith;
        timed = subst (λ o. IsTimed o (some press) s.pending) (sym t) p;
        old = older s.supply s.flights i.old;
        old_held = omega arith;
      })
      (ground arith) p (writes_fresh s.supply s.flights i.old)
  where
    press : Press
    press = record { token = s.supply; key = key }

    pressed : Remote
    pressed = record s { held = some press; supply = suc s.supply }

pub start-IsRemote :
    (connected : Bool) (key : RemoteKey) (s : Remote)
    → IsRemote s
    → IsRemote (start connected key s)
unfolding start stop
start-IsRemote connected key s i =
    IsRemote-if s.disposed s (start_with (remote_command key) connected key (stop s)) i (
      start_with-IsRemote (remote_command key) connected key (stop s) (stop-IsRemote s i) refl
        (stop-pending s.timer s.held s.pending i.timed))

-- The timer that fires was the only one, of the press that is held.
pub fired :
    (timer : Option ℕ) (held : Option Press) (pending : List Timer) (n : ℕ) (t : Timer)
    → IsTimed timer held pending
    → get_elem? pending n ≡ some t
    → (pending ≡ t ∷ []) × (remove_at pending n ≡ []) × (is_held t.press held ≡ true)
fired none held pending n t p e = absurd (cc (ap (λ ps. get_elem? ps n) (sym p) ∙ e))
fired (some handle) held pending n t (t', p, same, h) e =
    go n (ap (λ ps. get_elem? ps n) (sym p) ∙ e)
  where
    go :
        (n : ℕ)
        → get_elem? (t' ∷ []) n ≡ some t
        → (pending ≡ t ∷ []) × (remove_at pending n ≡ []) × (is_held t.press held ≡ true)
    go zero e' =
        let q : t' ≡ t = cc e' in
        (
          p ∙ ap (λ x. x ∷ []) q,
          ap (λ ps. remove_at ps 0) p,
          subst (λ x. is_held x.press held ≡ true) q h,
        )
    go (suc n) e' = absurd (cc e')
