-- ===== src/RemotePress/Single.antt =====
-- The timer and the writes of the held press, through every step of the controller.
use friendly_ai_explorer.Common.{
  if◌then◌else◌, ==_iff, length, get_elem?, length-append, All, ℕ, zero, suc, ◌+◌, ◌≡◌, refl, sym,
  ap, subst, ◌∙◌, Bool, true, false, not, ◌&&◌, ◌||◌, Option, none, some, List, [], ◌∷◌, ◌++◌,
  arith,
}
use friendly_ai_explorer.RemotePress.Keys.{is_repeatable, remote_command, is_repeatable}
use friendly_ai_explorer.RemotePress.Control.{
  schedule, Press, Flight, Timer, Remote, is_held, transmit_bytes, transmit, repeat, schedule,
  dispose, remove_at, fire_timer, fire, end_flight, finish, RemoteEvent, starts, fires, finishes,
  stops, disposes, react, react_all, controller,
}
use friendly_ai_explorer.RemotePress.Held.{
  writes, AtMostOne, IsOld, IsOldHeld, IsRemote, stop-IsRemote, IsRemote-if,
  transmit_bytes-IsRemote, start-IsRemote, fired, writes-remove_at, All-remove_at, older,
}

repeat-IsRemote :
    (connected : Bool) (press : Press) (s : Remote)
    → is_held press s.held ≡ true
    → s.pending ≡ []
    → writes press.token s.flights ≡ 0
    → All (IsOld s.supply) s.flights
    → IsOldHeld s.supply s.held
    → IsRemote (repeat connected press s)
unfolding repeat transmit
repeat-IsRemote connected press s h p n o oh =
    IsRemote-if (s.disposed || not (is_held press s.held)) unset
      (transmit_bytes (remote_command press.key) connected (record { press = press; first = false })
        unset)
      base
      (transmit_bytes-IsRemote (remote_command press.key) connected
        (record { press = press; first = false }) unset base h p n)
  where
    unset : Remote
    unset = record s { timer = none }

    single_with :
        (held : Option Press) → is_held press held ≡ true → AtMostOne held s.flights s.pending
    single_with none k = p
    single_with (some held) k =
        let same : held.token ≡ press.token =
          unfold is_held in (==_iff held.token press.token).0 k in
        let none_of : writes held.token s.flights ≡ 0 = ap (λ t. writes t s.flights) same ∙ n in
        let empty : length s.pending ≡ 0 = ap length p in omega arith

    base : IsRemote unset
    base = record { single = single_with s.held h; timed = p; old = o; old_held = oh }

-- The press whose timer is set has no write under way.
timer_alone :
    (held : Option Press) (flights : List Flight) (pending : List Timer) (t : Timer)
    → AtMostOne held flights pending
    → pending ≡ t ∷ []
    → is_held t.press held ≡ true
    → writes t.press.token flights ≡ 0
unfolding is_held
timer_alone none flights pending t a p h = absurd (cc h)
timer_alone (some held) flights pending t a p h =
    let same : held.token ≡ t.press.token = (==_iff held.token t.press.token).0 h in
    let one : length pending ≡ 1 = ap length p in
    let none_of : writes held.token flights ≡ 0 = omega arith in
    ap (λ k. writes k flights) (sym same) ∙ none_of

remove_at-none : {A : Type 0} (xs : List A) (n : ℕ) → get_elem? xs n ≡ none → remove_at xs n ≡ xs
remove_at-none [] n e = refl
remove_at-none (x ∷ xs) zero e = absurd (cc e)
remove_at-none (x ∷ xs) (suc n) e = ap (◌∷◌ x) (remove_at-none xs n e)

fire-IsRemote : (n : ℕ) (connected : Bool) (s : Remote) → IsRemote s → IsRemote (fire n connected s)
unfolding fire
fire-IsRemote n connected s i = go (get_elem? s.pending n) refl
  where
    unfired : Remote
    unfired = record s { pending = remove_at s.pending n }

    go : (o : Option Timer) → get_elem? s.pending n ≡ o → IsRemote (fire_timer o connected unfired)
    go none e =
        unfold fire_timer in
        subst (λ ps. IsRemote (record s { pending = ps })) (sym (remove_at-none s.pending n e)) i
    go (some t) e =
        let (p, empty, h) = fired s.timer s.held s.pending n t i.timed e in
        unfold fire_timer in
        repeat-IsRemote connected t.press unfired h empty
          (timer_alone s.held s.flights s.pending t i.single p h) i.old i.old_held

landed-IsRemote :
    (n : ℕ) (f : Flight) (s : Remote)
    → IsRemote s
    → get_elem? s.flights n ≡ some f
    → IsRemote (record s { flights = remove_at s.flights n })
landed-IsRemote n f s i e = record {
  single = fewer s.held i.single;
  timed = i.timed;
  old = All-remove_at (IsOld s.supply) s.flights n i.old;
  old_held = i.old_held;
}
  where
    fewer :
        (held : Option Press)
        → AtMostOne held s.flights s.pending
        → AtMostOne held (remove_at s.flights n) s.pending
    fewer none a = a
    fewer (some held) a = omega (arith, writes-remove_at held.token s.flights n f e)

-- The next command of a press is scheduled when its only write has ended.
schedule-IsRemote :
    (n : ℕ) (f : Flight) (s : Remote)
    → IsRemote s
    → get_elem? s.flights n ≡ some f
    → IsRemote (schedule f (record s { flights = remove_at s.flights n }))
unfolding schedule
schedule-IsRemote n f s i e =
    go (not s.disposed) (is_held f.press s.held) (not f.first || is_repeatable f.press.key) refl
  where
    timer : Timer
    timer = record { handle = s.supply; press = f.press; delay = if f.first then 450 else 180 }

    scheduled : Remote
    scheduled = record s {
      flights = remove_at s.flights n;
      timer = some s.supply;
      pending = s.pending ++ (timer ∷ []);
      supply = suc s.supply;
    }

    no_length : (ps : List Timer) → length ps ≡ 0 → ps ≡ []
    no_length [] k = refl
    no_length (t ∷ ps) k = absurd (omega arith)

    single_with :
        (held : Option Press)
        → is_held f.press held ≡ true
        → AtMostOne held s.flights s.pending
        → AtMostOne held (remove_at s.flights n) (s.pending ++ (timer ∷ [])) × (s.pending ≡ [])
    single_with none k a = absurd (unfold is_held in cc k)
    single_with (some held) k a =
        let same : held.token ≡ f.press.token =
          unfold is_held in (==_iff held.token f.press.token).0 k in
        let counted : writes held.token (remove_at s.flights n) + 1 ≡ writes held.token s.flights =
          ground (arith, writes-remove_at held.token s.flights n f e) in
        (omega (arith, length-append s.pending (timer ∷ [])), no_length s.pending (omega arith))

    older_held : (held : Option Press) → IsOldHeld s.supply held → IsOldHeld (suc s.supply) held
    older_held none o = tt
    older_held (some held) o = omega arith

    go :
        (a b c : Bool)
        → is_held f.press s.held ≡ b
        → IsRemote (if a && b && c then scheduled else record s { flights = remove_at s.flights n })
    go false b c h = landed-IsRemote n f s i e
    go true false c h = landed-IsRemote n f s i e
    go true true false h = landed-IsRemote n f s i e
    go true true true h =
        let both = single_with s.held h i.single in
        record {
          single = both.0;
          timed = (timer, ap (λ ps. ps ++ (timer ∷ [])) both.1, refl, h);
          old =
              older s.supply (remove_at s.flights n)
                (All-remove_at (IsOld s.supply) s.flights n i.old);
          old_held = older_held s.held i.old_held;
        }

finish-IsRemote : (n : ℕ) (written : Bool) (s : Remote) → IsRemote s → IsRemote (finish n written s)
unfolding finish
finish-IsRemote n written s i = go (get_elem? s.flights n) written refl
  where
    go :
        (o : Option Flight) (w : Bool)
        → get_elem? s.flights n ≡ o
        → IsRemote (end_flight o w (record s { flights = remove_at s.flights n }))
    go none w e =
        unfold end_flight in
        subst (λ fs. IsRemote (record s { flights = fs })) (sym (remove_at-none s.flights n e)) i
    go (some f) true e = unfold end_flight in schedule-IsRemote n f s i e
    go (some f) false e =
        unfold end_flight in
        stop-IsRemote (record s { flights = remove_at s.flights n }) (landed-IsRemote n f s i e)

react-IsRemote : (e : RemoteEvent) (s : Remote) → IsRemote s → IsRemote (react e s)
unfolding react dispose
react-IsRemote (starts connected key) s i = start-IsRemote connected key s i
react-IsRemote (fires n connected) s i = fire-IsRemote n connected s i
react-IsRemote (finishes n written) s i = finish-IsRemote n written s i
react-IsRemote stops s i = stop-IsRemote s i
react-IsRemote disposes s i =
    stop-IsRemote (record s { disposed = true })
      (record { single = i.single; timed = i.timed; old = i.old; old_held = i.old_held })

pub react_all-IsRemote :
    (es : List RemoteEvent) (s : Remote) → IsRemote s → IsRemote (react_all es s)
unfolding react_all
react_all-IsRemote [] s i = i
react_all-IsRemote (e ∷ es) s i = react_all-IsRemote es (react e s) (react-IsRemote e s i)

pub controller-IsRemote : IsRemote controller
unfolding controller
controller-IsRemote = record { single = refl; timed = refl; old = tt; old_held = tt }

-- Whatever happens to a controller, in any order: the clock has at most the one timer of the press
-- that is held, and this press never has both a timer and a write under way, nor two writes.
pub react_all-AtMostOne :
    (es : List RemoteEvent)
    → AtMostOne
        (react_all es controller).held
        (react_all es controller).flights
        (react_all es controller).pending
react_all-AtMostOne es = (react_all-IsRemote es controller controller-IsRemote).single
