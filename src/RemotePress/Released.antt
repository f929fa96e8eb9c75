-- ===== src/RemotePress/Released.antt =====
-- The controller after a release: its events until the next press.
use friendly_ai_explorer.Common.{
  if◌then◌else◌, get_elem?, All, ℕ, suc, ◌≡◌, refl, sym, ap, subst, ◌∙◌, Bool, true, false, not,
  ◌&&◌, ◌||◌, Option, none, some, List, [], ◌∷◌, ◌++◌,
}
use friendly_ai_explorer.RemotePress.Keys.{is_repeatable}
use friendly_ai_explorer.RemotePress.Control.{
  Flight, Timer, Remote, clear_timeout, stop, is_held, schedule, dispose, remove_at, fire_timer,
  fire, end_flight, finish, RemoteEvent, starts, fires, finishes, stops, disposes, react, react_all,
  controller,
}
use friendly_ai_explorer.RemotePress.Held.{stop-pending}
use friendly_ai_explorer.RemotePress.Single.{react_all-IsRemote, controller-IsRemote}

-- No press is held, and no timer is set.
record IsQuiet (s : Remote) : Type 0 where
  released : s.held ≡ none
  unset : s.timer ≡ none
  silent : s.pending ≡ []

-- An event that is not a new press.
abbrev pub IsNoStart : RemoteEvent → Type 0
IsNoStart (starts connected key) = ⊥
IsNoStart (fires n connected) = Unit
IsNoStart (finishes n written) = Unit
IsNoStart stops = Unit
IsNoStart disposes = Unit

-- The end of a quiet step: quiet still, with nothing sent.
abbrev Stays : Remote → Remote → Type 0
Stays s s' = IsQuiet s' × (s'.transmitted ≡ s.transmitted)

stop-Stays : (s : Remote) → IsQuiet s → Stays s (stop s)
unfolding stop clear_timeout
stop-Stays s q = (
  record { released = refl; unset = refl; silent = cleared s.timer s.pending q.unset q.silent },
  refl,
)
  where
    cleared :
        (timer : Option ℕ) (pending : List Timer)
        → timer ≡ none
        → pending ≡ []
        → clear_timeout timer pending ≡ []
    cleared none pending t p = p
    cleared (some handle) pending t p = absurd (cc t)

fire-Stays : (n : ℕ) (connected : Bool) (s : Remote) → IsQuiet s → Stays s (fire n connected s)
unfolding fire fire_timer
fire-Stays n connected s q =
    subst (λ o. Stays s (fire_timer o connected (record s { pending = remove_at s.pending n })))
      (sym (ap (λ ps. get_elem? ps n) q.silent))
      (
        record {
          released = q.released;
          unset = q.unset;
          silent = ap (λ ps. remove_at ps n) q.silent;
        },
        refl,
      )

schedule-Stays : (f : Flight) (s : Remote) → IsQuiet s → Stays s (schedule f s)
unfolding schedule
schedule-Stays f s q = go (not s.disposed) (is_held f.press s.held) unheld
  where
    unheld : is_held f.press s.held ≡ false
    unheld = unfold is_held in ap (is_held f.press) q.released

    timer : Timer
    timer = record { handle = s.supply; press = f.press; delay = if f.first then 450 else 180 }

    go :
        (a b : Bool)
        → b ≡ false
        → Stays s (
            if a && b && (not f.first || is_repeatable f.press.key)
            then record s {
              timer = some s.supply;
              pending = s.pending ++ (timer ∷ []);
              supply = suc s.supply;
            }
            else s)
    go false b h = (q, refl)
    go true false h = (q, refl)
    go true true h = absurd (cc h)

finish-Stays : (n : ℕ) (written : Bool) (s : Remote) → IsQuiet s → Stays s (finish n written s)
unfolding finish
finish-Stays n written s q = go (get_elem? s.flights n) written
  where
    landed : Remote
    landed = record s { flights = remove_at s.flights n }

    still : IsQuiet landed
    still = record { released = q.released; unset = q.unset; silent = q.silent }

    go : (o : Option Flight) (w : Bool) → Stays s (end_flight o w landed)
    go none w = unfold end_flight in (still, refl)
    go (some f) true = unfold end_flight in schedule-Stays f landed still
    go (some f) false = unfold end_flight in stop-Stays landed still

react-Stays : (e : RemoteEvent) (s : Remote) → IsNoStart e → IsQuiet s → Stays s (react e s)
unfolding react dispose
react-Stays (starts connected key) s h q = absurd h
react-Stays (fires n connected) s h q = fire-Stays n connected s q
react-Stays (finishes n written) s h q = finish-Stays n written s q
react-Stays stops s h q = stop-Stays s q
react-Stays disposes s h q =
    stop-Stays (record s { disposed = true })
      (record { released = q.released; unset = q.unset; silent = q.silent })

react_all-Stays :
    (es : List RemoteEvent) (s : Remote) → All IsNoStart es → IsQuiet s → Stays s (react_all es s)
unfolding react_all
react_all-Stays [] s h q = (q, refl)
react_all-Stays (e ∷ es) s h q =
    let one = react-Stays e s h.0 q in
    let more = react_all-Stays es (react e s) h.1 one.0 in (more.0, more.1 ∙ one.1)

react_all-append :
    (es fs : List RemoteEvent) (s : Remote) → react_all (es ++ fs) s ≡ react_all fs (react_all es s)
unfolding react_all
react_all-append [] fs s = refl
react_all-append (e ∷ es) fs s = react_all-append es fs (react e s)

first_stop : (fs : List RemoteEvent) (s : Remote) → react_all (stops ∷ fs) s ≡ react_all fs (stop s)
unfolding react_all react
first_stop fs s = refl

-- Once a key is released, nothing is sent until a key is pressed again: not by a timer that was set,
-- and not after a write that was under way.
pub react_all_released :
    (es fs : List RemoteEvent)
    → All IsNoStart fs
    → (react_all (es ++ (stops ∷ fs)) controller).transmitted
      ≡ (react_all es controller).transmitted
react_all_released es fs h =
    let s = react_all es controller in
    let i = react_all-IsRemote es controller controller-IsRemote in
    let quiet : IsQuiet (stop s) =
      unfold stop in
      record {
        released = refl;
        unset = refl;
        silent = stop-pending s.timer s.held s.pending i.timed;
      } in
    let unsent : (stop s).transmitted ≡ s.transmitted = unfold stop in refl in
    let cut : react_all (es ++ (stops ∷ fs)) controller ≡ react_all fs (stop s) =
      react_all-append es (stops ∷ fs) controller ∙ first_stop fs s in
    ap (λ r. r.transmitted) cut ∙ (react_all-Stays fs (stop s) h quiet).1 ∙ unsent
