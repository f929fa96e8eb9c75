-- ===== src/TerminalRecorder/SessionSound.antt =====
-- The invariant through `start`, `append` and `stop`, and through any sequence of events.
use friendly_ai_explorer.Common.{
  ltb, if◌then◌else◌, length, utf8, utf16_length, ℕ, ◌+◌, ◌≡◌, refl, sym, ap, subst, ◌∙◌, inl, inr,
  Bool, true, false, not, ◌||◌, Option, none, some, List, [], ◌∷◌, ◌++◌, arith,
}
use friendly_ai_explorer.LogFormatter.{RecordingOptions, LogFormatter, format}
use friendly_ai_explorer.TerminalRecorder.State.{
  Directory, CachedRecording, Status, TerminalRecorder, Phase, System, is_none, is_error, idle,
  recording, saving, stopped, error, rest, caching, writing, confirming, failing, removing, fresh,
}
use friendly_ai_explorer.TerminalRecorder.Session.{
  append, accept, stop, is_finished, start, start_with, can_start, new_record, begin_recording,
  StartOutcome, no_stem, no_cache, ready, queue_limit,
}
use friendly_ai_explorer.TerminalRecorder.Files.{earlier}
use friendly_ai_explorer.TerminalRecorder.Steps.{
  Event, appends, ticks, settles, stops, starts, step, run, keep,
}
use friendly_ai_explorer.TerminalRecorder.Sound.{
  Kept, pending_of, IsDue, IsPhase, IsBusy, IsFinished, IsSound, Kept-append,
}
use friendly_ai_explorer.TerminalRecorder.JobSound.{tick-IsSound, settle-IsSound}
use friendly_ai_explorer.TerminalRecorder.CheckpointSound.{IsSound-if}

-- Only a recording accepts output.
accepting_status :
    (status : Status) (r : TerminalRecorder)
    → r.accepting ≡ true
    → IsBusy status r
    → (status ≡ recording) × (r.stopping ≡ false) × (is_none r.entry ≡ false)
accepting_status idle r h b = absurd b
accepting_status recording r h b = (refl, b.1, b.2)
accepting_status saving r h b = absurd (cc (h, b.0))
accepting_status stopped r h b = absurd b
accepting_status error r h b = absurd (cc (h, b.0))

-- Before `stop`, a phase stands for no work of it, so that only the record matters.
IsPhase-unstopped :
    (phase : Phase) (directory : Directory) (r r' : TerminalRecorder)
    → r.stopping ≡ false
    → r'.entry ≡ r.entry
    → IsPhase phase directory r
    → IsPhase phase directory r'
IsPhase-unstopped rest directory r r' n e p = tt
IsPhase-unstopped (caching disk final value) directory r r' n e p = λ f. absurd (cc ((p f).1.0, n))
IsPhase-unstopped (writing final bytes) directory r r' n e p =
    (subst (λ o. IsDue directory bytes o) (sym e) p.0, λ f. absurd (cc ((p.1 f).0, n)))
IsPhase-unstopped (confirming final value) directory r r' n e p =
    (ap pending_of e ∙ p.0, λ f. absurd (cc ((p.1 f).0, n)))
IsPhase-unstopped (failing final value) directory r r' n e p = λ f. absurd (cc ((p f).0, n))
IsPhase-unstopped removing directory r r' n e p = absurd (cc (p.1.0, n))

accept-IsSound :
    (formatter : LogFormatter) (formatted : List ℕ) (s : System)
    → s.recorder.accepting ≡ true
    → IsSound s
    → IsSound (accept (formatter, formatted) s)
unfolding accept
accept-IsSound formatter formatted s h i = elim i.live [
  | inr f ↦ absurd (cc (h, f.closed))
  | inl b ↦
      let flags = accepting_status s.recorder.status s.recorder h b in
      record {
        kept =
            Kept-append s.directory s.recorder.buffer s.accepted formatted s.recorder.entry flags.2
              i.kept;
        phased =
            IsPhase-unstopped s.phase s.directory s.recorder
              (accept (formatter, formatted) s).recorder flags.1 refl i.phased;
        live = inl (
            overflow (ltb queue_limit (utf16_length (s.recorder.buffer ++ formatted)))
              s.recorder.status flags);
      }
]
  where
    overflow :
        (full : Bool) (status : Status)
        → (status ≡ recording) × (s.recorder.stopping ≡ false) × (is_none s.recorder.entry ≡ false)
        → IsBusy (if full then error else status) (record s.recorder {
          status = if full then error else status;
          bytes = s.recorder.bytes + length (utf8 formatted);
          formatter = formatter;
          buffer = s.recorder.buffer ++ formatted;
          accepting = not full;
        })
    overflow true status f = (refl, λ k. absurd (cc (k, f.1)))
    overflow false status f =
        subst
          (λ t. IsBusy t (record s.recorder {
            status = status;
            bytes = s.recorder.bytes + length (utf8 formatted);
            formatter = formatter;
            buffer = s.recorder.buffer ++ formatted;
            accepting = true;
          }))
          (sym f.0) (refl, f.1, f.2)

append-IsSound : (stamp chars : List ℕ) (s : System) → IsSound s → IsSound (append stamp chars s)
unfolding append
append-IsSound stamp chars s i =
    let formatted = format s.recorder.options stamp s.recorder.formatter chars in
    IsSound-if (not s.recorder.accepting) s (accept formatted s) (λ h. i)
      (λ h. accept-IsSound formatted.0 formatted.1 s (open_ s.recorder.accepting h) i)
  where
    open_ : (b : Bool) → not b ≡ false → b ≡ true
    open_ true h = refl
    open_ false h = absurd (cc h)

stop-IsSound : (s : System) → IsSound s → IsSound (stop s)
unfolding stop
stop-IsSound s i =
    IsSound-if (s.recorder.stopping || is_none s.recorder.entry || is_finished s.recorder.status) s
      stopping_system (λ h. i)
      (λ h. record {
        kept = i.kept;
        phased =
            IsPhase-unstopped s.phase s.directory s.recorder stopping_system.recorder
              (or_false s.recorder.stopping (is_none s.recorder.entry) (
                or_false (s.recorder.stopping || is_none s.recorder.entry)
                  (is_finished s.recorder.status) h))
              refl i.phased;
        live = inl (refl, refl, refl);
      })
  where
    stopping_system : System
    stopping_system = record s {
      recorder = record s.recorder {
        accepting = false;
        timer = false;
        status = saving;
        stopping = true;
      };
    }

    or_false : (b c : Bool) → (b || c) ≡ false → b ≡ false
    or_false true c h = absurd (cc h)
    or_false false c h = refl

-- Who may start has nothing under way.
can_start-IsFinished : (s : System) → can_start s.recorder ≡ true → IsSound s → IsFinished s
unfolding can_start is_error
can_start-IsFinished s h i = elim i.live [
  | inl b ↦ absurd (
      go s.recorder.accepting s.recorder.stopping s.recorder.recovering s.recorder.status h refl
        refl b)
  | inr f ↦ f
]
  where
    go :
        (a p r : Bool) (status : Status)
        → not (a || p || r || is_error status) ≡ true
        → s.recorder.accepting ≡ a
        → s.recorder.stopping ≡ p
        → IsBusy status s.recorder
        → ⊥
    go a p r idle h ea ep b = b
    go true p r recording h ea ep b = absurd (cc h)
    go false p r recording h ea ep b = absurd (cc (ea, b.0))
    go true p r saving h ea ep b = absurd (cc h)
    go false true r saving h ea ep b = absurd (cc h)
    go false false r saving h ea ep b = absurd (cc (ep, b.1))
    go a p r stopped h ea ep b = b
    go true p r error h ea ep b = absurd (cc h)
    go false true r error h ea ep b = absurd (cc h)
    go false false true error h ea ep b = absurd (cc h)
    go false false false error h ea ep b = absurd (cc h)

new_record-Kept :
    (directory : Directory) (id stem kind now : ℕ) (o : RecordingOptions) (buffer : List ℕ)
    → buffer ≡ []
    → Kept directory buffer [] (some (new_record id stem kind now o))
unfolding new_record earlier
new_record-Kept directory id stem kind now o buffer h =
    (record { named = refl; positive = omega arith; sized = refl }, ap utf8 h)

start_with-IsSound :
    (outcome : StartOutcome) (id stem kind now : ℕ) (o : RecordingOptions) (s : System)
    → IsFinished s
    → IsSound s
    → IsSound (start_with outcome now o (new_record id stem kind now o) s)
unfolding start_with begin_recording is_none new_record
start_with-IsSound no_stem id stem kind now o s f i = i
start_with-IsSound no_cache id stem kind now o s f i = record {
  kept = new_record-Kept s.directory id stem kind now o s.recorder.buffer f.emptied;
  phased =
      subst
        (λ p.
          IsPhase p s.directory
            (start_with no_cache now o (new_record id stem kind now o) s).recorder)
        (sym f.resting) tt;
  live = inr (record {
    resting = f.resting;
    unset = f.unset;
    no_stop = f.no_stop;
    closed = f.closed;
    emptied = f.emptied;
    flushed = refl;
  });
}
start_with-IsSound ready id stem kind now o s f i = record {
  kept = new_record-Kept s.directory id stem kind now o [] refl;
  phased =
      subst
        (λ p.
          IsPhase p s.directory (start_with ready now o (new_record id stem kind now o) s).recorder)
        (sym f.resting) tt;
  live = inl (refl, f.no_stop, refl);
}

start-IsSound :
    (outcome : StartOutcome) (id stem kind now : ℕ) (o : RecordingOptions) (s : System)
    → IsSound s
    → IsSound (keep s (start outcome id stem kind now o s))
unfolding start
start-IsSound outcome id stem kind now o s i = go (can_start s.recorder) refl
  where
    e : CachedRecording
    e = new_record id stem kind now o

    go :
        (b : Bool)
        → can_start s.recorder ≡ b
        → IsSound (keep s (if b then some (start_with outcome now o e s) else none))
    go true h = start_with-IsSound outcome id stem kind now o s (can_start-IsFinished s h i) i
    go false h = i

pub step-IsSound : (e : Event) (s : System) → IsSound s → IsSound (step e s)
unfolding step
step-IsSound (appends stamp chars) s i = append-IsSound stamp chars s i
step-IsSound (ticks now) s i = tick-IsSound now s i
step-IsSound (settles ok now) s i = settle-IsSound ok now s i
step-IsSound stops s i = stop-IsSound s i
step-IsSound (starts outcome id stem kind now o) s i = start-IsSound outcome id stem kind now o s i

pub run-IsSound : (es : List Event) (s : System) → IsSound s → IsSound (run es s)
unfolding run
run-IsSound [] s i = i
run-IsSound (e ∷ es) s i = run-IsSound es (step e s) (step-IsSound e s i)

pub fresh-IsSound :
    (directory : Directory) (cache : ℕ → Option CachedRecording) → IsSound (fresh directory cache)
unfolding fresh
fresh-IsSound directory cache = record {
  kept = refl;
  phased = tt;
  live = inr (record {
    resting = refl;
    unset = refl;
    no_stop = refl;
    closed = refl;
    emptied = refl;
    flushed = refl;
  });
}
