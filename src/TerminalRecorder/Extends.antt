-- ===== src/TerminalRecorder/Extends.antt =====
-- The steps of a recorder and the files of its directory.
use friendly_ai_explorer.Common.{
  leb, ◌==◌, if◌then◌else◌, Bytes, utf8, is_nil, ℕ, ◌-◌, ◌≡◌, refl, sym, ap, subst, ◌∙◌, Bool, true,
  false, not, ◌&&◌, ◌||◌, Option, none, some, List, [], ◌∷◌, ◌++◌, append-nil, append_assoc,
}
use friendly_ai_explorer.LogFormatter.{RecordingOptions, format}
use friendly_ai_explorer.TerminalRecorder.State.{
  saving, FileName, Directory, CachedRecording, Phase, System, content, is_none, exists, fresh,
  rest, caching, writing, confirming, failing, removing,
}
use friendly_ai_explorer.TerminalRecorder.Session.{
  append, accept, stop, is_finished, start, start_with, can_start, new_record, begin_recording,
  StartOutcome, no_stem, no_cache, ready,
}
use friendly_ai_explorer.TerminalRecorder.Job.{
  fail, fail_entry, checkpoint, checkpoint_at, checkpoint_entry, after_checkpoint, end_fail,
  end_checkpoint, write_pending, after_cache, after_write, after_remove, settle, settle_phase, tick,
  tick_phase, put_cache,
}
use friendly_ai_explorer.TerminalRecorder.Files.{after_writing-extends}
use friendly_ai_explorer.TerminalRecorder.Steps.{
  Event, appends, ticks, settles, stops, starts, step, run, keep,
}
use friendly_ai_explorer.TerminalRecorder.Sound.{IsDue, IsPhase, IsSound}
use friendly_ai_explorer.TerminalRecorder.SessionSound.{step-IsSound, run-IsSound, fresh-IsSound}

-- Every file keeps what it holds, and may get more behind it.
abbrev pub IsExtended : Directory → Directory → Type 0
IsExtended d d' =
    (name : FileName) → (more : Bytes) × (content (d' name) ≡ content (d name) ++ more)

unchanged : (s s' : System) → s'.directory ≡ s.directory → IsExtended s.directory s'.directory
unchanged s s' e name =
    ([], ap (λ d. content (d name)) e ∙ sym (append-nil (content (s.directory name))))

abbrev SameDirectory : System → System → Type 0
SameDirectory s s' = s'.directory ≡ s.directory

same-if :
    (b : Bool) (s t u : System)
    → SameDirectory s t
    → SameDirectory s u
    → SameDirectory s (if b then t else u)
same-if true s t u p q = p
same-if false s t u p q = q

fail_entry-SameDirectory :
    (o : Option CachedRecording) (final : Bool) (s : System)
    → SameDirectory s (fail_entry o final s)
unfolding fail_entry
fail_entry-SameDirectory none final s = refl
fail_entry-SameDirectory (some e) final s = refl

fail-SameDirectory : (final : Bool) (s : System) → SameDirectory s (fail final s)
unfolding fail
fail-SameDirectory final s = fail_entry-SameDirectory s.recorder.entry final s

after_checkpoint-SameDirectory :
    (final : Bool) (s : System) → SameDirectory s (after_checkpoint final s)
unfolding after_checkpoint
after_checkpoint-SameDirectory true s = refl
after_checkpoint-SameDirectory false s = refl

end_checkpoint-SameDirectory :
    (final : Bool) (now : ℕ) (s : System) → SameDirectory s (end_checkpoint final now s)
unfolding end_checkpoint
end_checkpoint-SameDirectory final now s =
    after_checkpoint-SameDirectory final
      (record s { recorder = record s.recorder { last_disk = now } })

checkpoint_at-SameDirectory :
    (o : Option CachedRecording) (disk final : Bool) (s : System)
    → SameDirectory s (checkpoint_at o disk final s)
unfolding checkpoint_at checkpoint_entry
checkpoint_at-SameDirectory none disk final s =
    same-if final s (fail true s) (after_checkpoint false s) (fail-SameDirectory true s)
      (after_checkpoint-SameDirectory false s)
checkpoint_at-SameDirectory (some e) true final s = refl
checkpoint_at-SameDirectory (some e) false final s = refl

write_pending-SameDirectory :
    (final : Bool) (now : ℕ) (e : CachedRecording) (s : System)
    → SameDirectory s (write_pending final now e s)
unfolding write_pending
write_pending-SameDirectory final now e s =
    let begun : System = record s { phase = writing final (utf8 e.pending) } in
    let taken = e.offset == 0 && exists (s.directory e.file) in
    same-if (is_nil e.pending) s (end_checkpoint final now s)
      (if taken then fail final s else begun) (end_checkpoint-SameDirectory final now s)
      (same-if taken s (fail final s) begun (fail-SameDirectory final s) refl)

after_cache-SameDirectory :
    (disk final : Bool) (now : ℕ) (o : Option CachedRecording) (s : System)
    → SameDirectory s (after_cache disk final now o s)
unfolding after_cache
after_cache-SameDirectory disk final now none s = fail-SameDirectory final s
after_cache-SameDirectory true final now (some e) s = write_pending-SameDirectory final now e s
after_cache-SameDirectory false final now (some e) s = after_checkpoint-SameDirectory final s

after_remove-SameDirectory :
    (o : Option CachedRecording) (s : System) → SameDirectory s (after_remove o s)
unfolding after_remove
after_remove-SameDirectory none s = fail-SameDirectory true s
after_remove-SameDirectory (some e) s = refl

after_write-IsExtended :
    (final : Bool) (bytes : Bytes) (o : Option CachedRecording) (s : System)
    → IsDue s.directory bytes o
    → IsExtended s.directory (after_write final bytes o s).directory
unfolding after_write
after_write-IsExtended final bytes none s d =
    unchanged s (fail final s) (fail-SameDirectory final s)
after_write-IsExtended final bytes (some e) s d = after_writing-extends s.directory e bytes d.1

settle_phase-IsExtended :
    (phase : Phase) (ok : Bool) (now : ℕ) (s : System)
    → IsPhase phase s.directory s.recorder
    → IsExtended s.directory (settle_phase phase ok now s).directory
unfolding settle_phase end_fail
settle_phase-IsExtended rest ok now s p = unchanged s s refl
settle_phase-IsExtended (caching disk final value) true now s p =
    unchanged s (after_cache disk final now s.recorder.entry (put_cache value s))
      (after_cache-SameDirectory disk final now s.recorder.entry (put_cache value s))
settle_phase-IsExtended (caching disk final value) false now s p =
    unchanged s (fail final s) (fail-SameDirectory final s)
settle_phase-IsExtended (writing final bytes) true now s p =
    after_write-IsExtended final bytes s.recorder.entry s p.0
settle_phase-IsExtended (writing final bytes) false now s p =
    unchanged s (fail final s) (fail-SameDirectory final s)
settle_phase-IsExtended (confirming final value) true now s p =
    unchanged s (end_checkpoint final now (put_cache value s))
      (end_checkpoint-SameDirectory final now (put_cache value s))
settle_phase-IsExtended (confirming final value) false now s p =
    unchanged s (fail final s) (fail-SameDirectory final s)
settle_phase-IsExtended (failing final value) true now s p =
    unchanged s (end_fail final (put_cache value s)) refl
settle_phase-IsExtended (failing final value) false now s p = unchanged s (end_fail final s) refl
settle_phase-IsExtended removing true now s p =
    unchanged s (after_remove s.recorder.entry s) (after_remove-SameDirectory s.recorder.entry s)
settle_phase-IsExtended removing false now s p =
    unchanged s (fail true s) (fail-SameDirectory true s)

tick_phase-SameDirectory :
    (phase : Phase) (now : ℕ) (s : System) → SameDirectory s (tick_phase phase now s)
unfolding tick_phase checkpoint
tick_phase-SameDirectory rest now s =
    let unset : System = record s { recorder = record s.recorder { timer = false } } in
    let due = leb 2000 (now - s.recorder.last_disk) in
    same-if s.recorder.stopping s (checkpoint true true s)
      (if s.recorder.timer then checkpoint due false unset else s)
      (checkpoint_at-SameDirectory s.recorder.entry true true s)
      (same-if s.recorder.timer s (checkpoint due false unset) s
        (checkpoint_at-SameDirectory s.recorder.entry due false unset) refl)
tick_phase-SameDirectory (caching disk final value) now s = refl
tick_phase-SameDirectory (writing final bytes) now s = refl
tick_phase-SameDirectory (confirming final value) now s = refl
tick_phase-SameDirectory (failing final value) now s = refl
tick_phase-SameDirectory removing now s = refl

start-SameDirectory :
    (outcome : StartOutcome) (id stem kind now : ℕ) (o : RecordingOptions) (s : System)
    → SameDirectory s (keep s (start outcome id stem kind now o s))
unfolding start
start-SameDirectory outcome id stem kind now o s = go (can_start s.recorder) outcome
  where
    e : CachedRecording
    e = new_record id stem kind now o

    go :
        (b : Bool) (outcome : StartOutcome)
        → SameDirectory s (keep s (if b then some (start_with outcome now o e s) else none))
    go true no_stem = unfold start_with in refl
    go true no_cache = unfold start_with in refl
    go true ready = unfold start_with begin_recording in refl
    go false outcome = refl

step-IsExtended : (e : Event) (s : System) → IsSound s → IsExtended s.directory (step e s).directory
unfolding step append accept tick settle stop
step-IsExtended (appends stamp chars) s i =
    let formatted = format s.recorder.options stamp s.recorder.formatter chars in
    unchanged s (append stamp chars s)
      (same-if (not s.recorder.accepting) s s (accept formatted s) refl refl)
step-IsExtended (ticks now) s i = unchanged s (tick now s) (tick_phase-SameDirectory s.phase now s)
step-IsExtended (settles ok now) s i = settle_phase-IsExtended s.phase ok now s i.phased
step-IsExtended stops s i = unchanged s (stop s) (
    same-if (s.recorder.stopping || is_none s.recorder.entry || is_finished s.recorder.status) s s
      (record s {
        recorder = record s.recorder {
          accepting = false;
          timer = false;
          status = saving;
          stopping = true;
        };
      })
      refl refl)
step-IsExtended (starts outcome id stem kind now o) s i =
    unchanged s (keep s (start outcome id stem kind now o s))
      (start-SameDirectory outcome id stem kind now o s)

run-IsExtended :
    (es : List Event) (s : System) → IsSound s → IsExtended s.directory (run es s).directory
unfolding run
run-IsExtended [] s i name = unchanged s s refl name
run-IsExtended (e ∷ es) s i name =
    let (first, p) = step-IsExtended e s i name in
    let (later, q) = run-IsExtended es (step e s) (step-IsSound e s i) name in
    (
      first ++ later,
      q ∙ ap (λ bs. bs ++ later) p ∙ append_assoc (content (s.directory name)) first later,
    )

run-append : (es fs : List Event) (s : System) → run (es ++ fs) s ≡ run fs (run es s)
unfolding run
run-append [] fs s = refl
run-append (e ∷ es) fs s = run-append es fs (step e s)

-- From any point of any sequence of events on, every file of the directory keeps what it holds: a
-- recorder only creates files and adds behind their end, whichever name a new part gets.
pub run-append_IsExtended :
    (directory : Directory) (cache : ℕ → Option CachedRecording) (es fs : List Event)
    → IsExtended
        (run es (fresh directory cache)).directory
        (run (es ++ fs) (fresh directory cache)).directory
run-append_IsExtended directory cache es fs =
    let s = run es (fresh directory cache) in
    subst (λ t. IsExtended s.directory t.directory) (sym (run-append es fs (fresh directory cache)))
      (run-IsExtended fs s (run-IsSound es (fresh directory cache) (fresh-IsSound directory cache)))
