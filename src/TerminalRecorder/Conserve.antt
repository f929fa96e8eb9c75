-- ===== src/TerminalRecorder/Conserve.antt =====
-- What a recorder has accepted, and what the disk and the cached record hold.
use friendly_ai_explorer.Common.{
  utf8, ℕ, ◌≡◌, refl, sym, ap, ap₂, subst, ◌∙◌, inl, inr, Option, some, List, [], ◌++◌, append-nil,
}
use friendly_ai_explorer.TerminalRecorder.State.{Directory, CachedRecording, stopped, fresh}
use friendly_ai_explorer.TerminalRecorder.Files.{contents}
use friendly_ai_explorer.TerminalRecorder.Steps.{Event, run}
use friendly_ai_explorer.TerminalRecorder.Sound.{Kept, pending_of, IsBusy}
use friendly_ai_explorer.TerminalRecorder.SessionSound.{run-IsSound, fresh-IsSound}

-- Through any sequence of calls, timers, and works of the job that end well or not, what the disk,
-- the pending text and the buffer hold together is what was accepted, in order: nothing is lost or
-- doubled.
pub run-contents :
    (directory : Directory) (cache : ℕ → Option CachedRecording) (es : List Event)
    (e : CachedRecording)
    → (run es (fresh directory cache)).recorder.entry ≡ some e
    → contents (run es (fresh directory cache)).directory e
        ++ utf8 (e.pending ++ (run es (fresh directory cache)).recorder.buffer)
      ≡ utf8 (run es (fresh directory cache)).accepted
run-contents directory cache es e h =
    let s = run es (fresh directory cache) in
    let i = run-IsSound es (fresh directory cache) (fresh-IsSound directory cache) in
    (subst (λ o. Kept s.directory s.recorder.buffer s.accepted o) h i.kept).1

-- Once a recording has stopped, its parts on the disk, joined, are what was accepted.
pub run-stopped :
    (directory : Directory) (cache : ℕ → Option CachedRecording) (es : List Event)
    (e : CachedRecording)
    → (run es (fresh directory cache)).recorder.entry ≡ some e
    → (run es (fresh directory cache)).recorder.status ≡ stopped
    → contents (run es (fresh directory cache)).directory e
      ≡ utf8 (run es (fresh directory cache)).accepted
run-stopped directory cache es e h q =
    let s = run es (fresh directory cache) in
    let i = run-IsSound es (fresh directory cache) (fresh-IsSound directory cache) in
    elim i.live [
      | inl b ↦ absurd (subst (λ t. IsBusy t s.recorder) q b)
      | inr f ↦
          let pending : e.pending ≡ [] = sym (ap pending_of h) ∙ f.flushed in
          let nothing : utf8 (e.pending ++ s.recorder.buffer) ≡ utf8 [] =
            ap utf8 (ap₂ (◌++◌) pending f.emptied) in
          sym (append-nil (contents s.directory e))
          ∙ ap (◌++◌ (contents s.directory e)) (sym (nothing ∙ utf8_none))
          ∙ run-contents directory cache es e h
    ]
  where
    utf8_none : utf8 [] ≡ []
    utf8_none = unfold utf8 in refl
