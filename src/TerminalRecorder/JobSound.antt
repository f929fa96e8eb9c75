-- ===== src/TerminalRecorder/JobSound.antt =====
-- The invariant through the timer and the awaits of the job.
use friendly_ai_explorer.Common.{
  leb, ◌==◌, if◌then◌else◌, Bytes, utf8, is_nil, ℕ, ◌-◌, ◌≡◌, refl, sym, ap, subst, ◌∙◌, ◌⊎◌, inl,
  inr, Bool, true, false, ◌&&◌, Option, none, some, List, [], ◌∷◌,
}
use friendly_ai_explorer.TerminalRecorder.State.{
  CachedRecording, Phase, System, is_none, exists, rest, caching, writing, confirming, failing,
  removing,
}
use friendly_ai_explorer.TerminalRecorder.Job.{
  fail, checkpoint, end_checkpoint, write_pending, after_cache, after_write, after_remove, settle,
  settle_phase, tick, tick_phase, put_cache,
}
use friendly_ai_explorer.TerminalRecorder.Files.{placed_end}
use friendly_ai_explorer.TerminalRecorder.Sound.{
  Kept, pending_of, IsLast, IsDue, IsPhase, IsBusy, IsFinished, IsSound, Kept-written,
}
use friendly_ai_explorer.TerminalRecorder.CheckpointSound.{
  IsBusy-move, stopping_flags, IsSound-if, IsKept, fail-IsSound, after_checkpoint-IsSound,
  end_fail-IsSound, checkpoint_at-IsSound,
}

tick_phase-IsSound :
    (phase : Phase) (now : ℕ) (s : System)
    → s.phase ≡ phase
    → IsSound s
    → IsSound (tick_phase phase now s)
unfolding tick_phase checkpoint
tick_phase-IsSound rest now s e i =
    IsSound-if s.recorder.stopping (checkpoint true true s) rest_of (stop_work i.live)
      (λ q. IsSound-if s.recorder.timer (checkpoint due false unset) s (timer_work i.live) (λ n. i))
  where
    due : Bool
    due = leb 2000 (now - s.recorder.last_disk)

    unset : System
    unset = record s { recorder = record s.recorder { timer = false } }

    rest_of : System
    rest_of = if s.recorder.timer then checkpoint due false unset else s

    stop_work :
        IsBusy s.recorder.status s.recorder ⊎ IsFinished s
        → s.recorder.stopping ≡ true
        → IsSound (checkpoint true true s)
    stop_work (inl b) h =
        let flags = stopping_flags s.recorder.status s.recorder h b in
        checkpoint_at-IsSound s.recorder.entry true true s refl i.kept
          (λ f. (refl, h, flags.0, flags.1)) b
    stop_work (inr f) h = absurd (cc (h, f.no_stop))

    timer_work :
        IsBusy s.recorder.status s.recorder ⊎ IsFinished s
        → s.recorder.timer ≡ true
        → IsSound (checkpoint due false unset)
    timer_work (inl b) h =
        checkpoint_at-IsSound s.recorder.entry due false unset refl i.kept (λ f. absurd (cc f))
          (IsBusy-move s.recorder.status s.recorder unset.recorder refl refl (λ a t. refl) (λ n. n)
            b)
    timer_work (inr f) h = absurd (cc (h, f.unset))
tick_phase-IsSound (caching disk final value) now s e i = i
tick_phase-IsSound (writing final bytes) now s e i = i
tick_phase-IsSound (confirming final value) now s e i = i
tick_phase-IsSound (failing final value) now s e i = i
tick_phase-IsSound removing now s e i = i

end_checkpoint-IsSound :
    (final : Bool) (now : ℕ) (s : System)
    → IsKept s
    → (final ≡ true → (pending_of s.recorder.entry ≡ []) × IsLast s.recorder)
    → IsBusy s.recorder.status s.recorder
    → IsSound (end_checkpoint final now s)
unfolding end_checkpoint
end_checkpoint-IsSound final now s k l b =
    after_checkpoint-IsSound final (record s { recorder = record s.recorder { last_disk = now } }) k
      l
      (IsBusy-move s.recorder.status s.recorder (record s.recorder { last_disk = now }) refl refl
        (λ a t. t) (λ n. n) b)

is_nil-nil : (cs : List ℕ) → is_nil cs ≡ true → cs ≡ []
unfolding is_nil
is_nil-nil [] h = refl
is_nil-nil (c ∷ cs) h = absurd (cc h)

write_pending-IsSound :
    (final : Bool) (now : ℕ) (e : CachedRecording) (s : System)
    → s.recorder.entry ≡ some e
    → IsKept s
    → (final ≡ true → IsLast s.recorder)
    → IsBusy s.recorder.status s.recorder
    → IsSound (write_pending final now e s)
unfolding write_pending
write_pending-IsSound final now e s h k l b =
    let held : Kept s.directory s.recorder.buffer s.accepted (some e) =
      subst (λ o. Kept s.directory s.recorder.buffer s.accepted o) h k in
    IsSound-if (is_nil e.pending) (end_checkpoint final now s) rest_of
      (λ n.
        end_checkpoint-IsSound final now s k (λ f. (ap pending_of h ∙ is_nil-nil e.pending n, l f))
          b)
      (λ n.
        IsSound-if taken (fail final s) (record s { phase = writing final (utf8 e.pending) })
          (λ q. fail-IsSound final s k (λ f. (l f).0))
          (λ q. record {
            kept = k;
            phased = (
              subst (λ o. IsDue s.directory (utf8 e.pending) o) (sym h)
                  (refl, placed_end s.directory e held.0 q),
              l,
            );
            live = inl b;
          }))
  where
    taken : Bool
    taken = e.offset == 0 && exists (s.directory e.file)

    rest_of : System
    rest_of = if taken then fail final s else record s { phase = writing final (utf8 e.pending) }

after_write-IsSound :
    (final : Bool) (bytes : Bytes) (entry : Option CachedRecording) (s : System)
    → s.recorder.entry ≡ entry
    → IsKept s
    → IsDue s.directory bytes s.recorder.entry
    → (final ≡ true → IsLast s.recorder)
    → IsBusy s.recorder.status s.recorder
    → IsSound (after_write final bytes entry s)
unfolding after_write is_none
after_write-IsSound final bytes none s h k d l b = fail-IsSound final s k (λ f. (l f).0)
after_write-IsSound final bytes (some e) s h k d l b = record {
  kept =
      Kept-written s.directory s.recorder.buffer s.accepted e bytes
        (subst (λ o. Kept s.directory s.recorder.buffer s.accepted o) h k)
        (subst (λ o. IsDue s.directory bytes o) h d);
  phased = (refl, l);
  live = inl (
      IsBusy-move s.recorder.status s.recorder (after_write final bytes (some e) s).recorder refl
        refl (λ a t. t) (λ n. refl) b);
}

after_remove-IsSound :
    (entry : Option CachedRecording) (s : System)
    → s.recorder.entry ≡ entry
    → IsKept s
    → pending_of s.recorder.entry ≡ []
    → IsLast s.recorder
    → IsSound (after_remove entry s)
unfolding after_remove
after_remove-IsSound none s h k p l = fail-IsSound true s k (λ f. l.0)
after_remove-IsSound (some e) s h k p l = record {
  kept = k;
  phased = tt;
  live = inr (record {
    resting = refl;
    unset = l.1;
    no_stop = refl;
    closed = l.2;
    emptied = l.3;
    flushed = p;
  });
}

after_cache-IsSound :
    (disk final : Bool) (now : ℕ) (entry : Option CachedRecording) (s : System)
    → s.recorder.entry ≡ entry
    → IsKept s
    → (final ≡ true → (disk ≡ true) × IsLast s.recorder)
    → IsBusy s.recorder.status s.recorder
    → IsSound (after_cache disk final now entry s)
unfolding after_cache
after_cache-IsSound disk final now none s e k l b = fail-IsSound final s k (λ f. (l f).1.0)
after_cache-IsSound true final now (some entry) s e k l b =
    write_pending-IsSound final now entry s e k (λ f. (l f).1) b
after_cache-IsSound false final now (some entry) s e k l b =
    after_checkpoint-IsSound final s k (λ f. absurd (cc ((l f).0))) b

-- The end of the work that the job waits for, by the phase.
settled :
    (phase : Phase) (ok : Bool) (now : ℕ) (s : System)
    → IsKept s
    → IsPhase phase s.directory s.recorder
    → IsBusy s.recorder.status s.recorder
    → (phase ≡ rest → IsSound s)
    → IsSound (settle_phase phase ok now s)
unfolding settle_phase
settled rest ok now s k p b i = i refl
settled (caching disk final value) true now s k p b i =
    after_cache-IsSound disk final now s.recorder.entry (put_cache value s) refl k p b
settled (caching disk final value) false now s k p b i = fail-IsSound final s k (λ f. (p f).1.0)
settled (writing final bytes) true now s k p b i =
    after_write-IsSound final bytes s.recorder.entry s refl k p.0 p.1 b
settled (writing final bytes) false now s k p b i = fail-IsSound final s k (λ f. (p.1 f).0)
settled (confirming final value) true now s k p b i =
    end_checkpoint-IsSound final now (put_cache value s) k (λ f. (p.0, p.1 f)) b
settled (confirming final value) false now s k p b i = fail-IsSound final s k (λ f. (p.1 f).0)
settled (failing final value) true now s k p b i = end_fail-IsSound final (put_cache value s) k p b
settled (failing final value) false now s k p b i = end_fail-IsSound final s k p b
settled removing true now s k p b i = after_remove-IsSound s.recorder.entry s refl k p.0 p.1
settled removing false now s k p b i = fail-IsSound true s k (λ f. p.1.0)

pub settle-IsSound : (ok : Bool) (now : ℕ) (s : System) → IsSound s → IsSound (settle ok now s)
unfolding settle
settle-IsSound ok now s i = elim i.live [
  | inl b ↦ settled s.phase ok now s i.kept i.phased b (λ e. i)
  | inr f ↦
      subst (λ p. IsSound (settle_phase p ok now s)) (sym f.resting) (unfold settle_phase in i)
]

pub tick-IsSound : (now : ℕ) (s : System) → IsSound s → IsSound (tick now s)
unfolding tick
tick-IsSound now s i = tick_phase-IsSound s.phase now s refl i
