-- ===== src/TerminalRecorder/CheckpointSound.antt =====
-- The invariant at the ends of the job's work: `fail`, and `checkpoint` up to its first await.
use friendly_ai_explorer.Common.{
  if◌then◌else◌, ◌≡◌, refl, sym, subst, ◌∙◌, inl, Bool, true, false, not, ◌&&◌, Option, none, some,
  [],
}
use friendly_ai_explorer.TerminalRecorder.State.{
  CachedRecording, Status, TerminalRecorder, System, is_none, idle, recording, saving, stopped,
  error,
}
use friendly_ai_explorer.TerminalRecorder.Job.{
  take_buffer, fail, fail_entry, checkpoint_at, checkpoint_entry, after_checkpoint, end_fail,
}
use friendly_ai_explorer.TerminalRecorder.Sound.{
  Kept, pending_of, IsLast, IsBusy, IsSound, Kept-take_buffer,
}

-- A recorder stays busy while its flags stay, its record stays set, and its timer is not set anew
-- once nothing is accepted.
pub IsBusy-move :
    (status : Status) (r r' : TerminalRecorder)
    → r'.accepting ≡ r.accepting
    → r'.stopping ≡ r.stopping
    → (r.accepting ≡ false → r.timer ≡ false → r'.timer ≡ false)
    → (is_none r.entry ≡ false → is_none r'.entry ≡ false)
    → IsBusy status r
    → IsBusy status r'
IsBusy-move idle r r' a s t e b = b
IsBusy-move recording r r' a s t e b = (a ∙ b.0, s ∙ b.1, e b.2)
IsBusy-move saving r r' a s t e b = (a ∙ b.0, s ∙ b.1, t b.0 b.2)
IsBusy-move stopped r r' a s t e b = b
IsBusy-move error r r' a s t e b = (a ∙ b.0, λ h. t b.0 (b.1 (sym s ∙ h)))

-- A recorder that is being stopped accepts nothing, and its timer is not set.
pub stopping_flags :
    (status : Status) (r : TerminalRecorder)
    → r.stopping ≡ true
    → IsBusy status r
    → (r.timer ≡ false) × (r.accepting ≡ false)
stopping_flags idle r h b = absurd b
stopping_flags recording r h b = absurd (cc (h, b.1))
stopping_flags saving r h b = (b.2, b.0)
stopping_flags stopped r h b = absurd b
stopping_flags error r h b = (b.1 h, b.0)

pub IsSound-if :
    (b : Bool) (s t : System)
    → (b ≡ true → IsSound s)
    → (b ≡ false → IsSound t)
    → IsSound (if b then s else t)
IsSound-if true s t f g = f refl
IsSound-if false s t f g = g refl

abbrev pub IsKept : System → Type 0
IsKept s = Kept s.directory s.recorder.buffer s.accepted s.recorder.entry

pub fail_entry-IsSound :
    (entry : Option CachedRecording) (final : Bool) (s : System)
    → s.recorder.entry ≡ entry
    → IsKept s
    → (final ≡ true → s.recorder.stopping ≡ true)
    → IsSound (fail_entry entry final s)
unfolding fail_entry
fail_entry-IsSound none final s e k l = record {
  kept = k;
  phased = tt;
  live = inl (refl, λ h. refl);
}
fail_entry-IsSound (some entry) final s e k l = record {
  kept = k;
  phased = λ h. (l h, refl);
  live = inl (refl, λ h. refl);
}

pub fail-IsSound :
    (final : Bool) (s : System)
    → IsKept s
    → (final ≡ true → s.recorder.stopping ≡ true)
    → IsSound (fail final s)
unfolding fail
fail-IsSound final s k l = fail_entry-IsSound s.recorder.entry final s refl k l

pub after_checkpoint-IsSound :
    (final : Bool) (s : System)
    → IsKept s
    → (final ≡ true → (pending_of s.recorder.entry ≡ []) × IsLast s.recorder)
    → IsBusy s.recorder.status s.recorder
    → IsSound (after_checkpoint final s)
unfolding after_checkpoint
after_checkpoint-IsSound true s k l b = record { kept = k; phased = l refl; live = inl b }
after_checkpoint-IsSound false s k l b = record {
  kept = k;
  phased = tt;
  live = inl (
      IsBusy-move s.recorder.status s.recorder (record s.recorder { timer = s.recorder.accepting })
        refl refl (λ a t. a) (λ n. n) b);
}

pub end_fail-IsSound :
    (final : Bool) (s : System)
    → IsKept s
    → (final ≡ true → (s.recorder.stopping ≡ true) × (s.recorder.status ≡ error))
    → IsBusy s.recorder.status s.recorder
    → IsSound (end_fail final s)
unfolding end_fail
end_fail-IsSound final s k l b = record {
  kept = k;
  phased = tt;
  live = inl (go s.recorder.status final l b);
}
  where
    and_true : (b : Bool) → (b && true) ≡ b
    and_true true = refl
    and_true false = refl

    go :
        (status : Status) (last : Bool)
        → (last ≡ true → (s.recorder.stopping ≡ true) × (status ≡ error))
        → IsBusy status s.recorder
        → IsBusy status (record s.recorder { stopping = s.recorder.stopping && not last })
    go status true l b =
        let r' = record s.recorder { stopping = s.recorder.stopping && false } in
        let failed : IsBusy error s.recorder = subst (λ t. IsBusy t s.recorder) (l refl).1 b in
        subst (λ t. IsBusy t r') (sym (l refl).1) (failed.0, λ h. failed.1 (l refl).0)
    go status false l b =
        IsBusy-move status s.recorder (record s.recorder { stopping = s.recorder.stopping && true })
          refl (and_true s.recorder.stopping) (λ a t. t) (λ n. n) b

pub checkpoint_at-IsSound :
    (entry : Option CachedRecording) (disk final : Bool) (s : System)
    → s.recorder.entry ≡ entry
    → IsKept s
    → (final ≡ true
        → (disk ≡ true)
          × (s.recorder.stopping ≡ true)
          × (s.recorder.timer ≡ false)
          × (s.recorder.accepting ≡ false))
    → IsBusy s.recorder.status s.recorder
    → IsSound (checkpoint_at entry disk final s)
unfolding checkpoint_at checkpoint_entry is_none
checkpoint_at-IsSound none disk true s e k l b = fail-IsSound true s k (λ h. (l h).1)
checkpoint_at-IsSound none disk false s e k l b =
    after_checkpoint-IsSound false s k (λ h. absurd (cc h)) b
checkpoint_at-IsSound (some entry) true final s e k l b = record {
  kept =
      Kept-take_buffer s.directory s.recorder.buffer s.accepted entry
        (subst (λ o. Kept s.directory s.recorder.buffer s.accepted o) e k);
  phased = λ h. (refl, ((l h).1, (l h).2, (l h).3, refl));
  live = inl (
      IsBusy-move s.recorder.status s.recorder
        (record s.recorder { entry = some (take_buffer entry s.recorder.buffer); buffer = [] }) refl
        refl (λ a t. t) (λ n. refl) b);
}
checkpoint_at-IsSound (some entry) false final s e k l b = record {
  kept = k;
  phased = λ h. absurd (cc ((l h).0));
  live = inl b;
}
