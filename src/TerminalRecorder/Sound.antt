-- ===== src/TerminalRecorder/Sound.antt =====
-- What holds of a recorder between two steps: what the record, the buffer and the disk hold together,
-- what the job's phase stands for, and what the status says.
use friendly_ai_explorer.Common.{
  ltb, ◌==◌, if◌then◌else◌, length, Bytes, utf8, utf8-append, ℕ, ◌+◌, ◌*◌, ◌≡◌, refl, sym, ap, ◌∙◌,
  ◌⊎◌, Bool, true, false, not, ◌&&◌, Option, none, some, List, [], ◌++◌, append-nil, append_assoc,
  arith,
}
use friendly_ai_explorer.TerminalRecorder.State.{
  is_none, mib, Directory, CachedRecording, Status, TerminalRecorder, Phase, System, content, idle,
  recording, saving, stopped, error, rest, caching, writing, confirming, failing, removing,
}
use friendly_ai_explorer.TerminalRecorder.Job.{take_buffer, next_part, rotates}
use friendly_ai_explorer.TerminalRecorder.Files.{
  contents, IsPlaced, contents-next_part, written, after_writing, written-IsPlaced,
  contents-written,
}

-- Disk, pending text and buffer, in this order, are the accepted output.
abbrev pub Kept : Directory → List ℕ → List ℕ → Option CachedRecording → Type 0
Kept directory buffer accepted none = buffer ≡ []
Kept directory buffer accepted (some e) =
    IsPlaced directory e × (contents directory e ++ utf8 (e.pending ++ buffer) ≡ utf8 accepted)

abbrev pub pending_of : Option CachedRecording → List ℕ
pending_of none = []
pending_of (some e) = e.pending

-- The work of `stop`, after its buffer was taken.
abbrev pub IsLast : TerminalRecorder → Type 0
IsLast r = (r.stopping ≡ true) × (r.timer ≡ false) × (r.accepting ≡ false) × (r.buffer ≡ [])

-- The bytes to be written are the pending text's, and the file ends where they belong.
abbrev pub IsDue : Directory → Bytes → Option CachedRecording → Type 0
IsDue directory bytes none = Unit
IsDue directory bytes (some e) =
    (bytes ≡ utf8 e.pending) × (length (content (directory e.file)) ≡ e.offset)

abbrev pub IsPhase : Phase → Directory → TerminalRecorder → Type 0
IsPhase rest directory r = Unit
IsPhase (caching disk final value) directory r = final ≡ true → (disk ≡ true) × IsLast r
IsPhase (writing final bytes) directory r =
    IsDue directory bytes r.entry × (final ≡ true → IsLast r)
IsPhase (confirming final value) directory r = (pending_of r.entry ≡ []) × (final ≡ true → IsLast r)
IsPhase (failing final value) directory r = final ≡ true → (r.stopping ≡ true) × (r.status ≡ error)
IsPhase removing directory r = (pending_of r.entry ≡ []) × IsLast r

-- The status of a recorder at work, which accepts or is being stopped or has failed.
abbrev pub IsBusy : Status → TerminalRecorder → Type 0
IsBusy idle r = ⊥
IsBusy recording r = (r.accepting ≡ true) × (r.stopping ≡ false) × (is_none r.entry ≡ false)
IsBusy saving r = (r.accepting ≡ false) × (r.stopping ≡ true) × (r.timer ≡ false)
IsBusy stopped r = ⊥
IsBusy error r = (r.accepting ≡ false) × (r.stopping ≡ true → r.timer ≡ false)

pub record IsFinished (s : System) : Type 0 where
  pub resting : s.phase ≡ rest
  pub unset : s.recorder.timer ≡ false
  pub no_stop : s.recorder.stopping ≡ false
  pub closed : s.recorder.accepting ≡ false
  pub emptied : s.recorder.buffer ≡ []
  pub flushed : pending_of s.recorder.entry ≡ []

pub record IsSound (s : System) : Type 0 where
  pub kept : Kept s.directory s.recorder.buffer s.accepted s.recorder.entry
  pub phased : IsPhase s.phase s.directory s.recorder
  pub live : IsBusy s.recorder.status s.recorder ⊎ IsFinished s

-- Accepted text that joins the buffer is kept.
pub Kept-append :
    (directory : Directory) (buffer accepted more : List ℕ) (entry : Option CachedRecording)
    → is_none entry ≡ false
    → Kept directory buffer accepted entry
    → Kept directory (buffer ++ more) (accepted ++ more) entry
unfolding is_none
Kept-append directory buffer accepted more none h k = absurd (cc h)
Kept-append directory buffer accepted more (some e) h k = (
  k.0,
  ap (λ cs. contents directory e ++ utf8 cs) (sym (append_assoc e.pending buffer more))
      ∙ ap (◌++◌ (contents directory e)) (utf8-append (e.pending ++ buffer) more)
      ∙ sym (append_assoc (contents directory e) (utf8 (e.pending ++ buffer)) (utf8 more))
      ∙ ap (λ bs. bs ++ utf8 more) k.1
      ∙ sym (utf8-append accepted more),
)

-- Only a part that was begun ends.
rotates_started : (e : CachedRecording) → rotates e ≡ true → (e.offset == 0) ≡ false
unfolding rotates
rotates_started e h =
    go (e.offset == 0) (ltb (e.options.rotate_mib * mib) (e.offset + length (utf8 e.pending))) h
  where
    go : (b c : Bool) → (not b && c) ≡ true → b ≡ false
    go true c k = absurd (cc k)
    go false c k = refl

next_part-IsPlaced :
    (directory : Directory) (e : CachedRecording)
    → IsPlaced directory e
    → IsPlaced directory (next_part e)
unfolding next_part
next_part-IsPlaced directory e p = record { named = refl; positive = omega arith; sized = refl }

-- The buffer that moves into the pending text is kept, in a new part too.
pub Kept-take_buffer :
    (directory : Directory) (buffer accepted : List ℕ) (e : CachedRecording)
    → Kept directory buffer accepted (some e)
    → Kept directory [] accepted (some (take_buffer e buffer))
unfolding take_buffer next_part
Kept-take_buffer directory buffer accepted e k = go (rotates filled) refl
  where
    filled : CachedRecording
    filled = record e { pending = e.pending ++ buffer }

    filled-placed : IsPlaced directory filled
    filled-placed = record { named = k.0.named; positive = k.0.positive; sized = k.0.sized }

    go :
        (b : Bool)
        → rotates filled ≡ b
        → Kept directory [] accepted (some (if b then next_part filled else filled))
    go true h = (
      next_part-IsPlaced directory filled filled-placed,
      ap (λ bs. bs ++ utf8 ((e.pending ++ buffer) ++ []))
            (contents-next_part directory filled filled-placed (rotates_started filled h))
          ∙ ap (λ cs. contents directory e ++ utf8 cs) (append-nil (e.pending ++ buffer))
          ∙ k.1,
    )
    go false h = (
      filled-placed,
      ap (λ cs. contents directory e ++ utf8 cs) (append-nil (e.pending ++ buffer)) ∙ k.1,
    )

-- Written text is kept.
pub Kept-written :
    (directory : Directory) (buffer accepted : List ℕ) (e : CachedRecording) (bytes : Bytes)
    → Kept directory buffer accepted (some e)
    → IsDue directory bytes (some e)
    → Kept (after_writing directory e bytes) buffer accepted (some (written e bytes))
Kept-written directory buffer accepted e bytes k d = (
  written-IsPlaced directory e bytes k.0 d.1,
  ap (λ bs. bs ++ utf8 buffer) (contents-written directory e bytes k.0 d.1)
      ∙ append_assoc (contents directory e) bytes (utf8 buffer)
      ∙ ap (λ bs. contents directory e ++ (bs ++ utf8 buffer)) d.0
      ∙ ap (◌++◌ (contents directory e)) (sym (utf8-append e.pending buffer))
      ∙ k.1,
)
