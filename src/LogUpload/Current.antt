-- ===== src/LogUpload/Current.antt =====
-- The upload under way and the visible notice, through every event.
use friendly_ai_explorer.Common.{
  ◌==◌, if◌then◌else◌, includes, ℤ, ℕ, ◌≡◌, refl, sym, ap, subst, ◌∙◌, ◌⊎◌, inl, inr, Bool, true,
  false, not, ◌||◌, Option, none, some, List, [], ◌∷◌, arith,
}
use friendly_ai_explorer.LogUpload.{
  UploadPhase, LogUploadState, LogUploadTask, task, is_blank, is_uploading, publish, set_notice,
  present_at, present, begin, start, cancel_at, cancel, is_current, clamp_percent, present_visible,
  report, UploadEnd, final_state, without, finish_upload, finish, close, UploadEvent, react,
  react_all, empty, resolved, rejected, starts, reports, finishes, closes, cancels,
}

-- A visible notice shows the state.
abbrev pub IsShown : Option ℕ → (ℕ → Option LogUploadState) → LogUploadState → Type 0
IsShown none notices st = Unit
IsShown (some id) notices st = notices id ≡ some st

-- In the uploading phase one upload is under way, the current one; in every other phase none is.
abbrev pub IsAlone : UploadPhase → Option ℕ → List ℕ → Type 0
IsAlone phase abort uploads =
    ((is_uploading phase ≡ true) × ((t : ℕ) × (uploads ≡ t ∷ []) × (abort ≡ some t)))
    ⊎ ((is_uploading phase ≡ false) × (uploads ≡ []) × (abort ≡ none))

pub record IsTask (s : LogUploadTask) : Type 0 where
  pub shown : IsShown s.visible s.notices s.state
  pub alone : IsAlone s.state.phase s.abort s.uploads

set_notice_self :
    (id : ℕ) (st : LogUploadState) (notices : ℕ → Option LogUploadState)
    → set_notice id st notices id ≡ some st
unfolding set_notice
set_notice_self id st notices = ground arith

present_at-IsTask :
    (visible : Option ℕ) (s : LogUploadTask)
    → s.visible ≡ visible
    → IsAlone s.state.phase s.abort s.uploads
    → IsTask (present_at visible s)
unfolding present_at
present_at-IsTask (some id) s e a = record {
  shown =
      subst (λ v. IsShown v (set_notice id s.state s.notices) s.state) (sym e)
        (set_notice_self id s.state s.notices);
  alone = a;
}
present_at-IsTask none s e a = record {
  shown = set_notice_self s.supply s.state s.notices;
  alone = a;
}

present-IsTask : (s : LogUploadTask) → IsAlone s.state.phase s.abort s.uploads → IsTask (present s)
unfolding present
present-IsTask s a = present_at-IsTask s.visible s refl a

IsTask-if :
    (b : Bool) (s t : LogUploadTask)
    → (b ≡ true → IsTask s)
    → (b ≡ false → IsTask t)
    → IsTask (if b then s else t)
IsTask-if true s t f g = f refl
IsTask-if false s t f g = g refl

not_uploading :
    (phase : UploadPhase) (abort : Option ℕ) (uploads : List ℕ)
    → is_uploading phase ≡ false
    → IsAlone phase abort uploads
    → (uploads ≡ []) × (abort ≡ none)
not_uploading phase abort uploads h (inl (k, _)) = absurd (cc (h, k))
not_uploading phase abort uploads h (inr (k, p, q)) = (p, q)

start-IsTask : (text : List ℕ) (s : LogUploadTask) → IsTask s → IsTask (start text s)
unfolding start begin is_uploading
start-IsTask text s i =
    IsTask-if (is_uploading s.state.phase) (present s) other (λ h. present-IsTask s i.alone)
      (λ h.
        let (p, q) = not_uploading s.state.phase s.abort s.uploads h i.alone in
        IsTask-if (is_blank text) (present blank) (present (begin s))
          (λ k. present-IsTask blank (inr (refl, p, q)))
          (λ k. present-IsTask (begin s) (inl (refl, (s.supply, ap (◌∷◌ s.supply) p, refl)))))
  where
    blank : LogUploadTask
    blank = record s { state = record s.state { phase = empty }; visible = none }

    other : LogUploadTask
    other = if is_blank text then present blank else present (begin s)

present_visible-IsTask :
    (visible : Option ℕ) (s : LogUploadTask)
    → s.visible ≡ visible
    → IsAlone s.state.phase s.abort s.uploads
    → IsTask (present_visible visible s)
unfolding present_visible
present_visible-IsTask none s e a = record {
  shown = subst (λ v. IsShown v s.notices s.state) (sym e) tt;
  alone = a;
}
present_visible-IsTask (some id) s e a = present-IsTask s a

report-IsTask :
    (controller : ℕ) (percent : Option ℤ) (s : LogUploadTask)
    → IsTask s
    → IsTask (report controller percent s)
unfolding report publish
report-IsTask controller percent s i =
    IsTask-if (includes s.aborted controller || not (is_current s.abort controller)) s
      (present_visible s.visible told) (λ h. i)
      (λ h. present_visible-IsTask s.visible told refl i.alone)
  where
    told : LogUploadTask
    told = publish (record s.state { progress = clamp_percent percent }) s

ended :
    (controller : ℕ) (uploads : List ℕ) (t : ℕ)
    → uploads ≡ t ∷ []
    → includes uploads controller ≡ true
    → without controller uploads ≡ []
unfolding without
ended controller uploads t e h =
    let known : includes (t ∷ []) controller ≡ true =
      ap (λ us. includes us controller) (sym e) ∙ h in
    ap (without controller) e ∙ go (t == controller) known
  where
    go : (b : Bool) → (b || false) ≡ true → (if b then [] else t ∷ []) ≡ []
    go true k = refl
    go false k = absurd (cc k)

final_phase :
    (ending : UploadEnd) (was_aborted : Bool) (st : LogUploadState)
    → is_uploading (final_state ending was_aborted st).phase ≡ false
unfolding final_state is_uploading
final_phase (resolved filename) was_aborted st = refl
final_phase rejected true st = refl
final_phase rejected false st = refl

finish-IsTask :
    (controller : ℕ) (ending : UploadEnd) (s : LogUploadTask)
    → IsTask s
    → IsTask (finish controller ending s)
unfolding finish finish_upload
finish-IsTask controller ending s i =
    IsTask-if (includes s.uploads controller) (finish_upload controller ending s) s
      (λ h.
        present-IsTask over
          (inr (final_phase ending (includes s.aborted controller) s.state, gone i.alone h, refl)))
      (λ h. i)
  where
    over : LogUploadTask
    over = record s {
      state = final_state ending (includes s.aborted controller) s.state;
      abort = none;
      uploads = without controller s.uploads;
    }

    gone :
        IsAlone s.state.phase s.abort s.uploads
        → includes s.uploads controller ≡ true
        → without controller s.uploads ≡ []
    gone (inl (k, (t, p, q))) h = ended controller s.uploads t p h
    gone (inr (k, p, q)) h = absurd (cc (ap (λ us. includes us controller) (sym p) ∙ h))

close-IsTask : (id : ℕ) (s : LogUploadTask) → IsTask s → IsTask (close id s)
unfolding close
close-IsTask id s i = record { shown = go (is_current s.visible id); alone = i.alone }
  where
    go : (b : Bool) → IsShown (if b then none else s.visible) s.notices s.state
    go true = tt
    go false = i.shown

cancel_at-IsTask : (abort : Option ℕ) (s : LogUploadTask) → IsTask s → IsTask (cancel_at abort s)
unfolding cancel_at
cancel_at-IsTask none s i = i
cancel_at-IsTask (some controller) s i = record { shown = i.shown; alone = i.alone }

react-IsTask : (e : UploadEvent) (s : LogUploadTask) → IsTask s → IsTask (react e s)
unfolding react cancel
react-IsTask (starts text) s i = start-IsTask text s i
react-IsTask (reports controller percent) s i = report-IsTask controller percent s i
react-IsTask (finishes controller ending) s i = finish-IsTask controller ending s i
react-IsTask (closes id) s i = close-IsTask id s i
react-IsTask cancels s i = cancel_at-IsTask s.abort s i

react_all-IsTask : (es : List UploadEvent) (s : LogUploadTask) → IsTask s → IsTask (react_all es s)
unfolding react_all
react_all-IsTask [] s i = i
react_all-IsTask (e ∷ es) s i = react_all-IsTask es (react e s) (react-IsTask e s i)

task-IsTask : IsTask task
unfolding task is_uploading
task-IsTask = record { shown = tt; alone = inr (refl, refl, refl) }

-- Whatever happens, in any order: in the uploading phase exactly one upload is under way, the one that
-- `cancel` aborts, and in every other phase there is none.
pub react_all-IsAlone :
    (es : List UploadEvent)
    → IsAlone (react_all es task).state.phase (react_all es task).abort (react_all es task).uploads
react_all-IsAlone es = (react_all-IsTask es task task-IsTask).alone

-- Whatever happens, in any order: a notice that is visible shows the state as it is now.
pub react_all-IsShown :
    (es : List UploadEvent)
    → IsShown (react_all es task).visible (react_all es task).notices (react_all es task).state
react_all-IsShown es = (react_all-IsTask es task task-IsTask).shown
