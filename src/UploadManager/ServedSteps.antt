-- ===== src/UploadManager/ServedSteps.antt =====
-- The invariant of the list of uploads under each of its steps, in
-- frontend/src/lib/upload-manager.ts.
use friendly_ai_explorer.Common.{
  All-map, ◌==◌, if◌then◌else◌, Bool-cases, All, All-append, ℕ, suc, ◌≡◌, refl, sym, subst, ◌∙◌,
  inl, inr, Bool, true, false, not, ◌&&◌, ◌||◌, Option, none, some, List, [], ◌∷◌, ◌++◌,
}
use friendly_ai_explorer.UploadManager.Transfer.{UploadReceipt, is_skipped, is_active, is_done}
use friendly_ai_explorer.UploadManager.Jobs.{
  JobPhase, queued, complete, skipped, paused, UploadJob, Runtime, Perform, Uploads, is_queued,
  update_job, set_phase, get_item, set_item, file_of, bind, restore, restored_job, restored_jobs,
  is_known,
}
use friendly_ai_explorer.UploadManager.Pump.{
  next_job, pump, end_perform, bind_user, same_owner, enqueue, or_empty, with_file, requeue,
  resume_item, resume,
}
use friendly_ai_explorer.UploadManager.Served.{
  HasFile, IsFiled, is_busy, IsServed, All-update, HasFile-set_item, HasFile-set_own,
  next_job-IsServed,
}

-- A change of a job that does not queue it.
abbrev pub IsQuiet : (UploadJob → UploadJob) → Type 0
IsQuiet patch =
    (j : UploadJob)
    → ((patch j).key ≡ j.key) × (is_queued (patch j).phase ≡ true → is_queued j.phase ≡ true)

patch-IsFiled :
    (items : List (ℕ × Runtime)) (patch : UploadJob → UploadJob) (j : UploadJob)
    → IsQuiet patch
    → IsFiled items j
    → IsFiled items (patch j)
patch-IsFiled items patch j q h k = subst (λ x. HasFile x items) (sym (q j).0) (h ((q j).1 k))

pub update_job-IsServed :
    (key : ℕ) (patch : UploadJob → UploadJob) (m : Uploads)
    → IsQuiet patch
    → IsServed m
    → IsServed (update_job key patch m)
unfolding update_job
update_job-IsServed key patch m q i = record {
  files =
      All-update (IsFiled m.runtime) (IsFiled m.runtime) key patch m.jobs (λ j h. h)
        (λ j e h. patch-IsFiled m.runtime patch j q h) i.files;
  works = i.works;
  idle = λ k.
      All-update (λ j. is_queued j.phase ≡ false) (λ j. is_queued j.phase ≡ false) key patch m.jobs
        (λ j h. h)
        (λ j e h. elim (Bool-cases (is_queued (patch j).phase)) [
          | inr f ↦ f
          | inl t ↦ absurd (cc (sym h ∙ (q j).1 t))
        ])
        (i.idle k);
}

-- What the invariant does not depend on.
pub same-IsServed :
    (m : Uploads) (aborted deletes : List ℕ) (revision : ℕ)
    → IsServed m
    → IsServed (record m { aborted = aborted; deletes = deletes; revision = revision })
same-IsServed m aborted deletes revision i = record {
  files = i.files;
  works = i.works;
  idle = i.idle;
}

pub set_phase-IsQuiet : (phase : JobPhase) → is_queued phase ≡ false → IsQuiet (set_phase phase)
unfolding set_phase
set_phase-IsQuiet phase e j = (refl, λ t. absurd (cc (sym e ∙ t)))

not_busy : (f : Option Perform) → is_busy f ≡ false → f ≡ none
unfolding is_busy
not_busy none e = refl
not_busy (some p) e = absurd (cc e)

-- `pump`, after a job was queued.
pump-IsServed :
    (m : Uploads)
    → m.running ≡ is_busy m.flight
    → All (IsFiled m.runtime) m.jobs
    → IsServed (pump m)
unfolding pump
pump-IsServed m w a = go m.running refl
  where
    go :
        (b : Bool)
        → m.running ≡ b
        → IsServed (if b then m else next_job (record m { running = true }))
    go true e = record { files = a; works = w; idle = λ k. absurd (cc (sym e ∙ k)) }
    go false e =
        next_job-IsServed (record m { running = true }) refl (not_busy m.flight (sym w ∙ e)) a

pub end_perform-IsServed : (m : Uploads) → m.running ≡ true → IsServed m → IsServed (end_perform m)
unfolding end_perform
end_perform-IsServed m r i = next_job-IsServed (record m { flight = none }) r refl i.files

pub enqueue-IsServed : (file size : ℕ) (m : Uploads) → IsServed m → IsServed (enqueue file size m)
unfolding enqueue
enqueue-IsServed file size m i =
    let item : Runtime = record { file = some file; abort = none } in
    let items : List (ℕ × Runtime) = set_item m.supply item m.runtime in
    let job : UploadJob = record {
      key = m.supply;
      size = size;
      phase = queued;
      percent = 0;
      server = none;
      needs_file = false;
    } in
    pump-IsServed (record m { runtime = items; jobs = m.jobs ++ (job ∷ []); supply = suc m.supply })
      i.works
      (All-append (IsFiled items) m.jobs (job ∷ [])
        (All-map (IsFiled m.runtime) (IsFiled items) m.jobs
          (λ j p q. HasFile-set_item j.key m.supply item m.runtime (λ h. (file, refl)) (p q))
          i.files)
        ((λ q. HasFile-set_own m.supply file item m.runtime refl), tt))

-- `resume` keeps the file that an item has, unless it brings a new one.
with_file-kept :
    (new : Option ℕ) (old : Option Runtime)
    → (n : ℕ) × (file_of old ≡ some n)
    → (n : ℕ) × ((with_file new (or_empty old)).file ≡ some n)
unfolding file_of with_file or_empty
with_file-kept none none (n, e) = absurd (cc e)
with_file-kept none (some item) (n, e) = (n, e)
with_file-kept (some file) old h = (file, refl)

pub resume-IsServed :
    (key : ℕ) (file : Option ℕ) (m : Uploads) → IsServed m → IsServed (resume key file m)
unfolding resume resume_item update_job requeue
resume-IsServed key file m i = go item.file refl
  where
    item : Runtime
    item = with_file file (or_empty (get_item key m.runtime))

    items : List (ℕ × Runtime)
    items = set_item key item m.runtime

    m1 : Uploads
    m1 = record m { runtime = items }

    files : All (IsFiled items) m.jobs
    files =
        All-map (IsFiled m.runtime) (IsFiled items) m.jobs
          (λ j p q.
            HasFile-set_item j.key key item m.runtime (with_file-kept file (get_item key m.runtime))
              (p q))
          i.files

    go : (f : Option ℕ) → item.file ≡ f → IsServed (resume_item key f m1)
    go none e =
        update_job-IsServed key (λ j. record j { needs_file = true }) m1 (λ j. (refl, λ t. t))
          (record { files = files; works = i.works; idle = i.idle })
    go (some f) e = pump-IsServed (update_job key requeue m1) i.works (
        All-update (IsFiled items) (IsFiled items) key requeue m.jobs (λ j h. h)
          (λ j same h q.
            subst (λ x. HasFile x items) (sym same) (HasFile-set_own key f item m.runtime e))
          files)

pub bind_user-IsServed : (user : Option ℕ) (m : Uploads) → IsServed m → IsServed (bind_user user m)
unfolding bind_user bind
bind_user-IsServed user m i = go (same_owner m.owner user)
  where
    go : (b : Bool) → IsServed (if b then m else bind user m)
    go true = i
    go false = record { files = tt; works = i.works; idle = λ k. tt }

-- A job of an earlier session is not queued.
restored_job-idle :
    (t : UploadReceipt) (size : ℕ) → is_queued (restored_job (t, size)).phase ≡ false
unfolding restored_job is_queued
restored_job-idle t size = go (is_active t.status) (is_skipped t.status)
  where
    go : (a b : Bool) → is_queued (if a then paused else if b then skipped else complete) ≡ false
    go true b = refl
    go false true = refl
    go false false = refl

restored_jobs-idle :
    (jobs : List UploadJob) (ts : List (UploadReceipt × ℕ))
    → All (λ j. is_queued j.phase ≡ false) (restored_jobs jobs ts)
unfolding restored_jobs
restored_jobs-idle jobs [] = tt
restored_jobs-idle jobs ((t, size) ∷ ts) =
    go ((is_active t.status || is_done t.status) && not (is_known t.id jobs))
      (restored_jobs-idle jobs ts)
  where
    go :
        (b : Bool)
        → All (λ j. is_queued j.phase ≡ false) (restored_jobs jobs ts)
        → All
            (λ j. is_queued j.phase ≡ false)
            (if b then restored_job (t, size) ∷ restored_jobs jobs ts else restored_jobs jobs ts)
    go true rest = (restored_job-idle t size, rest)
    go false rest = rest

pub restore-IsServed :
    (generation : ℕ) (ts : List (UploadReceipt × ℕ)) (m : Uploads)
    → IsServed m
    → IsServed (restore generation ts m)
unfolding restore
restore-IsServed generation ts m i = go (generation == m.epoch)
  where
    idle : All (λ j. is_queued j.phase ≡ false) (restored_jobs m.jobs ts)
    idle = restored_jobs-idle m.jobs ts

    go :
        (b : Bool)
        → IsServed (if b then record m { jobs = m.jobs ++ restored_jobs m.jobs ts } else m)
    go false = i
    go true = record {
      files = All-append (IsFiled m.runtime) m.jobs (restored_jobs m.jobs ts) i.files (
          All-map (λ j. is_queued j.phase ≡ false) (IsFiled m.runtime) (restored_jobs m.jobs ts)
            (λ j e q. absurd (cc (sym e ∙ q))) idle);
      works = i.works;
      idle = λ k.
          All-append (λ j. is_queued j.phase ≡ false) m.jobs (restored_jobs m.jobs ts) (i.idle k)
            idle;
    }
