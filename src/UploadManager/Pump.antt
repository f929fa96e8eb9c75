-- ===== src/UploadManager/Pump.antt =====
-- The calls of the list of uploads in frontend/src/lib/upload-manager.ts, the loop `pump`, and what
-- `perform` does to the list. The loop waits for one call of `perform` after the other; what happens
-- inside a call, whose transfer is modelled by itself, comes as events in any order.
use friendly_ai_explorer.Common.{
  ◌==◌, if◌then◌else◌, ℕ, suc, Bool, true, false, not, ◌||◌, Option, none, some, List, [], ◌∷◌,
  ◌++◌,
}
use friendly_ai_explorer.UploadManager.Transfer.{UploadReceipt, is_skipped}
use friendly_ai_explorer.UploadManager.Jobs.{
  JobPhase, queued, hashing, uploading, saving, complete, skipped, paused, error, cancelled,
  UploadJob, Runtime, Perform, Uploads, is_queued, is_halted, update_job, set_phase, find_job,
  remove_job, get_item, set_item, remove_item, file_of, abort_item, changed, bind, restore,
}

-- `perform` up to its first await. Without a file it returns at once and the loop finds the same job
-- again, for ever: the loop runs then, and waits for no call.
unfoldable pub perform : UploadJob → Option ℕ → Uploads → Uploads
perform job none m = m
perform job (some file) m = update_job job.key (set_phase hashing) (record m {
  runtime = set_item job.key (record { file = some file; abort = some m.supply }) m.runtime;
  flight = some (record { key = job.key; controller = m.supply; generation = m.epoch });
  supply = suc m.supply;
})

unfoldable pub perform_next : Option UploadJob → Uploads → Uploads
perform_next none m = record m { running = false }
perform_next (some job) m = perform job (file_of (get_item job.key m.runtime)) m

-- The head of the loop.
unfoldable pub next_job : Uploads → Uploads
next_job m = perform_next (find_job (λ j. is_queued j.phase) m.jobs) m

unfoldable pub pump : Uploads → Uploads
pump m = if m.running then m else next_job (record m { running = true })

-- `perform` returns, and the loop goes on.
unfoldable pub end_perform : Uploads → Uploads
end_perform m = next_job (record m { flight = none })

unfoldable pub same_owner : Option ℕ → Option ℕ → Bool
same_owner none none = true
same_owner (some a) (some b) = a == b
same_owner _ _ = false

-- `bind`
unfoldable pub bind_user : Option ℕ → Uploads → Uploads
bind_user user m = if same_owner m.owner user then m else bind user m

-- `enqueue`
unfoldable pub enqueue : ℕ → ℕ → Uploads → Uploads
enqueue file size m = pump (record m {
  runtime = set_item m.supply (record { file = some file; abort = none }) m.runtime;
  jobs =
      m.jobs
      ++ (record {
        key = m.supply;
        size = size;
        phase = queued;
        percent = 0;
        server = none;
        needs_file = false;
      }
          ∷ []);
  supply = suc m.supply;
})

unfoldable pub pause : ℕ → Uploads → Uploads
pause key m =
    update_job key (set_phase paused)
      (record m { aborted = abort_item (get_item key m.runtime) m.aborted })

unfoldable pub or_empty : Option Runtime → Runtime
or_empty none = record { file = none; abort = none }
or_empty (some item) = item

unfoldable pub with_file : Option ℕ → Runtime → Runtime
with_file none item = item
with_file (some file) item = record item { file = some file }

unfoldable pub requeue : UploadJob → UploadJob
requeue j = record j { phase = queued; needs_file = false }

unfoldable pub resume_item : ℕ → Option ℕ → Uploads → Uploads
resume_item key none m = update_job key (λ j. record j { needs_file = true }) m
resume_item key (some file) m = pump (update_job key requeue m)

unfoldable pub resume : ℕ → Option ℕ → Uploads → Uploads
resume key file m =
    let item = with_file file (or_empty (get_item key m.runtime)) in
    resume_item key item.file (record m { runtime = set_item key item m.runtime })

-- `cancel` up to its request: a job that the server does not know is done with.
unfoldable pub cancel_at : Option UploadJob → ℕ → Uploads → Uploads
cancel_at none key m = m
cancel_at (some state) key m =
    let m1 =
      update_job key (set_phase cancelled)
        (record m { aborted = abort_item (get_item key m.runtime) m.aborted }) in
    on_server state.server m1
  where
    on_server : Option UploadReceipt → Uploads → Uploads
    on_server none m1 = changed m1
    on_server (some t) m1 = record m1 { deletes = m1.deletes ++ (key ∷ []) }

unfoldable pub cancel : ℕ → Uploads → Uploads
cancel key m = cancel_at (find_job (λ j. j.key == key) m.jobs) key m

unfoldable pub is_in : ℕ → List ℕ → Bool
is_in c [] = false
is_in c (d ∷ ds) = c == d || is_in c ds

unfoldable pub remove_first : ℕ → List ℕ → List ℕ
remove_first c [] = []
remove_first c (d ∷ ds) = let rest = remove_first c ds in if c == d then ds else d ∷ rest

-- The server has answered the deletion of a job's upload.
unfoldable pub answer_cancel : Bool → ℕ → Uploads → Uploads
answer_cancel true key m = changed m
answer_cancel false key m = update_job key (set_phase error) m

unfoldable pub end_cancel : Bool → ℕ → Uploads → Uploads
end_cancel deleted key m =
    if is_in key m.deletes
    then answer_cancel deleted key (record m { deletes = remove_first key m.deletes })
    else m

unfoldable pub dismiss : ℕ → Uploads → Uploads
dismiss key m = record m { jobs = remove_job key m.jobs; runtime = remove_item key m.runtime }

-- What happens inside `perform`: the server has created the upload; a part is on its way; a part was
-- stored; all parts were stored; the server has answered with a done upload, at once or at the end;
-- an error, with the abort of the controller as one.
pub data PerformEvent : Type 0 where
  creates stores ends_stored ends_complete : UploadReceipt → PerformEvent
  progresses : ℕ → PerformEvent
  saves fails : PerformEvent

unfoldable pub set_server : UploadReceipt → UploadJob → UploadJob
set_server t j = record j { server = some t }

-- The phase and the progress of a job together.
unfoldable pub set_progress : JobPhase → ℕ → UploadJob → UploadJob
set_progress phase percent j = record j { phase = phase; percent = percent }

unfoldable pub finished : UploadReceipt → UploadJob → UploadJob
finished t j = record j {
  phase = if is_skipped t.status then skipped else complete;
  percent = 100;
  server = some t;
}

-- `done`
unfoldable pub complete_job : ℕ → UploadReceipt → Uploads → Uploads
complete_job key t m = changed (update_job key (finished t) m)

unfoldable pub is_halted_job : Option UploadJob → Bool
is_halted_job none = false
is_halted_job (some j) = is_halted j.phase

-- The `catch` of `perform`.
unfoldable pub fail_perform : Perform → Uploads → Uploads
fail_perform p m =
    if not (p.generation == m.epoch)
      || is_in p.controller m.aborted
      || is_halted_job (find_job (λ j. j.key == p.key) m.jobs)
    then m
    else update_job p.key (set_phase error) m

unfoldable pub perform_step : PerformEvent → Perform → Uploads → Uploads
perform_step (creates t) p m =
    if p.generation == m.epoch then update_job p.key (set_server t) m else end_perform m
perform_step (progresses percent) p m = update_job p.key (set_progress uploading percent) m
perform_step (stores t) p m = update_job p.key (set_server t) m
perform_step saves p m = update_job p.key (set_progress saving 99) m
perform_step (ends_stored t) p m =
    end_perform (if is_in p.controller m.aborted then m else complete_job p.key t m)
perform_step (ends_complete t) p m =
    end_perform (if p.generation == m.epoch then complete_job p.key t m else m)
perform_step fails p m = end_perform (fail_perform p m)

unfoldable pub perform_event : PerformEvent → Option Perform → Uploads → Uploads
perform_event e none m = m
perform_event e (some p) m = perform_step e p m

-- A call of the list, or the end of one of its awaits.
pub data UploadStep : Type 0 where
  binds : Option ℕ → UploadStep
  restores : ℕ → List (UploadReceipt × ℕ) → UploadStep
  enqueues : ℕ → ℕ → UploadStep
  pauses cancels dismisses : ℕ → UploadStep
  resumes : ℕ → Option ℕ → UploadStep
  ends_cancel : Bool → ℕ → UploadStep
  performs : PerformEvent → UploadStep

unfoldable pub upload_step : UploadStep → Uploads → Uploads
upload_step (binds user) m = bind_user user m
upload_step (restores generation ts) m = restore generation ts m
upload_step (enqueues file size) m = enqueue file size m
upload_step (pauses key) m = pause key m
upload_step (cancels key) m = cancel key m
upload_step (dismisses key) m = dismiss key m
upload_step (resumes key file) m = resume key file m
upload_step (ends_cancel deleted key) m = end_cancel deleted key m
upload_step (performs e) m = perform_event e m.flight m

unfoldable pub upload_steps : List UploadStep → Uploads → Uploads
upload_steps [] m = m
upload_steps (e ∷ es) m = upload_steps es (upload_step e m)
