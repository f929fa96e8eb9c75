-- ===== src/UploadManager/JobExamples.antt =====
-- Runs of the list of uploads of frontend/src/lib/upload-manager.ts at concrete inputs.
use friendly_ai_explorer.Common.{◌≡◌, refl, none, List, [], ◌∷◌, map}
use friendly_ai_explorer.UploadManager.Transfer.{UploadReceipt, active}
use friendly_ai_explorer.UploadManager.Jobs.{
  UploadJob, saving, hashing, queued, no_uploads, is_queued, is_halted, update_jobs, update_job,
  set_phase, find_job, get_item, set_item, file_of, abort_item,
}
use friendly_ai_explorer.UploadManager.Pump.{
  perform, perform_next, next_job, pump, end_perform, enqueue, pause, or_empty, with_file, requeue,
  resume_item, resume, creates, saves, fails, set_server, set_progress, fail_perform, perform_step,
  perform_event, UploadStep, enqueues, pauses, resumes, performs, upload_step, upload_steps, is_in,
  is_halted_job,
}

abbrev created : UploadReceipt
created = record { id = 7; status = active; chunk_size = 4; parts = [] }

-- Two uploads; the first is paused and resumed while it is performed.
abbrev two_uploads : List UploadStep
two_uploads =
    enqueues 1 10
    ∷ enqueues 2 20
    ∷ performs (creates created)
    ∷ pauses 0
    ∷ resumes 0 none
    ∷ performs fails
    ∷ []

-- The pause ends the first call of `perform`, and the resumed upload is performed again.
two_uploads_test :
    map (λ (j : UploadJob). j.phase) (upload_steps two_uploads no_uploads).jobs
    ≡ hashing ∷ queued ∷ []
unfolding upload_steps no_uploads upload_step enqueue pump next_job perform_next perform is_queued
    update_jobs update_job set_phase find_job get_item set_item file_of abort_item end_perform pause
    or_empty with_file requeue resume_item resume set_server set_progress fail_perform perform_step
    perform_event is_in is_halted_job is_halted
two_uploads_test = refl

-- An upload that is paused right before it is saved.
abbrev paused_late : List UploadStep
paused_late =
    enqueues 1 0 ∷ performs (creates created) ∷ pauses 0 ∷ performs saves ∷ performs fails ∷ []

-- It shows that it is being saved, and nothing saves it.
paused_late_test :
    map (λ (j : UploadJob). j.phase) (upload_steps paused_late no_uploads).jobs ≡ saving ∷ []
unfolding upload_steps no_uploads upload_step enqueue pump next_job perform_next perform is_queued
    update_jobs update_job set_phase find_job get_item set_item file_of abort_item end_perform pause
    or_empty with_file requeue resume_item resume set_server set_progress fail_perform perform_step
    perform_event is_in is_halted_job is_halted
paused_late_test = refl
