-- ===== src/UploadManager/Forever.antt =====
-- The invariant of the list of uploads in every state that it reaches, in
-- frontend/src/lib/upload-manager.ts.
use friendly_ai_explorer.Common.{ℕ, ◌≡◌, refl}
use friendly_ai_explorer.UploadManager.Jobs.{UploadJob, Uploads, update_job}

update_job-running :
    (key : ℕ) (patch : UploadJob → UploadJob) (m : Uploads)
    → (update_job key patch m).running ≡ m.running
unfolding update_job
update_job-running key patch m = refl
