-- ===== src/LogUpload/Examples.antt =====
-- An upload whose notice is closed, which then succeeds.
use friendly_ai_explorer.Common.{pos, is_space, ◌≡◌, refl, some, List, [], ◌∷◌}
use friendly_ai_explorer.LogUpload.{
  task, UploadEvent, react_all, success, resolved, starts, reports, finishes, closes, is_blank,
  is_uploading, publish, set_notice, present_at, present, begin, start, cancel_at, cancel,
  is_current, clamp_percent, present_visible, report, final_state, without, finish_upload, finish,
  close, react,
}
use friendly_ai_explorer.LogUpload.Current.{IsAlone, IsShown, react_all-IsAlone, react_all-IsShown}

-- The upload is the identity 0, its notice 1.
abbrev closed_upload : List UploadEvent
closed_upload =
    starts (108 ∷ 111 ∷ 103 ∷ [])
    ∷ reports 0 (some (pos 50))
    ∷ closes 1
    ∷ reports 0 (some (pos 90))
    ∷ finishes 0 (resolved (97 ∷ []))
    ∷ []

closed_upload-phase : (react_all closed_upload task).state.phase ≡ success
unfolding task react_all is_space is_blank is_uploading publish set_notice present_at present begin
    start cancel_at cancel is_current clamp_percent present_visible report final_state without
    finish_upload finish close react
closed_upload-phase = refl

react_all-IsAlone_example :
    IsAlone
      (react_all closed_upload task).state.phase
      (react_all closed_upload task).abort
      (react_all closed_upload task).uploads
react_all-IsAlone_example = react_all-IsAlone closed_upload

react_all-IsShown_example :
    IsShown
      (react_all closed_upload task).visible
      (react_all closed_upload task).notices
      (react_all closed_upload task).state
react_all-IsShown_example = react_all-IsShown closed_upload
