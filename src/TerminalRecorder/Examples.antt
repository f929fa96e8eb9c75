-- ===== src/TerminalRecorder/Examples.antt =====
-- A recording of three characters in two batches, stopped.
use friendly_ai_explorer.Common.{
  utf8_char, utf8, utf16_length, is_nil, ℕ, ◌≡◌, refl, true, false, Option, none, some, List, [],
  ◌∷◌, ◌++◌,
}
use friendly_ai_explorer.LogFormatter.{
  RecordingOptions, char_code, osc_step, esc_step, text_action, kept_text, next_line_start, act,
  step_in, format_loop, format,
}
use friendly_ai_explorer.TerminalRecorder.State.{
  Directory, CachedRecording, stopped, same_name, clamp_rotate, exists, is_none, update_cache,
  update_file, write_at, is_error, fresh,
}
use friendly_ai_explorer.TerminalRecorder.Session.{
  ready, can_start, new_record, begin_recording, start_with, start, accept, append, is_finished,
  stop,
}
use friendly_ai_explorer.TerminalRecorder.Job.{
  persisted, fail_entry, fail, rotates, next_part, take_buffer, checkpoint_entry, after_checkpoint,
  checkpoint_at, checkpoint, end_fail, end_checkpoint, write_pending, after_cache, after_write,
  after_remove, settle_phase, settle, tick_phase, tick,
}
use friendly_ai_explorer.TerminalRecorder.Steps.{
  Event, appends, ticks, settles, stops, starts, run, step,
}
use friendly_ai_explorer.TerminalRecorder.Files.{contents}
use friendly_ai_explorer.TerminalRecorder.Extends.{IsExtended, run-append_IsExtended}
use friendly_ai_explorer.TerminalRecorder.Conserve.{run-contents, run-stopped}

abbrev options : RecordingOptions
options = record { raw = true; timestamps = false; rotate_mib = 4 }

abbrev no_files : Directory
no_files name = none

abbrev no_records : ℕ → Option CachedRecording
no_records id = none

-- A batch is saved by a timer, and the rest by `stop`.
abbrev saved_run : List Event
saved_run =
    starts ready 7 1 0 1000 options
    ∷ appends [] (65 ∷ 66 ∷ [])
    ∷ ticks 4000
    ∷ settles true 4001
    ∷ settles true 4002
    ∷ settles true 4003
    ∷ appends [] (67 ∷ [])
    ∷ stops
    ∷ ticks 4100
    ∷ settles true 4101
    ∷ settles true 4102
    ∷ settles true 4103
    ∷ settles true 4104
    ∷ []

abbrev saved_entry : CachedRecording
saved_entry = record {
  id = 7;
  stem = 1;
  kind = 0;
  started = 1000;
  file = (1, 1);
  offset = 3;
  part = 1;
  pending = [];
  options = options;
}

saved_run-status : (run saved_run (fresh no_files no_records)).recorder.status ≡ stopped
unfolding char_code osc_step esc_step text_action kept_text next_line_start act step_in format_loop
    format same_name clamp_rotate is_nil exists is_none update_cache update_file write_at is_error
    fresh can_start new_record begin_recording start_with start accept append is_finished stop
    persisted fail_entry fail rotates next_part take_buffer checkpoint_entry after_checkpoint
    checkpoint_at checkpoint end_fail end_checkpoint write_pending after_cache after_write
    after_remove settle_phase settle tick_phase tick step run utf16_length utf8 utf8_char
saved_run-status = refl

saved_run-entry : (run saved_run (fresh no_files no_records)).recorder.entry ≡ some saved_entry
unfolding char_code osc_step esc_step text_action kept_text next_line_start act step_in format_loop
    format same_name clamp_rotate is_nil exists is_none update_cache update_file write_at is_error
    fresh can_start new_record begin_recording start_with start accept append is_finished stop
    persisted fail_entry fail rotates next_part take_buffer checkpoint_entry after_checkpoint
    checkpoint_at checkpoint end_fail end_checkpoint write_pending after_cache after_write
    after_remove settle_phase settle tick_phase tick step run utf16_length utf8 utf8_char
saved_run-entry = refl

-- What the run has accepted.
saved_run-accepted : (run saved_run (fresh no_files no_records)).accepted ≡ 65 ∷ 66 ∷ 67 ∷ []
unfolding char_code osc_step esc_step text_action kept_text next_line_start act step_in format_loop
    format same_name clamp_rotate is_nil exists is_none update_cache update_file write_at is_error
    fresh can_start new_record begin_recording start_with start accept append is_finished stop
    persisted fail_entry fail rotates next_part take_buffer checkpoint_entry after_checkpoint
    checkpoint_at checkpoint end_fail end_checkpoint write_pending after_cache after_write
    after_remove settle_phase settle tick_phase tick step run utf16_length utf8 utf8_char
saved_run-accepted = refl

run-contents_example :
    contents (run saved_run (fresh no_files no_records)).directory saved_entry
      ++ utf8 ([] ++ (run saved_run (fresh no_files no_records)).recorder.buffer)
    ≡ utf8 (run saved_run (fresh no_files no_records)).accepted
run-contents_example = run-contents no_files no_records saved_run saved_entry saved_run-entry

run-stopped_example :
    contents (run saved_run (fresh no_files no_records)).directory saved_entry
    ≡ utf8 (run saved_run (fresh no_files no_records)).accepted
run-stopped_example =
    run-stopped no_files no_records saved_run saved_entry saved_run-entry saved_run-status

-- A second recording behind the first one.
abbrev second_run : List Event
second_run =
    starts ready 8 2 0 9000 options
    ∷ appends [] (68 ∷ [])
    ∷ ticks 12000
    ∷ settles true 12001
    ∷ settles true 12002
    ∷ settles true 12003
    ∷ []

run-append_IsExtended_example :
    IsExtended
      (run saved_run (fresh no_files no_records)).directory
      (run (saved_run ++ second_run) (fresh no_files no_records)).directory
run-append_IsExtended_example = run-append_IsExtended no_files no_records saved_run second_run
