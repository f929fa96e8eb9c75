-- ===== src/DeviceSession/Examples.antt =====
-- Runs of a session of frontend/src/lib/device-session.ts at concrete inputs.
use friendly_ai_explorer.Common.{
  length, All, utf8_char, utf8, ℕ, ◌≤◌, ◌≡◌, refl, ◌⊎◌, inl, inr, true, false, Option, none, List,
  [], ◌∷◌, ◌++◌, map, arith,
}
use friendly_ai_explorer.SerialText.{
  encode_serial_text, encode_utf8, code_points, next_points, is_high_unit, scalar,
}
use friendly_ai_explorer.DeviceSession.State.{
  serial, Work, session, settings_of, is_connected, is_offline, same_status, same_text, last_of,
}
use friendly_ai_explorer.DeviceSession.View.{
  cancel_paste, note_event, update, note_warning, warn, or_keep, is_given,
}
use friendly_ai_explorer.DeviceSession.Writes.{
  same_id, add_work, enqueue_bytes, enqueue, is_pasting, encoding_of, encode, is_interrupt, or_same,
  write,
}
use friendly_ai_explorer.DeviceSession.Paste.{resume_paste}
use friendly_ai_explorer.DeviceSession.Work.{
  is_current_work, settle_work, start_work_at, start_work, end_work_at, end_work,
}
use friendly_ai_explorer.DeviceSession.Link.{
  granted, read_ends, disconnect, disconnect_then, fail_connect, begin_connect, connect,
  remove_connect, advance_phase, advance_task, advance, is_active_reader, end_reader, while_active,
  read_step, read_at, read_event, continue_with, continue_all, finish_disconnect, is_idle,
}
use friendly_ai_explorer.DeviceSession.Steps.{
  UserCall, connects, disconnects, writes, Arrival, advances, reads, finishes, starts_work,
  ends_work, call, arrive, step, run,
}
use friendly_ai_explorer.DeviceSession.Core.{core}
use friendly_ai_explorer.DeviceSession.Linked.{IsLinked}
use friendly_ai_explorer.DeviceSession.Changes.{Allowed}
use friendly_ai_explorer.DeviceSession.Linking.{run-IsLinked, step-run_Allowed}
use friendly_ai_explorer.DeviceSession.Queue.{Ordered, not_handed, run-Ordered}
use friendly_ai_explorer.DeviceSession.Safety.{IsLater, run-never_late}
use friendly_ai_explorer.DeviceSession.Drain.{take_turns, take_turns-settled}

abbrev no_table : ℕ → ℕ → Option (List ℕ)
no_table a b = none

abbrev connection : List ((UserCall ⊎ Arrival) × ℕ)
connection = (inl connects, 1) ∷ (inr (advances 0 granted), 2) ∷ (inr (advances 0 granted), 3) ∷ []

-- A connection on which two writes join the queue, and one is handed to the writer.
abbrev two_writes : List ((UserCall ⊎ Arrival) × ℕ)
two_writes =
    connection
    ++ ((inl (writes (65 ∷ [])), 4) ∷ (inl (writes (66 ∷ [])), 5) ∷ (inr starts_work, 6) ∷ [])

-- The disconnection, the end of the writes, a new connection, and a write on it.
abbrev reconnection : List ((UserCall ⊎ Arrival) × ℕ)
reconnection =
    (inr (ends_work true), 8)
    ∷ (inr starts_work, 9)
    ∷ (inr (reads read_ends), 10)
    ∷ (inr finishes, 11)
    ∷ (connection ++ ((inl (writes (67 ∷ [])), 12) ∷ (inr starts_work, 13) ∷ []))

abbrev lost : List ((UserCall ⊎ Arrival) × ℕ)
lost = two_writes ++ ((inl disconnects, 7) ∷ [])

ids : List Work → List ℕ
ids ws = map (λ w. w.id) ws

reconnection_test :
    map
      (λ (w : Work). w.bytes)
      (run no_table true (lost ++ reconnection) (session serial)).delivered
    ≡ (65 ∷ []) ∷ (67 ∷ []) ∷ []
unfolding session settings_of is_connected is_offline same_status same_text last_of cancel_paste
    note_event update note_warning warn or_keep is_given same_id add_work enqueue_bytes enqueue
    is_pasting encoding_of encode is_interrupt or_same write resume_paste is_current_work
    settle_work start_work_at start_work end_work_at end_work disconnect disconnect_then
    fail_connect begin_connect connect remove_connect advance_phase advance_task advance
    is_active_reader end_reader while_active read_step read_at read_event continue_with continue_all
    finish_disconnect is_idle call arrive step run encode_serial_text encode_utf8 utf8 code_points
    next_points is_high_unit utf8_char scalar
reconnection_test = refl

run-IsLinked_example : IsLinked (core (run no_table true two_writes (session serial)))
run-IsLinked_example = run-IsLinked no_table true two_writes serial

step-run_Allowed_example :
    (let s = run no_table true two_writes (session serial) in
      Allowed (core s) (core (step no_table true (inr (ends_work true), 7) s)))
step-run_Allowed_example =
    step-run_Allowed no_table true two_writes serial (inr (ends_work true), 7)

run-Ordered_example :
    (let s = run no_table true two_writes (session serial) in
      Ordered 0 (s.delivered ++ not_handed s.writing s.queue) s.supply)
run-Ordered_example = run-Ordered no_table true two_writes serial

lost-not_connected : is_connected (run no_table true lost (session serial)).state.status ≡ false
unfolding session settings_of is_connected is_offline same_status same_text last_of cancel_paste
    note_event update note_warning warn or_keep is_given same_id add_work enqueue_bytes enqueue
    is_pasting encoding_of encode is_interrupt or_same write resume_paste is_current_work
    settle_work start_work_at start_work end_work_at end_work disconnect disconnect_then
    fail_connect begin_connect connect remove_connect advance_phase advance_task advance
    is_active_reader end_reader while_active read_step read_at read_event continue_with continue_all
    finish_disconnect is_idle call arrive step run encode_serial_text
lost-not_connected = refl

run-never_late_example :
    (let s = run no_table true lost (session serial) in
      IsLater s.supply s.delivered (run no_table true reconnection s).delivered)
run-never_late_example = run-never_late no_table true lost reconnection serial lost-not_connected

two_writes_wait : length (run no_table true two_writes (session serial)).queue ≡ 2
unfolding session settings_of is_connected is_offline same_status same_text last_of cancel_paste
    note_event update note_warning warn or_keep is_given same_id add_work enqueue_bytes enqueue
    is_pasting encoding_of encode is_interrupt or_same write resume_paste is_current_work
    settle_work start_work_at start_work end_work_at end_work disconnect disconnect_then
    fail_connect begin_connect connect remove_connect advance_phase advance_task advance
    is_active_reader end_reader while_active read_step read_at read_event continue_with continue_all
    finish_disconnect is_idle call arrive step run encode_serial_text
two_writes_wait = refl

take_turns-settled_example :
    (let s = run no_table true two_writes (session serial) in
      All
        (λ (w : Work). s.supply ≤ w.id)
        (take_turns no_table ((false, 7) ∷ (true, 8) ∷ []) s).queue)
take_turns-settled_example =
    take_turns-settled no_table ((false, 7) ∷ (true, 8) ∷ [])
      (run no_table true two_writes (session serial)) (omega (arith, two_writes_wait))
