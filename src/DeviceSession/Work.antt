-- ===== src/DeviceSession/Work.antt =====
-- The queue of writes of frontend/src/lib/device-session.ts: the asynchronous function in `enqueue`,
-- which runs for one write after the other.
use friendly_ai_explorer.Common.{
  ◌==◌, if◌then◌else◌, length, ℕ, ◌+◌, Bool, true, false, ◌&&◌, Option, List, [], ◌∷◌, ◌++◌,
}
use friendly_ai_explorer.DeviceSession.State.{DeviceSession, Work, is_connected}
use friendly_ai_explorer.DeviceSession.Writes.{same_id}
use friendly_ai_explorer.DeviceSession.Paste.{resume_paste}

-- Whether the write is still for this connection.
unfoldable pub is_current_work : Work → DeviceSession → Bool
is_current_work w s =
    is_connected s.state.status && w.generation == s.generation && same_id w.writer s.writer

module _ (table : ℕ → ℕ → Option (List ℕ)) where
  -- A write leaves the queue; the paste that waits for it goes on.
  unfoldable pub settle_work : Bool → ℕ → Work → List Work → DeviceSession → DeviceSession
  settle_work written now w rest s = resume_paste table s.paste w.id written now (record s {
    queue = rest;
    writing = false;
    metrics =
        if written
        then record s.metrics { transmitted = s.metrics.transmitted + length w.bytes }
        else s.metrics;
  })

  -- The turn of the first write: it is handed to the writer, or rejected.
  unfoldable pub start_work_at : List Work → ℕ → DeviceSession → DeviceSession
  start_work_at [] now s = s
  start_work_at (w ∷ rest) now s =
      if is_current_work w s
      then record s { writing = true; delivered = s.delivered ++ (w ∷ []) }
      else settle_work false now w rest s

  unfoldable pub start_work : ℕ → DeviceSession → DeviceSession
  start_work now s = if s.writing then s else start_work_at s.queue now s

  -- The writer has written the bytes, or has failed.
  unfoldable pub end_work_at : List Work → Bool → ℕ → DeviceSession → DeviceSession
  end_work_at [] written now s = s
  end_work_at (w ∷ rest) written now s = settle_work written now w rest s

  unfoldable pub end_work : Bool → ℕ → DeviceSession → DeviceSession
  end_work written now s = if s.writing then end_work_at s.queue written now s else s
