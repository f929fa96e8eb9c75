-- ===== src/TerminalRecorder/Session.antt =====
-- What the user does to a recorder: `start` with `begin`, `append`, and the call of `stop`.
use friendly_ai_explorer.Common.{
  ltb, if◌then◌else◌, length, utf8, utf16_length, ℕ, ◌+◌, Bool, true, false, not, ◌||◌, Option,
  none, some, List, [], ◌++◌,
}
use friendly_ai_explorer.LogFormatter.{LogFormatter, RecordingOptions, initial, format}
use friendly_ai_explorer.TerminalRecorder.State.{
  CachedRecording, Status, TerminalRecorder, System, clamp_rotate, is_none, update_cache, is_error,
  idle, recording, saving, stopped, error,
}

-- The guard of `start` (whose flag `starting` is never set between steps), and `begin` up to `cache.put`: the new record, with the stem and the
-- identifier that were drawn.
unfoldable pub can_start : TerminalRecorder → Bool
can_start r = not (r.accepting || r.stopping || r.recovering || is_error r.status)

unfoldable pub new_record : ℕ → ℕ → ℕ → ℕ → RecordingOptions → CachedRecording
new_record id stem kind now o = record {
  id = id;
  stem = stem;
  kind = kind;
  started = now;
  file = (stem, 1);
  offset = 0;
  part = 1;
  pending = [];
  options = record o { rotate_mib = clamp_rotate o.rotate_mib };
}

-- The rest of `begin`, after the cache has the record.
unfoldable pub begin_recording : ℕ → RecordingOptions → CachedRecording → System → System
begin_recording now o entry s = record s {
  recorder = record s.recorder {
    status = recording;
    bytes = 0;
    saved = 0;
    entry = some entry;
    options = o;
    formatter = initial;
    buffer = [];
    accepting = true;
    last_disk = now;
    timer = true;
  };
  cache = update_cache entry.id (some entry) s.cache;
  accepted = [];
}

-- How the reservation of a stem and the put of the new record end.
pub data StartOutcome : Type 0 where
  no_stem no_cache ready : StartOutcome

-- `start`, in one step: while it waits, nothing is accepted yet. Where the cache fails, the record
-- stays set.
unfoldable pub start_with : StartOutcome → ℕ → RecordingOptions → CachedRecording → System → System
start_with no_stem now o e s = s
start_with no_cache now o e s = record s {
  recorder = record s.recorder { entry = some e };
  accepted = [];
}
start_with ready now o e s = begin_recording now o e s

-- `none` is the error of a recorder that is busy or waits to be recovered.
unfoldable pub start : StartOutcome → ℕ → ℕ → ℕ → ℕ → RecordingOptions → System → Option System
start outcome id stem kind now o s =
    if can_start s.recorder
    then some (start_with outcome now o (new_record id stem kind now o) s)
    else none

-- `append`; `stamp` is the text of the call's time.
abbrev pub queue_limit : ℕ
queue_limit = 4194304

unfoldable pub accept : LogFormatter × List ℕ → System → System
accept (formatter, formatted) s =
    let r = s.recorder in
    let buffer = r.buffer ++ formatted in
    let full = ltb queue_limit (utf16_length buffer) in
    record s {
      recorder = record r {
        formatter = formatter;
        buffer = buffer;
        bytes = r.bytes + length (utf8 formatted);
        accepting = not full;
        status = if full then error else r.status;
      };
      accepted = s.accepted ++ formatted;
    }

unfoldable pub append : List ℕ → List ℕ → System → System
append stamp chars s =
    let r = s.recorder in
    if not r.accepting then s else accept (format r.options stamp r.formatter chars) s

unfoldable pub is_finished : Status → Bool
is_finished stopped = true
is_finished idle = true
is_finished _ = false

unfoldable pub stop : System → System
stop s =
    let r = s.recorder in
    if r.stopping || is_none r.entry || is_finished r.status then s else record s {
      recorder = record r { accepting = false; timer = false; status = saving; stopping = true };
    }
