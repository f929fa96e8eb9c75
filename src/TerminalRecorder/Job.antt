-- ===== src/TerminalRecorder/Job.antt =====
-- The work of the job: the timer of `schedule`, `checkpoint`, `persist`, `writePending` and `fail`,
-- with the work that `stop` chains to it, cut at the awaits.
use friendly_ai_explorer.Common.{
  ltb, leb, ◌==◌, if◌then◌else◌, length, Bytes, utf8, is_nil, ℕ, suc, ◌+◌, ◌-◌, ◌*◌, Bool, true,
  false, not, ◌&&◌, Option, none, some, List, [], ◌++◌,
}
use friendly_ai_explorer.TerminalRecorder.State.{
  CachedRecording, Phase, System, mib, exists, update_cache, update_file, content, write_at,
  stopped, error, rest, caching, writing, confirming, failing, removing,
}

-- `persist`: the value that is put.
unfoldable pub persisted : CachedRecording → List ℕ → CachedRecording
persisted e buffer = record e { pending = e.pending ++ buffer }

-- `fail`, up to the await of `persist`; the flag says that the failed work was `stop`'s.
unfoldable pub fail_entry : Option CachedRecording → Bool → System → System
fail_entry none final s = record s {
  recorder = record s.recorder {
    accepting = false;
    timer = false;
    status = error;
    stopping = s.recorder.stopping && not final;
  };
  phase = rest;
}
fail_entry (some e) final s = record s {
  recorder = record s.recorder { accepting = false; timer = false; status = error };
  phase = failing final (persisted e s.recorder.buffer);
}

unfoldable pub fail : Bool → System → System
fail final s = fail_entry s.recorder.entry final s

-- `checkpoint(disk)` up to its first await: the buffer joins the pending text, and a full part ends.
unfoldable pub rotates : CachedRecording → Bool
rotates e =
    not (e.offset == 0) && ltb (e.options.rotate_mib * mib) (e.offset + length (utf8 e.pending))

unfoldable pub next_part : CachedRecording → CachedRecording
next_part e = record e { part = suc e.part; offset = 0; file = (e.stem, suc e.part) }

unfoldable pub take_buffer : CachedRecording → List ℕ → CachedRecording
take_buffer e buffer =
    let filled = record e { pending = e.pending ++ buffer } in
    if rotates filled then next_part filled else filled

unfoldable pub checkpoint_entry : Bool → Bool → CachedRecording → System → System
checkpoint_entry true final e s =
    let e' = take_buffer e s.recorder.buffer in
    record s {
      recorder = record s.recorder { entry = some e'; buffer = [] };
      phase = caching true final (persisted e' []);
    }
checkpoint_entry false final e s = record s {
  phase = caching false final (persisted e s.recorder.buffer);
}

-- After a checkpoint: the last one is followed by the removal of the cached record, another by the
-- next timer, where output is still accepted.
unfoldable pub after_checkpoint : Bool → System → System
after_checkpoint true s = record s { phase = removing }
after_checkpoint false s = record s {
  recorder = record s.recorder { timer = s.recorder.accepting };
  phase = rest;
}

unfoldable pub checkpoint_at : Option CachedRecording → Bool → Bool → System → System
checkpoint_at none disk final s = if final then fail true s else after_checkpoint false s
checkpoint_at (some e) disk final s = checkpoint_entry disk final e s

unfoldable pub checkpoint : Bool → Bool → System → System
checkpoint disk final s = checkpoint_at s.recorder.entry disk final s

unfoldable pub end_fail : Bool → System → System
end_fail final s = record s {
  recorder = record s.recorder { stopping = s.recorder.stopping && not final };
  phase = rest;
}

abbrev pub put_cache : CachedRecording → System → System
put_cache value s = record s { cache = update_cache value.id (some value) s.cache }

-- `lastDisk` is set at the end of a checkpoint that writes.
unfoldable pub end_checkpoint : Bool → ℕ → System → System
end_checkpoint final now s =
    after_checkpoint final (record s { recorder = record s.recorder { last_disk = now } })

-- `writePending` up to the write: a new part must not exist yet.
unfoldable pub write_pending : Bool → ℕ → CachedRecording → System → System
write_pending final now e s =
    if is_nil e.pending
    then end_checkpoint final now s
    else if e.offset == 0 && exists (s.directory e.file)
    then fail final s
    else record s { phase = writing final (utf8 e.pending) }

-- After the first `persist` of a checkpoint. The record stays set meanwhile: without one, `record!`
-- would raise an error.
unfoldable pub after_cache : Bool → Bool → ℕ → Option CachedRecording → System → System
after_cache disk final now none s = fail final s
after_cache true final now (some e) s = write_pending final now e s
after_cache false final now (some e) s = after_checkpoint final s

-- After `close()`: the bytes are in the file. The second `persist` begins.
unfoldable pub after_write : Bool → Bytes → Option CachedRecording → System → System
after_write final bytes none s = fail final s
after_write final bytes (some e) s =
    let e' = record e { offset = e.offset + length bytes; pending = [] } in
    record s {
      recorder = record s.recorder { entry = some e'; saved = s.recorder.saved + length bytes };
      phase = confirming final (persisted e' s.recorder.buffer);
      directory =
          update_file e.file (write_at (content (s.directory e.file)) e.offset bytes) s.directory;
    }

-- The end of `stop`: the record leaves the cache.
unfoldable pub after_remove : Option CachedRecording → System → System
after_remove none s = fail true s
after_remove (some e) s = record s {
  recorder = record s.recorder { status = stopped; stopping = false };
  phase = rest;
  cache = update_cache e.id none s.cache;
}

-- The work that the job waits for ends, well or not, at the given time. A write that fails is
-- aborted and leaves the content of the file as it was; that a file which it has created stays, empty,
-- is not modelled.
unfoldable pub settle_phase : Phase → Bool → ℕ → System → System
settle_phase rest ok now s = s
settle_phase (caching disk final value) true now s =
    after_cache disk final now s.recorder.entry (put_cache value s)
settle_phase (caching disk final value) false now s = fail final s
settle_phase (writing final bytes) true now s = after_write final bytes s.recorder.entry s
settle_phase (writing final bytes) false now s = fail final s
settle_phase (confirming final value) true now s = end_checkpoint final now (put_cache value s)
settle_phase (confirming final value) false now s = fail final s
settle_phase (failing final value) true now s = end_fail final (put_cache value s)
settle_phase (failing final value) false now s = end_fail final s
settle_phase removing true now s = after_remove s.recorder.entry s
settle_phase removing false now s = fail true s

unfoldable pub settle : Bool → ℕ → System → System
settle ok now s = settle_phase s.phase ok now s

-- The timer of `schedule`, and the start of the work that `stop` has chained to the job.
unfoldable pub tick_phase : Phase → ℕ → System → System
tick_phase rest now s =
    if s.recorder.stopping
    then checkpoint true true s
    else if s.recorder.timer
    then checkpoint (leb 2000 (now - s.recorder.last_disk)) false
        (record s { recorder = record s.recorder { timer = false } })
    else s
tick_phase _ now s = s

unfoldable pub tick : ℕ → System → System
tick now s = tick_phase s.phase now s
