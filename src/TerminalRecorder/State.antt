-- ===== src/TerminalRecorder/State.antt =====
-- The state of a recorder and of what it works on: `CachedRecording`, the fields of
-- `TerminalRecorder`, and the directory as a function from names to contents.
use friendly_ai_explorer.Common.{
  ◌==◌, if◌then◌else◌, length, take, drop, replicate, Bytes, ℕ, ◌+◌, ◌-◌, min, max, Bool, true,
  false, ◌&&◌, Option, none, some, List, [], ◌++◌,
}
use friendly_ai_explorer.LogFormatter.{initial, RecordingOptions, LogFormatter}

abbrev pub FileName : Type 0
FileName = ℕ × ℕ

unfoldable pub same_name : FileName → FileName → Bool
same_name (stem, part) (stem', part') = stem == stem' && part == part'

abbrev pub Directory : Type 0
Directory = FileName → Option Bytes

pub record CachedRecording : Type 0 where
  pub id : ℕ
  pub stem : ℕ
  pub kind : ℕ
  pub started : ℕ
  pub file : FileName
  pub offset : ℕ
  pub part : ℕ
  pub pending : List ℕ
  pub options : RecordingOptions

pub data Status : Type 0 where
  idle recording saving stopped error : Status

-- `none` stands for `undefined`, and `timer` says that the timer of `schedule` is set.
pub record TerminalRecorder : Type 0 where
  pub status : Status
  pub bytes : ℕ
  pub saved : ℕ
  pub entry : Option CachedRecording
  pub options : RecordingOptions
  pub formatter : LogFormatter
  pub buffer : List ℕ
  pub accepting : Bool
  pub last_disk : ℕ
  pub timer : Bool
  pub stopping : Bool
  pub recovering : Bool

-- Where the job stands. The flags say whether a checkpoint writes to the disk, and whether it is the
-- last one, of `stop`; a record is the value that is being put into the cache.
pub data Phase : Type 0 where
  rest : Phase
  caching : Bool → Bool → CachedRecording → Phase
  writing : Bool → Bytes → Phase
  confirming : Bool → CachedRecording → Phase
  failing : Bool → CachedRecording → Phase
  removing : Phase

pub record System : Type 0 where
  pub recorder : TerminalRecorder
  pub phase : Phase
  pub directory : Directory
  pub cache : ℕ → Option CachedRecording
  pub accepted : List ℕ

abbrev pub mib : ℕ
mib = 1048576

-- `Math.min(64, Math.max(1, options.rotateMiB || 4))`
unfoldable pub clamp_rotate : ℕ → ℕ
clamp_rotate n = min 64 (max 1 (if n == 0 then 4 else n))

unfoldable pub exists : Option Bytes → Bool
exists none = false
exists (some bytes) = true

unfoldable pub is_none : Option CachedRecording → Bool
is_none none = true
is_none (some e) = false

unfoldable pub update_cache :
    ℕ → Option CachedRecording → (ℕ → Option CachedRecording) → ℕ → Option CachedRecording
update_cache id value cache other = if other == id then value else cache other

unfoldable pub update_file : FileName → Bytes → Directory → Directory
update_file name content directory other =
    if same_name other name then some content else directory other

abbrev pub content : Option Bytes → Bytes
content none = []
content (some bytes) = bytes

-- A stream with `keepExistingData`, after `seek(offset)` and `write(bytes)`: a gap is filled with
-- zeros, and what stands behind the written bytes stays.
unfoldable pub write_at : Bytes → ℕ → Bytes → Bytes
write_at old offset bytes =
    take offset old
    ++ (replicate (offset - length old) 0 ++ (bytes ++ drop (offset + length bytes) old))

unfoldable pub is_error : Status → Bool
is_error error = true
is_error _ = false

-- A new recorder, on a directory and a cache.
unfoldable pub fresh : Directory → (ℕ → Option CachedRecording) → System
fresh directory cache = record {
  recorder = record {
    status = idle;
    bytes = 0;
    saved = 0;
    entry = none;
    options = record { raw = false; timestamps = false; rotate_mib = 0 };
    formatter = initial;
    buffer = [];
    accepting = false;
    last_disk = 0;
    timer = false;
    stopping = false;
    recovering = false;
  };
  phase = rest;
  directory = directory;
  cache = cache;
  accepted = [];
}
