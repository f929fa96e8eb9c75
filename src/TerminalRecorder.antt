-- ===== src/TerminalRecorder.antt =====
-- `TerminalRecorder` of frontend/src/lib/terminal-recording.ts. Its asynchronous methods are cut at
-- their awaits: each function below is what runs from one await to the next, and `Phase` says which
-- await the recorder's job stands at. `System` adds the recording directory, the browser's cache of
-- pending records and, as a ghost, the output that was accepted for the
-- current record. A file name is the stem and the
-- part, which `${stem}_${part}.log` spells without collisions. Messages, listeners and the elapsed
-- time are left out; a time is in milliseconds.
pub mod State
pub mod Session
pub mod Job
pub mod Steps
pub mod Files
pub mod Sound
pub mod CheckpointSound
pub mod JobSound
pub mod SessionSound
pub mod Conserve
pub mod Extends
pub mod Examples
