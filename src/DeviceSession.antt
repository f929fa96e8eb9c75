-- ===== src/DeviceSession.antt =====
-- `DeviceSession` of frontend/src/lib/device-session.ts for a serial port: its state, what it shows,
-- its queue of writes, its pastes, and its connection with the recovery of a lost port. Its
-- asynchronous methods are cut at their awaits, so that other calls may run wherever the source waits.
-- Text is a list of UTF-16 units, and a time is in milliseconds; listeners are left out.
pub mod State
pub mod View
pub mod Writes
pub mod Paste
pub mod Work
pub mod Link
pub mod Steps
pub mod Core
pub mod Linked
pub mod Attempts
pub mod Recovery
pub mod Turns
pub mod TurnSteps
pub mod ReadTurns
pub mod Changes
pub mod Linking
pub mod Additions
pub mod Queue
pub mod Safety
pub mod Drain
pub mod PasteKept
pub mod PasteReads
pub mod PastePlan
pub mod PasteRun
pub mod PasteSafe
pub mod Examples
pub mod PasteExamples
