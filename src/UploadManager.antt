-- ===== src/UploadManager.antt =====
-- `perform` of frontend/src/lib/upload-manager.ts: the transfer of a file in parts, with the check of
-- the parts that the server has, the retries, and the completion; and the list of uploads, with the
-- loop that performs them one by one.
pub mod Transfer
pub mod Server
pub mod Retry
pub mod Pieces
pub mod Loops
pub mod Stored
pub mod Jobs
pub mod Pump
pub mod Served
pub mod ServedSteps
pub mod Forever
pub mod JobExamples
pub mod Examples
