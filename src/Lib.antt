-- ===== src/Lib.antt =====
-- Verification of the browser side of the FAE workbench (frontend/src/lib).
--
-- The workbench is a web page that talks to devices over Web Serial and WebUSB. Its core is
-- TypeScript without a user interface: `adb-webusb.ts` is an ADB client over USB packets,
-- `adb-shell-protocol.ts` is the framing of a remote shell inside an ADB stream,
-- `device-session.ts` shares one device between terminal tabs, `terminal-paste.ts` plans what a
-- pasted text sends, `terminal-recording.ts` writes what the device sends into log files,
-- `remote-press.ts` repeats the keys of a remote control, `upload-manager.ts` sends files to the
-- server in parts, and `log-upload-task.ts` sends a log with a notice of its progress. The React
-- components call these modules; the backend, in Python, serves the catalogue, the files and the
-- AI settings.
--
-- Files, with the source that each one models:
--   TerminalPaste: `planPaste` of frontend/src/lib/terminal-paste.ts. A string is the list of its
--     UTF-16 units; the delay is a number that may have a fraction.
--   AdbShell: `shellPacket` and `ShellOutputDecoder` of frontend/src/lib/adb-shell-protocol.ts. The
--     decoder's buffer is its state, and its callbacks are the events that `push` returns.
--   AdbUsb/Interface: `findAdbIface` of frontend/src/lib/adb-webusb.ts over USB descriptors.
--   AdbUsb/Numbers: its number helpers, the modular power, the padding and the signature of `doAuth`.
--   AdbUsb/Message: `encodeMsg`, `sendPacket` and `readMsg`, over a USB device that is a parameter.
--   LogFormatter: the class `LogFormatter` of frontend/src/lib/terminal-recording.ts.
--   TerminalRecorder: the class `TerminalRecorder` of the same file. `State` has its fields, `Session`
--     what a user calls, `Job` the asynchronous work cut at its awaits, `Steps` any sequence of both.
--   RemotePress: the key table of frontend/src/lib/remote-keys.ts (`Keys`) and the controller of
--     frontend/src/lib/remote-press.ts with its clock and its writes (`Control`).
--   LogUpload: `createLogUploadTask` of frontend/src/lib/log-upload-task.ts, with its notices.
--   UploadManager: the transfer of a file in `perform` of frontend/src/lib/upload-manager.ts, from the
--     check of the parts that are stored to the completed upload. The requests are operations of a
--     server that is a parameter, and what is expected of it are the records `IsServer` and `IsSaving`. The list of
--     uploads of the same file is in `Jobs` and `Pump`: its calls, the loop that performs one upload
--     after the other, and the updates of `perform`, which come as events in any order.
--   SerialText: `encodeSerialText` of frontend/src/lib/serial-text.ts. The two-byte characters of the
--     browser's GBK decoder are a parameter.
--   DeviceSession: the class `DeviceSession` of frontend/src/lib/device-session.ts over a serial port,
--     of the kinds "serial" and "remote"; the kind "adb" is left out.
--     `State` has its fields, `View` what it shows, `Writes`, `Work` and `Paste` the queue of writes
--     and the pastes, `Link` the connection and its recovery, `Steps` any sequence of calls and of
--     ends of awaits; the other modules hold the invariants. It takes its chunks from TerminalPaste
--     and its bytes from SerialText.
--   TerminalPreferences: frontend/src/lib/terminal-preferences.ts: the normalisation of a terminal's
--     appearance and its store. Numbers and JSON are parameters.
--   Common: tests on numbers, lists, bytes and text that these share.
--
-- A class is a record with a function for each method. Asynchronous work is a phase, so that other
-- calls may run wherever the source waits, and each wait may end well or not. A loop of the source
-- is recursion on its list, or on a fuel: the decoder's fuel is the length of its buffer, since
-- each frame takes five bytes at least; the chunk loop's fuel is the length of the value, since
-- each piece takes one unit at least; the loops over packets have the number of remaining bytes,
-- the loop over the chunks of an upload the size of the file, and the modular power the exponent,
-- which halves.
--
-- What is not under the repository is a parameter or an abstract step: the USB device, the file
-- system, the browser's cache. A recorder works on one directory, and a part's name is the pair of
-- its stem and its number. SHA-1, the key store and the connection loop of ADB, a session
-- over ADB, the promises of the uploads, the session profiles, the React components and the
-- backend are not modelled.
pub mod Common
pub mod TerminalPaste
pub mod TerminalPreferences
pub mod AdbShell
pub mod AdbUsb
pub mod LogFormatter
pub mod TerminalRecorder
pub mod UploadManager
pub mod RemotePress
pub mod LogUpload
pub mod SerialText
pub mod DeviceSession
