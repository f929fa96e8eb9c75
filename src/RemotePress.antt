-- ===== src/RemotePress.antt =====
-- `createRemotePressController` of frontend/src/lib/remote-press.ts, and the key table of
-- frontend/src/lib/remote-keys.ts. The object `press` is a token with its key, which `===` compares by
-- the token. The clock's timers and the writes that are under way are lists, any element of which may
-- be the next to end. Whether the device is connected is told by each event that asks for it.
pub mod Keys
pub mod Control
pub mod Held
pub mod Single
pub mod Released
pub mod Examples
