-- ===== src/DeviceSession/PasteSafe.antt =====
-- The plan of a paste in every reachable state of a session of frontend/src/lib/device-session.ts.
use friendly_ai_explorer.DeviceSession.State.{DeviceSession, Paste}
