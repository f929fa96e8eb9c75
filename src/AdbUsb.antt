-- ===== src/AdbUsb.antt =====
-- frontend/src/lib/adb-webusb.ts: ADB over WebUSB, in a module for each section of the file.
pub mod Interface
pub mod Numbers
pub mod Message
pub mod Examples
