-- ===== src/Drm.antt =====
-- src/drm: what the display half keeps of its own, and its calls of the usb_hal half.
pub mod Glue
pub mod Pipelines
pub mod Plane
pub mod Platform
pub mod UsbDriver
pub mod Buffers
pub mod Cea
pub mod Connectors
pub mod Crtc
pub mod CustomMode
pub mod Device
pub mod Dump
pub mod Sysfs
pub mod Funcs
pub mod Gem
pub mod Mode
pub mod Modeset
