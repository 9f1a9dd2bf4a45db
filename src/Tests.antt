-- ===== src/Tests.antt =====
-- Runs of the models of src/usb_hal and src/drm on concrete inputs, and a simulated adapter for them.
mod Sim
mod Fixtures
mod Bus
mod Display
mod Thread
mod Modes
mod Adapters
mod Screens
mod Plugs
mod Buffers
mod Traffic
mod Files
mod Picture
