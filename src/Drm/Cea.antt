-- ===== src/Drm/Cea.antt =====
-- src/drm/msdisp_drm_mode.c: the two tables of CEA modes, in parts named for their first mode.
pub mod Types
pub mod Vic1
pub mod Vic27
pub mod Vic53
pub mod Vic79
pub mod Vic105
pub mod Vic193
