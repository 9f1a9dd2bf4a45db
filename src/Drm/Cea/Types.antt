-- ===== src/Drm/Cea/Types.antt =====
-- src/drm/msdisp_drm_mode.c: an entry of the tables, `struct drm_display_mode` as the macro DRM_MODE
-- fills it. The type of every entry is DRM_MODE_TYPE_DRIVER and is left out.
use Prim.Native.String.{String}
use ms912x.Base.{ℕ, List}

-- DRM_MODE_FLAG_*; the flags of a mode are a list.
pub data ModeFlag : Type 0 where
  phsync nhsync pvsync nvsync interlace dblclk : ModeFlag

-- HDMI_PICTURE_ASPECT_*.
pub data AspectRatio : Type 0 where
  aspect_4_3 aspect_16_9 aspect_64_27 aspect_256_135 : AspectRatio

pub record DisplayMode : Type 0 where
  pub name : String
  pub clock : ℕ
  pub hdisplay : ℕ
  pub hsync_start : ℕ
  pub hsync_end : ℕ
  pub htotal : ℕ
  pub hskew : ℕ
  pub vdisplay : ℕ
  pub vsync_start : ℕ
  pub vsync_end : ℕ
  pub vtotal : ℕ
  pub vscan : ℕ
  pub flags : List ModeFlag
  pub picture_aspect_ratio : AspectRatio

-- The macro's arguments in its order, and the aspect ratio.
abbrev pub drm_mode :
    String → ℕ → ℕ → ℕ → ℕ → ℕ → ℕ → ℕ → ℕ → ℕ → ℕ → ℕ → List ModeFlag → AspectRatio → DisplayMode
drm_mode nm c hd hss hse ht hsk vd vss vse vt vs f ratio = record {
  name = nm;
  clock = c;
  hdisplay = hd;
  hsync_start = hss;
  hsync_end = hse;
  htotal = ht;
  hskew = hsk;
  vdisplay = vd;
  vsync_start = vss;
  vsync_end = vse;
  vtotal = vt;
  vscan = vs;
  flags = f;
  picture_aspect_ratio = ratio;
}
