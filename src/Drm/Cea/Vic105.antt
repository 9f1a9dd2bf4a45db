-- ===== src/Drm/Cea/Vic105.antt =====
-- src/drm/msdisp_drm_mode.c: the CEA modes 105 to 127.
use ms912x.Base.{List, [], ◌∷◌}
use ms912x.Drm.Cea.Types.{
  DisplayMode, drm_mode, phsync, pvsync, aspect_16_9, aspect_256_135, aspect_64_27,
}

unfoldable pub cea_modes_105 : List DisplayMode
cea_modes_105 =
    drm_mode "3840x2160" 297000 3840 4016 4104 4400 0 2160 2168 2178 2250 0 (phsync ∷ pvsync ∷ [])
      aspect_64_27
    ∷ drm_mode "3840x2160" 594000 3840 4896 4984 5280 0 2160 2168 2178 2250 0 (phsync ∷ pvsync ∷ [])
        aspect_64_27
    ∷ drm_mode "3840x2160" 594000 3840 4016 4104 4400 0 2160 2168 2178 2250 0 (phsync ∷ pvsync ∷ [])
        aspect_64_27
    ∷ drm_mode "1280x720" 90000 1280 2240 2280 2500 0 720 725 730 750 0 (phsync ∷ pvsync ∷ [])
        aspect_16_9
    ∷ drm_mode "1280x720" 90000 1280 2240 2280 2500 0 720 725 730 750 0 (phsync ∷ pvsync ∷ [])
        aspect_64_27
    ∷ drm_mode "1680x720" 99000 1680 2490 2530 2750 0 720 725 730 750 0 (phsync ∷ pvsync ∷ [])
        aspect_64_27
    ∷ drm_mode "1920x1080" 148500 1920 2558 2602 2750 0 1080 1084 1089 1125 0 (phsync ∷ pvsync ∷ [])
        aspect_16_9
    ∷ drm_mode "1920x1080" 148500 1920 2558 2602 2750 0 1080 1084 1089 1125 0 (phsync ∷ pvsync ∷ [])
        aspect_64_27
    ∷ drm_mode "2560x1080" 198000 2560 3558 3602 3750 0 1080 1084 1089 1100 0 (phsync ∷ pvsync ∷ [])
        aspect_64_27
    ∷ drm_mode "3840x2160" 594000 3840 5116 5204 5500 0 2160 2168 2178 2250 0 (phsync ∷ pvsync ∷ [])
        aspect_16_9
    ∷ drm_mode "4096x2160" 594000 4096 5116 5204 5500 0 2160 2168 2178 2250 0 (phsync ∷ pvsync ∷ [])
        aspect_256_135
    ∷ drm_mode "3840x2160" 594000 3840 5116 5204 5500 0 2160 2168 2178 2250 0 (phsync ∷ pvsync ∷ [])
        aspect_64_27
    ∷ drm_mode "3840x2160" 1188000 3840 4896 4984 5280 0 2160 2168 2178 2250 0
        (phsync ∷ pvsync ∷ []) aspect_16_9
    ∷ drm_mode "3840x2160" 1188000 3840 4016 4104 4400 0 2160 2168 2178 2250 0
        (phsync ∷ pvsync ∷ []) aspect_16_9
    ∷ drm_mode "3840x2160" 1188000 3840 4896 4984 5280 0 2160 2168 2178 2250 0
        (phsync ∷ pvsync ∷ []) aspect_64_27
    ∷ drm_mode "3840x2160" 1188000 3840 4016 4104 4400 0 2160 2168 2178 2250 0
        (phsync ∷ pvsync ∷ []) aspect_64_27
    ∷ drm_mode "5120x2160" 396000 5120 7116 7204 7500 0 2160 2168 2178 2200 0 (phsync ∷ pvsync ∷ [])
        aspect_64_27
    ∷ drm_mode "5120x2160" 396000 5120 6816 6904 7200 0 2160 2168 2178 2200 0 (phsync ∷ pvsync ∷ [])
        aspect_64_27
    ∷ drm_mode "5120x2160" 396000 5120 5784 5872 6000 0 2160 2168 2178 2200 0 (phsync ∷ pvsync ∷ [])
        aspect_64_27
    ∷ drm_mode "5120x2160" 742500 5120 5866 5954 6250 0 2160 2168 2178 2475 0 (phsync ∷ pvsync ∷ [])
        aspect_64_27
    ∷ drm_mode "5120x2160" 742500 5120 6216 6304 6600 0 2160 2168 2178 2250 0 (phsync ∷ pvsync ∷ [])
        aspect_64_27
    ∷ drm_mode "5120x2160" 742500 5120 5284 5372 5500 0 2160 2168 2178 2250 0 (phsync ∷ pvsync ∷ [])
        aspect_64_27
    ∷ drm_mode "5120x2160" 1485000 5120 6216 6304 6600 0 2160 2168 2178 2250 0
        (phsync ∷ pvsync ∷ []) aspect_64_27
    ∷ []
