-- ===== src/Drm/Cea/Vic79.antt =====
-- src/drm/msdisp_drm_mode.c: the CEA modes 79 to 104.
use ms912x.Base.{List, [], ◌∷◌}
use ms912x.Drm.Cea.Types.{
  DisplayMode, drm_mode, phsync, pvsync, aspect_16_9, aspect_256_135, aspect_64_27,
}

unfoldable pub cea_modes_79 : List DisplayMode
cea_modes_79 =
    drm_mode "1680x720" 59400 1680 3040 3080 3300 0 720 725 730 750 0 (phsync ∷ pvsync ∷ [])
      aspect_64_27
    ∷ drm_mode "1680x720" 59400 1680 2908 2948 3168 0 720 725 730 750 0 (phsync ∷ pvsync ∷ [])
        aspect_64_27
    ∷ drm_mode "1680x720" 59400 1680 2380 2420 2640 0 720 725 730 750 0 (phsync ∷ pvsync ∷ [])
        aspect_64_27
    ∷ drm_mode "1680x720" 82500 1680 1940 1980 2200 0 720 725 730 750 0 (phsync ∷ pvsync ∷ [])
        aspect_64_27
    ∷ drm_mode "1680x720" 99000 1680 1940 1980 2200 0 720 725 730 750 0 (phsync ∷ pvsync ∷ [])
        aspect_64_27
    ∷ drm_mode "1680x720" 165000 1680 1740 1780 2000 0 720 725 730 825 0 (phsync ∷ pvsync ∷ [])
        aspect_64_27
    ∷ drm_mode "1680x720" 198000 1680 1740 1780 2000 0 720 725 730 825 0 (phsync ∷ pvsync ∷ [])
        aspect_64_27
    ∷ drm_mode "2560x1080" 99000 2560 3558 3602 3750 0 1080 1084 1089 1100 0 (phsync ∷ pvsync ∷ [])
        aspect_64_27
    ∷ drm_mode "2560x1080" 90000 2560 3008 3052 3200 0 1080 1084 1089 1125 0 (phsync ∷ pvsync ∷ [])
        aspect_64_27
    ∷ drm_mode "2560x1080" 118800 2560 3328 3372 3520 0 1080 1084 1089 1125 0 (phsync ∷ pvsync ∷ [])
        aspect_64_27
    ∷ drm_mode "2560x1080" 185625 2560 3108 3152 3300 0 1080 1084 1089 1125 0 (phsync ∷ pvsync ∷ [])
        aspect_64_27
    ∷ drm_mode "2560x1080" 198000 2560 2808 2852 3000 0 1080 1084 1089 1100 0 (phsync ∷ pvsync ∷ [])
        aspect_64_27
    ∷ drm_mode "2560x1080" 371250 2560 2778 2822 2970 0 1080 1084 1089 1250 0 (phsync ∷ pvsync ∷ [])
        aspect_64_27
    ∷ drm_mode "2560x1080" 495000 2560 3108 3152 3300 0 1080 1084 1089 1250 0 (phsync ∷ pvsync ∷ [])
        aspect_64_27
    ∷ drm_mode "3840x2160" 297000 3840 5116 5204 5500 0 2160 2168 2178 2250 0 (phsync ∷ pvsync ∷ [])
        aspect_16_9
    ∷ drm_mode "3840x2160" 297000 3840 4896 4984 5280 0 2160 2168 2178 2250 0 (phsync ∷ pvsync ∷ [])
        aspect_16_9
    ∷ drm_mode "3840x2160" 297000 3840 4016 4104 4400 0 2160 2168 2178 2250 0 (phsync ∷ pvsync ∷ [])
        aspect_16_9
    ∷ drm_mode "3840x2160" 594000 3840 4896 4984 5280 0 2160 2168 2178 2250 0 (phsync ∷ pvsync ∷ [])
        aspect_16_9
    ∷ drm_mode "3840x2160" 594000 3840 4016 4104 4400 0 2160 2168 2178 2250 0 (phsync ∷ pvsync ∷ [])
        aspect_16_9
    ∷ drm_mode "4096x2160" 297000 4096 5116 5204 5500 0 2160 2168 2178 2250 0 (phsync ∷ pvsync ∷ [])
        aspect_256_135
    ∷ drm_mode "4096x2160" 297000 4096 5064 5152 5280 0 2160 2168 2178 2250 0 (phsync ∷ pvsync ∷ [])
        aspect_256_135
    ∷ drm_mode "4096x2160" 297000 4096 4184 4272 4400 0 2160 2168 2178 2250 0 (phsync ∷ pvsync ∷ [])
        aspect_256_135
    ∷ drm_mode "4096x2160" 594000 4096 5064 5152 5280 0 2160 2168 2178 2250 0 (phsync ∷ pvsync ∷ [])
        aspect_256_135
    ∷ drm_mode "4096x2160" 594000 4096 4184 4272 4400 0 2160 2168 2178 2250 0 (phsync ∷ pvsync ∷ [])
        aspect_256_135
    ∷ drm_mode "3840x2160" 297000 3840 5116 5204 5500 0 2160 2168 2178 2250 0 (phsync ∷ pvsync ∷ [])
        aspect_64_27
    ∷ drm_mode "3840x2160" 297000 3840 4896 4984 5280 0 2160 2168 2178 2250 0 (phsync ∷ pvsync ∷ [])
        aspect_64_27
    ∷ []
