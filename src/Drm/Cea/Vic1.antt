-- ===== src/Drm/Cea/Vic1.antt =====
-- src/drm/msdisp_drm_mode.c: the CEA modes 1 to 26.
use ms912x.Base.{List, [], ◌∷◌}
use ms912x.Drm.Cea.Types.{
  DisplayMode, drm_mode, dblclk, interlace, nhsync, nvsync, phsync, pvsync, aspect_16_9, aspect_4_3,
}

unfoldable pub cea_modes_1 : List DisplayMode
cea_modes_1 =
    drm_mode "640x480" 25175 640 656 752 800 0 480 490 492 525 0 (nhsync ∷ nvsync ∷ []) aspect_4_3
    ∷ drm_mode "720x480" 27000 720 736 798 858 0 480 489 495 525 0 (nhsync ∷ nvsync ∷ []) aspect_4_3
    ∷ drm_mode "720x480" 27000 720 736 798 858 0 480 489 495 525 0 (nhsync ∷ nvsync ∷ [])
        aspect_16_9
    ∷ drm_mode "1280x720" 74250 1280 1390 1430 1650 0 720 725 730 750 0 (phsync ∷ pvsync ∷ [])
        aspect_16_9
    ∷ drm_mode "1920x1080i" 74250 1920 2008 2052 2200 0 1080 1084 1094 1125 0
        (phsync ∷ pvsync ∷ interlace ∷ []) aspect_16_9
    ∷ drm_mode "720x480i" 13500 720 739 801 858 0 480 488 494 525 0
        (nhsync ∷ nvsync ∷ interlace ∷ dblclk ∷ []) aspect_4_3
    ∷ drm_mode "720x480i" 13500 720 739 801 858 0 480 488 494 525 0
        (nhsync ∷ nvsync ∷ interlace ∷ dblclk ∷ []) aspect_16_9
    ∷ drm_mode "720x240" 13500 720 739 801 858 0 240 244 247 262 0 (nhsync ∷ nvsync ∷ dblclk ∷ [])
        aspect_4_3
    ∷ drm_mode "720x240" 13500 720 739 801 858 0 240 244 247 262 0 (nhsync ∷ nvsync ∷ dblclk ∷ [])
        aspect_16_9
    ∷ drm_mode "2880x480i" 54000 2880 2956 3204 3432 0 480 488 494 525 0
        (nhsync ∷ nvsync ∷ interlace ∷ []) aspect_4_3
    ∷ drm_mode "2880x480i" 54000 2880 2956 3204 3432 0 480 488 494 525 0
        (nhsync ∷ nvsync ∷ interlace ∷ []) aspect_16_9
    ∷ drm_mode "2880x240" 54000 2880 2956 3204 3432 0 240 244 247 262 0 (nhsync ∷ nvsync ∷ [])
        aspect_4_3
    ∷ drm_mode "2880x240" 54000 2880 2956 3204 3432 0 240 244 247 262 0 (nhsync ∷ nvsync ∷ [])
        aspect_16_9
    ∷ drm_mode "1440x480" 54000 1440 1472 1596 1716 0 480 489 495 525 0 (nhsync ∷ nvsync ∷ [])
        aspect_4_3
    ∷ drm_mode "1440x480" 54000 1440 1472 1596 1716 0 480 489 495 525 0 (nhsync ∷ nvsync ∷ [])
        aspect_16_9
    ∷ drm_mode "1920x1080" 148500 1920 2008 2052 2200 0 1080 1084 1089 1125 0 (phsync ∷ pvsync ∷ [])
        aspect_16_9
    ∷ drm_mode "720x576" 27000 720 732 796 864 0 576 581 586 625 0 (nhsync ∷ nvsync ∷ []) aspect_4_3
    ∷ drm_mode "720x576" 27000 720 732 796 864 0 576 581 586 625 0 (nhsync ∷ nvsync ∷ [])
        aspect_16_9
    ∷ drm_mode "1280x720" 74250 1280 1720 1760 1980 0 720 725 730 750 0 (phsync ∷ pvsync ∷ [])
        aspect_16_9
    ∷ drm_mode "1920x1080i" 74250 1920 2448 2492 2640 0 1080 1084 1094 1125 0
        (phsync ∷ pvsync ∷ interlace ∷ []) aspect_16_9
    ∷ drm_mode "720x576i" 13500 720 732 795 864 0 576 580 586 625 0
        (nhsync ∷ nvsync ∷ interlace ∷ dblclk ∷ []) aspect_4_3
    ∷ drm_mode "720x576i" 13500 720 732 795 864 0 576 580 586 625 0
        (nhsync ∷ nvsync ∷ interlace ∷ dblclk ∷ []) aspect_16_9
    ∷ drm_mode "720x288" 13500 720 732 795 864 0 288 290 293 312 0 (nhsync ∷ nvsync ∷ dblclk ∷ [])
        aspect_4_3
    ∷ drm_mode "720x288" 13500 720 732 795 864 0 288 290 293 312 0 (nhsync ∷ nvsync ∷ dblclk ∷ [])
        aspect_16_9
    ∷ drm_mode "2880x576i" 54000 2880 2928 3180 3456 0 576 580 586 625 0
        (nhsync ∷ nvsync ∷ interlace ∷ []) aspect_4_3
    ∷ drm_mode "2880x576i" 54000 2880 2928 3180 3456 0 576 580 586 625 0
        (nhsync ∷ nvsync ∷ interlace ∷ []) aspect_16_9
    ∷ []
