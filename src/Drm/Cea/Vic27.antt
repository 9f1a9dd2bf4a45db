-- ===== src/Drm/Cea/Vic27.antt =====
-- src/drm/msdisp_drm_mode.c: the CEA modes 27 to 52.
use ms912x.Base.{List, [], ◌∷◌}
use ms912x.Drm.Cea.Types.{
  DisplayMode, drm_mode, dblclk, interlace, nhsync, nvsync, phsync, pvsync, aspect_16_9, aspect_4_3,
}

unfoldable pub cea_modes_27 : List DisplayMode
cea_modes_27 =
    drm_mode "2880x288" 54000 2880 2928 3180 3456 0 288 290 293 312 0 (nhsync ∷ nvsync ∷ [])
      aspect_4_3
    ∷ drm_mode "2880x288" 54000 2880 2928 3180 3456 0 288 290 293 312 0 (nhsync ∷ nvsync ∷ [])
        aspect_16_9
    ∷ drm_mode "1440x576" 54000 1440 1464 1592 1728 0 576 581 586 625 0 (nhsync ∷ nvsync ∷ [])
        aspect_4_3
    ∷ drm_mode "1440x576" 54000 1440 1464 1592 1728 0 576 581 586 625 0 (nhsync ∷ nvsync ∷ [])
        aspect_16_9
    ∷ drm_mode "1920x1080" 148500 1920 2448 2492 2640 0 1080 1084 1089 1125 0 (phsync ∷ pvsync ∷ [])
        aspect_16_9
    ∷ drm_mode "1920x1080" 74250 1920 2558 2602 2750 0 1080 1084 1089 1125 0 (phsync ∷ pvsync ∷ [])
        aspect_16_9
    ∷ drm_mode "1920x1080" 74250 1920 2448 2492 2640 0 1080 1084 1089 1125 0 (phsync ∷ pvsync ∷ [])
        aspect_16_9
    ∷ drm_mode "1920x1080" 74250 1920 2008 2052 2200 0 1080 1084 1089 1125 0 (phsync ∷ pvsync ∷ [])
        aspect_16_9
    ∷ drm_mode "2880x480" 108000 2880 2944 3192 3432 0 480 489 495 525 0 (nhsync ∷ nvsync ∷ [])
        aspect_4_3
    ∷ drm_mode "2880x480" 108000 2880 2944 3192 3432 0 480 489 495 525 0 (nhsync ∷ nvsync ∷ [])
        aspect_16_9
    ∷ drm_mode "2880x576" 108000 2880 2928 3184 3456 0 576 581 586 625 0 (nhsync ∷ nvsync ∷ [])
        aspect_4_3
    ∷ drm_mode "2880x576" 108000 2880 2928 3184 3456 0 576 581 586 625 0 (nhsync ∷ nvsync ∷ [])
        aspect_16_9
    ∷ drm_mode "1920x1080i" 72000 1920 1952 2120 2304 0 1080 1126 1136 1250 0
        (phsync ∷ nvsync ∷ interlace ∷ []) aspect_16_9
    ∷ drm_mode "1920x1080i" 148500 1920 2448 2492 2640 0 1080 1084 1094 1125 0
        (phsync ∷ pvsync ∷ interlace ∷ []) aspect_16_9
    ∷ drm_mode "1280x720" 148500 1280 1720 1760 1980 0 720 725 730 750 0 (phsync ∷ pvsync ∷ [])
        aspect_16_9
    ∷ drm_mode "720x576" 54000 720 732 796 864 0 576 581 586 625 0 (nhsync ∷ nvsync ∷ []) aspect_4_3
    ∷ drm_mode "720x576" 54000 720 732 796 864 0 576 581 586 625 0 (nhsync ∷ nvsync ∷ [])
        aspect_16_9
    ∷ drm_mode "720x576i" 27000 720 732 795 864 0 576 580 586 625 0
        (nhsync ∷ nvsync ∷ interlace ∷ dblclk ∷ []) aspect_4_3
    ∷ drm_mode "720x576i" 27000 720 732 795 864 0 576 580 586 625 0
        (nhsync ∷ nvsync ∷ interlace ∷ dblclk ∷ []) aspect_16_9
    ∷ drm_mode "1920x1080i" 148500 1920 2008 2052 2200 0 1080 1084 1094 1125 0
        (phsync ∷ pvsync ∷ interlace ∷ []) aspect_16_9
    ∷ drm_mode "1280x720" 148500 1280 1390 1430 1650 0 720 725 730 750 0 (phsync ∷ pvsync ∷ [])
        aspect_16_9
    ∷ drm_mode "720x480" 54000 720 736 798 858 0 480 489 495 525 0 (nhsync ∷ nvsync ∷ []) aspect_4_3
    ∷ drm_mode "720x480" 54000 720 736 798 858 0 480 489 495 525 0 (nhsync ∷ nvsync ∷ [])
        aspect_16_9
    ∷ drm_mode "720x480i" 27000 720 739 801 858 0 480 488 494 525 0
        (nhsync ∷ nvsync ∷ interlace ∷ dblclk ∷ []) aspect_4_3
    ∷ drm_mode "720x480i" 27000 720 739 801 858 0 480 488 494 525 0
        (nhsync ∷ nvsync ∷ interlace ∷ dblclk ∷ []) aspect_16_9
    ∷ drm_mode "720x576" 108000 720 732 796 864 0 576 581 586 625 0 (nhsync ∷ nvsync ∷ [])
        aspect_4_3
    ∷ []
