-- ===== src/Drm/Mode.antt =====
-- src/drm/msdisp_drm_mode.c: the mode of a CEA video identification code.
mod Labels
pub mod Laws
use ms912x.Base.{
  ℕ, ◌+◌, ◌-◌, ◌&&◌, Bool, Option, none, some, List, ◌++◌, ltb, leb, if◌then◌else◌, length,
  get_elem?,
}
use ms912x.Drm.Cea.Types.{DisplayMode}
use ms912x.Drm.Cea.Vic1.{cea_modes_1}
use ms912x.Drm.Cea.Vic27.{cea_modes_27}
use ms912x.Drm.Cea.Vic53.{cea_modes_53}
use ms912x.Drm.Cea.Vic79.{cea_modes_79}
use ms912x.Drm.Cea.Vic105.{cea_modes_105}
use ms912x.Drm.Cea.Vic193.{cea_modes_193}

-- `msdisp_edid_cea_modes_1`.
unfoldable pub first_modes : List DisplayMode
unfolding cea_modes_1 cea_modes_27 cea_modes_53 cea_modes_79 cea_modes_105
first_modes = cea_modes_1 ++ (cea_modes_27 ++ (cea_modes_53 ++ (cea_modes_79 ++ cea_modes_105)))

-- `none` is NULL.
unfoldable pub cea_mode_for_vic : ℕ → Option DisplayMode
unfolding first_modes cea_modes_193
cea_mode_for_vic vic =
    if leb 1 vic && ltb vic (1 + length first_modes)
    then get_elem? first_modes (vic - 1)
    else if leb 193 vic && ltb vic (193 + length cea_modes_193)
    then get_elem? cea_modes_193 (vic - 193)
    else none

-- `drm_mode_duplicate` copies the mode if there is memory for it, which `memory` tells.
unfoldable pub mode_from_cea_vic : Bool → ℕ → Option DisplayMode
mode_from_cea_vic memory vic = elim (cea_mode_for_vic vic) [
  | none ↦ none
  | some cea_mode ↦ if memory then some cea_mode else none
]
