-- ===== src/Drm/Connectors.antt =====
-- src/drm/msdisp_drm_connector.c: the connector's modes, its status, and its copy of the EDID.
pub mod Laws
pub mod Cvbs
use ms912x.Base.{
  ℕ, zero, suc, ◌+◌, ◌-◌, ◌*◌, ◌/◌, ◌%◌, ◌^◌, ◌≤◌, ◌<◌, min, max, bit_and, bit_or, ◌≡◌, refl, sym,
  ap, ◌∙◌, subst, ◌≢◌, ◌↔◌, ◌⊎◌, inl, inr, Bool, true, false, not, ◌&&◌, ◌||◌, Option, none, some,
  List, [], ◌∷◌, ◌++◌, map, arith, ltb, leb, ◌==◌, if◌then◌else◌, ltb→lt, lt→ltb, leb→le, ==_iff,
  Bool-cases, Option-cases, length, get_elem?, get_or, set, take, drop, replicate, length-append,
  length-set, get_elem?-set_self, get_elem?-set_ne, get_elem?-lt, get_elem?-bound, get_elem?_past,
  length-take, length-drop, length-replicate, All, All-append,
}
use ms912x.Base.Int.{ℤ, pos, nonzero}
use ms912x.Usb.{success, e_inval}
use ms912x.Drm.Cea.Types.{DisplayMode}
use ms912x.Drm.Mode.{mode_from_cea_vic}
use ms912x.Drm.Pipelines.{Pipeline, Connector, ConnectorStatus, connected, disconnected, unknown}
use ms912x.Drm.Funcs.{HalFuncs, ModeStatus, mode_ok, mode_bad}

-- How `drm_do_get_edid` reads a block into a buffer: the code and the buffer, on a state.
abbrev pub BlockReader : Type 0 → Type 0
BlockReader S = ℕ → List ℕ → ℕ → S → (Option ℤ × List ℕ) × S

-- Is it `connector_status_connected`?
abbrev pub is_connected : ConnectorStatus → Bool
is_connected connected = true
is_connected disconnected = false
is_connected unknown = false

-- On the first connect: the status that is returned, the connector, and the state.
abbrev pub fetched :
    {S : Type 0} → Connector → Option (List ℕ) × S → ConnectorStatus × Connector × S
fetched c (none, s) = (disconnected, record c { edid = none }, s)
fetched c (some edid, s) = (connected, record c { edid = some edid; status = connected }, s)

-- The modes that a loop over `vics` adds, in order; `memory` tells whether there is any for each.
pub modes_of : (ℕ → Bool) → List ℕ → List DisplayMode
modes_of memory [] = []
modes_of memory (vic ∷ vics) =
    let rest = modes_of memory vics in
    elim (mode_from_cea_vic (memory vic) vic) [ none ↦ rest | some mode ↦ mode ∷ rest ]

module _ {S : Type 0} (funcs : HalFuncs S) where
  abbrev edid_block_of : Option ℕ → BlockReader S
  edid_block_of none block buf len s = ((some e_inval, buf), s)
  edid_block_of (some hal) block buf len s = funcs.get_edid hal block buf len s

  -- `msdisp_drm_get_edid_block`, for a pipeline.
  pub get_edid_block : Pipeline → BlockReader S
  get_edid_block p = edid_block_of p.usb_hal

  abbrev pub vics_of : S → Option ℕ → List ℕ
  vics_of s none = []
  vics_of s (some hal) =
      let (ret, vics) = funcs.get_custom_cea_vic hal 8 s in if nonzero ret then [] else vics

  -- `msdisp_drm_add_modes_by_cea_vic`: the modes that it adds, whose number it returns.
  pub add_modes_by_cea_vic : (ℕ → Bool) → Pipeline → S → List DisplayMode
  add_modes_by_cea_vic memory p s = modes_of memory (vics_of s p.usb_hal)

  -- `msdisp_drm_get_modes`; `edid_modes` are those that `drm_add_edid_modes` adds.
  unfoldable pub get_modes :
      (List ℕ → List DisplayMode) → (ℕ → Bool) → Pipeline → S → List DisplayMode
  get_modes edid_modes memory p s = elim p.connector.edid [
    | none ↦ []
    | some edid ↦ edid_modes edid ++ add_modes_by_cea_vic memory p s
  ]

  abbrev pub valid_for : Option ℕ → ℕ → ℕ → ℕ → S → ModeStatus
  valid_for none width height rate s = mode_bad
  valid_for (some hal) width height rate s = funcs.mode_valid hal width height rate s

  -- `msdisp_drm_mode_valid`.
  unfoldable pub connector_mode_valid : (DisplayMode → ℕ) → Pipeline → DisplayMode → S → ModeStatus
  connector_mode_valid vrefresh p mode s =
      valid_for p.usb_hal mode.hdisplay mode.vdisplay (vrefresh mode) s

  abbrev pub status_of : Option ℕ → S → ConnectorStatus × S
  status_of none s = (disconnected, s)
  status_of (some hal) s =
      let ((rtn, stat), s') = funcs.get_hpd_status hal s in
      (if nonzero rtn || (stat == 0) then disconnected else connected, s')

  abbrev pub with_status :
      ((BlockReader S) → S → Option (List ℕ) × S)
      → Pipeline
      → ConnectorStatus × S
      → ConnectorStatus × Connector × S
  with_status do_get_edid p (status, s) =
      if not (is_connected p.connector.status) && is_connected status
      then fetched p.connector (do_get_edid (get_edid_block p) s)
      else (status, record p.connector { status = status }, s)

  -- `msdisp_drm_detect`. `do_get_edid` is `drm_do_get_edid`.
  pub detect :
      (BlockReader S → S → Option (List ℕ) × S) → Pipeline → S → ConnectorStatus × Connector × S
  detect do_get_edid p s = with_status do_get_edid p (status_of p.usb_hal s)
