-- ===== src/Drm/Connectors/Laws.antt =====
-- src/drm/msdisp_drm_connector.c: what a connected status promises.
use ms912x.Base.{
  ℕ, zero, suc, ◌≡◌, refl, sym, ap, ◌∙◌, ◌≢◌, inl, inr, true, false, ◌||◌, Option, none, some, List,
  arith, ◌==◌, if◌then◌else◌, Bool-cases,
}
use ms912x.Base.Int.{ℤ, pos, negsuc, nonzero}
use ms912x.Usb.{success}
use ms912x.Drm.Pipelines.{Pipeline, Connector, ConnectorStatus, connected, disconnected, unknown}
use ms912x.Drm.Funcs.{HalFuncs}
use ms912x.Drm.Connectors.{
  BlockReader, is_connected, get_edid_block, status_of, fetched, with_status, detect,
}

-- A connected connector has an EDID.
abbrev pub HasEdid : Connector → Type 0
HasEdid c = c.status ≡ connected → (edid : List ℕ) × (c.edid ≡ some edid)

-- What the handler returns agrees with what it keeps.
abbrev Agrees : {S : Type 0} → ConnectorStatus → ConnectorStatus × Connector × S → Type 0
Agrees st r =
    HasEdid r.1
    × (r.0 ≡ connected → ((edid : List ℕ) × (r.1.edid ≡ some edid)) × (r.1.status ≡ connected))
    × (r.0 ≡ connected → st ≡ connected)

is_connected_lem : (st : ConnectorStatus) → is_connected st ≡ true → st ≡ connected
is_connected_lem connected e = refl
is_connected_lem disconnected e = cc
is_connected_lem unknown e = cc

fetched_lem :
    {S : Type 0} (c : Connector) (r : Option (List ℕ) × S)
    → is_connected c.status ≡ false
    → Agrees connected (fetched c r)
fetched_lem c (none, s) off =
    (λ on. absurd (apart (sym (ap is_connected on) ∙ off)), λ e. absurd (unlike e), λ e. refl)
  where
    apart : true ≡ false → ⊥
    apart e = cc

    unlike : disconnected ≡ connected → ⊥
    unlike e = cc
fetched_lem c (some edid, s) off = (λ on. (edid, refl), λ e. ((edid, refl), refl), λ e. refl)

status_test :
    (rtn : ℤ) (stat : ℕ)
    → (if nonzero rtn || (stat == 0) then disconnected else connected) ≡ connected
    → (rtn ≡ success) × (stat ≢ 0)
status_test (negsuc n) stat e = cc
status_test (pos (suc n)) stat e = absurd (ground arith)
status_test (pos zero) zero e = cc
status_test (pos zero) (suc stat) e = (refl, λ z. omega arith)

module _ {S : Type 0} (funcs : HalFuncs S)
    (do_get_edid : BlockReader S → S → Option (List ℕ) × S) where
  kept_lem :
      (p : Pipeline) (s : S) (st : ConnectorStatus)
      → HasEdid p.connector
      → (st ≡ connected → p.connector.status ≡ connected)
      → Agrees st (st, record p.connector { status = st }, s)
  kept_lem p s st has on = (λ e. has (on e), λ e. (has (on e), e), λ e. e)

  with_status_lem :
      (p : Pipeline) (s : S) (st : ConnectorStatus)
      → HasEdid p.connector
      → Agrees st (with_status funcs do_get_edid p (st, s))
  with_status_lem p s st has = elim (Bool-cases (is_connected p.connector.status)) [
    | inl on ↦ rw on (kept_lem p s st has (λ e. is_connected_lem p.connector.status on))
    | inr off ↦ first st off
  ]
    where
      unlike : {st : ConnectorStatus} → disconnected ≡ connected → st ≡ connected
      unlike e = cc

      unlike' : {st : ConnectorStatus} → unknown ≡ connected → st ≡ connected
      unlike' e = cc

      first :
          (st : ConnectorStatus)
          → is_connected p.connector.status ≡ false
          → Agrees st (with_status funcs do_get_edid p (st, s))
      first connected off =
          rw off (fetched_lem p.connector (do_get_edid (get_edid_block funcs p) s) off)
      first disconnected off = rw off (kept_lem p s disconnected has unlike)
      first unknown off = rw off (kept_lem p s unknown has unlike')

  status_of_lem :
      (o : Option ℕ) (s : S)
      → (status_of funcs o s).0 ≡ connected
      → (hal : ℕ) × ((o ≡ some hal)
          × (((funcs.get_hpd_status hal s).0.0 ≡ success) × ((funcs.get_hpd_status hal s).0.1 ≢ 0)))
  status_of_lem none s e = cc
  status_of_lem (some hal) s e =
      let rtn = (funcs.get_hpd_status hal s).0.0 in
      let stat = (funcs.get_hpd_status hal s).0.1 in
      let (good, present) = status_test rtn stat e in (hal, (refl, (good, present)))

  -- The handler keeps an EDID for a connected connector. If it says that the connector is connected,
  -- the pipeline has an adapter that answers with code 0 and with a display, the connector is kept
  -- as connected, and its EDID is there.
  pub detect-HasEdid :
      (p : Pipeline) (s : S)
      → HasEdid p.connector
      → (HasEdid (detect funcs do_get_edid p s).1
          × ((detect funcs do_get_edid p s).0 ≡ connected
              → ((detect funcs do_get_edid p s).1.status ≡ connected)
                × ((edid : List ℕ) × ((detect funcs do_get_edid p s).1.edid ≡ some edid))
                × ((hal : ℕ) × ((p.usb_hal ≡ some hal)
                      × (((funcs.get_hpd_status hal s).0.0 ≡ success)
                          × ((funcs.get_hpd_status hal s).0.1 ≢ 0))))))
  unfolding detect
  detect-HasEdid p s has =
      let (st, s') = status_of funcs p.usb_hal s in
      let (keeps, tells, plugged) = with_status_lem p s' st has in
      (keeps, λ e. ((tells e).1, (tells e).0, status_of_lem p.usb_hal s (plugged e)))
