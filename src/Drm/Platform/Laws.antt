-- ===== src/Drm/Platform/Laws.antt =====
-- src/drm/msdisp_plat_drv.c: the counter is the number of slots in use, and every device is destroyed.
use ms912x.Base.{
  ℕ, zero, suc, ◌+◌, ◌-◌, ◌%◌, ◌^◌, ◌≤◌, ◌<◌, ◌≡◌, refl, sym, ap, ◌∙◌, ◌⊎◌, inl, inr, true, false,
  Option, none, some, List, [], ◌∷◌, arith, ltb, leb, ◌==◌, length, set, length-set,
}
use ms912x.Base.Int.{ℤ}
use ms912x.Usb.{success, e_inval}
use ms912x.Drm.Platform.{
  Context, Register, device_count_max, free_idx_from, get_free_idx, device_add, add_loop,
  add_devices, destroyed, cleared, remove_all_devices,
}

-- The table has its size, and its counter counts the slots in use.
pub record IsCounted (c : Context) : Type 0 where
  pub size : length c.devices ≡ 3
  pub count : c.dev_count ≡ length (destroyed c.devices)

free_idx-bound : (slots : List (Option ℕ)) (i j : ℕ) → free_idx_from i slots ≡ some j → i ≤ j
unfolding free_idx_from
free_idx-bound [] i j e = cc
free_idx-bound (none ∷ slots) i j e = let z : i ≡ j = cc in omega arith
free_idx-bound (some b ∷ slots) i j e = omega (arith, free_idx-bound slots (i + 1) j e)

destroyed_le : (slots : List (Option ℕ)) → length (destroyed slots) ≤ length slots
unfolding destroyed
destroyed_le [] = omega arith
destroyed_le (none ∷ slots) = omega (arith, destroyed_le slots)
destroyed_le (some a ∷ slots) = omega (arith, destroyed_le slots)

-- A search finds a free slot, or all are in use.
free_idx_lem :
    (slots : List (Option ℕ)) (i : ℕ)
    → ((free_idx_from i slots ≡ none) × (length (destroyed slots) ≡ length slots))
      ⊎ ((j : ℕ) × ((free_idx_from i slots ≡ some (i + j))
            × ((a : ℕ) → length (destroyed (set slots j (some a))) ≡ length (destroyed slots) + 1)))
unfolding destroyed free_idx_from
free_idx_lem [] i = inl (refl, refl)
free_idx_lem (none ∷ slots) i =
    let z : i ≡ i + 0 = omega arith in inr (0, (ap some z, λ a. omega arith))
free_idx_lem (some b ∷ slots) i = elim (free_idx_lem slots (i + 1)) [
  | inl (e, all_used) ↦ inl (e, omega arith)
  | inr (j, (e, more)) ↦
      let z : i + 1 + j ≡ i + suc j = omega arith in
      inr (suc j, (e ∙ ap some z, λ a. omega (arith, more a)))
]

cleared_lem : (slots : List (Option ℕ)) → length (cleared slots) ≡ length slots
unfolding cleared
cleared_lem [] = refl
cleared_lem (slot ∷ slots) = omega (arith, cleared_lem slots)

none_destroyed : (slots : List (Option ℕ)) → destroyed (cleared slots) ≡ []
unfolding cleared destroyed
none_destroyed [] = refl
none_destroyed (slot ∷ slots) = none_destroyed slots

module _ (register : Register)
    (grants : (call id : ℕ) → (a : ℕ) × (register call id ≡ some a)) where
  -- Adding `n` devices succeeds and keeps the table counted.
  abbrev Added : Context → ℕ → Option (ℤ × Context) → Type 0
  Added c n o =
      (c' : Context) × ((o ≡ some (success, c'))
        × (IsCounted c' × (c'.dev_count ≡ c.dev_count + n)))

  device_add_lem : (c : Context) → IsCounted c → c.dev_count < 3 → Added c 1 (device_add register c)
  unfolding device_add get_free_idx
  device_add_lem c v lt =
      let room : leb device_count_max c.dev_count ≡ false = ground arith in
      elim (free_idx_lem c.devices 0) [
        | inl (e, all_used) ↦ absurd (omega (arith, v.size, v.count))
        | inr (j, (e, more)) ↦
            let z : 0 + j ≡ j = omega arith in
            let (a, granted) = grants c.calls j in
            (
              record c {
                devices = set c.devices j (some a);
                dev_count = (c.dev_count + 1) % 2 ^ 32;
                calls = c.calls + 1;
              },
              (
                rw (e, z, room, granted) refl,
                (
                  record {
                    size = length-set c.devices j (some a) ∙ v.size;
                    count = omega (arith, more a, v.count);
                  },
                  omega arith,
                ),
              ),
            )
      ]

  add_loop_lem :
      (val : ℕ) (c : Context)
      → IsCounted c
      → c.dev_count + val ≤ 3
      → (c' : Context) × ((add_loop register val c ≡ some c')
          × (IsCounted c' × (c'.dev_count ≡ c.dev_count + val)))
  unfolding add_loop
  add_loop_lem zero c v le = (c, (refl, (v, omega arith)))
  add_loop_lem (suc val) c v le =
      let (c', (e, (v', n))) = device_add_lem c v (omega arith) in
      let (c'', (e', (v'', n'))) = add_loop_lem val c' v' (omega arith) in
      (c'', (rw (e, add_loop) e', (v'', omega arith)))

  add_devices_lem :
      (val : ℕ) (c : Context)
      → IsCounted c
      → c.dev_count + val ≤ 3
      → Added c val (add_devices register val c)
  unfolding add_devices
  add_devices_lem zero c v le = (c, (refl, (v, omega arith)))
  add_devices_lem (suc val) c v le =
      let (c', (e, rest)) = add_loop_lem (suc val) c v le in
      let fits : ltb ((device_count_max + 2 ^ 32 - c.dev_count) % 2 ^ 32) (suc val) ≡ false =
        ground arith in
      let some' : (suc val == 0) ≡ false = ground arith in (c', (rw (some', fits, e) refl, rest))

  -- For a table whose counter counts the slots in use, and a kernel that grants each registration:
  -- adding devices adds them all where they fit, and is refused with -EINVAL and without effect
  -- where they do not. The counter stays right, and removing all devices destroys as many as the
  -- counter says and leaves an empty table.
  pub add_devices-IsCounted :
      (val : ℕ) (c : Context)
      → IsCounted c
      → (c.dev_count + val ≤ 3
          → (c' : Context) × ((add_devices register val c ≡ some (success, c'))
              × (IsCounted c'
                  × ((c'.dev_count ≡ c.dev_count + val)
                      × ((length (remove_all_devices c').1 ≡ c.dev_count + val)
                          × (IsCounted (remove_all_devices c').0
                              × ((remove_all_devices c').0.dev_count ≡ 0)))))))
        × (3 < c.dev_count + val → add_devices register val c ≡ some (e_inval, c))
  unfolding add_devices remove_all_devices
  add_devices-IsCounted val c v =
      let bound : c.dev_count ≤ 3 = omega (arith, v.size, v.count, destroyed_le c.devices) in
      (
        λ le.
            let (c', (e, (v', n))) = add_devices_lem val c v le in
            let removed : IsCounted (remove_all_devices c').0 = record {
              size = cleared_lem c'.devices ∙ v'.size;
              count = sym (ap length (none_destroyed c'.devices));
            } in
            (c', (e, (v', (n, (sym v'.count ∙ n, (removed, refl)))))),
        λ lt.
            let some' : (val == 0) ≡ false = ground arith in
            let over : ltb ((device_count_max + 2 ^ 32 - c.dev_count) % 2 ^ 32) val ≡ true =
              ground arith in
            rw (some', over) refl,
      )
