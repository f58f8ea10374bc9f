-- ===== src/Accelerator/Visibility/Result.antt =====
-- What `resolve_accelerator_visibility` of src/resolver/accelerator_visibility.cpp leaves.
use sysal.Prelude.{
  ◌==◌, Option-cases, any, is_some, get_or, All, Bytes, text_eq, ℕ, zero, suc, ◌≡◌, refl, sym, ap,
  ◌∙◌, inl, inr, Bool, true, false, ◌&&◌, List, [], ◌∷◌, map, arith,
}
use sysal.Execution.{ExecutionContext}
use sysal.Accelerator.{
  AcceleratorDevice, Accelerators, AcceleratorVendor, nvidia, amd, intel, vendor_name,
  RuntimeVisibility, DeviceIndices,
}
use sysal.Accelerator.Selection.{sort_by, chosen, select_accelerator_environment}
use sysal.Accelerator.Visibility.{
  has_selection_environment, option_eq, has_children, positions, runtime_indices, selected_visible,
  show_device, update_at, apply_selection, phantom_warnings, id_before, select_vendor,
  initial_visibility, visible_ids_of, Resolved, resolve_accelerator_visibility,
}

-- a device without its flag
abbrev pub hide : AcceleratorDevice → AcceleratorDevice
hide d = show_device d false

update_at-hide :
    (f : AcceleratorDevice → AcceleratorDevice) (ds : Accelerators) (index : ℕ)
    → ((d : AcceleratorDevice) → hide (f d) ≡ hide d)
    → map hide (update_at f ds index) ≡ map hide ds
unfolding update_at
update_at-hide f [] index h = refl
update_at-hide f (d ∷ ds) zero h = rw (h d) refl
update_at-hide f (d ∷ ds) (suc index) h = rw (update_at-hide f ds index h) refl

apply_selection-hide :
    (ds : Accelerators) (candidates selected : DeviceIndices)
    → map hide (apply_selection ds candidates selected) ≡ map hide ds
unfolding apply_selection
apply_selection-hide ds [] selected = refl
apply_selection-hide ds (index ∷ candidates) selected =
    let f = λ (d : AcceleratorDevice). show_device d (selected_visible ds selected index d) in
    apply_selection-hide (update_at f ds index) candidates selected
    ∙ update_at-hide f ds index (λ d. refl)

initial_visibility-hide :
    (devices : Accelerators) (b : Bool) (ids : List ℕ) (ds : Accelerators)
    → map hide (initial_visibility devices b ids ds) ≡ map hide ds
unfolding initial_visibility
initial_visibility-hide devices b ids [] = refl
initial_visibility-hide devices b ids (d ∷ ds) = rw (initial_visibility-hide devices b ids ds) refl

any_child-hide :
    (ds : Accelerators) (p : AcceleratorDevice)
    → any (λ child. option_eq child.parent_uuid p.uuid) (map hide ds)
      ≡ any (λ child. option_eq child.parent_uuid p.uuid) ds
any_child-hide [] p = refl
any_child-hide (d ∷ ds) p = ground (arith, any_child-hide ds p)

-- whether a device has children does not depend on the flags
has_children-hide :
    (ds es : Accelerators) (p : AcceleratorDevice)
    → map hide ds ≡ map hide es
    → has_children ds p ≡ has_children es p
unfolding has_children
has_children-hide ds es p h =
    let test = λ (xs : Accelerators). any (λ child. option_eq child.parent_uuid p.uuid) xs in
    let same : test ds ≡ test es = sym (any_child-hide ds p) ∙ ap test h ∙ any_child-hide es p in
    ap (λ b. is_some p.uuid && b) same

-- no visible device of the list has a child among all devices
abbrev IsLeafOnly : Accelerators → Accelerators → Type 0
IsLeafOnly all_devices =
    All (λ d. d.visible_to_current_process ≡ true → has_children all_devices d ≡ false)

update_at-IsLeafOnly :
    (u : Accelerators) (f : AcceleratorDevice → AcceleratorDevice) (ds : Accelerators) (index : ℕ)
    → ((d : AcceleratorDevice)
        → (f d).visible_to_current_process ≡ true
        → has_children u (f d) ≡ false)
    → IsLeafOnly u ds
    → IsLeafOnly u (update_at f ds index)
unfolding update_at
update_at-IsLeafOnly u f [] index h k = tt
update_at-IsLeafOnly u f (d ∷ ds) zero h (kd, k) = (h d, k)
update_at-IsLeafOnly u f (d ∷ ds) (suc index) h (kd, k) =
    (kd, update_at-IsLeafOnly u f ds index h k)

selected_visible-leaf :
    (u ds : Accelerators) (selected : DeviceIndices) (index : ℕ) (d : AcceleratorDevice)
    → map hide ds ≡ map hide u
    → selected_visible ds selected index d ≡ true
    → has_children u (show_device d (selected_visible ds selected index d)) ≡ false
unfolding selected_visible has_children
selected_visible-leaf u ds selected index d same h =
    let e = has_children-hide ds u d same in ground (arith, e)

apply_selection-IsLeafOnly :
    (u ds : Accelerators) (candidates selected : DeviceIndices)
    → map hide ds ≡ map hide u
    → IsLeafOnly u ds
    → IsLeafOnly u (apply_selection ds candidates selected)
unfolding apply_selection
apply_selection-IsLeafOnly u ds [] selected same h = h
apply_selection-IsLeafOnly u ds (index ∷ candidates) selected same h =
    let f = λ (d : AcceleratorDevice). show_device d (selected_visible ds selected index d) in
    apply_selection-IsLeafOnly u (update_at f ds index) candidates selected
      (update_at-hide f ds index (λ d. refl) ∙ same)
      (update_at-IsLeafOnly u f ds index (λ d v. selected_visible-leaf u ds selected index d same v)
        h)

initial_visibility-IsLeafOnly :
    (u : Accelerators) (b : Bool) (ids : List ℕ) (ds : Accelerators)
    → IsLeafOnly u (initial_visibility u b ids ds)
unfolding initial_visibility has_children
initial_visibility-IsLeafOnly u b ids [] = tt
initial_visibility-IsLeafOnly u b ids (d ∷ ds) =
    (λ v. ground arith, initial_visibility-IsLeafOnly u b ids ds)

module _ (execution : ExecutionContext) (runtime : List RuntimeVisibility) (u : Accelerators) where
  -- what every round keeps
  abbrev Kept : Accelerators → Type 0
  Kept ds = (map hide ds ≡ map hide u) × IsLeafOnly u ds

  apply_selection-Kept :
      (ds : Accelerators) (candidates selected : DeviceIndices)
      → Kept ds
      → Kept (apply_selection ds candidates selected)
  apply_selection-Kept ds candidates selected (same, h) = (
    apply_selection-hide ds candidates selected ∙ same,
    apply_selection-IsLeafOnly u ds candidates selected same h,
  )

  select_vendor-Kept :
      (vendor : AcceleratorVendor) (s : Accelerators × List Bytes)
      → Kept s.0
      → Kept (select_vendor execution runtime vendor s).0
  unfolding select_vendor
  select_vendor-Kept vendor (ds, warnings) k =
      let candidates =
        sort_by (id_before ds) (positions (λ d. text_eq d.vendor (vendor_name vendor)) ds 0) in
      let observed = runtime_indices ds vendor runtime in
      let selection =
        (select_accelerator_environment ds (get_or observed candidates) execution.environ.entries
          vendor (is_some observed) warnings).0 in
      elim (Option-cases selection) [
        | inr (chosen, e) ↦ rw (e, select_vendor) (apply_selection-Kept ds candidates chosen k)
        | inl e ↦ elim (Option-cases observed) [
          | inr (seen, o) ↦
              rw (e, select_vendor)
                (rw (o, select_vendor) (apply_selection-Kept ds candidates seen k))
          | inl o ↦ rw (e, select_vendor) (rw (o, select_vendor) k)
        ]
      ]

any_id-phantom :
    (ds es : Accelerators)
    → All (λ e. any (λ d. d.id == e.id) ds ≡ true) es
    → phantom_warnings ds (visible_ids_of es) ≡ []
unfolding phantom_warnings visible_ids_of
any_id-phantom ds [] h = refl
any_id-phantom ds (e ∷ es) (he, h) = ground (arith, any_id-phantom ds es h)

any_id_suc :
    (d : AcceleratorDevice) (ds es : Accelerators)
    → All (λ e. any (λ k. k.id == e.id) ds ≡ true) es
    → All (λ e. any (λ k. k.id == e.id) (d ∷ ds) ≡ true) es
any_id_suc d ds [] h = tt
any_id_suc d ds (e ∷ es) (he, h) = (ground arith, any_id_suc d ds es h)

any_id_refl : (ds : Accelerators) → All (λ e. any (λ d. d.id == e.id) ds ≡ true) ds
any_id_refl [] = tt
any_id_refl (d ∷ ds) = (ground arith, any_id_suc d ds ds (any_id_refl ds))

module _ (devices : Accelerators) (execution : ExecutionContext) (warnings : List Bytes)
    (runtime : List RuntimeVisibility) where
  abbrev pub resolved : Resolved
  resolved = resolve_accelerator_visibility devices execution warnings runtime

  resolved-Kept : Kept execution runtime devices resolved.devices
  unfolding resolve_accelerator_visibility
  resolved-Kept =
      let b = has_selection_environment execution.environ.entries in
      let ids = execution.visible_accelerator_ids in
      select_vendor-Kept execution runtime devices intel _ (
        select_vendor-Kept execution runtime devices amd _ (
          select_vendor-Kept execution runtime devices nvidia _ (
            initial_visibility-hide devices b ids devices,
            initial_visibility-IsLeafOnly devices b ids devices,
          )))

  -- Resolving visibility changes nothing of the devices but the visibility flag: the lists agree
  -- once every flag is cleared.
  pub resolve_accelerator_visibility-hide : map hide resolved.devices ≡ map hide devices
  resolve_accelerator_visibility-hide = resolved-Kept.0

  -- No device that is visible after resolving has a child (a device whose parent UUID is its UUID)
  -- among the resolved devices: a partitioned accelerator is itself never visible.
  pub resolve_accelerator_visibility-leaf :
      All
        (λ d. (d.visible_to_current_process && has_children resolved.devices d) ≡ false)
        resolved.devices
  resolve_accelerator_visibility-leaf = go resolved.devices resolved-Kept.1
    where
      go :
          (ds : Accelerators)
          → IsLeafOnly devices ds
          → All (λ d. (d.visible_to_current_process && has_children resolved.devices d) ≡ false) ds
      go [] h = tt
      go (d ∷ ds) (hd, h) =
          let e = has_children-hide resolved.devices devices d resolved-Kept.0 in
          (ground (arith, e, hd), go ds h)

  -- The ids of the visible accelerators that the resolved context lists are all ids of devices of
  -- the resolved model: checking the list against the model reports no mismatch.
  pub resolve_accelerator_visibility-phantom :
      phantom_warnings resolved.devices resolved.execution.visible_accelerator_ids ≡ []
  unfolding resolve_accelerator_visibility
  resolve_accelerator_visibility-phantom =
      any_id-phantom resolved.devices resolved.devices (any_id_refl resolved.devices)
