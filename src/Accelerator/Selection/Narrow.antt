-- ===== src/Accelerator/Selection/Narrow.antt =====
-- `select_accelerator_environment` of src/resolver/accelerator_selection.cpp as a whole.
use sysal.Prelude.{
  if◌then◌else◌, Bool-cases, Option-cases, any, keep, is_nil, is_some, Bytes, codes, text_eq, inl,
  inr, Bool, true, false, not, List, [], ◌∷◌, ◌++◌,
}
use sysal.Text.{trim, find}
use sysal.Accelerator.{
  Accelerators, AcceleratorVendor, nvidia, amd, intel, DeviceIndices, device_is,
}
use sysal.Accelerator.Csv.{candidate, physical_id, option_is}
use sysal.Accelerator.Sycl.{parse_sycl, apply_filters, select_sycl}
use sysal.Accelerator.Selection.{
  variable_of, sort_by, before_in_pci, cuda_warning, hip_warning, is_physical, select_nvidia,
  apply_variable, chosen, select_amd, apply_mask, apply_selector, select_intel,
  select_accelerator_environment,
}
use sysal.Accelerator.Selection.Subset.{
  Within, IsUnique, Within-trans, Within-refl, Within-keep, Within-sort_by,
}
use sysal.Accelerator.Selection.Safe.{IsSafe, select_csv-IsSafe, Returned, apply_filters-IsSafe}

select_sycl-IsSafe :
    (candidates : DeviceIndices) (value : Bytes) (runtime_known : Bool) (warnings : List Bytes)
    → IsSafe candidates candidates
    → IsSafe candidates (select_sycl candidates value runtime_known warnings).0
unfolding select_sycl
select_sycl-IsSafe candidates value known warnings h = elim (Bool-cases (is_nil (trim value))) [
  | inl e ↦ rw e (tt, tt)
  | inr e ↦ elim (Option-cases (parse_sycl value)) [
    | inl p ↦ rw (e, p) h
    | inr (filters, p) ↦
        let start = if any (λ f. not f.exclude) filters then [] else candidates in
        let start_IsSafe : IsSafe candidates start =
          elim (Bool-cases (any (λ f. not f.exclude) filters)) [
            | inl a ↦ rw a (tt, tt)
            | inr a ↦ rw a h
          ] in
        let found = apply_filters-IsSafe candidates known filters start start_IsSafe in
        elim (Option-cases (apply_filters candidates known filters start)) [
          | inl a ↦ rw (e, p) (rw a h)
          | inr (selected, a) ↦ rw (e, p) (rw a (rw a at found))
        ]
  ]
]

-- what the variables have narrowed the candidates to
abbrev State : Type 0
State = DeviceIndices × Bool × List Bytes

module _ (devices : Accelerators) (candidates : DeviceIndices)
    (entries : List (Bytes × Bytes)) where
  apply_variable-IsSafe :
      (name : Bytes) (s : State)
      → IsSafe candidates s.0
      → IsSafe candidates (apply_variable devices candidates entries name s).0
  unfolding apply_variable
  apply_variable-IsSafe name (selected, filtered, warnings) h =
      elim (Option-cases (variable_of entries name)) [
        | inl e ↦ rw (e, apply_variable) h
        | inr (value, e) ↦
            let (within, unique) =
              select_csv-IsSafe devices selected selected name candidate value warnings
                (Within-refl selected) in
            rw (e, apply_variable) (Within-trans candidates selected _ h.0 within, unique)
      ]

  apply_mask-IsSafe :
      (known : Bool) (s : State)
      → IsSafe candidates s.0
      → IsSafe candidates (apply_mask devices candidates entries known s).0
  unfolding apply_mask
  apply_mask-IsSafe true s h = h
  apply_mask-IsSafe false s h =
      let applied = apply_variable-IsSafe (codes "ZE_AFFINITY_MASK") s h in
      elim (Bool-cases
        (option_is (variable_of entries (codes "ZE_AFFINITY_MASK")) (λ m. is_some (find m b'.')))) [
          | inl e ↦ rw e h
          | inr e ↦ rw e applied
        ]

  apply_selector-IsSafe :
      (known : Bool) (s : State)
      → IsSafe s.0 s.0
      → IsSafe candidates s.0
      → IsSafe candidates (apply_selector devices candidates entries known s).0
  unfolding apply_selector
  apply_selector-IsSafe known (selected, filtered, warnings) k h =
      elim (Option-cases (variable_of entries (codes "ONEAPI_DEVICE_SELECTOR"))) [
        | inl e ↦ rw (e, apply_selector) h
        | inr (value, e) ↦
            let (within, unique) = select_sycl-IsSafe selected value known warnings k in
            rw (e, apply_selector) (Within-trans candidates selected _ h.0 within, unique)
      ]

  chosen-IsSafe :
      (s : State)
      → IsSafe candidates s.0
      → Returned (IsSafe candidates) (chosen devices candidates entries s).0
  unfolding chosen
  chosen-IsSafe (selected, true, warnings) h = h
  chosen-IsSafe (selected, false, warnings) h = tt

  select_nvidia-IsSafe :
      (known : Bool) (warnings : List Bytes)
      → Returned (IsSafe candidates) (select_nvidia devices candidates entries known warnings).0
  unfolding select_nvidia
  select_nvidia-IsSafe known warnings =
      let physical = keep (device_is devices is_physical) candidates in
      let physical_Within =
        Within-keep (device_is devices is_physical) candidates candidates
          (Within-refl candidates) in
      let pci_order =
        option_is (variable_of entries (codes "CUDA_DEVICE_ORDER"))
          (λ v. text_eq v (codes "PCI_BUS_ID")) in
      let ordered = if pci_order then sort_by (before_in_pci devices) physical else physical in
      let ordered_Within : Within candidates ordered = elim (Bool-cases pci_order) [
        | inl e ↦ rw e (Within-sort_by (before_in_pci devices) candidates physical physical_Within)
        | inr e ↦ rw e physical_Within
      ] in
      elim (Option-cases (variable_of entries (codes "CUDA_VISIBLE_DEVICES"))) [
        | inl e ↦ rw (e, select_nvidia) tt
        | inr (value, e) ↦ elim (Bool-cases known) [
          | inl k ↦ rw (e, select_nvidia) (rw k tt)
          | inr k ↦
              rw (e, select_nvidia)
                (rw k (
                  select_csv-IsSafe devices ordered candidates (codes "CUDA_VISIBLE_DEVICES")
                    (if pci_order then candidate else physical_id) value
                    (if is_nil candidates then warnings else warnings ++ cuda_warning ∷ [])
                    ordered_Within))
        ]
      ]

  select_amd-IsSafe :
      (known : Bool) (warnings : List Bytes)
      → IsUnique candidates
      → Returned (IsSafe candidates) (select_amd devices candidates entries known warnings).0
  unfolding select_amd
  select_amd-IsSafe true warnings u = tt
  select_amd-IsSafe false warnings u =
      let s = apply_variable devices candidates entries (codes "HIP_VISIBLE_DEVICES") (
        apply_variable devices candidates entries (codes "ROCR_VISIBLE_DEVICES")
          (candidates, false, warnings)) in
      chosen-IsSafe (s.0, s.1, if s.1 then s.2 ++ hip_warning ∷ [] else s.2)
        (apply_variable-IsSafe (codes "HIP_VISIBLE_DEVICES") _ (
          apply_variable-IsSafe (codes "ROCR_VISIBLE_DEVICES") (candidates, false, warnings)
            (Within-refl candidates, u)))

  select_intel-IsSafe :
      (known : Bool) (warnings : List Bytes)
      → IsUnique candidates
      → Returned (IsSafe candidates) (select_intel devices candidates entries known warnings).0
  unfolding select_intel
  select_intel-IsSafe known warnings u =
      let s = apply_mask devices candidates entries known (candidates, false, warnings) in
      let h = apply_mask-IsSafe known (candidates, false, warnings) (Within-refl candidates, u) in
      chosen-IsSafe (apply_selector devices candidates entries known s)
        (apply_selector-IsSafe known s (Within-refl s.0, h.1) h)

  -- Whatever the environment variables say, what a vendor's variables select, when they select
  -- anything, lies within the candidates and lists no device twice, provided the candidates list
  -- none twice.
  pub select_accelerator_environment-IsSafe :
      (vendor : AcceleratorVendor) (runtime_known : Bool) (warnings : List Bytes)
      → IsUnique candidates
      → Returned
          (IsSafe candidates)
          (select_accelerator_environment devices candidates entries vendor runtime_known
            warnings).0
  unfolding select_accelerator_environment
  select_accelerator_environment-IsSafe nvidia known warnings u =
      select_nvidia-IsSafe known warnings
  select_accelerator_environment-IsSafe amd known warnings u = select_amd-IsSafe known warnings u
  select_accelerator_environment-IsSafe intel known warnings u =
      select_intel-IsSafe known warnings u
