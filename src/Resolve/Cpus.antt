-- ===== src/Resolve/Cpus.antt =====
-- What `compute_cpu_visibility` and the cross checks of src/resolver/resolve.cpp establish.
use sysal.Prelude.{
  Bool-cases, length, is_nil, All, Bytes, codes, ℕ, ◌≡◌, refl, ◌↔◌, ◌⊎◌, inl, inr, true, false,
  some, List, [], ◌∷◌, ◌++◌, append-nil, arith,
}
use sysal.Prelude.Sets.{contains}
use sysal.Execution.{ExecutionContext}
use sysal.Cpu.{LogicalCpu}
use sysal.Accelerator.{Accelerators, RuntimeVisibility}
use sysal.Accelerator.Visibility.{resolve_accelerator_visibility}
use sysal.Accelerator.Visibility.Result.{resolve_accelerator_visibility-phantom}
use sysal.Resolve.{
  is_offline, cpu_visibility, compute_cpu_visibility, constraint_warning,
  cross_check_accelerator_visibility,
}

-- a CPU is visible just when it is not known to be offline and the process may run on its id
abbrev pub IsResolvedCpu : ExecutionContext → LogicalCpu → Type 0
IsResolvedCpu exec cpu =
    (cpu.visible_to_current_process ≡ some true)
    ↔ ((is_offline cpu.online ≡ false) × (contains cpu.id exec.visible_logical_cpu_ids ≡ true))

contains-not_nil : (n : ℕ) (ids : List ℕ) → contains n ids ≡ true → is_nil ids ≡ false
contains-not_nil n [] h = cc
contains-not_nil n (x ∷ ids) h = refl

-- After the visibility of the CPUs is computed, a CPU is marked visible exactly if it is not known
-- to be offline and its id is one of those that the process may run on.
pub compute_cpu_visibility-IsResolvedCpu :
    (cpus : List LogicalCpu) (exec : ExecutionContext)
    → All (IsResolvedCpu exec) (compute_cpu_visibility cpus exec)
unfolding compute_cpu_visibility
compute_cpu_visibility-IsResolvedCpu [] exec = tt
compute_cpu_visibility-IsResolvedCpu (cpu ∷ cpus) exec =
    (one, compute_cpu_visibility-IsResolvedCpu cpus exec)
  where
    one :
        (cpu_visibility exec cpu ≡ some true)
        ↔ ((is_offline cpu.online ≡ false) × (contains cpu.id exec.visible_logical_cpu_ids ≡ true))
    one =
        unfold cpu_visibility in
        ground (arith, contains-not_nil cpu.id exec.visible_logical_cpu_ids)

-- The checks after resolving never find a phantom accelerator: whatever the environment and the
-- runtimes say, they add nothing but, at most, the note that not all accelerators are visible.
pub cross_check_accelerator_visibility_lem :
    (devices : Accelerators) (execution : ExecutionContext) (warnings : List Bytes)
    (runtime : List RuntimeVisibility)
    → let r = resolve_accelerator_visibility devices execution warnings runtime in
      let checked = cross_check_accelerator_visibility r.devices r.execution r.warnings in
      (checked ≡ r.warnings)
      ⊎ (checked
          ≡ r.warnings
            ++ constraint_warning
                (codes "accelerator")
                (length r.devices)
                (length r.execution.visible_accelerator_ids))
unfolding cross_check_accelerator_visibility
cross_check_accelerator_visibility_lem devices execution warnings runtime =
    let r = resolve_accelerator_visibility devices execution warnings runtime in
    let clean = resolve_accelerator_visibility-phantom devices execution warnings runtime in
    elim (Bool-cases (is_nil r.execution.visible_accelerator_ids)) [
      | inl e ↦ inl (rw e refl)
      | inr e ↦ inr (rw (e, clean, append-nil r.warnings) refl)
    ]
