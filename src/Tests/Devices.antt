-- ===== src/Tests/Devices.antt =====
-- Runs and instances for CPUs and accelerators: src/model/cpu_features.cpp,
-- src/resolver/accelerator_selection.cpp, src/resolver/accelerator_visibility.cpp and
-- src/resolver/resolve.cpp.
use sysal.Prelude.{
  if◌then◌else◌, length, All, Bytes, codes, text_eq, ℕ, ◌≡◌, refl, ◌⊎◌, true, false, ◌&&◌, none,
  List, [], ◌∷◌, ◌++◌, map,
}
use sysal.Prelude.Sets.{contains}
use sysal.Types.{AcceleratorKind}
use sysal.Execution.{ExecutionContext, empty_context}
use sysal.Cpu.{LogicalCpu}
use sysal.Cpu.Features.{find_alias, normalize_cpu_feature, reported, feature_state, feature}
use sysal.Cpu.Agreement.{is_reported, feature-feature_state}
use sysal.Cpu.Partition.{ids, listed, feature_partition}
use sysal.Accelerator.{AcceleratorDevice, Accelerators, nvidia, holds_index}
use sysal.Accelerator.Selection.{select_accelerator_environment}
use sysal.Accelerator.Selection.Subset.{IsUnique}
use sysal.Accelerator.Selection.Safe.{IsSafe, Returned}
use sysal.Accelerator.Selection.Narrow.{select_accelerator_environment-IsSafe}
use sysal.Accelerator.Visibility.{has_children, resolve_accelerator_visibility}
use sysal.Accelerator.Visibility.Result.{
  hide, resolve_accelerator_visibility-hide, resolve_accelerator_visibility-leaf,
}
use sysal.Resolve.{compute_cpu_visibility, constraint_warning, cross_check_accelerator_visibility}
use sysal.Resolve.Cpus.{
  IsResolvedCpu, compute_cpu_visibility-IsResolvedCpu, cross_check_accelerator_visibility_lem,
}

abbrev gpu_device : ℕ → AcceleratorDevice
gpu_device id = record {
  id = id;
  kind = AcceleratorKind.gpu;
  vendor = codes "NVIDIA";
  name = codes "A";
  pci_address = none;
  nearest_numa_node = none;
  memory_size = none;
  driver = none;
  visible_to_current_process = false;
  uuid = none;
  parent_uuid = none;
  gpu_instance_id = none;
  compute_instance_id = none;
}

abbrev two_gpus : Accelerators
two_gpus = gpu_device 0 ∷ gpu_device 1 ∷ []

abbrev second_only : List (Bytes × Bytes)
second_only = (codes "CUDA_VISIBLE_DEVICES", codes "1") ∷ []

abbrev masked_context : ExecutionContext
masked_context = record empty_context {
  environ = record { entries = second_only };
  cpu_visibility_known = true;
  visible_logical_cpu_ids = 0 ∷ [];
}

both-IsUnique : IsUnique (0 ∷ 1 ∷ [])
unfolding holds_index
both-IsUnique = (refl, (refl, tt))

select_accelerator_environment-IsSafe_example :
    Returned
      (IsSafe (0 ∷ 1 ∷ []))
      (select_accelerator_environment two_gpus (0 ∷ 1 ∷ []) second_only nvidia false []).0
select_accelerator_environment-IsSafe_example =
    select_accelerator_environment-IsSafe two_gpus (0 ∷ 1 ∷ []) second_only nvidia false []
      both-IsUnique

resolve_accelerator_visibility-hide_example :
    map hide (resolve_accelerator_visibility two_gpus masked_context [] []).devices
    ≡ map hide two_gpus
resolve_accelerator_visibility-hide_example =
    resolve_accelerator_visibility-hide two_gpus masked_context [] []

resolve_accelerator_visibility-leaf_example :
    All
      (λ d.
        (d.visible_to_current_process
          && has_children (resolve_accelerator_visibility two_gpus masked_context [] []).devices d)
        ≡ false)
      (resolve_accelerator_visibility two_gpus masked_context [] []).devices
resolve_accelerator_visibility-leaf_example =
    resolve_accelerator_visibility-leaf two_gpus masked_context [] []

cross_check_accelerator_visibility_lem_example :
    let r = resolve_accelerator_visibility two_gpus masked_context [] [] in
    let checked = cross_check_accelerator_visibility r.devices r.execution r.warnings in
    (checked ≡ r.warnings)
    ⊎ (checked
        ≡ r.warnings
          ++ constraint_warning
              (codes "accelerator")
              (length r.devices)
              (length r.execution.visible_accelerator_ids))
cross_check_accelerator_visibility_lem_example =
    cross_check_accelerator_visibility_lem two_gpus masked_context [] []

abbrev logical_cpu : ℕ → LogicalCpu
logical_cpu id = record {
  id = id;
  core_id = 0;
  package_id = 0;
  numa_node = none;
  visible_to_current_process = none;
  identification = record {
    family = none;
    model = none;
    stepping = none;
    implementer = none;
    part = none;
    variant = none;
    revision = [];
    architecture = [];
    microcode = [];
    features = codes "pni" ∷ [];
    features_reported = true;
  };
  online = none;
}

abbrev two_cpus : List LogicalCpu
two_cpus = logical_cpu 0 ∷ logical_cpu 1 ∷ []

compute_cpu_visibility-IsResolvedCpu_example :
    All (IsResolvedCpu masked_context) (compute_cpu_visibility two_cpus masked_context)
compute_cpu_visibility-IsResolvedCpu_example =
    compute_cpu_visibility-IsResolvedCpu two_cpus masked_context

feature_partition_example :
    listed 1 (feature two_cpus (codes "sse3")) ≡ (if contains 1 (ids two_cpus) then 1 else 0)
feature_partition_example = feature_partition two_cpus (codes "sse3") 1

alias_run : feature_state (logical_cpu 0).identification (codes "sse3") ≡ reported
unfolding feature_state normalize_cpu_feature find_alias text_eq
alias_run = refl

feature-feature_state_example :
    contains 0 (feature two_cpus (codes "sse3")).reported_cpu_ids
    ≡ is_reported (feature_state (logical_cpu 0).identification (codes "sse3"))
feature-feature_state_example =
    feature-feature_state [] (logical_cpu 1 ∷ []) (logical_cpu 0) (codes "sse3") refl refl
