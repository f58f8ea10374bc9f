-- ===== src/Resolve.antt =====
-- Visibility of CPUs and the checks across domains: src/resolver/resolve.cpp.
pub mod Cpus
pub mod Links
pub mod Nodes
use sysal.Prelude.{
  ltb, ◌==◌, if◌then◌else◌, length, any, is_nil, Bytes, codes, ℕ, Bool, false, not, ◌||◌, Option,
  none, some, List, [], ◌∷◌, ◌++◌,
}
use sysal.Prelude.Sets.{contains}
use sysal.Number.{to_string}
use sysal.Execution.{ExecutionContext}
use sysal.Cpu.{LogicalCpu}
use sysal.Accelerator.{Accelerators, visible}
use sysal.Accelerator.Visibility.{phantom_warnings}

-- `lc.online == false`
unfoldable pub is_offline : Option Bool → Bool
is_offline (some online) = not online
is_offline none = false

-- one CPU of the loop; the `std::unordered_set` serves membership only
unfoldable pub cpu_visibility : ExecutionContext → LogicalCpu → Option Bool
cpu_visibility exec cpu =
    if is_offline cpu.online
    then some false
    else if exec.cpu_visibility_known || not (is_nil exec.visible_logical_cpu_ids)
    then some (contains cpu.id exec.visible_logical_cpu_ids)
    else none

unfoldable pub compute_cpu_visibility : List LogicalCpu → ExecutionContext → List LogicalCpu
compute_cpu_visibility [] exec = []
compute_cpu_visibility (cpu ∷ cpus) exec =
    record cpu { visible_to_current_process = cpu_visibility exec cpu }
    ∷ compute_cpu_visibility cpus exec

unfoldable cpu_mismatch_warning : ℕ → Bytes
cpu_mismatch_warning id =
    codes "[visibility_mismatch] cpu_"
    ++ to_string id
    ++ codes ": in_visible_logical_cpu_ids but cpu does not exist in model"

-- the listed ids that no CPU has
unfoldable phantom_cpus : List LogicalCpu → List ℕ → List Bytes
phantom_cpus cpus [] = []
phantom_cpus cpus (id ∷ ids) =
    let rest = phantom_cpus cpus ids in
    if any (λ c. c.id == id) cpus then rest else cpu_mismatch_warning id ∷ rest

unfoldable pub constraint_warning : Bytes → ℕ → ℕ → List Bytes
constraint_warning domain total visible =
    if ltb visible total
    then (codes "[constraint] "
        ++ domain
        ++ codes " visibility restricted: "
        ++ to_string total
        ++ codes " total, "
        ++ to_string visible
        ++ codes " visible")
      ∷ []
    else []

unfoldable cross_check_cpu_visibility : List LogicalCpu → ExecutionContext → List Bytes → List Bytes
cross_check_cpu_visibility cpus exec warnings =
    let ids = exec.visible_logical_cpu_ids in
    if is_nil ids
    then warnings
    else warnings
      ++ phantom_cpus cpus ids
      ++ constraint_warning (codes "cpu") (length cpus) (length ids)

unfoldable pub cross_check_accelerator_visibility :
    Accelerators → ExecutionContext → List Bytes → List Bytes
cross_check_accelerator_visibility devices exec warnings =
    let ids = exec.visible_accelerator_ids in
    if is_nil ids
    then warnings
    else warnings
      ++ phantom_warnings devices ids
      ++ constraint_warning (codes "accelerator") (length devices) (length ids)
