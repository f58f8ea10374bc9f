-- ===== src/CpuDetails/Online.antt =====
-- Which CPUs are online, for src/parser/cpu_details.cpp.
use sysal.Prelude.{All, Bytes, ℕ, ◌≡◌, refl, Option, none, some, List, [], ◌∷◌, map}
use sysal.Prelude.Sets.{contains}
use sysal.RawStore.{RawStore}
use sysal.Cpu.{LogicalCpu}
use sysal.CpuDetails.{CpuDetails}
use sysal.CpuDetails.Merge.{list_online, finish_details, read_cpu_details}

-- what the list of online CPUs says of a CPU
abbrev pub IsListed : Option (List ℕ) → LogicalCpu → Type 0
IsListed none l = Unit
IsListed (some ids) l = l.online ≡ some (contains l.id ids)

list_online-IsListed :
    (ids : Option (List ℕ)) (cpus : List LogicalCpu)
    → All (IsListed ids) (map (list_online ids) cpus)
unfolding list_online
list_online-IsListed ids [] = tt
list_online-IsListed none (l ∷ cpus) = (tt, list_online-IsListed none cpus)
list_online-IsListed (some ids) (l ∷ cpus) = (refl, list_online-IsListed (some ids) cpus)

-- If the list of online CPUs was read, a CPU is online exactly if it is on that list, whatever the
-- file of the CPU itself says.
pub read_cpu_details-IsListed :
    (raw : RawStore) (cpu : CpuDetails) (warnings : List Bytes)
    → let after = (read_cpu_details raw cpu warnings).0 in
      All (IsListed after.online_cpu_ids) after.logical_cpus
unfolding read_cpu_details finish_details
read_cpu_details-IsListed raw cpu warnings = list_online-IsListed _ _
