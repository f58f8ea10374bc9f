-- ===== src/CpuDetails/Merge.antt =====
-- What `read_cpu_details` of src/parser/cpu_details.cpp does behind its loop over the records.
use sysal.Prelude.{
  ◌==◌, if◌then◌else◌, any, is_nil, Bytes, starts_with, ℕ, Bool, true, false, ◌&&◌, ◌||◌, Option,
  none, some, List, [], ◌∷◌, ◌++◌, map,
}
use sysal.Prelude.Sets.{contains}
use sysal.Prelude.Maps.{lookup_id}
use sysal.Types.{RawSource, is_success}
use sysal.RawStore.{RawRecord, RawStore, get_all}
use sysal.Cpu.{LogicalCpu}
use sysal.CpuDetails.{CpuFrequencyPolicy, CpuDetails}
use sysal.CpuDetails.Records.{DetailState, policy_prefix, read_details}

unfoldable pub ids_eq : List ℕ → List ℕ → Bool
ids_eq [] [] = true
ids_eq (a ∷ ids) (b ∷ others) = a == b && ids_eq ids others
ids_eq _ _ = false

unfoldable pub ids_mem : List ℕ → List (List ℕ) → Bool
unfolding ids_eq
ids_mem ids [] = false
ids_mem ids (members ∷ rest) = ids_eq ids members || ids_mem ids rest

-- legacy policies with members that an earlier one had are dropped; `seen` is `legacy_members`
unfoldable pub select_policies :
    Bool → List CpuFrequencyPolicy → List (List ℕ) → List CpuFrequencyPolicy
unfolding ids_mem
select_policies modern_policies [] seen = []
select_policies modern_policies (p ∷ ps) seen =
    if modern_policies || is_nil p.related_cpus
    then p ∷ select_policies modern_policies ps seen
    else if ids_mem p.related_cpus seen
    then select_policies modern_policies ps seen
    else p ∷ select_policies modern_policies ps (p.related_cpus ∷ seen)

-- the file of the CPU itself
unfoldable pub report_online : List (ℕ × Bool) → LogicalCpu → LogicalCpu
report_online reported logical = elim (lookup_id logical.id reported) [
  | none ↦ logical
  | some value ↦ record logical { online = some value }
]

-- the list of all online CPUs
unfoldable pub list_online : Option (List ℕ) → LogicalCpu → LogicalCpu
list_online none logical = logical
list_online (some ids) logical = record logical { online = some (contains logical.id ids) }

unfoldable pub finish_details : Bool → DetailState → CpuDetails
unfolding select_policies report_online list_online
finish_details modern_policies st = record st.cpu {
  frequency_policies = st.cpu.frequency_policies ++ select_policies modern_policies st.policies [];
  logical_cpus =
      map (list_online st.cpu.online_cpu_ids)
        (map (report_online st.reported_online) st.cpu.logical_cpus);
}

unfoldable pub has_modern_policies : List RawRecord → Bool
has_modern_policies = any (λ r. is_success r.status && starts_with r.path_or_command policy_prefix)

unfoldable pub read_cpu_details : RawStore → CpuDetails → List Bytes → CpuDetails × List Bytes
unfolding has_modern_policies read_details finish_details
read_cpu_details raw cpu warnings =
    let records = get_all raw RawSource.sysfs_cpu in
    let modern_policies = has_modern_policies records in
    let st =
      read_details modern_policies records
        (record { cpu = cpu; reported_online = []; policies = []; warnings = warnings }) in
    (finish_details modern_policies st, st.warnings)
