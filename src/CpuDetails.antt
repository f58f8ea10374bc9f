-- ===== src/CpuDetails.antt =====
-- Frequency policies, online CPUs and SMT: `read_cpu_details` of src/parser/cpu_details.cpp, and
-- `CpuFrequencyPolicy` of include/sysal/model/cpu.hpp. The CPU list's parser is in CpuList.antt. Of
-- `Cpu` this has the fields that the function reads or writes.
pub mod Records
pub mod Merge
pub mod Online
use sysal.Prelude.{
  ltb, leb, ◌==◌, if◌then◌else◌, get_or, Bytes, codes, text_eq, text_mem, ◌>>=◌, ℕ, ◌*◌, Bool, ◌&&◌,
  ◌||◌, Option, none, some, List, [], ◌∷◌, ◌++◌,
}
use sysal.Text.{trim, extract_filename}
use sysal.Number.{parse_uint}
use sysal.CpuList.{parse_cpu_id_list}
use sysal.Cpu.{LogicalCpu}

pub record CpuFrequencyPolicy : Type 0 where
  pub index : ℕ
  pub related_cpus : List ℕ
  pub affected_cpus : List ℕ
  pub base_frequency : Option ℕ
  pub hardware_min_frequency : Option ℕ
  pub hardware_max_frequency : Option ℕ
  pub scaling_min_frequency : Option ℕ
  pub scaling_max_frequency : Option ℕ
  pub scaling_current_frequency : Option ℕ
  pub hardware_current_frequency : Option ℕ
  pub driver : Bytes
  pub governor : Bytes
  pub energy_performance_preference : Bytes

abbrev new_policy : ℕ → CpuFrequencyPolicy
new_policy index = record {
  index = index;
  related_cpus = [];
  affected_cpus = [];
  base_frequency = none;
  hardware_min_frequency = none;
  hardware_max_frequency = none;
  scaling_min_frequency = none;
  scaling_max_frequency = none;
  scaling_current_frequency = none;
  hardware_current_frequency = none;
  driver = [];
  governor = [];
  energy_performance_preference = [];
}

pub record CpuDetails : Type 0 where
  pub logical_cpus : List LogicalCpu
  pub present_cpu_ids : Option (List ℕ)
  pub online_cpu_ids : Option (List ℕ)
  pub smt_control : Bytes
  pub smt_supported : Option Bool
  pub smt_active : Option Bool
  pub boost_enabled : Option Bool
  pub frequency_policies : List CpuFrequencyPolicy

abbrev pub list_warning : Bytes → Bytes
list_warning path = codes "parse_cpu: invalid CPU list in " ++ path

abbrev frequency_warning : Bytes → Bytes
frequency_warning path = codes "parse_cpu: invalid frequency in " ++ path

-- kHz as Hz; 0 and what does not fit in 64 bits are invalid
unfoldable pub read_frequency : Bytes → Option ℕ
read_frequency payload = do
  number ← parse_uint payload
  (if ltb 0 number && leb number 18446744073709551 then some (number * 1000) else none)

-- the fields of `frequency_fields`
unfoldable pub set_frequency : Bytes → ℕ → CpuFrequencyPolicy → Option CpuFrequencyPolicy
set_frequency field hz policy =
    if text_eq field (codes "base_frequency")
    then some (record policy { base_frequency = some hz })
    else if text_eq field (codes "cpuinfo_min_freq")
    then some (record policy { hardware_min_frequency = some hz })
    else if text_eq field (codes "cpuinfo_max_freq")
    then some (record policy { hardware_max_frequency = some hz })
    else if text_eq field (codes "scaling_min_freq")
    then some (record policy { scaling_min_frequency = some hz })
    else if text_eq field (codes "scaling_max_freq")
    then some (record policy { scaling_max_frequency = some hz })
    else if text_eq field (codes "scaling_cur_freq")
    then some (record policy { scaling_current_frequency = some hz })
    else if text_eq field (codes "cpuinfo_cur_freq")
    then some (record policy { hardware_current_frequency = some hz })
    else none

abbrev frequency_names : List Bytes
frequency_names =
    codes "base_frequency"
    ∷ codes "cpuinfo_min_freq"
    ∷ codes "cpuinfo_max_freq"
    ∷ codes "scaling_min_freq"
    ∷ codes "scaling_max_freq"
    ∷ codes "scaling_cur_freq"
    ∷ codes "cpuinfo_cur_freq"
    ∷ []

unfoldable pub set_cpus : Bytes → List ℕ → CpuFrequencyPolicy → CpuFrequencyPolicy
set_cpus field ids policy =
    if text_eq field (codes "related_cpus")
    then record policy { related_cpus = ids }
    else record policy { affected_cpus = ids }

unfoldable pub set_policy_text : Bytes → Bytes → CpuFrequencyPolicy → CpuFrequencyPolicy
set_policy_text field value policy =
    if text_eq field (codes "scaling_driver")
    then record policy { driver = value }
    else if text_eq field (codes "scaling_governor")
    then record policy { governor = value }
    else if text_eq field (codes "energy_performance_preference")
    then record policy { energy_performance_preference = value }
    else policy

-- the policy and the warnings that one file adds
unfoldable pub read_policy_field :
    CpuFrequencyPolicy → Bytes → Bytes → CpuFrequencyPolicy × List Bytes
unfolding set_cpus read_frequency set_frequency set_policy_text
read_policy_field policy path payload =
    let field = extract_filename path in
    if text_eq field (codes "related_cpus") || text_eq field (codes "affected_cpus")
    then elim (parse_cpu_id_list payload) [
      | some ids ↦ (set_cpus field ids policy, [])
      | none ↦ (policy, list_warning path ∷ [])
    ]
    else if text_mem field frequency_names
    then elim (read_frequency payload) [
      | some hz ↦ (get_or (set_frequency field hz policy) policy, [])
      | none ↦ (policy, frequency_warning path ∷ [])
    ]
    else (set_policy_text field (trim payload) policy, [])

-- `policies[index]`, a new one if there is none, with a file read into it
unfoldable pub update_policy :
    ℕ → Bytes → Bytes → List CpuFrequencyPolicy → List CpuFrequencyPolicy × List Bytes
unfolding read_policy_field
update_policy index path payload [] =
    let result = read_policy_field (new_policy index) path payload in (result.0 ∷ [], result.1)
update_policy index path payload (p ∷ ps) =
    let rest = update_policy index path payload ps in
    if index == p.index
    then (let result = read_policy_field p path payload in (result.0 ∷ ps, result.1))
    else if ltb index p.index
    then (let result = read_policy_field (new_policy index) path payload in
        (result.0 ∷ p ∷ ps, result.1))
    else (p ∷ rest.0, rest.1)
