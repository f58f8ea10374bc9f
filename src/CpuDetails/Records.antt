-- ===== src/CpuDetails/Records.antt =====
-- The records that `read_cpu_details` of src/parser/cpu_details.cpp reads, one at a time.
use sysal.Prelude.{
  if◌then◌else◌, length, take, drop, is_some, Bytes, codes, text_eq, text_mem, starts_with, ◌>>=◌,
  ℕ, Bool, true, false, not, ◌&&◌, ◌||◌, Option, none, some, List, [], ◌∷◌, ◌++◌,
}
use sysal.Prelude.Maps.{update_id}
use sysal.Types.{is_success}
use sysal.Text.{trim, find, ends_with}
use sysal.Number.{parse_u32}
use sysal.CpuList.{parse_cpu_id_list}
use sysal.RawStore.{RawRecord}
use sysal.CpuDetails.{CpuFrequencyPolicy, CpuDetails, list_warning, update_policy}

-- "0" and "1"
unfoldable pub read_bit : Bytes → Option Bool
read_bit value =
    if text_eq value (codes "0")
    then some false
    else if text_eq value (codes "1")
    then some true
    else none

-- the state of the loop over the records
pub record DetailState : Type 0 where
  pub cpu : CpuDetails
  pub reported_online : List (ℕ × Bool)
  pub policies : List CpuFrequencyPolicy
  pub warnings : List Bytes

abbrev base : Bytes
base = codes "/sys/devices/system/cpu/"

abbrev pub policy_prefix : Bytes
policy_prefix = codes "/sys/devices/system/cpu/cpufreq/policy"

abbrev pub legacy_prefix : Bytes
legacy_prefix = codes "/sys/devices/system/cpu/cpu"

unfoldable pub read_present : Bool → Bytes → Bytes → DetailState → DetailState
read_present is_present path payload st =
    let ids = parse_cpu_id_list payload in
    record st {
      cpu =
          if is_present
          then record st.cpu { present_cpu_ids = ids }
          else record st.cpu { online_cpu_ids = ids };
      warnings = if is_some ids then st.warnings else st.warnings ++ list_warning path ∷ [];
    }

unfoldable pub smt_support : Bytes → Option Bool → Option Bool
smt_support control old =
    if text_eq control (codes "notsupported")
    then some false
    else if text_mem control (codes "on" ∷ codes "off" ∷ codes "forceoff" ∷ [])
    then some true
    else old

unfoldable pub read_control : Bytes → DetailState → DetailState
unfolding smt_support
read_control payload st =
    let control = trim payload in
    record st {
      cpu = record st.cpu {
        smt_control = control;
        smt_supported = smt_support control st.cpu.smt_supported;
      };
    }

unfoldable pub read_switch : Bool → Bytes → DetailState → DetailState
unfolding read_bit
read_switch is_active payload st = elim (read_bit (trim payload)) [
  | none ↦ st
  | some value ↦
      if is_active
      then record st { cpu = record st.cpu { smt_active = some value } }
      else record st { cpu = record st.cpu { boost_enabled = some value } }
]

-- `suffix.substr(0, suffix.find('/'))`
unfoldable pub before_slash : Bytes → Bytes
before_slash suffix = elim (find suffix b'/') [ none ↦ suffix | some end ↦ take end suffix ]

unfoldable pub read_online : Bytes → Bytes → DetailState → DetailState
unfolding read_bit before_slash
read_online path payload st = elim (parse_u32 (before_slash (drop (length legacy_prefix) path))) [
  | none ↦ st
  | some number ↦ elim (read_bit (trim payload)) [
    | none ↦ st
    | some value ↦ record st {
      reported_online = update_id number (λ old. value) st.reported_online;
    }
  ]
]

-- the index of a policy in the path behind the prefix
unfoldable pub policy_index : Bool → Bytes → Option ℕ
policy_index legacy suffix = do
  separator ← find suffix b'/'
  (if legacy && not (starts_with (drop separator suffix) (codes "/cpufreq/"))
      then none
      else parse_u32 (take separator suffix))

unfoldable pub read_policy : Bool → Bytes → Bytes → DetailState → DetailState
unfolding policy_index update_policy
read_policy legacy path payload st =
    elim (policy_index legacy
      (drop (length (if legacy then legacy_prefix else policy_prefix)) path)) [
        | none ↦ st
        | some index ↦
            let result = update_policy index path payload st.policies in
            record st { policies = result.0; warnings = st.warnings ++ result.1 }
      ]

-- one record that succeeded
unfoldable pub read_detail : Bool → Bytes → Bytes → DetailState → DetailState
unfolding read_present read_control read_switch read_online read_policy
read_detail modern_policies path payload st =
    if text_eq path (base ++ codes "present") || text_eq path (base ++ codes "online")
    then read_present (ends_with path (codes "present")) path payload st
    else if text_eq path (base ++ codes "smt/control")
    then read_control payload st
    else if text_eq path (base ++ codes "smt/active")
        || text_eq path (base ++ codes "cpufreq/boost")
    then read_switch (ends_with path (codes "active")) payload st
    else if starts_with path legacy_prefix && ends_with path (codes "/online")
    then read_online path payload st
    else if starts_with path policy_prefix
        || (not modern_policies && starts_with path legacy_prefix)
    then read_policy (not (starts_with path policy_prefix)) path payload st
    else st

unfoldable pub read_details : Bool → List RawRecord → DetailState → DetailState
unfolding read_detail
read_details modern_policies [] st = st
read_details modern_policies (rec ∷ records) st = read_details modern_policies records (
    if is_success rec.status
    then read_detail modern_policies rec.path_or_command rec.payload st
    else st)
