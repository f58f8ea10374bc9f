-- ===== src/Pipeline/Context.antt =====
-- `parse_execution` of src/parser/execution.cpp as a whole.
use sysal.Prelude.{
  if◌then◌else◌, Option-cases, any, keep, first, is_nil, is_some, Bytes, ◌≡◌, refl, inl, inr, Bool,
  not, ◌&&◌, ◌||◌, Option, none, some, List, [], ◌∷◌, arith,
}
use sysal.Types.{RawSource, source_eq, is_success}
use sysal.RawStore.{RawRecord, RawStore, get_all, has_source, has_success}
use sysal.Execution.{ExecutionContext, empty_context}
use sysal.Execution.Status.{Warned, parse_proc_self_status}
use sysal.Execution.Groups.{parse_proc_self_cgroup}
use sysal.Execution.Environ.{parse_environment, detect_container}
use sysal.Cgroup.{CpuBudget, parse_cgroup_limits}

-- the payload of the first record of a source that succeeded: where each loop breaks
unfoldable pub first_payload : RawStore → RawSource → Option Bytes
first_payload raw source = elim (first (λ r. is_success r.status) (get_all raw source)) [
  | none ↦ none
  | some r ↦ some r.payload
]

unfoldable pub has_data : RawStore → Bool
has_data raw =
    is_some (first_payload raw RawSource.proc_self_status)
    || is_some (first_payload raw RawSource.proc_self_cgroup)
    || is_some (first_payload raw RawSource.environment)
    || not (is_nil (get_all raw RawSource.cgroup_file))

module _ (less : CpuBudget → CpuBudget → Bool) where
  unfoldable pub parse_execution : RawStore → List Bytes → Option ExecutionContext × List Bytes
  parse_execution raw warnings =
      let from_status : Warned = elim (first_payload raw RawSource.proc_self_status) [
        | none ↦ (empty_context, warnings)
        | some payload ↦ parse_proc_self_status payload (empty_context, warnings)
      ] in
      let from_cgroup : ExecutionContext = elim (first_payload raw RawSource.proc_self_cgroup) [
        | none ↦ from_status.0
        | some payload ↦ parse_proc_self_cgroup payload from_status.0
      ] in
      let from_environment : ExecutionContext = elim (first_payload raw RawSource.environment) [
        | none ↦ from_cgroup
        | some payload ↦ parse_environment payload from_cgroup
      ] in
      let (limited, noted) = parse_cgroup_limits less raw (from_environment, from_status.1) in
      (
        if has_data raw
            then some (record limited { container = detect_container raw limited })
            else none,
        noted,
      )

first-keep :
    (p q : RawRecord → Bool) (rs : List RawRecord)
    → is_some (first p (keep q rs)) ≡ any (λ r. q r && p r) rs
first-keep p q [] = refl
first-keep p q (r ∷ rs) = ground (arith, first-keep p q rs)

first_payload-has_success :
    (raw : RawStore) (source : RawSource)
    → is_some (first_payload raw source) ≡ has_success raw source
unfolding first_payload has_success get_all
first_payload-has_success raw source =
    let found = first (λ r. is_success r.status) (get_all raw source) in
    let e = first-keep (λ r. is_success r.status) (λ r. source_eq r.source source) raw.records in
    elim (Option-cases found) [
      | inl n ↦ rw (n, first_payload) (rw n at e)
      | inr (r, n) ↦ rw (n, first_payload) (rw n at e)
    ]

keep-any : (q : RawRecord → Bool) (rs : List RawRecord) → not (is_nil (keep q rs)) ≡ any q rs
keep-any q [] = refl
keep-any q (r ∷ rs) = ground (arith, keep-any q rs)

-- An execution context is returned exactly when the store has a successful record of the status,
-- the control groups or the environment of the process, or a record, of any status, of a control
-- group file.
pub parse_execution-is_some :
    (less : CpuBudget → CpuBudget → Bool) (raw : RawStore) (warnings : List Bytes)
    → is_some (parse_execution less raw warnings).0 ≡ (
        has_success raw RawSource.proc_self_status
        || has_success raw RawSource.proc_self_cgroup
        || has_success raw RawSource.environment
        || has_source raw RawSource.cgroup_file)
unfolding parse_execution has_data get_all has_source
parse_execution-is_some less raw warnings = ground (
  arith,
  first_payload-has_success raw RawSource.proc_self_status,
  first_payload-has_success raw RawSource.proc_self_cgroup,
  first_payload-has_success raw RawSource.environment,
  keep-any (λ r. source_eq r.source RawSource.cgroup_file) raw.records,
)
