-- ===== src/Cgroup.antt =====
-- src/parser/cgroup.cpp: the limits of the control group hierarchy. The loop takes the comparison of
-- CPU budgets as `less`, which `budget_lt` is for a division and a comparison in `long double`.
pub mod Summary
pub mod Readings
pub mod Limits
use sysal.Prelude.{
  ltb, leb, ◌==◌, if◌then◌else◌, take, first, is_nil, is_some, Bytes, codes, text_eq, ℕ, zero, suc,
  ◌-◌, ◌^◌, Bool, true, false, ◌&&◌, ◌||◌, Option, none, some, List, [], ◌∷◌, ◌++◌,
}
use sysal.Text.{trim, rfind, ends_with, extract_filename}
use sysal.Text.Words.{words}
use sysal.Number.{parse_uint}
use sysal.Types.{cgroup_file, CollectStatus, is_success}
use sysal.RawStore.{RawRecord, RawStore, get_all}
use sysal.Execution.{Cgroup, ExecutionContext}
use sysal.Cgroup.Summary.{
  LimitSummary, empty_summary, known_state, incomplete_state, Reading, limit, no_limit, unreadable,
  take_reading,
}

pub record CpuBudget : Type 0 where
  pub quota : ℕ
  pub period : ℕ

-- `operator<`: `divide` is the division of two numbers in `long double`, `below` its `<`
unfoldable pub budget_lt :
    {Q : Type 0} → (ℕ → ℕ → Q) → (Q → Q → Bool) → CpuBudget → CpuBudget → Bool
budget_lt divide below a b = below (divide a.quota a.period) (divide b.quota b.period)

-- the locals of `parse_cgroup_limits` that its loop changes
pub record Found : Type 0 where
  pub cpu : LimitSummary CpuBudget
  pub memory : LimitSummary ℕ
  pub unlimited_period : Option ℕ

-- what `read_cpu_limit` hands to the summary
unfoldable pub cpu_reading : Bytes → Bytes → Reading CpuBudget
cpu_reading quota_text period_text =
    let unlimited = text_eq quota_text (codes "max") || text_eq quota_text (codes "-1") in
    elim (parse_uint period_text) [
      | none ↦ unreadable
      | some period ↦
          if period == 0
          then unreadable
          else if unlimited
          then no_limit
          else elim (parse_uint quota_text) [
            | none ↦ unreadable
            | some quota ↦
                if quota == 0 then unreadable else limit (record { quota = quota; period = period })
          ]
    ]

-- the first period that is read next to an unlimited quota is kept
unfoldable pub note_period : Option ℕ → Reading CpuBudget → Bytes → Option ℕ
note_period (some p) r period_text = some p
note_period none no_limit period_text = parse_uint period_text
note_period none r period_text = none

-- `numeric_limits<int64_t>::max() - 65535`: version 1 writes a number of this size for no limit
abbrev unlimited_bytes : ℕ
unlimited_bytes = 2 ^ 63 - 1 - 65535

unfoldable pub memory_reading : Bytes → Bytes → Reading ℕ
memory_reading name value = elim (parse_uint value) [
  | none ↦ if text_eq value (codes "max") then no_limit else unreadable
  | some bytes ↦
      if text_eq value (codes "max")
        || (text_eq name (codes "memory.limit_in_bytes") && leb unlimited_bytes bytes)
      then no_limit
      else limit bytes
]

-- `std::filesystem::path::parent_path`, for a path with single separators
unfoldable pub parent_path : Bytes → Bytes
parent_path path = elim (rfind path b'/') [
  | none ↦ []
  | some zero ↦ b'/' ∷ []
  | some (suc i) ↦ take (suc i) path
]

-- `operator/` with a relative name
unfoldable pub append_path : Bytes → Bytes → Bytes
append_path [] name = name
append_path (c ∷ dir) name =
    if ends_with (c ∷ dir) (b'/' ∷ []) then (c ∷ dir) ++ name else (c ∷ dir) ++ b'/' ∷ name

-- `values`: the trimmed payload of the first successful record with the path
unfoldable pub value_at : List RawRecord → Bytes → Option Bytes
value_at records path =
    elim (first (λ r. is_success r.status && text_eq r.path_or_command path) records) [
      | none ↦ none
      | some r ↦ some (trim r.payload)
    ]

unfoldable pub just_two : List Bytes → Option (Bytes × Bytes)
just_two (quota ∷ period ∷ []) = some (quota, period)
just_two _ = none

-- `input >> quota >> period`, and then no more
unfoldable pub two_words : Bytes → Option (Bytes × Bytes)
two_words value = just_two (words value)

unfoldable pub is_not_collected : CollectStatus → Bool
is_not_collected CollectStatus.not_collected = true
is_not_collected _ = false

abbrev cpu_incomplete_warning : Bytes
cpu_incomplete_warning =
    codes "[cgroup] CPU limit hierarchy incomplete; observed quota is only an upper bound"

abbrev memory_incomplete_warning : Bytes
memory_incomplete_warning =
    codes "[cgroup] memory limit hierarchy incomplete; observed limit is only an upper bound"

-- what stands behind the loop
unfoldable pub store_limits : Found → Cgroup → Cgroup
store_limits found group =
    let noted = record group {
      cpu_limit_known = known_state found.cpu.state;
      memory_limit_known = known_state found.memory.state;
    } in
    let with_cpu : Cgroup = elim found.cpu.best [
      | some b ↦ record noted { cpu_quota_us = some b.quota; cpu_period_us = some b.period }
      | none ↦ record noted { cpu_period_us = found.unlimited_period }
    ] in
    elim found.memory.best [ some m ↦ record with_cpu { memory_limit = some m } | none ↦ with_cpu ]

unfoldable pub limit_warnings : Found → List Bytes
limit_warnings found =
    (if incomplete_state found.cpu.state then cpu_incomplete_warning ∷ [] else [])
    ++ (if incomplete_state found.memory.state then memory_incomplete_warning ∷ [] else [])

abbrev pub nothing_found : Found
nothing_found = record { cpu = empty_summary; memory = empty_summary; unlimited_period = none }

module _ (less : CpuBudget → CpuBudget → Bool) where
  unfoldable pub add_cpu : Found → Reading CpuBudget → Bytes → Found
  add_cpu found r period_text = record found {
    cpu = take_reading less found.cpu r;
    unlimited_period = note_period found.unlimited_period r period_text;
  }

  unfoldable pub add_memory : Found → Reading ℕ → Found
  add_memory found r = record found { memory = take_reading ltb found.memory r }

  -- one round of the loop
  unfoldable pub read_limit_file :
      List RawRecord → RawRecord → Found × ExecutionContext → Found × ExecutionContext
  read_limit_file records r (found, ctx) =
      let name = extract_filename r.path_or_command in
      let value = trim r.payload in
      let readable = is_success r.status in
      if text_eq name (codes "cpu.max")
      then (
        if readable
            then elim (two_words value) [
              | none ↦ add_cpu found unreadable []
              | some (quota, period) ↦ add_cpu found (cpu_reading quota period) period
            ]
            else add_cpu found unreadable [],
        ctx,
      )
      else if text_eq name (codes "cpu.cfs_quota_us")
      then (
        if readable
            then elim (value_at records
                (append_path (parent_path r.path_or_command) (codes "cpu.cfs_period_us"))) [
                  | none ↦ add_cpu found unreadable []
                  | some period ↦ add_cpu found (cpu_reading value period) period
                ]
            else add_cpu found unreadable [],
        ctx,
      )
      else if text_eq name (codes "memory.max") || text_eq name (codes "memory.limit_in_bytes")
      then (add_memory found (if readable then memory_reading name value else unreadable), ctx)
      else if readable
          && (text_eq name (codes "memory.current") || text_eq name (codes "memory.usage_in_bytes"))
      then (
        found,
        elim (parse_uint value) [
          | none ↦ ctx
          | some current ↦
              if is_some ctx.cgroup.memory_current
              then ctx
              else record ctx { cgroup = record (ctx.cgroup) { memory_current = some current } }
        ],
      )
      else if readable
          && text_eq name (codes "cpuset.cpus.effective")
          && is_nil ctx.cpuset.cpus_effective
      then (found, record ctx { cpuset = record (ctx.cpuset) { cpus_effective = value } })
      else if readable
          && text_eq name (codes "cpuset.mems.effective")
          && is_nil ctx.cpuset.mems_effective
      then (found, record ctx { cpuset = record (ctx.cpuset) { mems_effective = value } })
      else (found, ctx)

  -- the loop, over the records that are left
  unfoldable pub read_limit_files :
      List RawRecord → List RawRecord → Found × ExecutionContext → Found × ExecutionContext
  read_limit_files records [] s = s
  read_limit_files records (r ∷ rs) s =
      read_limit_files records rs
        (if is_not_collected r.status then s else read_limit_file records r s)

  unfoldable pub parse_cgroup_limits :
      RawStore → ExecutionContext × List Bytes → ExecutionContext × List Bytes
  parse_cgroup_limits raw (ctx, warnings) =
      let records = get_all raw cgroup_file in
      let (found, ctx') = read_limit_files records records (nothing_found, ctx) in
      (record ctx' { cgroup = store_limits found ctx'.cgroup }, warnings ++ limit_warnings found)
