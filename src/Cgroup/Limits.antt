-- ===== src/Cgroup/Limits.antt =====
-- What `parse_cgroup_limits` of src/parser/cgroup.cpp stores, in terms of the limit files.
use sysal.Prelude.{
  ltb, if◌then◌else◌, is_nil, All, Bytes, codes, text_eq, text_eq_iff, ℕ, ◌≡◌, refl, ap, ◌∙◌, Bool,
  true, false, not, ◌&&◌, ◌||◌, Option, none, some, List, [], ◌∷◌, arith,
}
use sysal.Text.{extract_filename}
use sysal.Types.{cgroup_file}
use sysal.RawStore.{RawRecord, RawStore, get_all}
use sysal.Execution.{Cgroup, ExecutionContext}
use sysal.Cgroup.Summary.{
  LimitSummary, empty_summary, known_state, Reading, take_reading, take_readings, limits,
  has_unreadable, IsStrictOrder, IsBest, take_readings-IsBest,
}
use sysal.Cgroup.Readings.{
  memory_of, cpu_of, keep_some, IsLongDouble, HasPeriod, budget_lt-IsStrictOrder,
  cpu_readings-HasPeriod,
}
use sysal.Cgroup.{
  CpuBudget, budget_lt, Found, is_not_collected, store_limits, nothing_found, add_cpu, add_memory,
  read_limit_file, read_limit_files, parse_cgroup_limits,
}

-- the four names are different
names_differ :
    (name : Bytes)
    → (text_eq name (codes "memory.max") || text_eq name (codes "memory.limit_in_bytes")) ≡ true
    → (text_eq name (codes "cpu.max") ≡ false) × (text_eq name (codes "cpu.cfs_quota_us") ≡ false)
names_differ name h = ground (
  arith,
  text_eq_iff name (codes "memory.max"),
  text_eq_iff name (codes "memory.limit_in_bytes"),
  text_eq_iff name (codes "cpu.max"),
  text_eq_iff name (codes "cpu.cfs_quota_us"),
)

take_cons :
    {V : Type 0} (less : V → V → Bool) (l m : LimitSummary V) (o : Option (Reading V))
    (rs : List (Reading V))
    → m ≡ elim o [ none ↦ l | some x ↦ take_reading less l x ]
    → take_readings less m rs ≡ take_readings less l (elim o [ none ↦ rs | some x ↦ x ∷ rs ])
unfolding take_readings
take_cons less l m none rs h = ap (λ k. take_readings less k rs) h
take_cons less l m (some x) rs h = ap (λ k. take_readings less k rs) h

module _ (less : CpuBudget → CpuBudget → Bool) where
  -- one round adds what the record says, and leaves the limits of the group alone
  record Adds (records : List RawRecord) (r : RawRecord) (s t : Found × ExecutionContext)
      : Type 0 where
    memory_adds :
        t.0.memory
        ≡ elim (memory_of r) [ none ↦ s.0.memory | some x ↦ take_reading ltb s.0.memory x ]
    cpu_adds :
        t.0.cpu ≡ elim (cpu_of records r) [ none ↦ s.0.cpu | some x ↦ take_reading less s.0.cpu x ]
    limit_same : t.1.cgroup.memory_limit ≡ s.1.cgroup.memory_limit
    quota_same : t.1.cgroup.cpu_quota_us ≡ s.1.cgroup.cpu_quota_us

  read_limit_file-Adds :
      (records : List RawRecord) (r : RawRecord) (s : Found × ExecutionContext)
      → Adds records r s (if is_not_collected r.status then s else read_limit_file less records r s)
  unfolding read_limit_file memory_of cpu_of add_cpu add_memory
  read_limit_file-Adds records r s = record {
    memory_adds = ground (arith, names_differ (extract_filename r.path_or_command));
    cpu_adds = ground arith;
    limit_same = ground arith;
    quota_same = ground arith;
  }

  -- the readings of the loop, in the order of the records
  read_limit_files-readings :
      (records rs : List RawRecord) (s : Found × ExecutionContext)
      → ((read_limit_files less records rs s).0.memory
          ≡ take_readings ltb s.0.memory (keep_some memory_of rs))
        × ((read_limit_files less records rs s).0.cpu
            ≡ take_readings less s.0.cpu (keep_some (cpu_of records) rs))
        × ((read_limit_files less records rs s).1.cgroup.memory_limit ≡ s.1.cgroup.memory_limit)
        × ((read_limit_files less records rs s).1.cgroup.cpu_quota_us ≡ s.1.cgroup.cpu_quota_us)
  unfolding read_limit_files take_readings
  read_limit_files-readings records [] s = (refl, refl, refl, refl)
  read_limit_files-readings records (r ∷ rs) s =
      let next = if is_not_collected r.status then s else read_limit_file less records r s in
      let adds = read_limit_file-Adds records r s in
      let (m, c, l, q) = read_limit_files-readings records rs next in
      (
        m
            ∙ take_cons ltb s.0.memory next.0.memory (memory_of r) (keep_some memory_of rs)
                adds.memory_adds,
        c
            ∙ take_cons less s.0.cpu next.0.cpu (cpu_of records r) (keep_some (cpu_of records) rs)
                adds.cpu_adds,
        l ∙ adds.limit_same,
        q ∙ adds.quota_same,
      )

abbrev Anything : ℕ → Type 0
Anything n = Unit

ltb-IsStrictOrder : IsStrictOrder Anything ltb
ltb-IsStrictOrder = record {
  irreflexive = λ a _. ground arith;
  transitive = λ a b c _ _ _ h k. ground arith;
  asymmetric = λ a b _ _ h. ground arith;
}

All-Anything : (vs : List ℕ) → All Anything vs
All-Anything [] = tt
All-Anything (v ∷ vs) = (tt, All-Anything vs)

abbrev pub memory_readings : RawStore → List (Reading ℕ)
memory_readings raw = keep_some memory_of (get_all raw cgroup_file)

abbrev pub group_of :
    (CpuBudget → CpuBudget → Bool) → RawStore → ExecutionContext → List Bytes → Cgroup
group_of less raw ctx warnings = (parse_cgroup_limits less raw (ctx, warnings)).0.cgroup

memory_stored :
    (less : CpuBudget → CpuBudget → Bool) (raw : RawStore) (ctx : ExecutionContext)
    (warnings : List Bytes)
    → ctx.cgroup.memory_limit ≡ none
    → ((group_of less raw ctx warnings).memory_limit
        ≡ (take_readings ltb empty_summary (keep_some memory_of (get_all raw cgroup_file))).best)
      × ((group_of less raw ctx warnings).memory_limit_known
          ≡ known_state
              (take_readings ltb empty_summary
                (keep_some memory_of (get_all raw cgroup_file))).state)
unfolding parse_cgroup_limits store_limits
memory_stored less raw ctx warnings fresh =
    let records = get_all raw cgroup_file in
    let (m, c, l, q) = read_limit_files-readings less records records (nothing_found, ctx) in
    (ground arith, ground arith)

abbrev pub BudgetAt : Option CpuBudget → Cgroup → Type 0
BudgetAt none group = group.cpu_quota_us ≡ none
BudgetAt (some b) group =
    (group.cpu_quota_us ≡ some b.quota) × (group.cpu_period_us ≡ some b.period)

store_limits-BudgetAt :
    (found : Found) (group : Cgroup) (o : Option CpuBudget)
    → found.cpu.best ≡ o
    → group.cpu_quota_us ≡ none
    → BudgetAt o (store_limits found group)
unfolding store_limits
store_limits-BudgetAt found group none e h = ground arith
store_limits-BudgetAt found group (some b) e h = (ground arith, ground arith)

cpu_stored :
    (less : CpuBudget → CpuBudget → Bool) (raw : RawStore) (ctx : ExecutionContext)
    (warnings : List Bytes)
    → ctx.cgroup.cpu_quota_us ≡ none
    → (o : Option CpuBudget) × (o
        ≡ (take_readings less empty_summary
            (keep_some (cpu_of (get_all raw cgroup_file)) (get_all raw cgroup_file))).best)
      × BudgetAt o (group_of less raw ctx warnings)
      × ((group_of less raw ctx warnings).cpu_limit_known
          ≡ known_state
              (take_readings less empty_summary
                (keep_some (cpu_of (get_all raw cgroup_file)) (get_all raw cgroup_file))).state)
unfolding parse_cgroup_limits
cpu_stored less raw ctx warnings fresh =
    let records = get_all raw cgroup_file in
    let found = (read_limit_files less records records (nothing_found, ctx)).0 in
    let (m, c, l, q) = read_limit_files-readings less records records (nothing_found, ctx) in
    let group = (read_limit_files less records records (nothing_found, ctx)).1.cgroup in
    (
      found.cpu.best,
      ground arith,
      store_limits-BudgetAt found group found.cpu.best refl (q ∙ fresh),
      unfold store_limits in ground arith,
    )

-- The memory limit of a fresh context: it is known exactly if there was a limit file and each one
-- could be read; the limit stored is the least of those read, and none is stored only if none was
-- read.
pub parse_cgroup_limits_memory :
    (less : CpuBudget → CpuBudget → Bool) (raw : RawStore) (ctx : ExecutionContext)
    (warnings : List Bytes)
    → ctx.cgroup.memory_limit ≡ none
    → ((group_of less raw ctx warnings).memory_limit_known
        ≡ (not (has_unreadable (memory_readings raw)) && not (is_nil (memory_readings raw))))
      × IsBest ltb (group_of less raw ctx warnings).memory_limit (limits (memory_readings raw))
parse_cgroup_limits_memory less raw ctx warnings fresh =
    let readings = memory_readings raw in
    let (stored, state) = memory_stored less raw ctx warnings fresh in
    let (known, partly, best) =
      take_readings-IsBest Anything ltb ltb-IsStrictOrder readings
        (All-Anything (limits readings)) in
    (state ∙ known, rw stored best)

abbrev pub cpu_readings : RawStore → List (Reading CpuBudget)
cpu_readings raw = keep_some (cpu_of (get_all raw cgroup_file)) (get_all raw cgroup_file)

-- The CPU limit of a fresh context: it is known exactly if there was a quota file and each one could
-- be read; and the quota and the period stored are those of a budget that was read, such that no
-- budget that was read has a lesser quotient of quota and period in `long double`, or there is no
-- quota and none was read.
pub parse_cgroup_limits_cpu :
    {Q : Type 0} (is_nan : Q → Bool) (divide : ℕ → ℕ → Q) (below : Q → Q → Bool)
    → IsLongDouble is_nan divide below
    → (raw : RawStore) (ctx : ExecutionContext) (warnings : List Bytes)
    → ctx.cgroup.cpu_quota_us ≡ none
    → ((group_of (budget_lt divide below) raw ctx warnings).cpu_limit_known
        ≡ (not (has_unreadable (cpu_readings raw)) && not (is_nil (cpu_readings raw))))
      × ((o : Option CpuBudget) × BudgetAt o (group_of (budget_lt divide below) raw ctx warnings)
          × IsBest
              (λ a b. below (divide a.quota a.period) (divide b.quota b.period))
              o
              (limits (cpu_readings raw)))
unfolding budget_lt
parse_cgroup_limits_cpu is_nan divide below ld raw ctx warnings fresh =
    let less = budget_lt divide below in
    let (o, stored, at, state) = cpu_stored less raw ctx warnings fresh in
    let (known, partly, best) =
      take_readings-IsBest HasPeriod less (budget_lt-IsStrictOrder is_nan divide below ld)
        (cpu_readings raw)
        (cpu_readings-HasPeriod (get_all raw cgroup_file) (get_all raw cgroup_file)) in
    (state ∙ known, (o, at, rw stored best))
