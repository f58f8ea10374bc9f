-- ===== src/Cgroup/Readings.antt =====
-- What the limit files of src/parser/cgroup.cpp say, and the order of the CPU budgets among them.
use sysal.Prelude.{
  ltb, if◌then◌else◌, Option-cases, All, Bytes, codes, text_eq, ℕ, ◌<◌, ◌≡◌, inl, inr, Bool, true,
  false, ◌||◌, Option, none, some, List, [], ◌∷◌, arith,
}
use sysal.Text.{trim, extract_filename}
use sysal.Types.{is_success}
use sysal.RawStore.{RawRecord}
use sysal.Cgroup.Summary.{Reading, limit, no_limit, unreadable, limits, IsStrictOrder}
use sysal.Cgroup.{
  CpuBudget, budget_lt, cpu_reading, memory_reading, parent_path, append_path, value_at, two_words,
  is_not_collected,
}

-- what a record says of the memory limit; `none` if it is no limit file, or was not collected
unfoldable pub memory_of : RawRecord → Option (Reading ℕ)
memory_of r =
    let name = extract_filename r.path_or_command in
    if is_not_collected r.status
    then none
    else if text_eq name (codes "memory.max") || text_eq name (codes "memory.limit_in_bytes")
    then some (if is_success r.status then memory_reading name (trim r.payload) else unreadable)
    else none

-- what a record says of the CPU limit
unfoldable pub cpu_of : List RawRecord → RawRecord → Option (Reading CpuBudget)
cpu_of records r =
    let name = extract_filename r.path_or_command in
    let sibling = append_path (parent_path r.path_or_command) (codes "cpu.cfs_period_us") in
    if is_not_collected r.status
    then none
    else if text_eq name (codes "cpu.max")
    then some (
        if is_success r.status
        then elim (two_words (trim r.payload)) [
          | none ↦ unreadable
          | some (quota, period) ↦ cpu_reading quota period
        ]
        else unreadable)
    else if text_eq name (codes "cpu.cfs_quota_us")
    then some (
        if is_success r.status
        then elim (value_at records sibling) [
          | none ↦ unreadable
          | some period ↦ cpu_reading (trim r.payload) period
        ]
        else unreadable)
    else none

abbrev pub keep_some {ℓ} : {A B : Type ℓ} → (A → Option B) → List A → List B
keep_some f [] = []
keep_some f (x ∷ xs) = elim (f x) [ none ↦ keep_some f xs | some y ↦ y ∷ keep_some f xs ]

-- `long double` as the standard has it: a quotient by a number that is not 0 is not NaN, and `<` is a
-- strict weak order on what is not NaN
pub record IsLongDouble {Q : Type 0} (is_nan : Q → Bool) (divide : ℕ → ℕ → Q) (below : Q → Q → Bool)
    : Type 0 where
  pub quotient : (n d : ℕ) → 0 < d → is_nan (divide n d) ≡ false
  pub irreflexive : (q : Q) → is_nan q ≡ false → below q q ≡ false
  pub transitive :
      (q r s : Q)
      → is_nan q ≡ false
      → is_nan r ≡ false
      → is_nan s ≡ false
      → below q r ≡ false
      → below r s ≡ false
      → below q s ≡ false
  pub asymmetric :
      (q r : Q) → is_nan q ≡ false → is_nan r ≡ false → below q r ≡ true → below r q ≡ false

abbrev pub HasPeriod : CpuBudget → Type 0
HasPeriod b = 0 < b.period

pub budget_lt-IsStrictOrder :
    {Q : Type 0} (is_nan : Q → Bool) (divide : ℕ → ℕ → Q) (below : Q → Q → Bool)
    → IsLongDouble is_nan divide below
    → IsStrictOrder HasPeriod (budget_lt divide below)
unfolding budget_lt
budget_lt-IsStrictOrder is_nan divide below ld = record {
  irreflexive = λ a g. ld.irreflexive _ (ld.quotient a.quota a.period g);
  transitive = λ a b c ga gb gc h k.
      ld.transitive _ _ _ (ld.quotient a.quota a.period ga) (ld.quotient b.quota b.period gb)
        (ld.quotient c.quota c.period gc) h k;
  asymmetric = λ a b ga gb h.
      ld.asymmetric _ _ (ld.quotient a.quota a.period ga) (ld.quotient b.quota b.period gb) h;
}

-- the limit of a reading, if it has one, has a period
unfoldable reads_period : Reading CpuBudget → Bool
reads_period (limit b) = ltb 0 b.period
reads_period no_limit = true
reads_period unreadable = true

cpu_reading-reads_period : (quota period : Bytes) → reads_period (cpu_reading quota period) ≡ true
unfolding cpu_reading reads_period
cpu_reading-reads_period quota period = ground arith

cpu_of-reads_period :
    (records : List RawRecord) (r : RawRecord)
    → elim (cpu_of records r) [ none ↦ true | some x ↦ reads_period x ] ≡ true
unfolding cpu_of
cpu_of-reads_period records r =
    let sibling = append_path (parent_path r.path_or_command) (codes "cpu.cfs_period_us") in
    elim (Option-cases (two_words (trim r.payload))) [
      | inl e ↦ elim (Option-cases (value_at records sibling)) [
        | inl f ↦ unfold reads_period in ground arith
        | inr (period, f) ↦
            unfold reads_period in ground (arith, cpu_reading-reads_period (trim r.payload) period)
      ]
      | inr ((q, p), e) ↦ elim (Option-cases (value_at records sibling)) [
        | inl f ↦ unfold reads_period in ground (arith, cpu_reading-reads_period q p)
        | inr (period, f) ↦
            unfold reads_period in
            ground (
              arith,
              cpu_reading-reads_period q p,
              cpu_reading-reads_period (trim r.payload) period,
            )
      ]
    ]

limits-HasPeriod :
    (o : Option (Reading CpuBudget)) (xs : List (Reading CpuBudget))
    → elim o [ none ↦ true | some x ↦ reads_period x ] ≡ true
    → All HasPeriod (limits xs)
    → All HasPeriod (limits (elim o [ none ↦ xs | some x ↦ x ∷ xs ]))
unfolding limits reads_period
limits-HasPeriod none xs h hs = hs
limits-HasPeriod (some (limit b)) xs h hs = (ground arith, hs)
limits-HasPeriod (some no_limit) xs h hs = hs
limits-HasPeriod (some unreadable) xs h hs = hs

pub cpu_readings-HasPeriod :
    (records rs : List RawRecord) → All HasPeriod (limits (keep_some (cpu_of records) rs))
cpu_readings-HasPeriod records [] = unfold limits in tt
cpu_readings-HasPeriod records (r ∷ rs) =
    limits-HasPeriod (cpu_of records r) (keep_some (cpu_of records) rs)
      (cpu_of-reads_period records r) (cpu_readings-HasPeriod records rs)
