-- ===== src/Cpu/Partition.antt =====
-- The three lists of a feature report of src/model/cpu_features.cpp.
use sysal.Prelude.{
  ◌==◌, if◌then◌else◌, ==_iff, Bool-cases, All, Bytes, ℕ, ◌+◌, ◌<◌, ◌≡◌, refl, inl, inr, false,
  ◌||◌, List, [], ◌∷◌, map, arith,
}
use sysal.Prelude.Sets.{
  set_insert, contains, IsAscending, contains-set_insert, IsAscending-set_insert,
}
use sysal.Cpu.{LogicalCpu}
use sysal.Cpu.Features.{
  normalize_cpu_feature, CpuFeatureState, feature_unknown, reported, not_reported, FeatureEvidence,
  FeatureIndex, add_cpu, evidence_of, feature_index, CpuFeatureReport, judge, file_cpu, report_loop,
  feature_report, feature,
}

-- how often a number stands in a list
unfoldable pub occurrences : ℕ → List ℕ → ℕ
occurrences n [] = 0
occurrences n (x ∷ xs) = let rest = occurrences n xs in if x == n then rest + 1 else rest

abbrev pub keys : FeatureIndex → List ℕ
keys = map (λ p. p.0)

abbrev pub ids : List LogicalCpu → List ℕ
ids = map (λ c. c.id)

add_cpu-keys :
    (id : ℕ) (e : FeatureEvidence) (index : FeatureIndex)
    → keys (add_cpu id e index) ≡ set_insert id (keys index)
unfolding add_cpu set_insert
add_cpu-keys id e [] = refl
add_cpu-keys id e ((key, value) ∷ index) = ground (arith, add_cpu-keys id e index)

pub feature_index-keys :
    (cpus : List LogicalCpu) (index : FeatureIndex)
    → IsAscending (keys index)
    → IsAscending (keys (feature_index cpus index))
unfolding feature_index
feature_index-keys [] index h = h
feature_index-keys (cpu ∷ cpus) index h =
    let next = add_cpu cpu.id (evidence_of cpu) index in
    let k : IsAscending (keys next) =
      rw (add_cpu-keys cpu.id (evidence_of cpu) index)
        (IsAscending-set_insert cpu.id (keys index) h) in
    feature_index-keys cpus next k

pub feature_index-contains :
    (n : ℕ) (cpus : List LogicalCpu) (index : FeatureIndex)
    → contains n (keys (feature_index cpus index))
      ≡ (contains n (ids cpus) || contains n (keys index))
unfolding feature_index
feature_index-contains n [] index = refl
feature_index-contains n (cpu ∷ cpus) index = ground (
  arith,
  feature_index-contains n cpus (add_cpu cpu.id (evidence_of cpu) index),
  add_cpu-keys cpu.id (evidence_of cpu) index,
  contains-set_insert n cpu.id (keys index),
)

occurrences_above : (n : ℕ) (xs : List ℕ) → All (λ y. n < y) xs → occurrences n xs ≡ 0
unfolding occurrences
occurrences_above n [] h = refl
occurrences_above n (x ∷ xs) (hx, h) = ground (arith, occurrences_above n xs h)

pub contains_above : (n : ℕ) (xs : List ℕ) → All (λ y. n < y) xs → contains n xs ≡ false
contains_above n [] h = refl
contains_above n (x ∷ xs) (hx, h) = ground (arith, contains_above n xs h)

occurrences_once :
    (n : ℕ) (xs : List ℕ) → IsAscending xs → occurrences n xs ≡ (if contains n xs then 1 else 0)
unfolding occurrences
occurrences_once n [] h = refl
occurrences_once n (x ∷ xs) (above, h) = elim (Bool-cases (x == n)) [
  | inl e ↦
      let same : All (λ y. n < y) xs = rw ((==_iff x n).0 e) at above in
      ground (arith, occurrences_above n xs same)
  | inr e ↦ ground (arith, occurrences_once n xs h)
]

-- how often a CPU is listed in a report
abbrev pub listed : ℕ → CpuFeatureReport → ℕ
listed n r =
    occurrences n r.reported_cpu_ids
    + occurrences n r.not_reported_cpu_ids
    + occurrences n r.unknown_cpu_ids

file_cpu-listed :
    (n id : ℕ) (s : CpuFeatureState) (r : CpuFeatureReport)
    → listed n (file_cpu s id r) ≡ occurrences n (id ∷ []) + listed n r
unfolding file_cpu occurrences
file_cpu-listed n id reported r = ground arith
file_cpu-listed n id not_reported r = ground arith
file_cpu-listed n id feature_unknown r = ground arith

report_loop-listed :
    (n : ℕ) (name : Bytes) (index : FeatureIndex)
    → listed n (report_loop name index) ≡ occurrences n (keys index)
unfolding report_loop occurrences
report_loop-listed n name [] = refl
report_loop-listed n name ((id, e) ∷ index) = ground (
  arith,
  report_loop-listed n name index,
  file_cpu-listed n id (judge name e) (report_loop name index),
)

-- In the report on any feature each CPU of the model stands once: in just one of the lists of the
-- CPUs that report it, that do not, and of which it is unknown. No other CPU is listed.
pub feature_partition :
    (cpus : List LogicalCpu) (name : Bytes) (n : ℕ)
    → listed n (feature cpus name) ≡ (if contains n (ids cpus) then 1 else 0)
unfolding feature feature_report
feature_partition cpus name n = ground (
  arith,
  report_loop-listed n (normalize_cpu_feature name) (feature_index cpus []),
  occurrences_once n (keys (feature_index cpus [])) (feature_index-keys cpus [] tt),
  feature_index-contains n cpus [],
)
