-- ===== src/Cpu/Features.antt =====
-- Which CPUs report a feature: src/model/cpu_features.cpp. A `std::map` is a list that ascends in
-- its keys, a `std::set` of texts one that ascends.
use sysal.Prelude.{
  ltb, ◌==◌, if◌then◌else◌, length, any, keep, is_nil, Bytes, codes, text_eq, text_mem, ℕ, Bool,
  true, false, not, ◌&&◌, Option, none, some, List, [], ◌∷◌, map,
}
use sysal.Prelude.Maps.{insert_text}
use sysal.Cpu.{CpuIdentification, LogicalCpu}

abbrev aliases : List (Bytes × Bytes)
aliases =
    (codes "pni", codes "sse3")
    ∷ (codes "sha_ni", codes "sha")
    ∷ (codes "cx16", codes "cmpxchg16b")
    ∷ (codes "lahf_lm", codes "lahf_sahf")
    ∷ (codes "avx512_vnni", codes "avx512vnni")
    ∷ []

abbrev known_features : List Bytes
known_features =
    codes "sse"
    ∷ codes "sse2"
    ∷ codes "sse3"
    ∷ codes "ssse3"
    ∷ codes "sse4_1"
    ∷ codes "sse4_2"
    ∷ codes "avx"
    ∷ codes "avx2"
    ∷ codes "avx512f"
    ∷ codes "avx512cd"
    ∷ codes "avx512bw"
    ∷ codes "avx512dq"
    ∷ codes "avx512vl"
    ∷ codes "aes"
    ∷ codes "fma"
    ∷ codes "f16c"
    ∷ codes "pclmulqdq"
    ∷ codes "avx512vnni"
    ∷ codes "sha"
    ∷ codes "bmi1"
    ∷ codes "bmi2"
    ∷ codes "cmpxchg16b"
    ∷ codes "lahf_sahf"
    ∷ []

unfoldable pub find_alias : List (Bytes × Bytes) → Bytes → Bytes
find_alias [] name = name
find_alias ((alias, canonical) ∷ table) name =
    if text_eq name alias then canonical else find_alias table name

unfoldable pub normalize_cpu_feature : Bytes → Bytes
normalize_cpu_feature = find_alias aliases

pub data CpuFeatureState : Type 0 where
  feature_unknown reported not_reported : CpuFeatureState

-- `CpuIdentification::feature`
unfoldable pub feature_state : CpuIdentification → Bytes → CpuFeatureState
feature_state c name =
    let canonical = normalize_cpu_feature name in
    if is_nil canonical
    then feature_unknown
    else if any (λ f. text_eq (normalize_cpu_feature f) canonical) c.features
    then reported
    else if c.features_reported
    then not_reported
    else feature_unknown

unfoldable pub insert_texts : List Bytes → List Bytes → List Bytes
insert_texts [] set = set
insert_texts (s ∷ ss) set = insert_texts ss (insert_text s set)

pub record FeatureEvidence : Type 0 where
  pub is_complete : Bool
  pub duplicate : Bool
  pub features : List Bytes

abbrev pub FeatureIndex : Type 0
FeatureIndex = List (ℕ × FeatureEvidence)

-- the canonical names of the features that have a name
unfoldable pub canonical_names : List Bytes → List Bytes
canonical_names [] = []
canonical_names (f ∷ fs) =
    let rest = canonical_names fs in if is_nil f then rest else normalize_cpu_feature f ∷ rest

abbrev spoiled : FeatureEvidence
spoiled = record { is_complete = false; duplicate = true; features = [] }

-- one round of the loop: an id that is already there is spoiled
unfoldable pub add_cpu : ℕ → FeatureEvidence → FeatureIndex → FeatureIndex
add_cpu id evidence [] = (id, evidence) ∷ []
add_cpu id evidence ((key, value) ∷ index) =
    if ltb id key
    then (id, evidence) ∷ (key, value) ∷ index
    else if id == key
    then (key, spoiled) ∷ index
    else (key, value) ∷ add_cpu id evidence index

unfoldable pub evidence_of : LogicalCpu → FeatureEvidence
evidence_of cpu = record {
  is_complete = cpu.identification.features_reported;
  duplicate = false;
  features = insert_texts (canonical_names cpu.identification.features) [];
}

unfoldable pub feature_index : List LogicalCpu → FeatureIndex → FeatureIndex
feature_index [] index = index
feature_index (cpu ∷ cpus) index = feature_index cpus (add_cpu cpu.id (evidence_of cpu) index)

pub record CpuFeatureReport : Type 0 where
  pub name : Bytes
  pub reported_cpu_ids : List ℕ
  pub not_reported_cpu_ids : List ℕ
  pub unknown_cpu_ids : List ℕ

-- what a piece of evidence says of a canonical name
unfoldable pub judge : Bytes → FeatureEvidence → CpuFeatureState
judge name e =
    let usable = not (is_nil name) && not e.duplicate in
    if usable && text_mem name e.features
    then reported
    else if usable && e.is_complete
    then not_reported
    else feature_unknown

unfoldable pub file_cpu : CpuFeatureState → ℕ → CpuFeatureReport → CpuFeatureReport
file_cpu reported id r = record r { reported_cpu_ids = id ∷ r.reported_cpu_ids }
file_cpu not_reported id r = record r { not_reported_cpu_ids = id ∷ r.not_reported_cpu_ids }
file_cpu feature_unknown id r = record r { unknown_cpu_ids = id ∷ r.unknown_cpu_ids }

unfoldable pub report_loop : Bytes → FeatureIndex → CpuFeatureReport
report_loop name [] = record {
  name = name;
  reported_cpu_ids = [];
  not_reported_cpu_ids = [];
  unknown_cpu_ids = [];
}
report_loop name ((id, e) ∷ index) = file_cpu (judge name e) id (report_loop name index)

unfoldable pub feature_report : FeatureIndex → Bytes → CpuFeatureReport
feature_report index name = report_loop (normalize_cpu_feature name) index

-- `Cpu::feature`
unfoldable pub feature : List LogicalCpu → Bytes → CpuFeatureReport
feature cpus name = feature_report (feature_index cpus []) name

pub record CpuFeatureSummary : Type 0 where
  pub logical_cpu_ids : List ℕ
  pub complete_cpu_ids : List ℕ
  pub observed_union : List Bytes
  pub common : Option (List Bytes)
  pub reports : List CpuFeatureReport

unfoldable observe_all : FeatureIndex → List Bytes → List Bytes
observe_all [] observed = observed
observe_all ((id, e) ∷ index) observed = observe_all index (insert_texts e.features observed)

-- the names of the reports that every CPU of the index is in
unfoldable shared_names : ℕ → List CpuFeatureReport → List Bytes
shared_names cpus [] = []
shared_names cpus (r ∷ rs) =
    let rest = shared_names cpus rs in
    if length r.reported_cpu_ids == cpus then r.name ∷ rest else rest

-- `Cpu::feature_summary`
unfoldable feature_summary : List LogicalCpu → CpuFeatureSummary
feature_summary cpus =
    let index = feature_index cpus [] in
    let complete_ids = map (λ p. p.0) (keep (λ p. p.1.is_complete) index) in
    let observed = observe_all index [] in
    let reports = map (feature_report index) (insert_texts known_features observed) in
    record {
      logical_cpu_ids = map (λ p. p.0) index;
      complete_cpu_ids = complete_ids;
      observed_union = observed;
      common =
          if not (is_nil index) && length complete_ids == length index
          then some (shared_names (length index) reports)
          else none;
      reports = reports;
    }
