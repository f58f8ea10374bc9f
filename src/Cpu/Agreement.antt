-- ===== src/Cpu/Agreement.antt =====
-- The report of `Cpu::feature` against the query `CpuIdentification::feature` of one CPU, in
-- src/model/cpu_features.cpp.
use sysal.Prelude.{
  ◌==◌, if◌then◌else◌, ==_iff, Bool-cases, any, is_nil, All, Bytes, text_eq, text_eq_iff, text_mem,
  ℕ, ◌<◌, ◌≡◌, refl, sym, ap, ◌∙◌, ◌≢◌, inl, inr, Bool, true, false, ◌||◌, Option, none, some, List,
  [], ◌∷◌, ◌++◌, arith,
}
use sysal.Prelude.Sets.{contains, IsAscending}
use sysal.Cpu.{LogicalCpu}
use sysal.Prelude.Maps.{insert_text}
use sysal.Cpu.Features.{
  find_alias, normalize_cpu_feature, CpuFeatureState, feature_unknown, reported, not_reported,
  feature_state, insert_texts, FeatureEvidence, FeatureIndex, canonical_names, add_cpu, evidence_of,
  feature_index, judge, file_cpu, report_loop, feature_report, feature,
}
use sysal.Cpu.Partition.{keys, ids, feature_index-keys, feature_index-contains, contains_above}

-- the evidence of a CPU
unfoldable lookup : ℕ → FeatureIndex → Option FeatureEvidence
lookup n [] = none
lookup n ((id, e) ∷ index) = let rest = lookup n index in if id == n then some e else rest

lookup-add_cpu_same :
    (n : ℕ) (e : FeatureEvidence) (index : FeatureIndex)
    → contains n (keys index) ≡ false
    → lookup n (add_cpu n e index) ≡ some e
unfolding lookup add_cpu
lookup-add_cpu_same n e [] h = ground arith
lookup-add_cpu_same n e ((id, v) ∷ index) h = ground (arith, lookup-add_cpu_same n e index)

lookup-add_cpu_other :
    (n id : ℕ) (e : FeatureEvidence) (index : FeatureIndex)
    → id ≢ n
    → lookup n (add_cpu id e index) ≡ lookup n index
unfolding lookup add_cpu
lookup-add_cpu_other n id e [] h = ground arith
lookup-add_cpu_other n id e ((k, v) ∷ index) h = ground (arith, lookup-add_cpu_other n id e index h)

lookup-feature_index :
    (n : ℕ) (cpus : List LogicalCpu) (index : FeatureIndex)
    → contains n (ids cpus) ≡ false
    → lookup n (feature_index cpus index) ≡ lookup n index
unfolding feature_index
lookup-feature_index n [] index h = refl
lookup-feature_index n (cpu ∷ cpus) index h =
    let next = add_cpu cpu.id (evidence_of cpu) index in
    lookup-feature_index n cpus next (ground arith)
    ∙ lookup-add_cpu_other n cpu.id (evidence_of cpu) index (ground arith)

feature_index-append :
    (front back : List LogicalCpu) (index : FeatureIndex)
    → feature_index (front ++ back) index ≡ feature_index back (feature_index front index)
unfolding feature_index
feature_index-append [] back index = refl
feature_index-append (c ∷ front) back index =
    feature_index-append front back (add_cpu c.id (evidence_of c) index)

unfoldable pub is_reported : CpuFeatureState → Bool
is_reported reported = true
is_reported _ = false

-- what a report lists as reported are keys of the index
reported_subset :
    (n : ℕ) (name : Bytes) (index : FeatureIndex)
    → contains n (keys index) ≡ false
    → contains n (report_loop name index).reported_cpu_ids ≡ false
unfolding report_loop file_cpu
reported_subset n name [] h = refl
reported_subset n name ((id, e) ∷ index) h =
    go (judge name e) (reported_subset n name index (ground arith))
  where
    go :
        (s : CpuFeatureState)
        → contains n (report_loop name index).reported_cpu_ids ≡ false
        → contains n (file_cpu s id (report_loop name index)).reported_cpu_ids ≡ false
    go reported k = ground arith
    go not_reported k = k
    go feature_unknown k = k

report_loop-contains :
    (n : ℕ) (name : Bytes) (index : FeatureIndex) (e : FeatureEvidence)
    → IsAscending (keys index)
    → lookup n index ≡ some e
    → contains n (report_loop name index).reported_cpu_ids ≡ is_reported (judge name e)
unfolding report_loop lookup file_cpu is_reported
report_loop-contains n name [] e up h = absurd (ground arith)
report_loop-contains n name ((id, v) ∷ index) e (above, up) h = elim (Bool-cases (id == n)) [
  | inl same ↦
      let above_n : All (λ y. n < y) (keys index) = rw ((==_iff id n).0 same) at above in
      let missing = reported_subset n name index (contains_above n (keys index) above_n) in
      let found : v ≡ e = ground arith in rw (sym found) (here (judge name v) same missing)
  | inr other ↦ there (judge name v) other (report_loop-contains n name index e up (ground arith))
]
  where
    here :
        (s : CpuFeatureState)
        → (id == n) ≡ true
        → contains n (report_loop name index).reported_cpu_ids ≡ false
        → contains n (file_cpu s id (report_loop name index)).reported_cpu_ids ≡ is_reported s
    here reported k m = ground arith
    here not_reported k m = m
    here feature_unknown k m = m

    there :
        (s : CpuFeatureState)
        → (id == n) ≡ false
        → contains n (report_loop name index).reported_cpu_ids ≡ is_reported (judge name e)
        → contains n (file_cpu s id (report_loop name index)).reported_cpu_ids
          ≡ is_reported (judge name e)
    there reported k m = ground arith
    there not_reported k m = m
    there feature_unknown k m = m

text_eq_comm : (s t : Bytes) → text_eq s t ≡ text_eq t s
unfolding text_eq
text_eq_comm [] [] = refl
text_eq_comm [] (y ∷ t) = refl
text_eq_comm (x ∷ s) [] = refl
text_eq_comm (x ∷ s) (y ∷ t) = ground (arith, text_eq_comm s t)

text_mem-insert_text :
    (s t : Bytes) (ts : List Bytes) → text_mem s (insert_text t ts) ≡ (text_eq s t || text_mem s ts)
unfolding insert_text text_mem
text_mem-insert_text s t [] = ground arith
text_mem-insert_text s t (u ∷ us) = elim (Bool-cases (text_eq t u)) [
  | inl e ↦
      let same : text_eq s t ≡ text_eq s u = ap (text_eq s) ((text_eq_iff t u).0 e) in
      ground (arith, e, same, text_mem-insert_text s t us)
  | inr e ↦ ground (arith, e, text_mem-insert_text s t us)
]

text_mem-insert_texts :
    (s : Bytes) (ts set : List Bytes)
    → text_mem s (insert_texts ts set) ≡ (text_mem s ts || text_mem s set)
unfolding insert_texts text_mem
text_mem-insert_texts s [] set = refl
text_mem-insert_texts s (t ∷ ts) set =
    ground (arith, text_mem-insert_texts s ts (insert_text t set), text_mem-insert_text s t set)

text_mem-canonical_names :
    (s : Bytes) (fs : List Bytes)
    → is_nil s ≡ false
    → text_mem s (canonical_names fs) ≡ any (λ f. text_eq (normalize_cpu_feature f) s) fs
unfolding canonical_names text_mem normalize_cpu_feature find_alias text_eq
text_mem-canonical_names s [] h = refl
text_mem-canonical_names [] ([] ∷ fs) h = cc
text_mem-canonical_names (x ∷ s) ([] ∷ fs) h = text_mem-canonical_names (x ∷ s) fs h
text_mem-canonical_names s ((c ∷ f) ∷ fs) h =
    ground (arith, text_mem-canonical_names s fs h, text_eq_comm s (normalize_cpu_feature (c ∷ f)))

judge-evidence_of :
    (cpu : LogicalCpu) (name : Bytes)
    → is_reported (judge (normalize_cpu_feature name) (evidence_of cpu))
      ≡ is_reported (feature_state cpu.identification name)
unfolding judge feature_state is_reported evidence_of text_mem
judge-evidence_of cpu name =
    let canonical = normalize_cpu_feature name in
    let fs = cpu.identification.features in
    let there = text_mem-insert_texts canonical (canonical_names fs) [] in
    elim (Bool-cases (is_nil canonical)) [
      | inl e ↦ ground (arith, e)
      | inr e ↦ ground (arith, e, there, text_mem-canonical_names canonical fs e)
    ]

-- A CPU whose id no other CPU has is listed as reporting a feature exactly when its own query says
-- that it reports it.
pub feature-feature_state :
    (front back : List LogicalCpu) (cpu : LogicalCpu) (name : Bytes)
    → contains cpu.id (ids front) ≡ false
    → contains cpu.id (ids back) ≡ false
    → contains cpu.id (feature (front ++ cpu ∷ back) name).reported_cpu_ids
      ≡ is_reported (feature_state cpu.identification name)
unfolding feature feature_report feature_index
feature-feature_state front back cpu name h k =
    let e = evidence_of cpu in
    let before = feature_index front [] in
    let index = feature_index (front ++ cpu ∷ back) [] in
    let fresh : contains cpu.id (keys before) ≡ false =
      ground (arith, feature_index-contains cpu.id front []) in
    let found : lookup cpu.id index ≡ some e =
      ap (lookup cpu.id) (feature_index-append front (cpu ∷ back) [])
      ∙ lookup-feature_index cpu.id back (add_cpu cpu.id e before) k
      ∙ lookup-add_cpu_same cpu.id e before fresh in
    let up = feature_index-keys (front ++ cpu ∷ back) [] tt in
    report_loop-contains cpu.id (normalize_cpu_feature name) index e up found
    ∙ judge-evidence_of cpu name
