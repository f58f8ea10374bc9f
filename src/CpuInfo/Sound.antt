-- ===== src/CpuInfo/Sound.antt =====
-- The model that `parse_cpu` of src/parser/cpu.cpp returns, as a whole.
use sysal.Prelude.{
  if◌then◌else◌, Option-cases, length, drop, first, get_or, All, Bytes, codes, starts_with, ℕ, ◌≡◌,
  refl, ◌∙◌, inl, inr, Bool, true, false, not, Option, none, some, List, [], ◌∷◌, map, arith,
}
use sysal.Prelude.Maps.{lookup_id}
use sysal.Types.{RawSource, is_success}
use sysal.RawStore.{RawRecord, RawStore, get_all}
use sysal.Cpu.{LogicalCpu}
use sysal.Text.{ends_with}
use sysal.CpuDetails.{CpuDetails}
use sysal.CpuDetails.Records.{
  DetailState, policy_prefix, legacy_prefix, read_present, read_control, read_switch, read_online,
  policy_index, read_policy, read_detail, read_details,
}
use sysal.CpuDetails.Merge.{
  report_online, list_online, finish_details, has_modern_policies, read_cpu_details,
}
use sysal.CpuInfo.{CpuInfoEntry, parse_cpuinfo}
use sysal.CpuInfo.Topology.{apply_sysfs_topology}
use sysal.CpuInfo.Numa.{NumaMap, build_numa_mapping}
use sysal.CpuInfo.Build.{
  CpuPackage, CpuCore, package_ids, core_keys, make_packages, make_cores, make_logicals,
  count_package, count_core, measure_package, core_node, logical_node,
}
use sysal.CpuInfo.Parse.{CpuModel, cpuinfo_record, build_cpu, parse_entries, parse_cpu}
use sysal.CpuInfo.Keys.{entries-IsKnown}
use sysal.CpuInfo.Placed.{
  IsPlaced, make_logicals-IsPlaced, IsPlaced-cores, IsPlaced-packages, IsPlaced-logical,
}

module _ {A : Type 0} {P : A → Type 0} where
  All-to : (Q : A → Type 0) (xs : List A) → ((x : A) → P x → Q x) → All P xs → All Q xs
  All-to Q [] h hs = tt
  All-to Q (x ∷ xs) h (px, hs) = (h x px, All-to Q xs h hs)

  All-map_to :
      (Q : A → Type 0) (f : A → A) (xs : List A)
      → ((x : A) → P x → Q (f x))
      → All P xs
      → All Q (map f xs)
  All-map_to Q f [] h hs = tt
  All-map_to Q f (x ∷ xs) h (px, hs) = (h x px, All-map_to Q f xs h hs)

-- two states of the loop with the same list of CPUs
abbrev SameCpus : DetailState → DetailState → Type 0
SameCpus st after = after.cpu.logical_cpus ≡ st.cpu.logical_cpus

SameCpus-if :
    (b : Bool) (st x y : DetailState)
    → SameCpus st x
    → SameCpus st y
    → SameCpus st (if b then x else y)
SameCpus-if true st x y h k = h
SameCpus-if false st x y h k = k

read_present-same :
    (b : Bool) (path payload : Bytes) (st : DetailState)
    → SameCpus st (read_present b path payload st)
unfolding read_present
read_present-same true path payload st = refl
read_present-same false path payload st = refl

read_switch-same :
    (b : Bool) (payload : Bytes) (st : DetailState) → SameCpus st (read_switch b payload st)
unfolding read_switch
read_switch-same b payload st = ground arith

read_online-same :
    (path payload : Bytes) (st : DetailState) → SameCpus st (read_online path payload st)
unfolding read_online
read_online-same path payload st = ground arith

read_policy-same :
    (b : Bool) (path payload : Bytes) (st : DetailState)
    → SameCpus st (read_policy b path payload st)
unfolding read_policy
read_policy-same b path payload st =
    elim (Option-cases
      (policy_index b (drop (length (if b then legacy_prefix else policy_prefix)) path))) [
        | inl e ↦ rw (e, read_policy) refl
        | inr (i, e) ↦ rw (e, read_policy) refl
      ]

-- the records about frequencies and SMT do not touch the list of CPUs
read_detail-same :
    (modern : Bool) (path payload : Bytes) (st : DetailState)
    → SameCpus st (read_detail modern path payload st)
unfolding read_detail
read_detail-same modern path payload st =
    let a = read_present-same (ends_with path (codes "present")) path payload st in
    let b : SameCpus st (read_control payload st) = unfold read_control in refl in
    let c = read_switch-same (ends_with path (codes "active")) payload st in
    let d = read_online-same path payload st in
    let e = read_policy-same (not (starts_with path policy_prefix)) path payload st in
    SameCpus-if _ st _ _ a (
      SameCpus-if _ st _ _ b
        (SameCpus-if _ st _ _ c (SameCpus-if _ st _ _ d (SameCpus-if _ st _ st e refl))))

read_details-same :
    (modern : Bool) (records : List RawRecord) (st : DetailState)
    → SameCpus st (read_details modern records st)
unfolding read_details
read_details-same modern [] st = refl
read_details-same modern (rec ∷ records) st =
    read_details-same modern records _
    ∙ SameCpus-if (is_success rec.status) st (read_detail modern rec.path_or_command rec.payload st)
        st (read_detail-same modern rec.path_or_command rec.payload st) refl

module _ (cores : List CpuCore) (packages : List CpuPackage) where
  report_online-IsPlaced :
      (reported : List (ℕ × Bool)) (l : LogicalCpu)
      → IsPlaced cores packages l
      → IsPlaced cores packages (report_online reported l)
  unfolding report_online
  report_online-IsPlaced reported l p = elim (Option-cases (lookup_id l.id reported)) [
    | inl e ↦ rw (e, report_online) p
    | inr (b, e) ↦ rw (e, report_online) (IsPlaced-logical cores packages l _ refl refl p)
  ]

  list_online-IsPlaced :
      (ids : Option (List ℕ)) (l : LogicalCpu)
      → IsPlaced cores packages l
      → IsPlaced cores packages (list_online ids l)
  unfolding list_online
  list_online-IsPlaced none l p = p
  list_online-IsPlaced (some ids) l p = IsPlaced-logical cores packages l _ refl refl p

  logical_node-IsPlaced :
      (nodes : NumaMap) (l : LogicalCpu)
      → IsPlaced cores packages l
      → IsPlaced cores packages (logical_node nodes l)
  unfolding logical_node
  logical_node-IsPlaced nodes l p = elim (Option-cases (lookup_id l.id nodes)) [
    | inl e ↦ rw (e, logical_node) p
    | inr (n, e) ↦ rw (e, logical_node) (IsPlaced-logical cores packages l _ refl refl p)
  ]

  read_cpu_details-IsPlaced :
      (raw : RawStore) (cpu : CpuDetails) (warnings : List Bytes)
      → All (IsPlaced cores packages) cpu.logical_cpus
      → All (IsPlaced cores packages) (read_cpu_details raw cpu warnings).0.logical_cpus
  unfolding read_cpu_details finish_details
  read_cpu_details-IsPlaced raw cpu warnings h =
      let records = get_all raw RawSource.sysfs_cpu in
      let start : DetailState = record {
        cpu = cpu;
        reported_online = [];
        policies = [];
        warnings = warnings;
      } in
      let st = read_details (has_modern_policies records) records start in
      All-map_to (IsPlaced cores packages) (list_online st.cpu.online_cpu_ids)
        (map (report_online st.reported_online) st.cpu.logical_cpus)
        (list_online-IsPlaced st.cpu.online_cpu_ids)
        (All-map_to (IsPlaced cores packages) (report_online st.reported_online) st.cpu.logical_cpus
          (report_online-IsPlaced st.reported_online)
          (rw (read_details-same (has_modern_policies records) records start) h))

core_node-ids :
    (nodes : NumaMap) (logicals : List LogicalCpu) (c : CpuCore)
    → ((core_node nodes logicals c).id ≡ c.id)
      × ((core_node nodes logicals c).package_id ≡ c.package_id)
unfolding core_node
core_node-ids nodes logicals c = ground arith

-- every logical CPU of a model has its core and its package in it
abbrev pub IsConsistent : CpuModel → Type 0
IsConsistent m = All (IsPlaced m.cores m.packages) m.details.logical_cpus

build_cpu-IsConsistent :
    (raw : RawStore) (head : CpuInfoEntry) (entries : List CpuInfoEntry) (warnings : List Bytes)
    → IsConsistent (build_cpu raw head entries warnings).0
unfolding build_cpu
build_cpu-IsConsistent raw head entries warnings =
    let pids = package_ids entries [] in
    let keys = core_keys entries [] in
    let made = make_logicals keys pids entries ([], warnings) in
    let nodes = build_numa_mapping raw in
    let cores = make_cores pids 0 keys in
    let packages = make_packages entries 0 pids in
    let counted = map (count_core made.0) cores in
    let summed = map (count_package cores made.0) packages in
    let placed =
      (make_logicals-IsPlaced entries keys pids entries [] warnings (entries-IsKnown entries [] [])
        tt).1 in
    read_cpu_details-IsPlaced _ _ raw _ made.1 (
      All-map_to _ (logical_node nodes) made.0
        (λ l p. logical_node-IsPlaced _ _ nodes l (
          IsPlaced-packages _ summed (measure_package raw entries pids) l
            (λ q. unfold measure_package in refl)
            (IsPlaced-packages _ packages (count_package cores made.0) l
              (λ q. unfold count_package in refl)
              (IsPlaced-cores counted packages (core_node nodes made.0) l
                (core_node-ids nodes made.0)
                (IsPlaced-cores cores packages (count_core made.0) l
                  (λ c. unfold count_core in (refl, refl)) p)))))
        placed)

-- a property of the model, if there is one
abbrev pub Always : (CpuModel → Type 0) → Option CpuModel → Type 0
Always P none = Unit
Always P (some m) = P m

parse_entries-IsConsistent :
    (raw : RawStore) (found : List CpuInfoEntry × List Bytes)
    → Always IsConsistent (parse_entries raw found).0
unfolding parse_entries
parse_entries-IsConsistent raw ([], ws) = tt
parse_entries-IsConsistent raw (x ∷ es, ws) =
    let entries = apply_sysfs_topology raw (x ∷ es) in
    build_cpu-IsConsistent raw (get_or (first (λ y. true) entries) x) entries ws

-- In the model that the CPU parser returns, the core id of every logical CPU is the place and the id
-- of a core that lies in the CPU's package, and its package id the place and the id of a package.
pub parse_cpu-IsConsistent :
    (raw : RawStore) (warnings : List Bytes) → Always IsConsistent (parse_cpu raw warnings).0
unfolding parse_cpu
parse_cpu-IsConsistent raw warnings = elim (Option-cases (cpuinfo_record raw)) [
  | inl e ↦ rw (e, parse_cpu) tt
  | inr (rec, e) ↦
      rw (e, parse_cpu) (parse_entries-IsConsistent raw (parse_cpuinfo rec.payload warnings))
]
