-- ===== src/CpuInfo/Numa.antt =====
-- The NUMA nodes of the CPUs: `build_numa_mapping` and `build_numa_nodes` of src/parser/cpu.cpp.
use sysal.Prelude.{
  ltb, leb, if◌then◌else◌, length, take, drop, get_or, Bytes, codes, ◌>>=◌, ℕ, zero, suc, ◌+◌, ◌-◌,
  ◌%◌, ◌^◌, Bool, true, false, ◌&&◌, Option, none, some, List, [], ◌∷◌, ◌++◌, map,
}
use sysal.Prelude.Maps.{update_id}
use sysal.Types.{RawSource, is_success}
use sysal.Text.{trim, split, find, holds, find_text}
use sysal.Number.{parse_uint}
use sysal.RawStore.{RawRecord, RawStore, get_all}

abbrev pub max_cpus : ℕ
max_cpus = 1024

abbrev pub NumaMap : Type 0
NumaMap = List (ℕ × ℕ)

unfoldable pub assign_cpu : ℕ → ℕ → NumaMap → NumaMap
assign_cpu cpu node m = update_id (cpu % 2 ^ 32) (λ old. node) m

-- the loop over a range: `rounds` numbers are left, from `cpu` on
unfoldable pub assign_range : ℕ → ℕ → ℕ → NumaMap → NumaMap
unfolding assign_cpu
assign_range zero cpu node m = m
assign_range (suc rounds) cpu node m = elim (ltb (length m) max_cpus) [
  | true ↦ assign_range rounds (cpu + 1) node (assign_cpu cpu node m)
  | false ↦ m
]

-- the largest key
unfoldable pub last_key : NumaMap → ℕ
last_key [] = 0
last_key ((key, node) ∷ []) = key
last_key ((key, node) ∷ p ∷ m) = last_key (p ∷ m)

-- one part of a list, and whether the loop over the parts ends there
unfoldable pub assign_part : Bytes → ℕ → NumaMap → Bool × NumaMap
unfolding assign_range last_key
assign_part part node m =
    let trimmed = trim part in
    elim (find trimmed b'-') [
      | some dash_pos ↦ elim (parse_uint (take dash_pos trimmed)) [
        | none ↦ (false, m)
        | some first_cpu ↦ elim (parse_uint (drop (dash_pos + 1) trimmed)) [
          | none ↦ (false, m)
          | some last_cpu ↦
              let assigned = assign_range (last_cpu + 1 - first_cpu) first_cpu node m in
              (leb max_cpus (length assigned) && ltb (last_key assigned) last_cpu, assigned)
        ]
      ]
      | none ↦ elim (parse_uint trimmed) [
        | none ↦ (false, m)
        | some cpu ↦ if leb max_cpus (length m) then (true, m) else (false, assign_cpu cpu node m)
      ]
    ]

unfoldable pub assign_parts : List Bytes → ℕ → NumaMap → NumaMap
unfolding assign_part
assign_parts [] node m = m
assign_parts (part ∷ parts) node m =
    let result = assign_part part node m in
    let rest = assign_parts parts node result.1 in if result.0 then result.1 else rest

-- the node of a path; the cast keeps 32 bits
unfoldable pub node_of_path : Bytes → Option ℕ
node_of_path path = do
  start ← find_text path (codes "node/node")
  let behind = drop (start + 9) path
  slash_pos ← find behind b'/'
  node_id ← parse_uint (take slash_pos behind)
  some (node_id % 2 ^ 32)

unfoldable pub assign_records : List RawRecord → NumaMap → NumaMap
unfolding assign_parts node_of_path
assign_records [] m = m
assign_records (rec ∷ records) m = assign_records records (
    if is_success rec.status && holds rec.path_or_command (codes "cpulist")
    then elim (node_of_path rec.path_or_command) [
      | none ↦ m
      | some node ↦ assign_parts (split rec.payload b',') node m
    ]
    else m)

unfoldable pub build_numa_mapping : RawStore → NumaMap
unfolding assign_records
build_numa_mapping raw = assign_records (get_all raw RawSource.sysfs_numa) []

pub record NumaNode : Type 0 where
  pub id : ℕ
  pub cpus : List ℕ

unfoldable pub collect_nodes : NumaMap → List (ℕ × List ℕ) → List (ℕ × List ℕ)
collect_nodes [] nodes = nodes
collect_nodes ((cpu, node) ∷ m) nodes =
    collect_nodes m (update_id node (λ old. get_or old [] ++ cpu ∷ []) nodes)

unfoldable pub make_node : ℕ × List ℕ → NumaNode
make_node (id, cpus) = record { id = id; cpus = cpus }

unfoldable pub build_numa_nodes : NumaMap → List NumaNode
unfolding collect_nodes make_node
build_numa_nodes m = map make_node (collect_nodes m [])
