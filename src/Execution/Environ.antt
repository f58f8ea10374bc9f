-- ===== src/Execution/Environ.antt =====
-- The environment and the container: `parse_environment` and `detect_container` of
-- src/parser/execution.cpp.
use sysal.Prelude.{
  if◌then◌else◌, take, drop, is_nil, Bytes, codes, text_eq, ◌>>=◌, ℕ, ◌+◌, ◌%◌, not, ◌||◌, Option,
  none, some, List, [], ◌∷◌, ◌++◌,
}
use sysal.Types.{RawSource, ContainerKind, is_success}
use sysal.Text.{trim, split, find, holds}
use sysal.Number.{parse_uint}
use sysal.RawStore.{RawRecord, RawStore, get_all, has_success}
use sysal.Execution.{Container, ExecutionContext}
use sysal.Execution.Status.{u32_mod}

-- one line, cut at its first `=`
unfoldable pub read_variable : Bytes → Option (Bytes × Bytes)
read_variable line =
    let trimmed = trim line in
    if is_nil trimmed
    then none
    else do eq ← find trimmed b'='; some (take eq trimmed, drop (eq + 1) trimmed)

unfoldable pub read_variables : List Bytes → List (Bytes × Bytes)
read_variables [] = []
read_variables (line ∷ lines) = elim (read_variable line) [
  | none ↦ read_variables lines
  | some entry ↦ entry ∷ read_variables lines
]

-- the ordinals of `CUDA_VISIBLE_DEVICES`
unfoldable pub ordinals : List Bytes → List ℕ
ordinals [] = []
ordinals (id_str ∷ ids) = elim (parse_uint (trim id_str)) [
  | none ↦ ordinals ids
  | some v ↦ v % u32_mod ∷ ordinals ids
]

unfoldable pub cuda_ids : List (Bytes × Bytes) → List ℕ
cuda_ids [] = []
cuda_ids ((key, value) ∷ entries) =
    let rest = cuda_ids entries in
    if text_eq key (codes "CUDA_VISIBLE_DEVICES") then ordinals (split value b',') ++ rest else rest

unfoldable pub parse_environment : Bytes → ExecutionContext → ExecutionContext
parse_environment payload ctx =
    let entries = ctx.environ.entries ++ read_variables (split payload b'\n') in
    record ctx {
      environ = record { entries = entries };
      visible_accelerator_ids = ctx.visible_accelerator_ids ++ cuda_ids entries;
    }

-- `Container{kind, "", ""}`
abbrev container_of : ContainerKind → Container
container_of kind = record { kind = kind; id = []; runtime = [] }

-- the marks in /proc/1/cgroup
unfoldable pub container_mark : Bytes → Option Container
container_mark content =
    if holds content (codes "docker")
    then some (container_of ContainerKind.docker)
    else if holds content (codes "podman")
    then some (container_of ContainerKind.podman)
    else if holds content (codes "lxc")
    then some (container_of ContainerKind.lxc)
    else if holds content (codes "kubepods") || holds content (codes "kube")
    then some (container_of ContainerKind.kubernetes)
    else none

unfoldable pub mark_in_records : List RawRecord → Option Container
mark_in_records [] = none
mark_in_records (r ∷ rs) =
    let rest = mark_in_records rs in
    if not (is_success r.status)
    then rest
    else elim (container_mark r.payload) [ some c ↦ some c | none ↦ rest ]

unfoldable pub mark_in_environment : List (Bytes × Bytes) → Option Container
mark_in_environment [] = none
mark_in_environment ((key, value) ∷ entries) =
    let rest = mark_in_environment entries in
    if text_eq key (codes "container")
    then (if text_eq value (codes "docker")
        then some (container_of ContainerKind.docker)
        else if text_eq value (codes "podman")
        then some (container_of ContainerKind.podman)
        else if text_eq value (codes "lxc")
        then some (container_of ContainerKind.lxc)
        else some (record { kind = ContainerKind.other; id = value; runtime = [] }))
    else if text_eq key (codes "KUBERNETES_SERVICE_HOST")
    then some (container_of ContainerKind.kubernetes)
    else rest

unfoldable pub detect_container : RawStore → ExecutionContext → Option Container
detect_container raw ctx =
    if has_success raw RawSource.root_dockerenv
    then some (container_of ContainerKind.docker)
    else elim (mark_in_records (get_all raw RawSource.proc_one_cgroup)) [
      | some c ↦ some c
      | none ↦ mark_in_environment ctx.environ.entries
    ]
