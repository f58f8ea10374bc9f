-- ===== src/Execution/Groups.antt =====
-- /proc/self/cgroup: `parse_proc_self_cgroup` of src/parser/execution.cpp.
use sysal.Prelude.{
  if◌then◌else◌, take, drop, is_nil, get_or, Bytes, codes, starts_with, ◌>>=◌, ◌+◌, Option, some,
  List, [], ◌∷◌, ◌++◌,
}
use sysal.Types.{CgroupVersion}
use sysal.Text.{trim, split, find}
use sysal.Execution.{Cgroup, ExecutionContext}

-- the controllers that are not blank, trimmed
unfoldable pub controller_names : List Bytes → List Bytes
controller_names [] = []
controller_names (c ∷ cs) =
    let tc = trim c in let rest = controller_names cs in if is_nil tc then rest else tc ∷ rest

-- a version 1 line between its first two colons; `none` if it has fewer
unfoldable pub read_group_v1 : Bytes → Cgroup → Option Cgroup
read_group_v1 trimmed group = do
  first_colon ← find trimmed b':'
  let behind = drop (first_colon + 1) trimmed
  second_colon ← find behind b':'
  some (record group {
    version = CgroupVersion.v1;
    path = drop (second_colon + 1) behind;
    controllers = group.controllers ++ controller_names (split (take second_colon behind) b',');
  })

-- the loop returns at the first line that it can read
unfoldable pub read_groups : List Bytes → Cgroup → Cgroup
read_groups [] group = group
read_groups (line ∷ lines) group =
    let trimmed = trim line in
    let rest = read_groups lines group in
    if is_nil trimmed
    then rest
    else if starts_with trimmed (codes "0::")
    then record group { version = CgroupVersion.v2; path = drop 3 trimmed }
    else get_or (read_group_v1 trimmed group) rest

unfoldable pub parse_proc_self_cgroup : Bytes → ExecutionContext → ExecutionContext
parse_proc_self_cgroup payload ctx = record ctx {
  cgroup = read_groups (split payload b'\n') ctx.cgroup;
}
