-- ===== src/Execution/Status.antt =====
-- /proc/self/status: `decode_capabilities` and `parse_proc_self_status` of
-- src/parser/execution.cpp. The context and the warnings are passed along.
use sysal.Prelude.{
  ◌==◌, if◌then◌else◌, get_elem?, is_nil, get_or, Bytes, codes, text_eq, ◌>>=◌, ℕ, ◌/◌, ◌%◌, ◌^◌,
  Bool, true, false, not, ◌||◌, Option, none, some, List, [], ◌∷◌, ◌++◌,
}
use sysal.Text.{trim, split, parse_kv}
use sysal.Number.{parse_uint, parse_hex}
use sysal.CpuList.{parse_cpu_id_list}
use sysal.Execution.{ExecutionContext}

abbrev cap_table : List (ℕ × Bytes)
cap_table =
    (0, codes "CAP_CHOWN")
    ∷ (1, codes "CAP_DAC_OVERRIDE")
    ∷ (3, codes "CAP_FOWNER")
    ∷ (4, codes "CAP_FSETID")
    ∷ (5, codes "CAP_KILL")
    ∷ (6, codes "CAP_SETGID")
    ∷ (7, codes "CAP_SETUID")
    ∷ (8, codes "CAP_SETPCAP")
    ∷ (10, codes "CAP_NET_BIND_SERVICE")
    ∷ (11, codes "CAP_NET_BROADCAST")
    ∷ (12, codes "CAP_NET_ADMIN")
    ∷ (13, codes "CAP_NET_RAW")
    ∷ (14, codes "CAP_IPC_LOCK")
    ∷ (15, codes "CAP_IPC_OWNER")
    ∷ (16, codes "CAP_SYS_MODULE")
    ∷ (17, codes "CAP_SYS_RAWIO")
    ∷ (18, codes "CAP_SYS_CHROOT")
    ∷ (19, codes "CAP_SYS_PTRACE")
    ∷ (20, codes "CAP_SYS_PACCT")
    ∷ (21, codes "CAP_SYS_ADMIN")
    ∷ (22, codes "CAP_SYS_BOOT")
    ∷ (23, codes "CAP_SYS_NICE")
    ∷ (24, codes "CAP_SYS_RESOURCE")
    ∷ (25, codes "CAP_SYS_TIME")
    ∷ (26, codes "CAP_SYS_TTY_CONFIG")
    ∷ (27, codes "CAP_MKNOD")
    ∷ (28, codes "CAP_LEASE")
    ∷ (29, codes "CAP_AUDIT_WRITE")
    ∷ (30, codes "CAP_AUDIT_CONTROL")
    ∷ (31, codes "CAP_SETFCAP")
    ∷ (32, codes "CAP_MAC_OVERRIDE")
    ∷ (33, codes "CAP_MAC_ADMIN")
    ∷ (34, codes "CAP_SYSLOG")
    ∷ (35, codes "CAP_WAKE_ALARM")
    ∷ (36, codes "CAP_BLOCK_SUSPEND")
    ∷ (37, codes "CAP_AUDIT_READ")
    ∷ (38, codes "CAP_PERFMON")
    ∷ (39, codes "CAP_BPF")
    ∷ (40, codes "CAP_CHECKPOINT_RESTORE")
    ∷ []

-- `(val >> bit) & 1`
unfoldable pub bit_set : ℕ → ℕ → Bool
bit_set val bit = val / 2 ^ bit % 2 == 1

unfoldable pub named_bits : ℕ → List (ℕ × Bytes) → List Bytes
named_bits val [] = []
named_bits val ((bit, name) ∷ table) =
    let caps = named_bits val table in if bit_set val bit then name ∷ caps else caps

unfoldable pub decode_capabilities : Bytes → List Bytes
decode_capabilities hex =
    let trimmed = trim hex in
    if is_nil trimmed
    then []
    else elim (parse_hex trimmed) [ none ↦ [] | some val ↦ named_bits val cap_table ]

abbrev pub u32_mod : ℕ
u32_mod = 2 ^ 32

-- the number in the part `i` of a tab-separated value, cast to 32 bits
unfoldable pub id_part : Bytes → ℕ → Option ℕ
id_part value i = do
  part ← get_elem? (split value 9) i
  v ← parse_uint (trim part)
  some (v % u32_mod)

unfoldable pub read_uid : Bytes → ExecutionContext → ExecutionContext
read_uid value ctx = record ctx {
  process = record (ctx.process) { uid = get_or (id_part value 0) ctx.process.uid };
  permission = record (ctx.permission) { euid = get_or (id_part value 1) ctx.permission.euid };
}

unfoldable pub read_gid : Bytes → ExecutionContext → ExecutionContext
read_gid value ctx = record ctx {
  process = record (ctx.process) { gid = get_or (id_part value 0) ctx.process.gid };
  permission = record (ctx.permission) { egid = get_or (id_part value 1) ctx.permission.egid };
}

abbrev cpus_warning : Bytes
cpus_warning =
    codes "parse_execution: invalid or oversized Cpus_allowed_list; CPU visibility unknown"

abbrev pub Warned : Type 0
Warned = ExecutionContext × List Bytes

unfoldable pub read_cpus : Bytes → Warned → Warned
read_cpus value (ctx, warnings) =
    let noted = record ctx {
      cpuset = record (ctx.cpuset) { cpus = value; cpus_effective = value };
    } in
    elim (parse_cpu_id_list value) [
      | some ids ↦
          (record noted { visible_logical_cpu_ids = ids; cpu_visibility_known = true }, warnings)
      | none ↦ (noted, warnings ++ cpus_warning ∷ [])
    ]

-- one line of the loop
unfoldable pub read_status_line : Bytes → Warned → Warned
read_status_line line (ctx, warnings) =
    let pair = parse_kv line b':' in
    let key = trim pair.0 in
    let value = trim pair.1 in
    if text_eq key (codes "Pid")
    then (
      elim (parse_uint value) [
        | none ↦ ctx
        | some v ↦ record ctx { process = record (ctx.process) { pid = v % u32_mod } }
      ],
      warnings,
    )
    else if text_eq key (codes "PPid")
    then (
      elim (parse_uint value) [
        | none ↦ ctx
        | some v ↦ record ctx { process = record (ctx.process) { ppid = v % u32_mod } }
      ],
      warnings,
    )
    else if text_eq key (codes "Name")
    then (record ctx { process = record (ctx.process) { comm = value } }, warnings)
    else if text_eq key (codes "Uid")
    then (read_uid value ctx, warnings)
    else if text_eq key (codes "Gid")
    then (read_gid value ctx, warnings)
    else if text_eq key (codes "CapEff")
    then (
      record ctx {
        permission = record (ctx.permission) { capabilities = decode_capabilities value };
      },
      warnings,
    )
    else if text_eq key (codes "Cpus_allowed_list")
    then read_cpus value (ctx, warnings)
    else if text_eq key (codes "Mems_allowed_list")
    then (
      record ctx { cpuset = record (ctx.cpuset) { mems = value; mems_effective = value } },
      warnings,
    )
    else (ctx, warnings)

unfoldable pub read_status_lines : List Bytes → Warned → Warned
read_status_lines [] w = w
read_status_lines (line ∷ lines) w = read_status_lines lines (read_status_line line w)

-- the two tests behind the loop
unfoldable pub set_root : ExecutionContext → ExecutionContext
set_root ctx =
    let p = ctx.permission in
    if not (p.euid == 0) || not (p.egid == 0)
    then record ctx { permission = record p { is_root = false } }
    else if p.euid == 0
    then record ctx { permission = record p { is_root = true } }
    else ctx

unfoldable pub parse_proc_self_status : Bytes → Warned → Warned
parse_proc_self_status payload w =
    let (ctx, warnings) = read_status_lines (split payload b'\n') w in (set_root ctx, warnings)
