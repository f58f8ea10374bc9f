-- ===== src/Execution/Facts.antt =====
-- What `parse_proc_self_status` of src/parser/execution.cpp says of the permissions.
use sysal.Prelude.{
  if◌then◌else◌, Bool-cases, Option-cases, get_or, Bytes, codes, text_eq, text_eq_iff, ℕ, ◌≡◌, refl,
  sym, ap, ◌↔◌, inl, inr, true, Option, none, List, [], ◌∷◌, arith,
}
use sysal.Text.{trim, split, parse_kv}
use sysal.CpuList.{parse_cpu_id_list}
use sysal.Execution.Status.{
  id_part, read_uid, read_gid, Warned, read_cpus, read_status_line, read_status_lines, set_root,
  parse_proc_self_status,
}

abbrev ids : Warned → ℕ × ℕ
ids w = (w.0.permission.euid, w.0.permission.egid)

read_cpus-ids : (value : Bytes) (w : Warned) → ids (read_cpus value w) ≡ ids w
unfolding read_cpus
read_cpus-ids value w = elim (Option-cases (parse_cpu_id_list value)) [
  | inl e ↦ rw (e, read_cpus) refl
  | inr (cpu_ids, e) ↦ rw (e, read_cpus) refl
]

-- the effective id of a line under a key, if the line has one that can be read
abbrev id_of : Bytes → Bytes → Option ℕ
id_of key line =
    let pair = parse_kv line b':' in
    if text_eq (trim pair.0) key then id_part (trim pair.1) 1 else none

-- the last id that the lines have under a key, or else the one from before
abbrev pub last_id : Bytes → ℕ → List Bytes → ℕ
last_id key old [] = old
last_id key old (line ∷ lines) = last_id key (get_or (id_of key line) old) lines

read_status_line-euid :
    (line : Bytes) (w : Warned)
    → (read_status_line line w).0.permission.euid
      ≡ get_or (id_of (codes "Uid") line) w.0.permission.euid
unfolding read_status_line read_uid read_gid
read_status_line-euid line w =
    let key = trim (parse_kv line b':').0 in
    let value = trim (parse_kv line b':').1 in
    elim (Bool-cases (text_eq key (codes "Uid"))) [
      | inl e ↦
          let named : key ≡ codes "Uid" = (text_eq_iff key (codes "Uid")).0 e in
          rw named (unfold text_eq in refl)
      | inr e ↦ ground (arith, e, ap (λ p. p.0) (read_cpus-ids value w))
    ]

read_status_line-egid :
    (line : Bytes) (w : Warned)
    → (read_status_line line w).0.permission.egid
      ≡ get_or (id_of (codes "Gid") line) w.0.permission.egid
unfolding read_status_line read_uid read_gid
read_status_line-egid line w =
    let key = trim (parse_kv line b':').0 in
    let value = trim (parse_kv line b':').1 in
    elim (Bool-cases (text_eq key (codes "Gid"))) [
      | inl e ↦
          let named : key ≡ codes "Gid" = (text_eq_iff key (codes "Gid")).0 e in
          rw named (unfold text_eq in refl)
      | inr e ↦ ground (arith, e, ap (λ p. p.1) (read_cpus-ids value w))
    ]

read_status_lines-ids :
    (lines : List Bytes) (w : Warned)
    → ids (read_status_lines lines w) ≡ (
      last_id (codes "Uid") w.0.permission.euid lines,
      last_id (codes "Gid") w.0.permission.egid lines,
    )
unfolding read_status_lines
read_status_lines-ids [] w = refl
read_status_lines-ids (line ∷ lines) w =
    rw (sym (read_status_line-euid line w), sym (read_status_line-egid line w))
      (read_status_lines-ids lines (read_status_line line w))

-- After /proc/self/status is read, the process counts as root exactly if its effective user and its
-- effective group are 0, where each is the second number, in 32 bits, of the last line under `Uid` or
-- `Gid` that has one, or else the id that the context had before: with the ids of a new context, which
-- are 0, a process without these lines counts as root.
pub parse_proc_self_status-is_root :
    (payload : Bytes) (w : Warned)
    → ((parse_proc_self_status payload w).0.permission.is_root ≡ true) ↔ (
        (last_id (codes "Uid") w.0.permission.euid (split payload b'\n') ≡ 0)
        × (last_id (codes "Gid") w.0.permission.egid (split payload b'\n') ≡ 0))
unfolding parse_proc_self_status set_root
parse_proc_self_status-is_root payload w =
    let read = read_status_lines-ids (split payload b'\n') w in
    ground (arith, ap (λ p. p.0) read, ap (λ p. p.1) read)
