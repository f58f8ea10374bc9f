-- ===== src/Mountinfo/Lines.antt =====
-- Lines of mountinfo: `parse_mountinfo` of src/common/mountinfo.cpp.
use sysal.Prelude.{
  length, keep, is_nil, length-append, Bytes, ℕ, ◌+◌, ◌≡◌, not, List, [], ◌∷◌, arith,
}
use sysal.Text.{split}
use sysal.Text.Words.{words}
use sysal.Mountinfo.{
  StorageMount, MountLine, bad_header, bad_record, mounted, read_words, header_warning,
  record_warning, add_line, read_lines, parse_mountinfo,
}

abbrev sizes : List StorageMount × List Bytes → ℕ
sizes (mounts, warnings) = length mounts + length warnings

add_line-sizes :
    (l : MountLine) (s : List StorageMount × List Bytes) → sizes (add_line l s) ≡ sizes s + 1
unfolding add_line
add_line-sizes bad_header (mounts, warnings) =
    ground (arith, length-append warnings (header_warning ∷ []))
add_line-sizes bad_record (mounts, warnings) =
    ground (arith, length-append warnings (record_warning ∷ []))
add_line-sizes (mounted m) (mounts, warnings) = ground (arith, length-append mounts (m ∷ []))

read_lines-sizes :
    (lines : List Bytes) (s : List StorageMount × List Bytes)
    → sizes (read_lines lines s) ≡ sizes s + length (keep (λ l. not (is_nil l)) lines)
unfolding read_lines
read_lines-sizes [] s = omega arith
read_lines-sizes ([] ∷ lines) s = read_lines-sizes lines s
read_lines-sizes ((c ∷ cs) ∷ lines) s =
    let parsed = read_words (words (c ∷ cs)) in
    omega (arith, add_line-sizes parsed s, read_lines-sizes lines (add_line parsed s))

-- Every line that is not empty gives either a mount or a warning, and nothing else does: none is
-- dropped silently.
pub parse_mountinfo_accounts :
    (payload : Bytes) (warnings : List Bytes)
    → length (parse_mountinfo payload warnings).0 + length (parse_mountinfo payload warnings).1
      ≡ length warnings + length (keep (λ l. not (is_nil l)) (split payload b'\n'))
unfolding parse_mountinfo
parse_mountinfo_accounts payload warnings =
    omega (arith, read_lines-sizes (split payload b'\n') ([], warnings))
