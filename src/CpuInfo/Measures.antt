-- ===== src/CpuInfo/Measures.antt =====
-- Frequencies, governor, thermal zones and ISA extensions of src/parser/cpu.cpp.
use sysal.Prelude.{
  ltb, if◌then◌else◌, take, drop, is_nil, get_or, Bytes, codes, text_eq, text_mem, ◌>>=◌, ℕ, Bool,
  true, false, not, ◌&&◌, Option, none, some, List, [], ◌∷◌, map,
}
use sysal.Prelude.Maps.{insert_text, update_key}
use sysal.Prelude.Sets.{set_insert, contains}
use sysal.Types.{RawSource, is_success}
use sysal.Text.{trim, split, find, holds, rfind_text, ends_with, extract_filename}
use sysal.Number.{parse_uint}
use sysal.RawStore.{RawRecord, RawStore, get_all}
use sysal.CpuInfo.Topology.{extract_cpu_number_from_path}
use sysal.CpuDetails.{read_frequency}

-- the base frequencies of a package, and the largest maximum
unfoldable pub add_frequency : Bytes → Bytes → List ℕ × Option ℕ → List ℕ × Option ℕ
add_frequency path payload (bases, maximum) =
    let hz = read_frequency payload in
    (
      elim hz [
        | none ↦ bases
        | some v ↦ if holds path (codes "base_frequency") then set_insert v bases else bases
      ],
      elim hz [
        | none ↦ maximum
        | some v ↦
            if holds path (codes "cpuinfo_max_freq")
            then some (if ltb (get_or maximum 0) v then v else get_or maximum 0)
            else maximum
      ],
    )

unfoldable pub is_cpu_of : List ℕ → Bytes → Bool
is_cpu_of ids path = elim (extract_cpu_number_from_path path) [
  | none ↦ false
  | some number ↦ contains number ids
]

unfoldable pub read_frequencies : List ℕ → List RawRecord → List ℕ × Option ℕ → List ℕ × Option ℕ
unfolding add_frequency is_cpu_of
read_frequencies ids [] state = state
read_frequencies ids (rec ∷ records) state = read_frequencies ids records (
    if is_success rec.status && is_cpu_of ids rec.path_or_command
    then add_frequency rec.path_or_command rec.payload state
    else state)

-- a base frequency only if all files agree
unfoldable pub only_one : List ℕ → Option ℕ
only_one (hz ∷ []) = some hz
only_one _ = none

unfoldable pub read_cpufreq : RawStore → List ℕ → Option ℕ × Option ℕ
unfolding read_frequencies only_one
read_cpufreq raw ids =
    let result = read_frequencies ids (get_all raw RawSource.sysfs_cpu) ([], none) in
    (only_one result.0, result.1)

unfoldable pub read_governors : List RawRecord → List Bytes → List Bytes
read_governors [] governors = governors
read_governors (rec ∷ records) governors =
    let governor = trim rec.payload in
    read_governors records (
      if is_success rec.status
        && ends_with rec.path_or_command (codes "/scaling_governor")
        && not (is_nil governor)
      then insert_text governor governors
      else governors)

unfoldable pub one_governor : List Bytes → Bytes
one_governor [] = []
one_governor (governor ∷ []) = governor
one_governor (a ∷ b ∷ rest) = codes "mixed"

unfoldable pub read_cpu_governor : RawStore → Bytes
unfolding read_governors one_governor
read_cpu_governor raw = one_governor (read_governors (get_all raw RawSource.sysfs_cpu) [])

pub record ThermalZone : Type 0 where
  pub name : Bytes
  pub type : Bytes
  pub temp : ℕ

-- a zone and whether its name is in `measured_zones`
abbrev ZoneMap : Type 0
ZoneMap = List (Bytes × (ThermalZone × Bool))

unfoldable pub set_zone : Bytes → Bytes → Bytes → ThermalZone × Bool → ThermalZone × Bool
set_zone name filename payload (zone, measured) =
    let named = record zone { name = name } in
    if text_eq filename (codes "type")
    then (record named { type = trim payload }, measured)
    else if text_eq filename (codes "temp")
    then elim (parse_uint payload) [
      | none ↦ (named, measured)
      | some v ↦ (record named { temp = v }, true)
    ]
    else (named, measured)

abbrev new_zone : ThermalZone × Bool
new_zone = (record { name = []; type = []; temp = 0 }, false)

unfoldable pub zone_name : Bytes → Option Bytes
zone_name path = do
  zone_start ← rfind_text path (codes "thermal_zone")
  let behind = drop zone_start path
  some (elim (find behind b'/') [ none ↦ behind | some length_of ↦ take length_of behind ])

unfoldable pub read_zones : List RawRecord → ZoneMap → ZoneMap
unfolding set_zone zone_name
read_zones [] zones = zones
read_zones (rec ∷ records) zones = read_zones records (
    if is_success rec.status
    then elim (zone_name rec.path_or_command) [
      | none ↦ zones
      | some name ↦
          update_key name
            (λ old.
              set_zone name (extract_filename rec.path_or_command) rec.payload
                (get_or old new_zone))
            zones
    ]
    else zones)

unfoldable pub measured_zones : ZoneMap → List ThermalZone
measured_zones [] = []
measured_zones ((name, (zone, measured)) ∷ m) =
    let rest = measured_zones m in if measured then zone ∷ rest else rest

unfoldable pub read_thermal_zones : RawStore → List ThermalZone
unfolding read_zones measured_zones
read_thermal_zones raw = measured_zones (read_zones (get_all raw RawSource.sysfs_thermal) [])

pub data IsaExtension : Type 0 where
  sse sse2 sse3 ssse3 sse41 sse42 avx avx2 avx512f avx512cd avx512bw avx512dq : IsaExtension
  avx512vl aes fma f16c pclmulqdq : IsaExtension

abbrev isa_map : List (Bytes × IsaExtension)
isa_map =
    (codes "sse", sse)
    ∷ (codes "sse2", sse2)
    ∷ (codes "sse3", sse3)
    ∷ (codes "ssse3", ssse3)
    ∷ (codes "sse4_1", sse41)
    ∷ (codes "sse4_2", sse42)
    ∷ (codes "avx", avx)
    ∷ (codes "avx2", avx2)
    ∷ (codes "avx512f", avx512f)
    ∷ (codes "avx512cd", avx512cd)
    ∷ (codes "avx512bw", avx512bw)
    ∷ (codes "avx512dq", avx512dq)
    ∷ (codes "avx512vl", avx512vl)
    ∷ (codes "aes", aes)
    ∷ (codes "fma", fma)
    ∷ (codes "f16c", f16c)
    ∷ (codes "pclmulqdq", pclmulqdq)
    ∷ []

unfoldable pub present_extensions : List Bytes → List (Bytes × IsaExtension) → List IsaExtension
present_extensions flags [] = []
present_extensions flags ((flag, extension) ∷ table) =
    let rest = present_extensions flags table in
    if text_mem flag flags then extension ∷ rest else rest

unfoldable pub legacy_isa_extensions : Bytes → List IsaExtension
unfolding present_extensions
legacy_isa_extensions flags = present_extensions (map trim (split flags b' ')) isa_map
