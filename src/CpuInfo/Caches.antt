-- ===== src/CpuInfo/Caches.antt =====
-- CPU caches: the cache functions of src/parser/cpu.cpp, and `CpuCache` of
-- include/sysal/model/cpu.hpp.
use sysal.Prelude.{
  ltb, ◌==◌, if◌then◌else◌, length, take, any, is_nil, get_or, Bytes, codes, text_eq, ◌>>=◌, ℕ, ◌-◌,
  ◌*◌, ◌/◌, ◌%◌, ◌^◌, Bool, true, false, not, ◌&&◌, ◌||◌, Option, none, some, List, [], ◌∷◌, ◌++◌,
}
use sysal.Types.{RawSource, is_success}
use sysal.Text.{trim, holds, ends_with}
use sysal.Number.{parse_uint, parse_u32}
use sysal.CpuList.{parse_cpu_id_list}
use sysal.RawStore.{RawRecord, RawStore, get_all}
use sysal.CpuInfo.Topology.{number_behind}
use sysal.CpuDetails.Merge.{ids_eq}

pub data CacheType : Type 0 where
  data_cache instruction_cache unified_cache other_cache : CacheType

unfoldable pub type_code : CacheType → ℕ
type_code data_cache = 0
type_code instruction_cache = 1
type_code unified_cache = 2
type_code other_cache = 3

pub record CpuCache : Type 0 where
  pub level : ℕ
  pub type : CacheType
  pub size : ℕ
  pub ways : ℕ
  pub line_size : ℕ
  pub cpu_number : ℕ
  pub cache_id : Option ℕ
  pub sets : Option ℕ
  pub shared_cpus : List ℕ

abbrev new_cache : ℕ → CpuCache
new_cache cpu = record {
  level = 0;
  type = data_cache;
  size = 0;
  ways = 0;
  line_size = 0;
  cpu_number = cpu;
  cache_id = none;
  sets = none;
  shared_cpus = [];
}

unfoldable pub last_byte : Bytes → ℕ
last_byte [] = 0
last_byte (c ∷ []) = c
last_byte (c ∷ d ∷ s) = last_byte (d ∷ s)

unfoldable pub suffix_multiplier : ℕ → ℕ
suffix_multiplier c =
    if c == b'K' || c == b'k'
    then 1024
    else if c == b'M' || c == b'm'
    then 1048576
    else if c == b'G' || c == b'g'
    then 1073741824
    else 1

-- a suffix is cut off; a product that does not fit in 64 bits is refused
unfoldable pub parse_cache_size : Bytes → Option ℕ
unfolding suffix_multiplier last_byte
parse_cache_size s =
    let trimmed = trim s in
    let multiplier = suffix_multiplier (last_byte trimmed) in
    if is_nil trimmed then none else do
      v ← parse_uint (if multiplier == 1 then trimmed else take (length trimmed - 1) trimmed)
      (if ltb ((2 ^ 64 - 1) / multiplier) v then none else some (v * multiplier))

unfoldable pub parse_cache_type : Bytes → CacheType
parse_cache_type s =
    let t = trim s in
    if text_eq t (codes "Data")
    then data_cache
    else if text_eq t (codes "Instruction")
    then instruction_cache
    else if text_eq t (codes "Unified")
    then unified_cache
    else other_cache

-- the CPU and the index of a path
unfoldable pub extract_cache_key : Bytes → Option (ℕ × ℕ)
extract_cache_key path = do
  cpu ← number_behind (codes "cpu/cpu") path
  index ← number_behind (codes "/cache/index") path
  some (cpu, index)

-- the last six branches, which look for a text anywhere in the path
unfoldable pub set_cache_number : Bytes → Bytes → CpuCache → CpuCache
unfolding parse_cache_size parse_cache_type
set_cache_number path payload cache =
    let number = parse_uint payload >>= λ v. some (v % 2 ^ 32) in
    if holds path (codes "/level")
    then record cache { level = get_or number cache.level }
    else if holds path (codes "/type")
    then record cache { type = parse_cache_type payload }
    else if holds path (codes "/size")
    then record cache { size = get_or (parse_cache_size payload) cache.size }
    else if holds path (codes "ways_of_associativity")
    then record cache { ways = get_or number cache.ways }
    else if holds path (codes "coherency_line_size")
    then record cache { line_size = get_or number cache.line_size }
    else cache

unfoldable pub or_old : Option ℕ → Option ℕ → Option ℕ
or_old none old = old
or_old (some n) old = some n

unfoldable pub set_cache_field : Bytes → Bytes → CpuCache → CpuCache
unfolding set_cache_number or_old
set_cache_field path payload cache =
    if ends_with path (codes "/shared_cpu_list")
    then record cache { shared_cpus = get_or (parse_cpu_id_list payload) cache.shared_cpus }
    else if ends_with path (codes "/id")
    then record cache { cache_id = or_old (parse_u32 payload) cache.cache_id }
    else if ends_with path (codes "/number_of_sets")
    then record cache { sets = or_old (parse_u32 payload) cache.sets }
    else set_cache_number path payload cache

unfoldable pub pair_lt : ℕ × ℕ → ℕ × ℕ → Bool
pair_lt (a, b) (c, d) = ltb a c || (a == c && ltb b d)

unfoldable pub pair_eq : ℕ × ℕ → ℕ × ℕ → Bool
pair_eq (a, b) (c, d) = a == c && b == d

abbrev CacheMap : Type 0
CacheMap = List ((ℕ × ℕ) × CpuCache)

-- `cache_map[key]`, changed; `cpu_number` is set each time
unfoldable pub update_cache : ℕ × ℕ → (CpuCache → CpuCache) → CacheMap → CacheMap
unfolding pair_lt pair_eq
update_cache key f [] = (key, f (new_cache key.0)) ∷ []
update_cache key f ((k, cache) ∷ m) =
    let rest = update_cache key f m in
    if pair_eq key k
    then (k, f cache) ∷ m
    else if pair_lt key k
    then (key, f (new_cache key.0)) ∷ (k, cache) ∷ m
    else (k, cache) ∷ rest

unfoldable pub read_caches : List RawRecord → CacheMap → CacheMap
unfolding set_cache_field update_cache extract_cache_key
read_caches [] m = m
read_caches (rec ∷ records) m = read_caches records (
    if is_success rec.status
    then elim (extract_cache_key rec.path_or_command) [
      | none ↦ m
      | some key ↦ update_cache key (set_cache_field rec.path_or_command rec.payload) m
    ]
    else m)

unfoldable pub option_eq : Option ℕ → Option ℕ → Bool
option_eq none none = true
option_eq (some a) (some b) = a == b
option_eq _ _ = false

-- the same cache, seen from another CPU
unfoldable pub same_cache : CpuCache → CpuCache → Bool
unfolding option_eq type_code
same_cache cache other =
    not (is_nil cache.shared_cpus)
    && cache.level == other.level
    && type_code cache.type == type_code other.type
    && ids_eq cache.shared_cpus other.shared_cpus
    && option_eq cache.cache_id other.cache_id
    && cache.size == other.size
    && cache.ways == other.ways
    && cache.line_size == other.line_size
    && option_eq cache.sets other.sets

unfoldable pub push_caches : CacheMap → List CpuCache → List CpuCache
unfolding same_cache
push_caches [] caches = caches
push_caches ((key, cache) ∷ m) caches =
    push_caches m (if any (same_cache cache) caches then caches else caches ++ cache ∷ [])

unfoldable pub read_cpu_caches : RawStore → List CpuCache
unfolding read_caches push_caches
read_cpu_caches raw = push_caches (read_caches (get_all raw RawSource.sysfs_cpu) []) []
