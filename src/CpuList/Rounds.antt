-- ===== src/CpuList/Rounds.antt =====
-- How often the inner loop of `parse_cpu_id_list` of src/parser/cpu_details.cpp runs.
use sysal.Prelude.{
  ltb, leb, if◌then◌else◌, length, Bytes, ℕ, zero, suc, ◌+◌, ◌-◌, ◌%◌, ◌^◌, ◌≤◌, ◌<◌, ◌≡◌, Option,
  none, some, List, arith,
}
use sysal.Prelude.Sets.{set_insert}
use sysal.Number.{max_u32, u64_mod}
use sysal.CpuList.{max_cpu_count, token_range, insert_range}

-- what the loop does in the fuel that it is given: `none` is out of fuel, `some none` is the early
-- return; the counter is a `std::uint64_t`
unfoldable pub range_loop : ℕ → ℕ → ℕ → List ℕ → Option (Option (List ℕ))
range_loop zero id last_id ids = none
range_loop (suc fuel) id last_id ids =
    let ids' = set_insert (id % 2 ^ 32) ids in
    let rest = range_loop fuel ((id + 1) % u64_mod) last_id ids' in
    if leb id last_id
    then (if ltb max_cpu_count (length ids') then some none else rest)
    else some (some ids)

range_loop-insert_range :
    (fuel rounds id last_id : ℕ) (ids : List ℕ)
    → last_id ≤ max_u32
    → id + rounds ≡ last_id + 1
    → rounds < fuel
    → range_loop fuel id last_id ids ≡ some (insert_range rounds id ids)
unfolding range_loop insert_range
range_loop-insert_range zero rounds id last_id ids small there enough = ground arith
range_loop-insert_range (suc fuel) zero id last_id ids small there enough = ground arith
range_loop-insert_range (suc fuel) (suc rounds) id last_id ids small there enough =
    let below : (id + 1) % u64_mod ≡ id + 1 = ground arith in
    let rest =
      range_loop-insert_range fuel rounds (id + 1) last_id (set_insert (id % 2 ^ 32) ids) small
        (omega arith) (omega arith) in
    ground (arith, below, rest)

-- For a token that is accepted, the loop `for(id = first_id; id <= last_id; ++id)` with its 64-bit
-- counter ends within 65537 evaluations of its condition, and does what `insert_range` does for the
-- numbers from the first to the last.
pub token_range-range_loop :
    (token : Bytes) (first_id last_id : ℕ) (ids : List ℕ)
    → token_range token ≡ some (first_id, last_id)
    → range_loop (max_cpu_count + 1) first_id last_id ids
      ≡ some (insert_range (last_id + 1 - first_id) first_id ids)
token_range-range_loop token first_id last_id ids h =
    let fits : (first_id ≤ last_id)
        × ((last_id ≤ max_u32) × (last_id + 1 - first_id ≤ max_cpu_count)) =
      unfold token_range in ground arith in
    range_loop-insert_range (max_cpu_count + 1) (last_id + 1 - first_id) first_id last_id ids
      fits.1.0 (omega arith) (omega arith)
