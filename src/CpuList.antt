-- ===== src/CpuList.antt =====
-- `parse_cpu_id_list` of src/parser/cpu_details.cpp: a list of CPU numbers and ranges.
pub mod Members
pub mod Rounds
use sysal.Prelude.{
  ltb, leb, if◌then◌else◌, length, take, drop, Bytes, ◌>>=◌, ℕ, zero, suc, ◌+◌, ◌-◌, ◌%◌, ◌^◌, ◌||◌,
  Option, none, some, List, [], ◌∷◌, map,
}
use sysal.Prelude.Sets.{set_insert}
use sysal.Text.{is_space, split, find}
use sysal.Number.{max_u32, parse_uint}

abbrev pub max_cpu_count : ℕ
max_cpu_count = 65536

-- white space becomes a comma
unfoldable pub normalize : Bytes → Bytes
normalize = map (λ c. if is_space c then b',' else c)

-- the first and the last number of a token; `none` is the early return
unfoldable pub token_range : Bytes → Option (ℕ × ℕ)
token_range token = do
  first_id ← elim (find token b'-') [
    | none ↦ parse_uint token
    | some dash ↦ parse_uint (take dash token)
  ]
  last_id ← elim (find token b'-') [
    | none ↦ parse_uint token
    | some dash ↦ parse_uint (drop (dash + 1) token)
  ]
  (if ltb last_id first_id || ltb max_u32 last_id || leb max_cpu_count (last_id - first_id)
      then none
      else some (first_id, last_id))

-- the inner loop: `rounds` numbers are left, from `id` on
unfoldable pub insert_range : ℕ → ℕ → List ℕ → Option (List ℕ)
insert_range zero id ids = some ids
insert_range (suc rounds) id ids =
    let ids' = set_insert (id % 2 ^ 32) ids in
    let rest = insert_range rounds (id + 1) ids' in
    if ltb max_cpu_count (length ids') then none else rest

-- the outer loop, over the tokens
unfoldable pub insert_tokens : List Bytes → List ℕ → Option (List ℕ)
insert_tokens [] ids = some ids
insert_tokens ([] ∷ tokens) ids = insert_tokens tokens ids
insert_tokens ((c ∷ cs) ∷ tokens) ids = do
  (first_id, last_id) ← token_range (c ∷ cs)
  ids' ← insert_range (last_id + 1 - first_id) first_id ids
  insert_tokens tokens ids'

unfoldable pub parse_cpu_id_list : Bytes → Option (List ℕ)
parse_cpu_id_list value = insert_tokens (split (normalize value) b',') []
