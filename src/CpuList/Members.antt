-- ===== src/CpuList/Members.antt =====
-- Which CPU numbers `parse_cpu_id_list` of src/parser/cpu_details.cpp returns.
use sysal.Prelude.{
  ltb, leb, Option-cases, length, any, Bytes, ℕ, zero, suc, ◌+◌, ◌-◌, ◌%◌, ◌^◌, ◌≤◌, ◌≡◌, inl, inr,
  Bool, false, ◌&&◌, ◌||◌, none, some, List, [], ◌∷◌, arith,
}
use sysal.Prelude.Sets.{
  set_insert, contains, IsAscending, contains-set_insert, IsAscending-set_insert,
}
use sysal.Text.{split}
use sysal.Number.{max_u32}
use sysal.CpuList.{
  max_cpu_count, normalize, token_range, insert_range, insert_tokens, parse_cpu_id_list,
}

-- the tokens of a list, empty ones among them
unfoldable pub tokens_of : Bytes → List Bytes
tokens_of value = split (normalize value) b','

-- a token names a number if it lies in the token's range
unfoldable pub names : ℕ → Bytes → Bool
names id [] = false
names id (c ∷ cs) = elim (token_range (c ∷ cs)) [
  | none ↦ false
  | some (first_id, last_id) ↦ leb first_id id && leb id last_id
]

token_range_bounds : (t : Bytes) (a b : ℕ) → token_range t ≡ some (a, b) → (a ≤ b) × (b ≤ max_u32)
unfolding token_range
token_range_bounds t a b h = ground arith

insert_range-contains :
    (rounds id x : ℕ) (ids r : List ℕ)
    → id + rounds ≤ 2 ^ 32
    → insert_range rounds id ids ≡ some r
    → contains x r ≡ ((leb id x && ltb x (id + rounds)) || contains x ids)
unfolding insert_range
insert_range-contains zero id x ids r h e = ground arith
insert_range-contains (suc rounds) id x ids r h e = ground (
  arith,
  insert_range-contains rounds (id + 1) x (set_insert (id % 2 ^ 32) ids) r,
  contains-set_insert x (id % 2 ^ 32) ids,
)

insert_range-IsAscending :
    (rounds id : ℕ) (ids r : List ℕ)
    → IsAscending ids
    → length ids ≤ max_cpu_count
    → insert_range rounds id ids ≡ some r
    → IsAscending r × (length r ≤ max_cpu_count)
unfolding insert_range
insert_range-IsAscending zero id ids r h len e = ground arith
insert_range-IsAscending (suc rounds) id ids r h len e = ground (
  arith,
  insert_range-IsAscending rounds (id + 1) (set_insert (id % 2 ^ 32) ids) r,
  IsAscending-set_insert (id % 2 ^ 32) ids h,
)

insert_tokens-contains :
    (tokens : List Bytes) (x : ℕ) (ids r : List ℕ)
    → insert_tokens tokens ids ≡ some r
    → contains x r ≡ (any (names x) tokens || contains x ids)
unfolding insert_tokens names
insert_tokens-contains [] x ids r e = ground arith
insert_tokens-contains ([] ∷ tokens) x ids r e = insert_tokens-contains tokens x ids r e
insert_tokens-contains ((c ∷ cs) ∷ tokens) x ids r e = elim (Option-cases (token_range (c ∷ cs))) [
  | inl t ↦ absurd (ground arith)
  | inr ((a, b), t) ↦ elim (Option-cases (insert_range (b + 1 - a) a ids)) [
    | inl u ↦ absurd (ground arith)
    | inr (ids', u) ↦ ground (
      arith,
      token_range_bounds (c ∷ cs) a b t,
      insert_range-contains (b + 1 - a) a x ids ids',
      insert_tokens-contains tokens x ids' r,
    )
  ]
]

insert_tokens-IsAscending :
    (tokens : List Bytes) (ids r : List ℕ)
    → IsAscending ids
    → length ids ≤ max_cpu_count
    → insert_tokens tokens ids ≡ some r
    → IsAscending r × (length r ≤ max_cpu_count)
unfolding insert_tokens
insert_tokens-IsAscending [] ids r h len e = ground arith
insert_tokens-IsAscending ([] ∷ tokens) ids r h len e =
    insert_tokens-IsAscending tokens ids r h len e
insert_tokens-IsAscending ((c ∷ cs) ∷ tokens) ids r h len e =
    elim (Option-cases (token_range (c ∷ cs))) [
      | inl t ↦ absurd (ground arith)
      | inr ((a, b), t) ↦ elim (Option-cases (insert_range (b + 1 - a) a ids)) [
        | inl u ↦ absurd (ground arith)
        | inr (ids', u) ↦
            let (asc, small) = insert_range-IsAscending (b + 1 - a) a ids ids' h len u in
            insert_tokens-IsAscending tokens ids' r asc small (ground arith)
      ]
    ]

-- A list that is accepted gives exactly the numbers that some token names, in ascending order,
-- each once, and at most 65536 of them.
pub parse_cpu_id_list_lem :
    (value : Bytes) (ids : List ℕ)
    → parse_cpu_id_list value ≡ some ids
    → ((x : ℕ) → contains x ids ≡ any (names x) (tokens_of value))
      × IsAscending ids
      × (length ids ≤ max_cpu_count)
unfolding parse_cpu_id_list tokens_of
parse_cpu_id_list_lem value ids e =
    let tokens = split (normalize value) b',' in
    let (asc, small) = insert_tokens-IsAscending tokens [] ids tt (omega arith) e in
    (λ x. ground (arith, insert_tokens-contains tokens x [] ids e), asc, small)
