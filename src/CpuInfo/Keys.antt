-- ===== src/CpuInfo/Keys.antt =====
-- Where the ids of packages and cores stand in their sets, for src/parser/cpu.cpp.
use sysal.Prelude.{
  ◌==◌, Bool-cases, get_elem?, All, ℕ, suc, ◌≡◌, refl, sym, ap, inl, inr, Bool, true, false, ◌||◌,
  some, List, [], ◌∷◌, arith,
}
use sysal.Prelude.Sets.{contains, contains-set_insert}
use sysal.CpuInfo.{CpuInfoEntry}
use sysal.CpuInfo.Caches.{pair_eq}
use sysal.CpuInfo.Build.{package_ids, insert_pair, core_keys, find_id, find_key}

-- the place of a member, and what stands there
abbrev IdPlace : ℕ → List ℕ → Type 0
IdPlace id ids = (i : ℕ) × ((find_id id ids ≡ some i) × (get_elem? ids i ≡ some id))

pub find_id-member : (id : ℕ) (ids : List ℕ) → contains id ids ≡ true → IdPlace id ids
unfolding find_id
find_id-member id [] h = cc
find_id-member id (x ∷ xs) h = elim (Bool-cases (id == x)) [
  | inl e ↦ (0, (rw e refl, ground arith))
  | inr e ↦ let (i, (f, g)) = find_id-member id xs (ground arith) in (suc i, (rw (e, f) refl, g))
]

abbrev KeyPlace : ℕ × ℕ → List (ℕ × ℕ) → Type 0
KeyPlace key keys = (i : ℕ) × ((find_key key keys ≡ some i) × (get_elem? keys i ≡ some key))

-- membership of a pair
unfoldable pub has_key : ℕ × ℕ → List (ℕ × ℕ) → Bool
has_key key [] = false
has_key key (k ∷ ks) = pair_eq key k || has_key key ks

pair_eq-same : (p q : ℕ × ℕ) → pair_eq p q ≡ true → p ≡ q
unfolding pair_eq
pair_eq-same (a, b) (c, d) h = ground arith

pub find_key-member :
    (key : ℕ × ℕ) (keys : List (ℕ × ℕ)) → has_key key keys ≡ true → KeyPlace key keys
unfolding find_key has_key
find_key-member key [] h = cc
find_key-member key (k ∷ ks) h = elim (Bool-cases (pair_eq key k)) [
  | inl e ↦ (0, (rw e refl, ap some (sym (pair_eq-same key k e))))
  | inr e ↦ let (i, (f, g)) = find_key-member key ks (ground arith) in (suc i, (rw (e, f) refl, g))
]

pair_eq_refl : (p : ℕ × ℕ) → pair_eq p p ≡ true
unfolding pair_eq
pair_eq_refl (a, b) = ground arith

has_key-insert_same : (p : ℕ × ℕ) (qs : List (ℕ × ℕ)) → has_key p (insert_pair p qs) ≡ true
unfolding has_key insert_pair
has_key-insert_same p [] = ground (arith, pair_eq_refl p)
has_key-insert_same p (q ∷ qs) = ground (arith, pair_eq_refl p, has_key-insert_same p qs)

has_key-insert :
    (p q : ℕ × ℕ) (qs : List (ℕ × ℕ)) → has_key p qs ≡ true → has_key p (insert_pair q qs) ≡ true
unfolding has_key insert_pair
has_key-insert p q [] h = cc
has_key-insert p q (r ∷ rs) h = ground (arith, has_key-insert p q rs)

has_key-core_keys :
    (p : ℕ × ℕ) (es : List CpuInfoEntry) (keys : List (ℕ × ℕ))
    → has_key p keys ≡ true
    → has_key p (core_keys es keys) ≡ true
unfolding core_keys
has_key-core_keys p [] keys h = h
has_key-core_keys p (e ∷ es) keys h =
    has_key-core_keys p es _ (has_key-insert p (e.physical_id, e.core_id) keys h)

contains-package_ids :
    (id : ℕ) (es : List CpuInfoEntry) (ids : List ℕ)
    → contains id ids ≡ true
    → contains id (package_ids es ids) ≡ true
unfolding package_ids
contains-package_ids id [] ids h = h
contains-package_ids id (e ∷ es) ids h =
    contains-package_ids id es _ (ground (arith, contains-set_insert id e.physical_id ids))

-- the package and the core of an entry are members of the sets
abbrev pub IsKnown : List (ℕ × ℕ) → List ℕ → CpuInfoEntry → Type 0
IsKnown keys ids e =
    (has_key (e.physical_id, e.core_id) keys ≡ true) × (contains e.physical_id ids ≡ true)

pub entries-IsKnown :
    (es : List CpuInfoEntry) (keys : List (ℕ × ℕ)) (ids : List ℕ)
    → All (IsKnown (core_keys es keys) (package_ids es ids)) es
unfolding core_keys package_ids
entries-IsKnown [] keys ids = tt
entries-IsKnown (e ∷ es) keys ids = (
  (
    has_key-core_keys (e.physical_id, e.core_id) es _
        (has_key-insert_same (e.physical_id, e.core_id) keys),
    contains-package_ids e.physical_id es _
        (ground (arith, contains-set_insert e.physical_id e.physical_id ids)),
  ),
  entries-IsKnown es _ _,
)
