-- ===== src/Sensors/Limits.antt =====
-- The critical limit of a thermal zone, for src/parser/sensors.cpp.
use sysal.Prelude.{
  if◌then◌else◌, Bool-cases, All, Bytes, ◌≡◌, refl, inl, inr, Bool, true, false, not, ◌||◌, Option,
  none, some, [], ◌∷◌, arith,
}
use sysal.Number.{ℤ, pos, negsuc, signed_lt}
use sysal.Sensors.{Attributes}
use sysal.Sensors.Groups.{lower_limit, is_critical_trip, trip_limit, critical_trips}

-- `r` is there and not above `l`, if that is there
unfoldable pub not_above : Option ℤ → Option ℤ → Bool
not_above r none = true
not_above none (some l) = false
not_above (some r) (some l) = not (signed_lt l r)

signed_lt_irrefl : (a : ℤ) → signed_lt a a ≡ false
unfolding signed_lt
signed_lt_irrefl (pos n) = ground arith
signed_lt_irrefl (negsuc n) = ground arith

signed_lt_trans :
    (a b c : ℤ) → signed_lt a b ≡ false → signed_lt b c ≡ false → signed_lt a c ≡ false
unfolding signed_lt
signed_lt_trans (pos a) (pos b) (pos c) h k = ground arith
signed_lt_trans (pos a) (pos b) (negsuc c) h k = refl
signed_lt_trans (pos a) (negsuc b) (pos c) h k = cc
signed_lt_trans (pos a) (negsuc b) (negsuc c) h k = refl
signed_lt_trans (negsuc a) (pos b) c h k = cc
signed_lt_trans (negsuc a) (negsuc b) (pos c) h k = cc
signed_lt_trans (negsuc a) (negsuc b) (negsuc c) h k = ground arith

signed_lt_asym : (a b : ℤ) → signed_lt a b ≡ true → signed_lt b a ≡ false
unfolding signed_lt
signed_lt_asym (pos a) (pos b) h = ground arith
signed_lt_asym (pos a) (negsuc b) h = cc
signed_lt_asym (negsuc a) (pos b) h = refl
signed_lt_asym (negsuc a) (negsuc b) h = ground arith

not_above_trans :
    (r s t : Option ℤ) → not_above r s ≡ true → not_above s t ≡ true → not_above r t ≡ true
unfolding not_above
not_above_trans r s none h k = refl
not_above_trans r none (some c) h k = cc
not_above_trans none (some b) (some c) h k = cc
not_above_trans (some a) (some b) (some c) h k = ground (arith, signed_lt_trans c b a)

lower_limit-old : (c l : Option ℤ) → not_above (lower_limit c l) c ≡ true
unfolding not_above lower_limit
lower_limit-old none none = refl
lower_limit-old (some a) none = ground (arith, signed_lt_irrefl a)
lower_limit-old none (some b) = refl
lower_limit-old (some a) (some b) = ground (arith, signed_lt_irrefl a, signed_lt_asym b a)

lower_limit-new : (c l : Option ℤ) → not_above (lower_limit c l) l ≡ true
unfolding not_above lower_limit
lower_limit-new c none = refl
lower_limit-new none (some b) = ground (arith, signed_lt_irrefl b)
lower_limit-new (some a) (some b) = ground (arith, signed_lt_irrefl b)

critical_trips-old :
    (all_attributes attributes : Attributes) (c : Option ℤ)
    → not_above (critical_trips all_attributes attributes c) c ≡ true
unfolding critical_trips
critical_trips-old all_attributes [] none = unfold not_above in refl
critical_trips-old all_attributes [] (some a) =
    unfold not_above in ground (arith, signed_lt_irrefl a)
critical_trips-old all_attributes ((field, type) ∷ attributes) c =
    elim (Bool-cases (is_critical_trip field type)) [
      | inl e ↦ rw e (
          not_above_trans _ (lower_limit c (trip_limit all_attributes field)) c
            (critical_trips-old all_attributes attributes _)
            (lower_limit-old c (trip_limit all_attributes field)))
      | inr e ↦ rw e (critical_trips-old all_attributes attributes c)
    ]

-- the limit of a trip point, if it is critical, is not below the result
abbrev pub IsCovered : Attributes → Option ℤ → Bytes × Bytes → Type 0
IsCovered all_attributes r (field, type) =
    (not (is_critical_trip field type) || not_above r (trip_limit all_attributes field)) ≡ true

first-IsCovered :
    (all_attributes attributes : Attributes) (field type : Bytes) (c : Option ℤ)
    → IsCovered all_attributes
        (critical_trips all_attributes ((field, type) ∷ attributes) c)
        (field, type)
unfolding critical_trips
first-IsCovered all_attributes attributes field type c =
    let limit = trip_limit all_attributes field in
    elim (Bool-cases (is_critical_trip field type)) [
      | inl e ↦ rw e (
          not_above_trans (critical_trips all_attributes attributes (lower_limit c limit))
            (lower_limit c limit) limit (critical_trips-old all_attributes attributes _)
            (lower_limit-new c limit))
      | inr e ↦ rw e refl
    ]

-- The critical limit of a thermal zone is there if one of its critical trip points has a temperature
-- that can be read, and it is not above the temperature of any of them.
pub critical_trips-IsCovered :
    (all_attributes attributes : Attributes) (c : Option ℤ)
    → All (IsCovered all_attributes (critical_trips all_attributes attributes c)) attributes
unfolding critical_trips
critical_trips-IsCovered all_attributes [] c = tt
critical_trips-IsCovered all_attributes ((field, type) ∷ attributes) c = (
  first-IsCovered all_attributes attributes field type c,
  critical_trips-IsCovered all_attributes attributes
      (if is_critical_trip field type then lower_limit c (trip_limit all_attributes field) else c),
)
