-- ===== src/Cgroup/Summary.antt =====
-- The class `LimitSummary` of src/parser/cgroup.cpp, over a value type and its `operator<`.
use sysal.Prelude.{
  if◌then◌else◌, Bool-cases, all, is_nil, All, ◌≡◌, refl, sym, ◌∙◌, ◌≢◌, ◌⊎◌, inl, inr, Bool, true,
  false, not, ◌&&◌, ◌||◌, Option, none, some, List, [], ◌∷◌, arith,
}

pub data LimitState : Type 0 where
  unknown unlimited finite incomplete : LimitState

pub record LimitSummary (V : Type 0) : Type 0 where
  pub state : LimitState
  pub best : Option V

abbrev pub empty_summary : {V : Type 0} → LimitSummary V
empty_summary = record { state = unknown; best = none }

unfoldable pub adopt_state : LimitState → LimitState
adopt_state incomplete = incomplete
adopt_state _ = finite

unfoldable pub unlimited_state : LimitState → LimitState
unlimited_state unknown = unlimited
unlimited_state s = s

unfoldable pub known_state : LimitState → Bool
known_state unlimited = true
known_state finite = true
known_state _ = false

unfoldable pub incomplete_state : LimitState → Bool
incomplete_state incomplete = true
incomplete_state _ = false

-- what a limit file may say
pub data Reading (V : Type 0) : Type 0 where
  limit : V → Reading V
  no_limit unreadable : Reading V

module _ {V : Type 0} (less : V → V → Bool) where
  unfoldable pub adopt_best : Option V → V → V
  adopt_best none value = value
  adopt_best (some old) value = if less value old then value else old

  -- `adopt`, `unlimited` and `unreadable`
  unfoldable pub take_reading : LimitSummary V → Reading V → LimitSummary V
  take_reading l (limit value) = record {
    state = adopt_state l.state;
    best = some (adopt_best l.best value);
  }
  take_reading l no_limit = record l { state = unlimited_state l.state }
  take_reading l unreadable = record l { state = incomplete }

  unfoldable pub take_readings : LimitSummary V → List (Reading V) → LimitSummary V
  take_readings l [] = l
  take_readings l (r ∷ rs) = take_readings (take_reading l r) rs

-- the limits among the readings, and whether one could not be read
unfoldable pub limits : {V : Type 0} → List (Reading V) → List V
limits [] = []
limits (limit v ∷ rs) = v ∷ limits rs
limits (no_limit ∷ rs) = limits rs
limits (unreadable ∷ rs) = limits rs

unfoldable pub has_unreadable : {V : Type 0} → List (Reading V) → Bool
has_unreadable [] = false
has_unreadable (unreadable ∷ rs) = true
has_unreadable (limit v ∷ rs) = has_unreadable rs
has_unreadable (no_limit ∷ rs) = has_unreadable rs

-- `operator<` is a strict weak order on the values that are `Good`
pub record IsStrictOrder {V : Type 0} (Good : V → Type 0) (less : V → V → Bool) : Type 0 where
  pub irreflexive : (a : V) → Good a → less a a ≡ false
  pub transitive :
      (a b c : V)
      → Good a
      → Good b
      → Good c
      → less a b ≡ false
      → less b c ≡ false
      → less a c ≡ false
  pub asymmetric : (a b : V) → Good a → Good b → less a b ≡ true → less b a ≡ false

-- folding a list of values into the one that is kept
unfoldable keep_best : {V : Type 0} → (V → V → Bool) → Option V → List V → Option V
keep_best less b [] = b
keep_best less b (v ∷ vs) = keep_best less (some (adopt_best less b v)) vs

abbrev IsIn : {V : Type 0} → V → List V → Type 0
IsIn b [] = ⊥
IsIn b (v ∷ vs) = (b ≡ v) ⊎ IsIn b vs

module _ {V : Type 0} (less : V → V → Bool) where
  best-take_readings :
      (l : LimitSummary V) (rs : List (Reading V))
      → (take_readings less l rs).best ≡ keep_best less l.best (limits rs)
  unfolding take_readings take_reading keep_best limits
  best-take_readings l [] = refl
  best-take_readings l (limit v ∷ rs) = best-take_readings (take_reading less l (limit v)) rs
  best-take_readings l (no_limit ∷ rs) = best-take_readings (take_reading less l no_limit) rs
  best-take_readings l (unreadable ∷ rs) = best-take_readings (take_reading less l unreadable) rs

  incomplete-take_readings :
      (l : LimitSummary V) (rs : List (Reading V))
      → incomplete_state (take_readings less l rs).state
        ≡ (incomplete_state l.state || has_unreadable rs)
  unfolding take_readings take_reading incomplete_state has_unreadable adopt_state unlimited_state
  incomplete-take_readings l [] = ground arith
  incomplete-take_readings l (limit v ∷ rs) =
      ground (arith, incomplete-take_readings (take_reading less l (limit v)) rs)
  incomplete-take_readings l (no_limit ∷ rs) =
      ground (arith, incomplete-take_readings (take_reading less l no_limit) rs)
  incomplete-take_readings l (unreadable ∷ rs) =
      ground (arith, incomplete-take_readings (take_reading less l unreadable) rs)

  known-take_readings :
      (l : LimitSummary V) (rs : List (Reading V))
      → known_state (take_readings less l rs).state ≡ (
          not (incomplete_state l.state || has_unreadable rs)
          && (known_state l.state || not (is_nil rs)))
  unfolding take_readings take_reading incomplete_state known_state has_unreadable adopt_state
      unlimited_state
  known-take_readings l [] = ground arith
  known-take_readings l (limit v ∷ rs) =
      ground (arith, known-take_readings (take_reading less l (limit v)) rs)
  known-take_readings l (no_limit ∷ rs) =
      ground (arith, known-take_readings (take_reading less l no_limit) rs)
  known-take_readings l (unreadable ∷ rs) =
      ground (arith, known-take_readings (take_reading less l unreadable) rs)

  module _ (Good : V → Type 0) (order : IsStrictOrder Good less) where
    Good-IsIn : (b : V) (vs : List V) → All Good vs → IsIn b vs → Good b
    Good-IsIn b [] gs h = elim h [ ]
    Good-IsIn b (v ∷ vs) (g, gs) (inl e) = rw e g
    Good-IsIn b (v ∷ vs) (g, gs) (inr h) = Good-IsIn b vs gs h

    least_of :
        (a b : V) (vs : List V)
        → Good a
        → All Good vs
        → keep_best less (some a) vs ≡ some b
        → (less a b ≡ false) × All (λ v. less v b ≡ false) vs × IsIn b (a ∷ vs)
    unfolding keep_best adopt_best
    least_of a b [] g gs h =
        let e : b ≡ a = ground arith in (rw e (order.irreflexive a g), tt, inl e)
    least_of a b (v ∷ vs) g (gv, gs) h = elim (Bool-cases (less v a)) [
      | inl e ↦
          let (above, all, there) = least_of v b vs gv gs (rw e at h) in
          let good = Good-IsIn b (v ∷ vs) (gv, gs) there in
          (
            order.transitive a v b g gv good (order.asymmetric v a gv g e) above,
            (above, all),
            inr there,
          )
      | inr e ↦
          let (above, all, there) = least_of a b vs g gs (rw e at h) in
          let good = Good-IsIn b (a ∷ vs) (g, gs) there in
          (
            above,
            (order.transitive v a b gv g good e above, all),
            elim there [ inl q ↦ inl q | inr q ↦ inr (inr q) ],
          )
    ]

    best_of :
        (vs : List V) (b : V)
        → All Good vs
        → keep_best less none vs ≡ some b
        → All (λ v. less v b ≡ false) vs × IsIn b vs
    unfolding keep_best adopt_best
    best_of [] b gs h = absurd (ground arith)
    best_of (v ∷ vs) b (g, gs) h =
        let (above, all, there) = least_of v b vs g gs h in ((above, all), there)

  some_of : (a : V) (vs : List V) → keep_best less (some a) vs ≢ none
  unfolding keep_best
  some_of a [] h = cc
  some_of a (v ∷ vs) h = some_of (adopt_best less (some a) v) vs h

  none_of : (vs : List V) → keep_best less none vs ≡ none → vs ≡ []
  unfolding keep_best
  none_of [] h = refl
  none_of (v ∷ vs) h = absurd (some_of (adopt_best less none v) vs h)

-- the value is in the list and none of the list is less; there is no value only if the list is empty
abbrev pub IsBest : {V : Type 0} → (V → V → Bool) → Option V → List V → Type 0
IsBest less none vs = vs ≡ []
IsBest less (some b) vs = All (λ v. less v b ≡ false) vs × IsIn b vs

take_readings_lem :
    {V : Type 0} (Good : V → Type 0) (less : V → V → Bool)
    → IsStrictOrder Good less
    → (rs : List (Reading V)) → All Good (limits rs)
    → (known_state (take_readings less empty_summary rs).state
        ≡ (not (has_unreadable rs) && not (is_nil rs)))
      × (incomplete_state (take_readings less empty_summary rs).state ≡ has_unreadable rs)
      × ((b : V)
          → (take_readings less empty_summary rs).best ≡ some b
          → All (λ v. less v b ≡ false) (limits rs) × IsIn b (limits rs))
      × ((take_readings less empty_summary rs).best ≡ none → limits rs ≡ [])
unfolding known_state incomplete_state
take_readings_lem Good less order rs good = (
  known-take_readings less empty_summary rs,
  incomplete-take_readings less empty_summary rs,
  λ b h.
      best_of less Good order (limits rs) b good
        (sym (best-take_readings less empty_summary rs) ∙ h),
  λ h. none_of less (limits rs) (sym (best-take_readings less empty_summary rs) ∙ h),
)

pack-IsBest :
    {V : Type 0} (less : V → V → Bool) (o : Option V) (vs : List V)
    → ((b : V) → o ≡ some b → All (λ v. less v b ≡ false) vs × IsIn b vs)
    → (o ≡ none → vs ≡ [])
    → IsBest less o vs
pack-IsBest less none vs h k = k refl
pack-IsBest less (some b) vs h k = h b refl

-- What a summary of readings says, for a strict weak order on the limits among them: it is known if there was a reading and
-- none failed; it is incomplete if one failed; and the limit that it keeps is the least of those
-- read, or missing if none was read.
pub take_readings-IsBest :
    {V : Type 0} (Good : V → Type 0) (less : V → V → Bool)
    → IsStrictOrder Good less
    → (rs : List (Reading V)) → All Good (limits rs)
    → (known_state (take_readings less empty_summary rs).state
        ≡ (not (has_unreadable rs) && not (is_nil rs)))
      × (incomplete_state (take_readings less empty_summary rs).state ≡ has_unreadable rs)
      × IsBest less (take_readings less empty_summary rs).best (limits rs)
take_readings-IsBest Good less order rs good =
    let (known, partly, least, nothing) = take_readings_lem Good less order rs good in
    (
      known,
      partly,
      pack-IsBest less (take_readings less empty_summary rs).best (limits rs) least nothing,
    )
