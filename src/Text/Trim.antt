-- ===== src/Text/Trim.antt =====
-- White space at the ends of a text: `trim` and `hardware_text` of src/parser/parse_utils.cpp.
use sysal.Prelude.{
  if◌then◌else◌, Bool-cases, is_nil, All, Bytes, text_mem, ◌≡◌, refl, ap, ◌∙◌, inl, inr, true,
  false, ◌&&◌, [], ◌∷◌, ◌++◌, map, append-nil, arith,
}
use sysal.Text.{is_space, to_lower, trim_begin, trim_end, trim, placeholders, hardware_text}

-- no white space at the front, and none at the back
abbrev IsTrimmedFront : Bytes → Type 0
IsTrimmedFront [] = Unit {0}
IsTrimmedFront (c ∷ s) = is_space c ≡ false

abbrev AllSpace : Bytes → Type 0
AllSpace = All (λ c. is_space c ≡ true)

trim_begin-front : (s : Bytes) → IsTrimmedFront (trim_begin s)
unfolding trim_begin
trim_begin-front [] = tt
trim_begin-front (c ∷ s) = elim (Bool-cases (is_space c)) [
  | inl e ↦ rw e (trim_begin-front s)
  | inr e ↦ rw e e
]

trim_end-front : (s : Bytes) → IsTrimmedFront s → IsTrimmedFront (trim_end s)
unfolding trim_end
trim_end-front [] h = tt
trim_end-front (c ∷ s) h = rw h h

trim_end_idem : (s : Bytes) → trim_end (trim_end s) ≡ trim_end s
unfolding trim_end
trim_end_idem [] = refl
trim_end_idem (c ∷ s) = ground (arith, trim_end_idem s)

trim_begin-eq : (s : Bytes) → IsTrimmedFront s → trim_begin s ≡ s
unfolding trim_begin
trim_begin-eq [] h = refl
trim_begin-eq (c ∷ s) h = rw h

-- Trimming what is trimmed changes nothing.
trim_idem : (s : Bytes) → trim (trim s) ≡ trim s
unfolding trim
trim_idem s =
    rw (trim_begin-eq _ (trim_end-front _ (trim_begin-front s))) (trim_end_idem (trim_begin s))

trim_begin_parts : (s : Bytes) → (p : Bytes) × (s ≡ p ++ trim_begin s) × AllSpace p
unfolding trim_begin
trim_begin_parts [] = ([], refl, tt)
trim_begin_parts (c ∷ s) = elim (Bool-cases (is_space c)) [
  | inl e ↦ let (p, q, h) = trim_begin_parts s in (c ∷ p, rw e (ap (◌∷◌ c) q), (e, h))
  | inr e ↦ ([], rw e, tt)
]

trim_end-AllSpace : (q : Bytes) → AllSpace q → trim_end q ≡ []
unfolding trim_end
trim_end-AllSpace [] h = refl
trim_end-AllSpace (c ∷ q) (hc, h) = rw (trim_end-AllSpace q h, hc)

trim_end_pad : (m q : Bytes) → AllSpace q → trim_end (m ++ q) ≡ trim_end m
unfolding trim_end
trim_end_pad [] q h = trim_end-AllSpace q h
trim_end_pad (c ∷ m) q h = rw (trim_end_pad m q h)

trim_begin_pad : (p m : Bytes) → AllSpace p → trim_begin (p ++ m) ≡ trim_begin m
unfolding trim_begin
trim_begin_pad [] m h = refl
trim_begin_pad (c ∷ p) m (hc, h) = rw hc (trim_begin_pad p m h)

trim_end_parts : (s : Bytes) → (q : Bytes) × (s ≡ trim_end s ++ q) × AllSpace q
unfolding trim_end
trim_end_parts [] = ([], refl, tt)
trim_end_parts (c ∷ s) = let (q, e, h) = trim_end_parts s in go (trim_end s) q e h
  where
    go :
        (t q : Bytes)
        → s ≡ t ++ q
        → AllSpace q
        → (r : Bytes) × (c ∷ s ≡ (if is_space c && is_nil t then [] else c ∷ t) ++ r) × AllSpace r
    go [] q e h = elim (Bool-cases (is_space c)) [
      | inl k ↦ (c ∷ q, rw k (ap (◌∷◌ c) e), (k, h))
      | inr k ↦ (q, rw k (ap (◌∷◌ c) e), h)
    ]
    go (x ∷ t) q e h = (q, ground (arith, e), h)

-- A trimmed text comes back from any padding with white space.
trim_pad : (p m q : Bytes) → AllSpace p → AllSpace q → trim m ≡ m → trim (p ++ (m ++ q)) ≡ m
unfolding trim
trim_pad p m q hp hq h =
    rw (trim_begin_pad p (m ++ q) hp) (go m (rw (← h) (trim_end-front _ (trim_begin-front m))) h)
  where
    go :
        (m : Bytes)
        → IsTrimmedFront m
        → trim_end (trim_begin m) ≡ m
        → trim_end (trim_begin (m ++ q)) ≡ m
    go [] f h = unfold trim_end in rw (← append-nil q) (rw (trim_begin_pad q [] hq))
    go (c ∷ m) f h =
        rw (trim_begin-eq (c ∷ (m ++ q)) f)
          (trim_end_pad (c ∷ m) q hq ∙ rw (trim_begin-eq (c ∷ m) f) at h)

-- What `trim` removes is white space, at both ends, and nothing else.
trim_parts :
    (s : Bytes) → (p : Bytes) × (q : Bytes) × (s ≡ p ++ (trim s ++ q)) × AllSpace p × AllSpace q
unfolding trim
trim_parts s =
    let (p, e, hp) = trim_begin_parts s in
    let (q, e', hq) = trim_end_parts (trim_begin s) in (p, q, e ∙ ap (λ r. p ++ r) e', hp, hq)

pub trim-NoSpace : (s : Bytes) → All (λ c. is_space c ≡ false) s → trim s ≡ s
unfolding trim
trim-NoSpace [] h = unfold trim_begin trim_end in refl
trim-NoSpace (c ∷ s) h = rw (trim_begin-eq (c ∷ s) h.0) (go (c ∷ s) h)
  where
    go : (s : Bytes) → All (λ c. is_space c ≡ false) s → trim_end s ≡ s
    go [] h = unfold trim_end in refl
    go (c ∷ s) (hc, h) = unfold trim_end in rw (hc, go s h)

-- Firmware text is blank or already clean: cleaning it again changes nothing.
hardware_text_idem : (s : Bytes) → hardware_text (hardware_text s) ≡ hardware_text s
unfolding hardware_text
hardware_text_idem s = elim (Bool-cases (text_mem (map to_lower (trim s)) placeholders)) [
  | inl e ↦ rw e
  | inr e ↦ rw (e, trim_idem s, e)
]
