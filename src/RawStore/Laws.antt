-- ===== src/RawStore/Laws.antt =====
-- The queries of src/model/raw_store.cpp and the records they range over.
use sysal.Prelude.{
  ◌==◌, if◌then◌else◌, Bool-cases, length, any, keep, is_nil, All, keep-All_of, length-keep-not,
  Bytes, text_eq, text_eq_iff, ◌+◌, ◌≡◌, refl, sym, ◌∙◌, ◌↔◌, inl, inr, Bool, not, ◌&&◌, none, some,
  List, [], ◌∷◌, arith,
}
use sysal.Types.{RawSource, source_eq, source_eq_iff, is_success}
use sysal.RawStore.{
  InventoryKind, kind_eq, InventoryEnumeration, RawStore, enumeration_loop, enumeration, get_all,
  get, has_source, has_success, count,
}

module _ {ℓ} {A : Type ℓ} where
  any-keep : (p : A → Bool) (xs : List A) → any p xs ≡ not (is_nil (keep p xs))
  any-keep p [] = refl
  any-keep p (x ∷ xs) = ground (arith, any-keep p xs)

  keep-keep : (p q : A → Bool) (xs : List A) → keep p (keep q xs) ≡ keep (λ x. q x && p x) xs
  keep-keep p q [] = refl
  keep-keep p q (x ∷ xs) = ground (arith, keep-keep p q xs)

  not-is_nil : (xs : List A) → not (is_nil xs) ≡ not (length xs == 0)
  not-is_nil [] = refl
  not-is_nil (x ∷ xs) = ground arith

  any-&& : (p q : A → Bool) (xs : List A) → any (λ x. p x && q x) xs ≡ any q (keep p xs)
  any-&& p q [] = refl
  any-&& p q (x ∷ xs) = ground (arith, any-&& p q xs)

-- The queries agree: `get` and `has_success` are what the records of `get_all` give, `count` is
-- their number, and `has` says whether there is one.
queries_agree :
    (store : RawStore) (source : RawSource) (path : Bytes)
    → (get store source path ≡ keep (λ r. text_eq r.path_or_command path) (get_all store source))
      × (has_success store source ≡ any (λ r. is_success r.status) (get_all store source))
      × (count store source ≡ length (get_all store source))
      × (has_source store source ≡ not (count store source == 0))
unfolding get get_all has_source has_success count
queries_agree store source path = (
  sym (keep-keep _ _ store.records),
  any-&& _ _ store.records,
  refl,
  any-keep _ store.records ∙ not-is_nil _,
)

-- Every record that `get` returns has the source and the path that were asked for, and the records
-- that it leaves out do not have both.
get_exact :
    (store : RawStore) (source : RawSource) (path : Bytes)
    → All (λ r. (r.source ≡ source) × (r.path_or_command ≡ path)) (get store source path)
      × (length (get store source path)
            + length (
                keep
                  (λ r. not (source_eq r.source source && text_eq r.path_or_command path))
                  store.records)
          ≡ length store.records)
unfolding get
get_exact store source path = (
  keep-All_of _
      (λ r h. ground (arith, source_eq_iff r.source source, text_eq_iff r.path_or_command path))
      store.records,
  length-keep-not _ store.records,
)

-- the reports of one kind
abbrev pub of_kind : InventoryKind → List InventoryEnumeration → List InventoryEnumeration
of_kind kind = keep (λ e. kind_eq e.inventory kind)

enumeration_loop-some :
    (kind : InventoryKind) (es : List InventoryEnumeration) (e : InventoryEnumeration)
    → enumeration_loop kind es (some e) ≡ (if is_nil (of_kind kind es) then some e else none)
unfolding enumeration_loop
enumeration_loop-some kind [] e = refl
enumeration_loop-some kind (x ∷ es) e = ground (arith, enumeration_loop-some kind es e)

alone :
    (l : List InventoryEnumeration) (x e : InventoryEnumeration)
    → ((if is_nil l then some x else none) ≡ some e) ↔ (x ∷ l ≡ e ∷ [])
alone [] x e = (λ h. ground arith, λ h. ground arith)
alone (y ∷ l) x e = (λ h. cc, λ h. cc)

enumeration_loop-none :
    (kind : InventoryKind) (es : List InventoryEnumeration) (e : InventoryEnumeration)
    → (enumeration_loop kind es none ≡ some e) ↔ (of_kind kind es ≡ e ∷ [])
unfolding enumeration_loop
enumeration_loop-none kind [] e = (λ h. cc, λ h. cc)
enumeration_loop-none kind (x ∷ es) e =
    let (there, back) = enumeration_loop-none kind es e in
    elim (Bool-cases (kind_eq x.inventory kind)) [
      | inl k ↦
          rw (k, enumeration_loop)
            (rw (enumeration_loop-some kind es x) (alone (of_kind kind es) x e))
      | inr k ↦ rw (k, enumeration_loop) (there, back)
    ]

-- A report counts exactly when it is the only one of its kind: no report and several reports are
-- both unknown.
pub enumeration_iff :
    (store : RawStore) (kind : InventoryKind) (e : InventoryEnumeration)
    → (enumeration store kind ≡ some e) ↔ (of_kind kind store.enumerations ≡ e ∷ [])
unfolding enumeration
enumeration_iff store kind e = enumeration_loop-none kind store.enumerations e
