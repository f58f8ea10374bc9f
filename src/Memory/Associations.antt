-- ===== src/Memory/Associations.antt =====
-- The DIMMs that EDAC devices are associated with, for src/parser/memory_edac.cpp.
use sysal.Prelude.{
  ◌==◌, length, any, keep, is_nil, Bytes, text_eq, ℕ, ◌≡◌, ◌⊎◌, Bool, true, false, not, ◌&&◌, ◌||◌,
  Option, none, some, List, [], ◌∷◌, ◌++◌,
}
use sysal.RawStore.{RawStore}
use sysal.Memory.{EdacMemoryDevice, DimmEdacAssociation, DimmInfo, Memory}
use sysal.Memory.Locations.{kind_code}
use sysal.Memory.Devices.{inventory_dimm, add_fallback, matches_dimm, same_size, matches_edac}

unfoldable pub is_matched : DimmEdacAssociation → Bool
is_matched DimmEdacAssociation.unknown = false
is_matched DimmEdacAssociation.edac_inventory = false
is_matched DimmEdacAssociation.label_and_capacity = true

unfoldable pub option_is : Option ℕ → ℕ → Bool
option_is none n = false
option_is (some m) n = m == n

-- a device that a DIMM can be associated with: its label, its size and its indices
unfoldable pub describes : DimmInfo → EdacMemoryDevice → Bool
describes d e =
    kind_code e.kind == 1
    && text_eq e.label d.locator
    && same_size e.size d.size
    && option_is d.controller_index e.controller_index
    && option_is d.edac_device_index e.index

-- a device that could be meant by a DIMM
unfoldable pub could_be : DimmInfo → EdacMemoryDevice → Bool
could_be d e = kind_code e.kind == 1 && text_eq e.label d.locator && same_size e.size d.size

-- an association by label has one device that describes the DIMM, and no other it could be
unfoldable pub is_traced : List EdacMemoryDevice → DimmInfo → Bool
unfolding is_matched
is_traced devices d =
    not (is_matched d.edac_association)
    || (d.present && any (describes d) devices && length (keep (could_be d) devices) == 1)

abbrev pub IsTraced : List EdacMemoryDevice → DimmInfo → Type 0
IsTraced devices d = is_traced devices d ≡ true

-- the guards of a match
abbrev is_skipped : List EdacMemoryDevice → EdacMemoryDevice → ℕ → List DimmInfo → Bool
is_skipped devices e size dimms =
    not (kind_code e.kind == 1)
    || is_nil e.label
    || size == 0
    || not (length (keep (matches_dimm e size) dimms) == 1)
    || not (length (keep (matches_edac e size) devices) == 1)

-- a DIMM that is not associated by its label is no concern
abbrev pub IsUnmatched : DimmInfo → Type 0
IsUnmatched d = is_matched d.edac_association ≡ false

-- one round adds nothing, or one DIMM
FallbackStep : EdacMemoryDevice → List EdacMemoryDevice → List DimmInfo → Bytes → Type 0
FallbackStep e es dimms memory_type =
    (add_fallback (e ∷ es) (dimms, memory_type) ≡ add_fallback es (dimms, memory_type))
    ⊎ ((size : ℕ) × ((after : Bytes) × (add_fallback (e ∷ es) (dimms, memory_type)
            ≡ add_fallback es (dimms ++ inventory_dimm e size ∷ [], after))))
