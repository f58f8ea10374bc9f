-- ===== src/RawStore.antt =====
-- The store of raw evidence: include/sysal/model/raw_store.hpp, src/model/raw_store.cpp and the
-- enumeration reports of include/sysal/model/inventory.hpp. A pointer into a list is the element.
pub mod Laws
use sysal.Prelude.{
  length, any, keep, Bytes, text_eq, ℕ, ◌≡◌, refl, ◌↔◌, Bool, true, false, ◌&&◌, Option, none, some,
  List, [], ◌∷◌,
}
use sysal.Types.{RawSource, CollectStatus, ReadFailure, SkipReason, source_eq, is_success}
use sysal.Collect.{CollectionRequest}

pub data InventoryKind : Type 0 where
  cpu_packages cpu_cores logical_cpus numa_nodes cpu_caches network_interfaces : InventoryKind
  block_devices pci_devices accelerator_devices : InventoryKind

InventoryKind-discrete : Discrete InventoryKind
InventoryKind-discrete = hlevel

unfoldable pub kind_eq : InventoryKind → InventoryKind → Bool
unfolding InventoryKind-discrete
kind_eq a b = elim (InventoryKind-discrete a b) [ yes e ↦ true | no n ↦ false ]

kind_eq_iff : (a b : InventoryKind) → (kind_eq a b ≡ true) ↔ (a ≡ b)
unfolding kind_eq
kind_eq_iff a b =
    elim (InventoryKind-discrete a b)
      as (λ d. ((elim d [ yes e ↦ true | no n ↦ false ]) ≡ true) ↔ (a ≡ b)) [
        | yes e ↦ (λ h. e, λ h. refl)
        | no n ↦ (λ h. cc, λ h. absurd (n h))
      ]

pub data InventoryCompleteness : Type 0 where
  unknown partial complete : InventoryCompleteness

pub record InventoryEnumeration : Type 0 where
  pub inventory : InventoryKind
  pub source : RawSource
  pub origin : Bytes
  pub entries : List Bytes
  pub status : CollectStatus
  pub failure : Option ReadFailure

pub record InventoryReport : Type 0 where
  pub inventory : InventoryKind
  pub completeness : InventoryCompleteness
  pub origin : Bytes

-- a record; `collected_at` is a number of clock ticks
pub record RawRecord : Type 0 where
  pub source : RawSource
  pub path_or_command : Bytes
  pub payload : Bytes
  pub status : CollectStatus
  pub collected_at : ℕ
  pub failure : Option ReadFailure
  pub skip : Option SkipReason

pub record RawStore : Type 0 where
  pub records : List RawRecord
  pub enumerations : List InventoryEnumeration
  pub collection_request : Option CollectionRequest

-- the loop of `enumeration`, over `result`
unfoldable pub enumeration_loop :
    InventoryKind
    → List InventoryEnumeration
    → Option InventoryEnumeration
    → Option InventoryEnumeration
enumeration_loop kind [] result = result
enumeration_loop kind (entry ∷ entries) result = elim (kind_eq entry.inventory kind) [
  | false ↦ enumeration_loop kind entries result
  | true ↦ elim result [ some earlier ↦ none | none ↦ enumeration_loop kind entries (some entry) ]
]

unfoldable pub enumeration : RawStore → InventoryKind → Option InventoryEnumeration
unfolding enumeration_loop
enumeration store kind = enumeration_loop kind store.enumerations none

unfoldable pub get_all : RawStore → RawSource → List RawRecord
get_all store source = keep (λ r. source_eq r.source source) store.records

unfoldable pub get : RawStore → RawSource → Bytes → List RawRecord
get store source path =
    keep (λ r. source_eq r.source source && text_eq r.path_or_command path) store.records

unfoldable pub has_source : RawStore → RawSource → Bool
has_source store source = any (λ r. source_eq r.source source) store.records

unfoldable pub has_success : RawStore → RawSource → Bool
has_success store source = any (λ r. source_eq r.source source && is_success r.status) store.records

unfoldable pub count : RawStore → RawSource → ℕ
count store source = length (keep (λ r. source_eq r.source source) store.records)
