-- ===== src/Collect/Flags.antt =====
-- The laws of the flags, and which requests pass `CollectionRequest::validate`
-- (src/api/collect_options.cpp).
use Prim.Native.Nat.{bit_and}
use sysal.Prelude.{
  ◌==◌, if◌then◌else◌, ==_iff, ℕ, ◌*◌, ◌/◌, ◌^◌, ◌<◌, ◌≡◌, refl, ◌↔◌, Bool, true, false, not, ◌||◌,
  Option, none, some, arith,
}
use sysal.Prelude.Bits.{bit_and_comm, shared_or, bit_and_ones, bit_and_shift}
use sysal.Collect.{
  Collect, ◌∪◌, has, FilesystemQuery, no_query, local_query, all_mounted, other_query,
  SensorDevices, other_devices, CollectionRequest, InvalidArgument, unknown_flags,
  validate_filesystems, validate_sensors, validate_options, not_full, validate,
}

-- A request for a union meets a test if one of its parts does, and a test for a union is met if a
-- test for one of its parts is.
pub has_union :
    (a b t : Collect)
    → (has (a ∪ b) t ≡ (has a t || has b t)) × (has t (a ∪ b) ≡ (has t a || has t b))
unfolding has
has_union a b t = (
  ground (arith, shared_or t a b, bit_and_comm (a ∪ b) t, bit_and_comm a t, bit_and_comm b t),
  ground (arith, shared_or t a b),
)

-- the bits above the twelve named ones
high_bits : (flags : ℕ) → flags < 2 ^ 32 → bit_and flags not_full ≡ 4096 * (flags / 4096)
high_bits flags h = omega (
  arith,
  bit_and_shift flags 2147481600,
  bit_and_shift (flags / 2) 1073740800,
  bit_and_shift (flags / 2 / 2) 536870400,
  bit_and_shift (flags / 2 / 2 / 2) 268435200,
  bit_and_shift (flags / 2 / 2 / 2 / 2) 134217600,
  bit_and_shift (flags / 2 / 2 / 2 / 2 / 2) 67108800,
  bit_and_shift (flags / 2 / 2 / 2 / 2 / 2 / 2) 33554400,
  bit_and_shift (flags / 2 / 2 / 2 / 2 / 2 / 2 / 2) 16777200,
  bit_and_shift (flags / 2 / 2 / 2 / 2 / 2 / 2 / 2 / 2) 8388600,
  bit_and_shift (flags / 2 / 2 / 2 / 2 / 2 / 2 / 2 / 2 / 2) 4194300,
  bit_and_shift (flags / 2 / 2 / 2 / 2 / 2 / 2 / 2 / 2 / 2 / 2) 2097150,
  bit_and_shift (flags / 2 / 2 / 2 / 2 / 2 / 2 / 2 / 2 / 2 / 2 / 2) 1048575,
  bit_and_ones 20 (flags / 2 / 2 / 2 / 2 / 2 / 2 / 2 / 2 / 2 / 2 / 2 / 2) (omega arith),
)

-- the enumerators that the header declares
abbrev pub IsQuery : FilesystemQuery → Type 0
IsQuery (other_query n) = ⊥
IsQuery _ = Unit {0}

abbrev pub IsDevices : SensorDevices → Type 0
IsDevices (other_devices n) = ⊥
IsDevices _ = Unit {0}

options-cases :
    (q : FilesystemQuery) (d : SensorDevices)
    → (validate_options (record { filesystems = q; sensors = d }) ≡ none)
      ↔ (IsQuery q × IsDevices d)
unfolding validate_options validate_filesystems validate_sensors
options-cases (other_query n) d = (λ h. cc, λ h. absurd h.0)
options-cases no_query (other_devices n) = (λ h. cc, λ h. absurd h.1)
options-cases local_query (other_devices n) = (λ h. cc, λ h. absurd h.1)
options-cases all_mounted (other_devices n) = (λ h. cc, λ h. absurd h.1)
options-cases no_query _ = (λ h. (tt, tt), λ h. refl)
options-cases local_query _ = (λ h. (tt, tt), λ h. refl)
options-cases all_mounted _ = (λ h. (tt, tt), λ h. refl)

guard_iff :
    (b : Bool) (o : Option InvalidArgument)
    → ((if not b then some unknown_flags else o) ≡ none) ↔ ((b ≡ true) × (o ≡ none))
guard_iff true o = (λ h. (refl, h), λ h. h.1)
guard_iff false o = (λ h. cc, λ h. cc)

low_flags : (flags : ℕ) → flags < 2 ^ 32 → ((bit_and flags not_full == 0) ≡ true) ↔ (flags < 4096)
low_flags flags h = (
  λ e. omega (arith, (==_iff (bit_and flags not_full) 0).0 e, high_bits flags h),
  λ e. (==_iff (bit_and flags not_full) 0).1 (omega (arith, high_bits flags h)),
)

-- A request whose flags are a 32-bit word passes exactly when its flags hold no bit above the
-- twelve named ones and both policies are declared enumerators.
pub validate-none :
    (r : CollectionRequest)
    → r.flags < 2 ^ 32
    → (validate r ≡ none)
      ↔ ((r.flags < 4096) × IsQuery r.options.filesystems × IsDevices r.options.sensors)
unfolding validate
validate-none r h =
    let (there, back) = options-cases r.options.filesystems r.options.sensors in
    let (apart, joined) = guard_iff (bit_and r.flags not_full == 0) (validate_options r.options) in
    let (low, high) = low_flags r.flags h in
    (
      λ e. let (b, o) = apart e in let (q, d) = there o in (low b, q, d),
      λ e. joined (high e.0, back (e.1, e.2)),
    )
