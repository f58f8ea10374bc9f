-- ===== src/CpuInfo/Placed.antt =====
-- Logical CPUs, their cores and the packages of these, for `parse_cpu` of
-- src/parser/cpu.cpp.
use sysal.Prelude.{
  get_elem?, All, All-append, get_elem?-map, Bytes, ℕ, zero, suc, ◌+◌, ◌≡◌, refl, sym, ap, ◌∙◌,
  some, List, [], ◌∷◌, map, arith,
}
use sysal.Cpu.{LogicalCpu}
use sysal.CpuInfo.{CpuInfoEntry}
use sysal.CpuInfo.Build.{
  CpuPackage, CpuCore, find_id, make_package, make_packages, make_cores, make_logical,
  make_logicals,
}
use sysal.CpuInfo.Keys.{find_id-member, find_key-member, IsKnown}

-- the core and the package of a logical CPU stand at the places that its ids name
pub record IsPlaced (cores : List CpuCore) (packages : List CpuPackage) (l : LogicalCpu)
    : Type 0 where
  pub core : CpuCore
  pub core_at : get_elem? cores l.core_id ≡ some core
  pub core_named : core.id ≡ l.core_id
  pub core_inside : core.package_id ≡ l.package_id
  pub socket : CpuPackage
  pub socket_at : get_elem? packages l.package_id ≡ some socket
  pub socket_named : socket.id ≡ l.package_id

get_elem?-cores :
    (packages : List ℕ) (seq : ℕ) (keys : List (ℕ × ℕ)) (i physical core place : ℕ)
    → get_elem? keys i ≡ some (physical, core)
    → find_id physical packages ≡ some place
    → (c : CpuCore) × ((get_elem? (make_cores packages seq keys) i ≡ some c)
        × ((c.id ≡ seq + i) × (c.package_id ≡ place)))
unfolding make_cores
get_elem?-cores packages seq [] i physical core place h f = cc
get_elem?-cores packages seq ((p, q) ∷ keys) zero physical core place h f =
    (_, (refl, (ground arith, ground arith)))
get_elem?-cores packages seq ((p, q) ∷ keys) (suc i) physical core place h f =
    let (c, (at, (named, inside))) =
      get_elem?-cores packages (seq + 1) keys i physical core place h f in
    (c, (at, (ground arith, inside)))

get_elem?-packages :
    (entries : List CpuInfoEntry) (seq : ℕ) (pids : List ℕ) (i pid : ℕ)
    → get_elem? pids i ≡ some pid
    → (p : CpuPackage) × ((get_elem? (make_packages entries seq pids) i ≡ some p)
        × (p.id ≡ seq + i))
unfolding make_packages make_package
get_elem?-packages entries seq [] i pid h = cc
get_elem?-packages entries seq (x ∷ pids) zero pid h = (_, (refl, ground arith))
get_elem?-packages entries seq (x ∷ pids) (suc i) pid h =
    let (p, (at, named)) = get_elem?-packages entries (seq + 1) pids i pid h in
    (p, (at, ground arith))

-- the loop makes one logical CPU of each entry, and never warns
pub make_logicals-IsPlaced :
    (all_entries : List CpuInfoEntry) (keys : List (ℕ × ℕ)) (pids : List ℕ) (es : List CpuInfoEntry)
    (logicals : List LogicalCpu) (warnings : List Bytes)
    → All (IsKnown keys pids) es
    → All (IsPlaced (make_cores pids 0 keys) (make_packages all_entries 0 pids)) logicals
    → let made = make_logicals keys pids es (logicals, warnings) in
      (made.1 ≡ warnings)
      × All (IsPlaced (make_cores pids 0 keys) (make_packages all_entries 0 pids)) made.0
unfolding make_logicals
make_logicals-IsPlaced all_entries keys pids [] logicals warnings known placed = (refl, placed)
make_logicals-IsPlaced all_entries keys pids (e ∷ es) logicals warnings ((k, c), known) placed =
    let (core, (f, at)) = find_key-member (e.physical_id, e.core_id) keys k in
    let (package_id, (g, there)) = find_id-member e.physical_id pids c in
    let (found, (found_at, (named, inside))) =
      get_elem?-cores pids 0 keys core e.physical_id e.core_id package_id at g in
    let (socket, (socket_at, socket_named)) =
      get_elem?-packages all_entries 0 pids package_id e.physical_id there in
    let one : IsPlaced (make_cores pids 0 keys) (make_packages all_entries 0 pids)
        (make_logical e core package_id) =
      record {
        core = found;
        core_at = unfold make_logical in found_at;
        core_named = unfold make_logical in ground arith;
        core_inside = unfold make_logical in inside;
        socket = socket;
        socket_at = unfold make_logical in socket_at;
        socket_named = unfold make_logical in ground arith;
      } in
    rw (f, g, make_logicals)
      (make_logicals-IsPlaced all_entries keys pids es _ warnings known
        (All-append _ logicals _ placed (one, tt)))

module _ (cores : List CpuCore) (packages : List CpuPackage) where
  -- a change that keeps the ids keeps the places
  pub IsPlaced-cores :
      (f : CpuCore → CpuCore) (l : LogicalCpu)
      → ((c : CpuCore) → ((f c).id ≡ c.id) × ((f c).package_id ≡ c.package_id))
      → IsPlaced cores packages l
      → IsPlaced (map f cores) packages l
  IsPlaced-cores f l keeps p = record {
    core = f p.core;
    core_at = get_elem?-map f cores l.core_id p.core p.core_at;
    core_named = (keeps p.core).0 ∙ p.core_named;
    core_inside = (keeps p.core).1 ∙ p.core_inside;
    socket = p.socket;
    socket_at = p.socket_at;
    socket_named = p.socket_named;
  }

  pub IsPlaced-packages :
      (f : CpuPackage → CpuPackage) (l : LogicalCpu)
      → ((p : CpuPackage) → (f p).id ≡ p.id)
      → IsPlaced cores packages l
      → IsPlaced cores (map f packages) l
  IsPlaced-packages f l keeps p = record {
    core = p.core;
    core_at = p.core_at;
    core_named = p.core_named;
    core_inside = p.core_inside;
    socket = f p.socket;
    socket_at = get_elem?-map f packages l.package_id p.socket p.socket_at;
    socket_named = keeps p.socket ∙ p.socket_named;
  }

  pub IsPlaced-logical :
      (l m : LogicalCpu)
      → m.core_id ≡ l.core_id
      → m.package_id ≡ l.package_id
      → IsPlaced cores packages l
      → IsPlaced cores packages m
  IsPlaced-logical l m c q p = record {
    core = p.core;
    core_at = ap (get_elem? cores) c ∙ p.core_at;
    core_named = p.core_named ∙ sym c;
    core_inside = p.core_inside ∙ sym q;
    socket = p.socket;
    socket_at = ap (get_elem? packages) q ∙ p.socket_at;
    socket_named = p.socket_named ∙ sym q;
  }
