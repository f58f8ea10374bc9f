-- ===== src/Pipeline/Collectors.antt =====
-- The collectors of a replay one by one, against `record_collector_status` and the exception of
-- `run_replay` in src/pipeline/pipeline.cpp.
use sysal.Prelude.{
  Bool-cases, any, Bytes, codes, text_eq, text_mem, ◌≡◌, refl, ◌∙◌, inl, inr, Bool, true, false,
  not, ◌&&◌, ◌||◌, List, [], ◌∷◌,
}
use sysal.Types.{ErrorKind}
use sysal.Collect.{
  Collect, platform_flag, cpu_flag, memory_flag, accelerator_flag, network_flag, storage_flag,
  pci_flag, software_flag, execution_flag, sensors_flag, storage_health_flag, has,
}
use sysal.Pipeline.{
  Domain, ParseResult, checks, record_collector_status, all_failed, Replay, throw, collected,
  collect_status,
}
use sysal.Pipeline.Status.{succeeds, fails, record_collector_status_lem, all_failed_lem}

pub data Collector : Type 0 where
  sensors platform cpu memory pci network accelerator storage storage_health : Collector
  software execution : Collector

abbrev pub every_collector : List Collector
every_collector =
    Collector.sensors ∷ Collector.platform ∷ Collector.cpu ∷ Collector.memory ∷ Collector.pci
    ∷ Collector.network ∷ Collector.accelerator ∷ Collector.storage ∷ Collector.storage_health
    ∷ Collector.software ∷ Collector.execution ∷ []

-- how a collector is asked for, and listed
unfoldable pub flag_of : Collector → Collect
flag_of Collector.sensors = sensors_flag
flag_of Collector.platform = platform_flag
flag_of Collector.cpu = cpu_flag
flag_of Collector.memory = memory_flag
flag_of Collector.pci = pci_flag
flag_of Collector.network = network_flag
flag_of Collector.accelerator = accelerator_flag
flag_of Collector.storage = storage_flag
flag_of Collector.storage_health = storage_health_flag
flag_of Collector.software = software_flag
flag_of Collector.execution = execution_flag

unfoldable pub name_of : Collector → Bytes
name_of Collector.sensors = codes "sensors"
name_of Collector.platform = codes "platform"
name_of Collector.cpu = codes "cpu"
name_of Collector.memory = codes "memory"
name_of Collector.pci = codes "pci"
name_of Collector.network = codes "network"
name_of Collector.accelerator = codes "accelerator"
name_of Collector.storage = codes "storage"
name_of Collector.storage_health = codes "storage_health"
name_of Collector.software = codes "software"
name_of Collector.execution = codes "execution"

-- a domain has a result if it has a value; the health of the storage needs a report besides
unfoldable pub has_result : ParseResult → Collector → Bool
has_result r Collector.sensors = r.has_value Domain.sensors
has_result r Collector.platform = r.has_value Domain.platform
has_result r Collector.cpu = r.has_value Domain.cpu
has_result r Collector.memory = r.has_value Domain.memory
has_result r Collector.pci = r.has_value Domain.pci
has_result r Collector.network = r.has_value Domain.network
has_result r Collector.accelerator = r.has_value Domain.accelerators
has_result r Collector.storage = r.has_value Domain.storage
has_result r Collector.storage_health = r.has_value Domain.storage && r.storage_health_available
has_result r Collector.software = r.has_value Domain.software
has_result r Collector.execution = r.has_value Domain.execution

or_false : (b : Bool) → (b || false) ≡ b
or_false true = refl
or_false false = refl

-- the checks that list a collector
checks-collector :
    (r : ParseResult) (flags : Collect) (c : Collector)
    → (any (succeeds flags (name_of c)) (checks r) ≡ (has flags (flag_of c) && has_result r c))
      × (any (fails flags (name_of c)) (checks r) ≡ (has flags (flag_of c) && not (has_result r c)))
unfolding checks name_of flag_of has_result text_eq
checks-collector r flags Collector.sensors = (or_false _, or_false _)
checks-collector r flags Collector.platform = (or_false _, or_false _)
checks-collector r flags Collector.cpu = (or_false _, or_false _)
checks-collector r flags Collector.memory = (or_false _, or_false _)
checks-collector r flags Collector.pci = (or_false _, or_false _)
checks-collector r flags Collector.network = (or_false _, or_false _)
checks-collector r flags Collector.accelerator = (or_false _, or_false _)
checks-collector r flags Collector.storage = (or_false _, or_false _)
checks-collector r flags Collector.storage_health = (or_false _, or_false _)
checks-collector r flags Collector.software = (or_false _, or_false _)
checks-collector r flags Collector.execution = (or_false _, or_false _)

-- A collector is listed as succeeded, under its name, exactly if its flag is set and its domain has a
-- value (for the health of the storage also a report that succeeded at least partly), and as failed
-- exactly if its flag is set and it has none.
pub record_collector_status-collector :
    (r : ParseResult) (flags : Collect) (c : Collector)
    → let s = record_collector_status r flags ([], []) in
      (text_mem (name_of c) s.0 ≡ (has flags (flag_of c) && has_result r c))
      × (text_mem (name_of c) s.1 ≡ (has flags (flag_of c) && not (has_result r c)))
record_collector_status-collector r flags c =
    let listed = record_collector_status_lem r flags (name_of c) in
    let named = checks-collector r flags c in (listed.0 ∙ named.0, listed.1 ∙ named.1)

unfoldable pub is_refused : Replay → Bool
is_refused (throw ErrorKind.collection_failed message) = true
is_refused (throw _ message) = false
is_refused (collected s) = false

is_refused_lem :
    (r : ParseResult) (flags : Collect)
    → is_refused (collect_status r flags) ≡ all_failed (record_collector_status r flags ([], []))
unfolding collect_status is_refused
is_refused_lem r flags = elim (Bool-cases (all_failed (record_collector_status r flags ([], [])))) [
  | inl e ↦ rw e refl
  | inr e ↦ rw e refl
]

-- Behind its parsers, a replay throws a `SysalError` of the kind `CollectionFailed` exactly when the
-- flag of some collector is set, and no collector whose flag is set has a result.
pub collect_status-is_refused :
    (r : ParseResult) (flags : Collect)
    → is_refused (collect_status r flags) ≡ (
        any (λ c. has flags (flag_of c)) every_collector
        && not (any (λ c. has flags (flag_of c) && has_result r c) every_collector))
unfolding checks flag_of has_result
collect_status-is_refused r flags = is_refused_lem r flags ∙ all_failed_lem r flags
