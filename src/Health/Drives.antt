-- ===== src/Health/Drives.antt =====
-- Findings of storage health reports: src/resolver/storage_health.cpp.
use sysal.Prelude.{
  ltb, leb, ◌==◌, if◌then◌else◌, any, is_nil, is_some, get_or, Bytes, codes, text_eq, ℕ, ◌%◌, Bool,
  true, false, not, ◌&&◌, ◌||◌, Option, none, some, List, [], ◌∷◌, ◌++◌,
}
use sysal.Types.{RawSource, source_eq, is_success}
use sysal.RawStore.{RawStore, count}
use sysal.Collect.{Collect, storage_health_flag, has}
use sysal.Storage.{NvmeHealth, AtaHealthAttribute, ScsiHealth, StorageHealthReport}
use sysal.Health.{
  HealthSeverity, HealthCoverageStatus, HealthCoverage, DriveFindingKind, DriveFinding,
  HardwareHealth, add_u32, one_if,
}

unfoldable pub positive : Option Bytes → Bool
positive none = false
positive (some decimal) = not (text_eq decimal (codes "0"))

unfoldable nvme_evidence : Option NvmeHealth → Bool
nvme_evidence none = false
nvme_evidence (some h) =
    is_some h.critical_warning
    || is_some h.available_spare
    || is_some h.percentage_used
    || is_some h.media_errors
    || is_some h.power_on_hours

unfoldable scsi_evidence : Option ScsiHealth → Bool
scsi_evidence none = false
scsi_evidence (some h) =
    is_some h.read_uncorrected || is_some h.write_uncorrected || is_some h.verify_uncorrected

unfoldable evidence : StorageHealthReport → Bool
unfolding nvme_evidence scsi_evidence
evidence report =
    is_some report.passed
    || not (is_nil report.ata_attributes)
    || nvme_evidence report.nvme
    || scsi_evidence report.scsi

unfoldable pub make_finding :
    StorageHealthReport → DriveFindingKind → HealthSeverity → Bytes → Option ℕ → DriveFinding
make_finding report kind severity field attribute = record {
  target = report.target;
  kind = kind;
  severity = severity;
  origin = report.origin ++ codes "#" ++ field;
  attribute_id = attribute;
}

unfoldable pub finding_if :
    Bool → StorageHealthReport → DriveFindingKind → HealthSeverity → Bytes → List DriveFinding
unfolding make_finding
finding_if test report kind severity field =
    if test then make_finding report kind severity field none ∷ [] else []

-- `critical_warning.value_or(0)` of a report's NVMe log
unfoldable pub warning_bits : Option NvmeHealth → ℕ
warning_bits none = 0
warning_bits (some h) = get_or h.critical_warning 0

unfoldable pub smart_findings : StorageHealthReport → List DriveFinding
unfolding finding_if warning_bits
smart_findings report =
    finding_if (not (get_or report.passed true) && warning_bits report.nvme == 0) report
      DriveFindingKind.smart_failed HealthSeverity.critical (codes "smart_status/passed")

unfoldable pub is_smartctl : StorageHealthReport → Bool
is_smartctl report = source_eq report.source RawSource.smartctl

unfoldable pub nvme_prefix : StorageHealthReport → Bytes
unfolding is_smartctl
nvme_prefix report = if is_smartctl report then codes "nvme_smart_health_information_log/" else []

-- both values are there, and the first is below the second
unfoldable pub is_below : Option ℕ → Option ℕ → Bool
is_below (some a) (some b) = ltb a b
is_below none b = false
is_below (some a) none = false

unfoldable pub nvme_findings : StorageHealthReport → NvmeHealth → List DriveFinding
unfolding finding_if nvme_prefix is_below positive
nvme_findings report h =
    let bits = get_or h.critical_warning 0 in
    finding_if (ltb 0 bits) report DriveFindingKind.nvme_warning HealthSeverity.critical
      (nvme_prefix report ++ codes "critical_warning")
    ++ finding_if (is_below h.available_spare h.spare_threshold && not (bits % 2 == 1)) report
        DriveFindingKind.spare_low HealthSeverity.warning
        (nvme_prefix report ++ codes "available_spare")
    ++ finding_if (leb 100 (get_or h.percentage_used 0)) report DriveFindingKind.endurance_estimate
        HealthSeverity.warning
        (nvme_prefix report
          ++ (if is_smartctl report then codes "percentage_used" else codes "percent_used"))
    ++ finding_if (positive h.media_errors) report DriveFindingKind.nvme_media_history
        HealthSeverity.information (nvme_prefix report ++ codes "media_errors")

unfoldable pub ata_findings : StorageHealthReport → List AtaHealthAttribute → List DriveFinding
unfolding make_finding
ata_findings report [] = []
ata_findings report (a ∷ attributes) =
    let rest = ata_findings report attributes in
    if text_eq a.when_failed (codes "now")
    then make_finding report DriveFindingKind.ata_current HealthSeverity.warning
        (codes "ata_smart_attributes") (some a.id)
      ∷ rest
    else if text_eq a.when_failed (codes "past")
    then make_finding report DriveFindingKind.ata_historical HealthSeverity.information
        (codes "ata_smart_attributes") (some a.id)
      ∷ rest
    else rest

unfoldable pub scsi_counter : StorageHealthReport → Bytes → Option Bytes → List DriveFinding
unfolding finding_if positive
scsi_counter report operation counter =
    finding_if (positive counter) report DriveFindingKind.scsi_history HealthSeverity.information
      (codes "scsi_error_counter_log/" ++ operation ++ codes "/total_uncorrected_errors")

unfoldable pub scsi_findings : StorageHealthReport → ScsiHealth → List DriveFinding
unfolding scsi_counter
scsi_findings report h =
    scsi_counter report (codes "read") h.read_uncorrected
    ++ scsi_counter report (codes "write") h.write_uncorrected
    ++ scsi_counter report (codes "verify") h.verify_uncorrected

-- all findings of one report, in order
unfoldable pub report_findings : StorageHealthReport → List DriveFinding
unfolding smart_findings nvme_findings ata_findings scsi_findings
report_findings report =
    smart_findings report
    ++ elim report.nvme [ none ↦ [] | some h ↦ nvme_findings report h ]
    ++ ata_findings report report.ata_attributes
    ++ elim report.scsi [ none ↦ [] | some h ↦ scsi_findings report h ]

unfoldable has_warning_byte : Option NvmeHealth → Bool
has_warning_byte none = false
has_warning_byte (some h) = is_some h.critical_warning

unfoldable cover_report : StorageHealthReport → HealthCoverage → HealthCoverage
unfolding evidence has_warning_byte
cover_report report coverage = record coverage {
  usable_readings = add_u32 coverage.usable_readings (one_if (evidence report));
  alarm_reports =
      add_u32 (add_u32 coverage.alarm_reports (one_if (is_some report.passed)))
        (one_if (has_warning_byte report.nvme));
}

-- the loop over the reports: whether one is incomplete, the findings and the coverage
unfoldable read_reports :
    List StorageHealthReport
    → Bool × List DriveFinding × HealthCoverage
    → Bool × List DriveFinding × HealthCoverage
unfolding report_findings cover_report
read_reports [] state = state
read_reports (report ∷ reports) (incomplete, findings, coverage) = read_reports reports (
  incomplete || not (is_success report.status) || not (evidence report),
  findings ++ report_findings report,
  cover_report report coverage,
)

-- a domain's status, from whether it was asked for, its readings and its failures
unfoldable pub status_of : Bool → ℕ → Bool → HealthCoverageStatus
status_of requested count failed =
    if not requested
    then HealthCoverageStatus.not_requested
    else if count == 0
    then HealthCoverageStatus.unavailable
    else if failed
    then HealthCoverageStatus.partial
    else HealthCoverageStatus.available

abbrev pub new_coverage : Bytes → HealthCoverage
new_coverage domain = record {
  domain = domain;
  status = HealthCoverageStatus.not_requested;
  usable_readings = 0;
  alarm_reports = 0;
}

unfoldable pub storage_findings :
    HardwareHealth → List StorageHealthReport → Collect → RawStore → HardwareHealth
unfolding read_reports status_of
storage_findings health reports flags raw =
    let failed =
      any (λ r. source_eq r.source RawSource.storage_health_sysfs && not (is_success r.status))
        raw.records in
    let result =
      read_reports reports (failed, health.drive_findings, new_coverage (codes "storage_health")) in
    let coverage = result.2 in
    record health {
      drive_findings = result.1;
      coverage =
          health.coverage
          ++ record coverage {
            status = status_of (has flags storage_health_flag) coverage.usable_readings result.0;
          }
            ∷ [];
    }
