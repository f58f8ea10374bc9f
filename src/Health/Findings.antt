-- ===== src/Health/Findings.antt =====
-- The critical findings of a drive, for src/resolver/storage_health.cpp.
use sysal.Prelude.{
  ltb, ◌==◌, if◌then◌else◌, Bool-cases, get_or, Bytes, codes, text_eq, ℕ, suc, ◌+◌, ◌≡◌, refl, inl,
  inr, Bool, true, false, not, ◌&&◌, ◌||◌, Option, none, some, List, [], ◌∷◌, ◌++◌, arith,
}
use sysal.Storage.{NvmeHealth, AtaHealthAttribute, ScsiHealth, StorageHealthReport}
use sysal.Health.{HealthSeverity, DriveFindingKind, DriveFinding, one_if}
use sysal.Health.Drives.{
  make_finding, finding_if, warning_bits, smart_findings, nvme_findings, ata_findings, scsi_counter,
  scsi_findings, report_findings,
}
use sysal.Health.Alerts.{is_critical}

-- how many findings are critical
unfoldable pub criticals : List DriveFinding → ℕ
criticals [] = 0
criticals (f ∷ fs) = let rest = criticals fs in if is_critical f.severity then suc rest else rest

criticals-append : (fs gs : List DriveFinding) → criticals (fs ++ gs) ≡ criticals fs + criticals gs
unfolding criticals
criticals-append [] gs = omega arith
criticals-append (f ∷ fs) gs = ground (arith, criticals-append fs gs)

criticals-ata :
    (r : StorageHealthReport) (attributes : List AtaHealthAttribute)
    → criticals (ata_findings r attributes) ≡ 0
unfolding criticals ata_findings make_finding is_critical
criticals-ata r [] = refl
criticals-ata r (a ∷ attributes) = elim (Bool-cases (text_eq a.when_failed (codes "now"))) [
  | inl e ↦ rw e (criticals-ata r attributes)
  | inr e ↦ elim (Bool-cases (text_eq a.when_failed (codes "past"))) [
    | inl h ↦ rw (e, h) (criticals-ata r attributes)
    | inr h ↦ rw (e, h) (criticals-ata r attributes)
  ]
]

criticals-if :
    (test : Bool) (r : StorageHealthReport) (kind : DriveFindingKind) (severity : HealthSeverity)
    (field : Bytes)
    → criticals (finding_if test r kind severity field) ≡ one_if (test && is_critical severity)
unfolding criticals finding_if make_finding
criticals-if true r kind severity field = refl
criticals-if false r kind severity field = refl

criticals-scsi : (r : StorageHealthReport) (h : ScsiHealth) → criticals (scsi_findings r h) ≡ 0
unfolding scsi_findings scsi_counter finding_if make_finding criticals is_critical
criticals-scsi r h = ground arith

criticals-nvme :
    (r : StorageHealthReport) (h : NvmeHealth)
    → criticals (nvme_findings r h) ≡ one_if (ltb 0 (get_or h.critical_warning 0))
unfolding nvme_findings finding_if make_finding criticals is_critical
criticals-nvme r h = ground arith

criticals-smart :
    (r : StorageHealthReport)
    → criticals (smart_findings r) ≡ one_if (not (get_or r.passed true) && warning_bits r.nvme == 0)
unfolding smart_findings finding_if make_finding criticals is_critical
criticals-smart r = ground arith

criticals-logs :
    (r : StorageHealthReport) (nvme : Option NvmeHealth)
    → criticals (elim nvme [ none ↦ [] | some h ↦ nvme_findings r h ])
      ≡ one_if (ltb 0 (warning_bits nvme))
unfolding warning_bits criticals
criticals-logs r none = refl
criticals-logs r (some h) = criticals-nvme r h

criticals-counters :
    (r : StorageHealthReport) (scsi : Option ScsiHealth)
    → criticals (elim scsi [ none ↦ [] | some h ↦ scsi_findings r h ]) ≡ 0
unfolding criticals
criticals-counters r none = refl
criticals-counters r (some h) = criticals-scsi r h

-- A report of a drive has one critical finding if the drive failed its self-assessment or its NVMe
-- log carries a critical warning, and none otherwise: the two are never reported side by side.
pub report_findings-criticals :
    (r : StorageHealthReport)
    → criticals (report_findings r)
      ≡ one_if (not (get_or r.passed true) || ltb 0 (warning_bits r.nvme))
unfolding report_findings
report_findings-criticals r =
    rw
      (
        criticals-append,
        criticals-append,
        criticals-append,
        criticals-smart r,
        criticals-logs r r.nvme,
        criticals-ata r r.ata_attributes,
        criticals-counters r r.scsi,
      )
      (ground arith)
