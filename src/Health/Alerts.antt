-- ===== src/Health/Alerts.antt =====
-- The alerts of sensors, for src/resolver/hardware_health.cpp.
use sysal.Prelude.{
  &&_iff, Bool-cases, Option-cases, any, first, is_some, get_or, ◌≡◌, refl, ◌∙◌, inl, inr, Bool,
  true, false, not, ◌&&◌, ◌||◌, Option, none, some, List, [], ◌∷◌, arith,
}
use sysal.Sensors.{SensorAlarm, SensorReading}
use sysal.Health.{
  HealthSeverity, SensorAlertKind, SensorAlert, is_urgent, find_alarm, both_lt, reaches,
  limit_alert, sensor_alert,
}

unfoldable pub is_critical : HealthSeverity → Bool
is_critical HealthSeverity.critical = true
is_critical HealthSeverity.warning = false
is_critical HealthSeverity.information = false

-- whether there is an alert, and its severity is critical
unfoldable pub alerts_critically : Option SensorAlert → Bool
unfolding is_critical
alerts_critically none = false
alerts_critically (some alert) = is_critical alert.severity

-- the alarms of a sensor by themselves
abbrev pub urgent : List SensorAlarm → Bool
urgent = any (λ a. a.active && is_urgent a.attribute)

abbrev pub active_any : List SensorAlarm → Bool
active_any = any (λ a. a.active)

first-urgent :
    (alarms : List SensorAlarm) (a : SensorAlarm)
    → first (λ a. a.active && is_urgent a.attribute) alarms ≡ some a
    → (is_urgent a.attribute ≡ true) × (urgent alarms ≡ true)
first-urgent [] a h = cc
first-urgent (x ∷ xs) a h = elim (Bool-cases (x.active && is_urgent x.attribute)) [
  | inl e ↦ ground (arith, &&_iff x.active (is_urgent x.attribute))
  | inr e ↦ ground (arith, first-urgent xs a)
]

first-none :
    (alarms : List SensorAlarm)
    → first (λ a. a.active && is_urgent a.attribute) alarms ≡ none
    → urgent alarms ≡ false
first-none [] h = refl
first-none (x ∷ xs) h = elim (Bool-cases (x.active && is_urgent x.attribute)) [
  | inl e ↦ ground arith
  | inr e ↦ ground (arith, first-none xs)
]

first_active :
    (alarms : List SensorAlarm) (a : SensorAlarm)
    → urgent alarms ≡ false
    → first (λ a. a.active) alarms ≡ some a
    → (is_urgent a.attribute ≡ false) × (active_any alarms ≡ true)
first_active [] a u h = cc
first_active (x ∷ xs) a u h = elim (Bool-cases x.active) [
  | inl e ↦ ground arith
  | inr e ↦ ground (arith, first_active xs a)
]

first_inactive :
    (alarms : List SensorAlarm) → first (λ a. a.active) alarms ≡ none → active_any alarms ≡ false
first_inactive [] h = refl
first_inactive (x ∷ xs) h = elim (Bool-cases x.active) [
  | inl e ↦ ground arith
  | inr e ↦ ground (arith, first_inactive xs)
]

module _ {U : Type 0} (lt : U → U → Bool) where
  -- an enabled reading in a known unit, within sane limits, at its critical limit or above
  unfoldable pub at_critical_limit : SensorReading U → Bool
  at_critical_limit s =
      get_or s.enabled true
      && is_some s.input
      && s.unit_supported
      && not (both_lt lt s.maximum s.minimum)
      && reaches lt s.input s.critical

  limits_critically : Option (SensorAlertKind × HealthSeverity) → Bool
  limits_critically none = false
  limits_critically (some (kind, severity)) = is_critical severity

  limit_alert-critical :
      (s : SensorReading U) → limits_critically (limit_alert lt s) ≡ at_critical_limit s
  unfolding limits_critically limit_alert at_critical_limit is_critical
  limit_alert-critical s = ground arith

  limits-alert :
      (s : SensorReading U) (found : Option (SensorAlertKind × HealthSeverity))
      → alerts_critically (elim found [
        | none ↦ none
        | some (kind, severity) ↦ some (record {
          sensor = s.identity.id;
          kind = kind;
          severity = severity;
          origin = s.identity.origin;
        })
      ])
        ≡ limits_critically found
  unfolding alerts_critically limits_critically
  limits-alert s none = refl
  limits-alert s (some (kind, severity)) = refl

  -- The alert of a sensor is critical exactly if the sensor is not faulty, and either an urgent
  -- alarm is active, or no alarm is active and the enabled reading, in a known unit and with limits
  -- that do not contradict each other, is at its critical limit or above.
  pub sensor_alert-critical :
      (s : SensorReading U)
      → alerts_critically (sensor_alert lt s) ≡ (
          not (get_or s.fault false)
          && (urgent s.alarms || (not (active_any s.alarms) && at_critical_limit s)))
  unfolding sensor_alert find_alarm alerts_critically
  sensor_alert-critical s = elim (Bool-cases (get_or s.fault false)) [
    | inl f ↦ rw f (unfold is_critical in refl)
    | inr f ↦ elim (Option-cases (first (λ a. a.active && is_urgent a.attribute) s.alarms)) [
      | inr (a, e) ↦
          let u = first-urgent s.alarms a e in rw (f, e, u.0, u.1) (unfold is_critical in refl)
      | inl e ↦ elim (Option-cases (first (λ a. a.active) s.alarms)) [
        | inr (a, h) ↦
            let u = first-none s.alarms e in
            let v = first_active s.alarms a u h in
            rw (f, e, h, u, v.0, v.1) (unfold is_critical in refl)
        | inl h ↦
            let u = first-none s.alarms e in
            let v = first_inactive s.alarms h in
            rw (f, e, h, u, v) (limits-alert s (limit_alert lt s) ∙ limit_alert-critical s)
      ]
    ]
  ]
