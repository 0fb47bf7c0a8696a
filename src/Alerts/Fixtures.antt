-- ===== src/Alerts/Fixtures.antt =====
-- A rule, an instance and a channel, as the tests use them.
use operation_monitoring.Base.{ℕ, ◌+◌, true, false, none, some, [], ◌∷◌, arith}
use operation_monitoring.Base.Int.{ℤ, pos, leb_ℤ, eq_ℤ}
use operation_monitoring.Alerts.Model.{
  F64, cpu_percent, warning, all, generic_webhook, RuleRow, Instance, ChannelRow, Db,
}
use operation_monitoring.Alerts.Observation.{threshold}
use operation_monitoring.Alerts.Sound.{Distinct}
use operation_monitoring.Alerts.Evaluation.{process_rule_observation}
use operation_monitoring.Alerts.History.{empty}

abbrev pub integers : F64
integers = record {
  Value = ℤ;
  eq = eq_ℤ;
  ge = λ a b. leb_ℤ b a;
  is_finite = λ a. true;
  of_i64 = λ a. a;
  div = λ a b. a;
  mul = λ a b. a;
}

abbrev pub cpu_rule : RuleRow ℤ
cpu_rule = record {
  id = 1;
  name = "cpu";
  metric = cpu_percent;
  threshold = some (pos 90);
  duration_seconds = pos 30;
  severity = warning;
  scope = all;
  enabled = true;
  version = pos 1;
}

abbrev pub server : Instance
server = record {
  id = 7;
  name = "server";
  hostname = "server";
  region = "";
  os = "linux";
  arch = "x86_64";
  agent_version = "1.0.0";
  expires_at = none;
  approved = true;
  disabled = false;
}

abbrev pub hook : ChannelRow
hook = record {
  id = 5;
  name = "hook";
  channel_type = generic_webhook;
  enabled = true;
  delivery_cooldown_until = none;
  deleted_at = none;
}

abbrev pub uuids : ℕ → ℕ
uuids n = n + 100

pub uuids-Distinct : Distinct uuids
uuids-Distinct m n h = omega (arith, h)

abbrev pub configured : Db ℤ
configured = record (empty integers uuids) {
  rules = cpu_rule ∷ [];
  rule_targets = [];
  states = [];
  windows = [];
  window_targets = [];
  rule_channels = (1, 5) ∷ [];
  instances = server ∷ [];
  channels = hook ∷ [];
}

abbrev pub sample : Db ℤ → ℕ → Db ℤ
sample db t =
    process_rule_observation integers db true cpu_rule 7 (threshold (pos 95) true) (pos t) (pos t)

-- Two samples 40 seconds apart: the event fires and its delivery waits.
abbrev pub fired : Db ℤ
fired = sample (sample configured 1000) 1040
