-- ===== src/Pipeline/Settings.antt =====
-- The settings that the pipeline reads (spamallam/app/store/settings.py names and documents them).
use spamallam.Prelude.{Bool, Option, List, Text, Float}
use spamallam.Pipeline.Failure.{FailureConfig}
use spamallam.Pipeline.Overrides.{Overrides}

-- cfg["marking"]
pub record Marking : Type 0 where
  pub enabled : Bool
  pub trigger_verdicts : List Text
  pub trigger_on_rspamd_spam : Bool
  -- marking.break_images.scope
  pub scope : Text

-- cfg["classification"]
pub record Classification : Type 0 where
  pub enabled : Bool
  pub placement : Text

pub record Settings : Type 0 where
  -- cfg["ai"]
  pub ai_enabled : Bool
  pub pipeline_order : Option Text
  pub bypass_on_reject : Bool
  pub drop_verdicts : List Text
  pub drop_threshold : Float
  -- cfg["failure_policy"], and ai.failure_mode
  pub failure : FailureConfig
  pub antivirus_fail_symbols : List Text
  pub overrides : Overrides
  pub marking : Marking
  pub classification : Classification
  -- cfg["quarantine"].get("enabled", True)
  pub quarantine_enabled : Bool
