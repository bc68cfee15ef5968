-- ===== src/Pipeline/Analyzer/Quiet.antt =====
-- The scoring steps write neither to the quarantine nor the end of the trace
-- (spamallam/app/pipeline/analyzer.py).
use spamallam.Prelude.{Option, none, some, Text, Bytes}
use spamallam.Pipeline.Headers.Verdict.{SpamallamVerdict}
use spamallam.Pipeline.Overrides.{Source}
use spamallam.Pipeline.Rspamd.{RspamdResult}
use spamallam.Pipeline.Run.Keeping.{Keeps, keeps_rules}
use spamallam.Pipeline.Analyzer.Base.{AiOutcome, answered, broke, Env, Request}
use spamallam.Pipeline.Analyzer.Scoring.{
  clean_message, check_rspamd, report_rspamd, confirm_sender, confirm, block, override_verdict,
  ai_result, run_ai, tag, ai_unless_overridden, scan_unless, order_ai_first, or_scan,
  ai_unless_rejected, order_rspamd_first, score,
}

pub Keeps-clean_message : (raw : Bytes) → Keeps (clean_message raw)
unfolding clean_message
Keeps-clean_message raw = search keeps_rules

module _ (env : Env) (req : Request) where
  Keeps-report_rspamd : (r : RspamdResult) → Keeps (report_rspamd env req r)
  Keeps-report_rspamd r = search keeps_rules depth 8

  pub Keeps-check_rspamd : (message : Bytes) → Keeps (check_rspamd env req message)
  unfolding check_rspamd
  Keeps-check_rspamd message = search (keeps_rules, Keeps-report_rspamd)

  Keeps-confirm_sender :
      (cleaned : Bytes) (rule : Text) (by : Source) → Keeps (confirm_sender env req cleaned rule by)
  unfolding confirm_sender
  Keeps-confirm_sender cleaned rule by = search (keeps_rules, Keeps-check_rspamd)

  pub Keeps-confirm :
      (cleaned : Bytes) (o : Option Text × Source) → Keeps (confirm env req cleaned o)
  Keeps-confirm cleaned (none, by) = search keeps_rules
  Keeps-confirm cleaned (some rule, by) = search (keeps_rules, Keeps-confirm_sender)

  Keeps-block : (o : Option Text) → Keeps (block env req o)
  Keeps-block none = search keeps_rules
  Keeps-block (some rule) = search keeps_rules

  pub Keeps-override_verdict :
      (wl : Option Text) (from_header : Text) → Keeps (override_verdict env req wl from_header)
  unfolding override_verdict
  Keeps-override_verdict none from_header = Keeps-block _
  Keeps-override_verdict (some rule) from_header = search keeps_rules

  Keeps-ai_result : (o : AiOutcome) → Keeps (ai_result env req o)
  Keeps-ai_result (answered v) = search keeps_rules
  Keeps-ai_result (broke text) = search keeps_rules

  Keeps-run_ai : (cleaned : Bytes) → Keeps (run_ai env req cleaned)
  unfolding run_ai
  Keeps-run_ai cleaned = search (keeps_rules, Keeps-ai_result)

  pub Keeps-ai_unless_overridden :
      (cleaned : Bytes) (wl bl : Option Text) (v : SpamallamVerdict)
      → Keeps (ai_unless_overridden env req cleaned wl bl v)
  unfolding ai_unless_overridden
  Keeps-ai_unless_overridden cleaned wl bl v = search (keeps_rules, Keeps-run_ai)

  Keeps-scan_unless :
      (wl : Option Text) (pre : Option RspamdResult) (tagged : Bytes)
      → Keeps (scan_unless env req wl pre tagged)
  Keeps-scan_unless (some rule) (some pre) tagged = search keeps_rules
  Keeps-scan_unless _ _ tagged = Keeps-check_rspamd tagged

  pub Keeps-tag : (cleaned : Bytes) (v : SpamallamVerdict) → Keeps (tag env req cleaned v)
  unfolding tag
  Keeps-tag cleaned v = search keeps_rules

  module _ (cleaned : Bytes) (wl bl : Option Text) (v : SpamallamVerdict)
      (pre : Option RspamdResult) where
    Keeps-order_ai_first : Keeps (order_ai_first env req cleaned wl bl v pre)
    unfolding order_ai_first
    Keeps-order_ai_first =
        search (keeps_rules, Keeps-ai_unless_overridden, Keeps-tag, Keeps-scan_unless) depth 9

  pub Keeps-or_scan :
      (pre : Option RspamdResult) (cleaned : Bytes) → Keeps (or_scan env req pre cleaned)
  Keeps-or_scan (some pre) cleaned = search keeps_rules
  Keeps-or_scan none cleaned = Keeps-check_rspamd cleaned

  pub Keeps-ai_unless_rejected :
      (cleaned : Bytes) (wl bl : Option Text) (v : SpamallamVerdict) (r : RspamdResult)
      → Keeps (ai_unless_rejected env req cleaned wl bl v r)
  unfolding ai_unless_rejected
  Keeps-ai_unless_rejected cleaned wl bl v r =
      search (keeps_rules, Keeps-ai_unless_overridden) depth 8

  pub Keeps-score :
      (cleaned : Bytes) (wl bl : Option Text) (v : SpamallamVerdict) (pre : Option RspamdResult)
      → Keeps (score env req cleaned wl bl v pre)
  unfolding score order_rspamd_first
  Keeps-score cleaned wl bl v pre =
      search (keeps_rules, Keeps-order_ai_first, Keeps-or_scan, Keeps-ai_unless_rejected, Keeps-tag)
        depth 10
