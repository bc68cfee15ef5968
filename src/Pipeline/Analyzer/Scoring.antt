-- ===== src/Pipeline/Analyzer/Scoring.antt =====
-- The first half of the pipeline (spamallam/app/pipeline/analyzer.py): overrides, the AI analysis
-- and rspamd, in the configured order.
use spamallam.Prelude.{
  Bool, true, false, not, ◌&&◌, ◌||◌, Option, none, some, is_some, List, ◌++◌, map, if◌then◌else◌,
  take, is_empty, text_eq, Text, Bytes, codes, one_float,
}
use spamallam.Pipeline.Headers.Message.{strip_spam_headers}
use spamallam.Pipeline.Headers.Verdict.{
  SpamallamVerdict, skipped, Header, prepend_headers, build_spamallam_headers,
}
use spamallam.Pipeline.Overrides.{
  Source, is_recipient, match_whitelist, check_blocklist, whitelist_is_authenticated,
}
use spamallam.Pipeline.Rspamd.{RspamdResult, is_reject, check}
use spamallam.Pipeline.Run.{
  headers_stripped, whitelist_denied, whitelist, blocklist, ai_skipped, ai_error, ai_bypass,
  rspamd_scored, antivirus_error, rspamd_error, Run, ◌>>=◌, ◌>>◌, pure, lift, event,
}
use spamallam.Pipeline.Analyzer.Base.{AiOutcome, answered, broke, Env, Request, Scored}

abbrev pub whitelisted_verdict : Text → SpamallamVerdict
whitelisted_verdict rule = record skipped {
  verdict = codes "HAM";
  confidence = one_float;
  category = codes "whitelisted";
  reason = codes "admin whitelist override (" ++ rule ++ codes ")";
  whitelisted = codes "yes; rule=" ++ rule;
}

abbrev pub blocklisted_verdict : Text → SpamallamVerdict
blocklisted_verdict rule = record skipped {
  verdict = codes "SPAM";
  confidence = one_float;
  category = codes "blocklisted";
  reason = codes "admin blocklist override (" ++ rule ++ codes ")";
}

abbrev pub disabled_verdict : SpamallamVerdict
disabled_verdict = record skipped { reason = codes "AI analysis disabled" }

abbrev pub error_verdict : Text → SpamallamVerdict
error_verdict text = record skipped { verdict = codes "ERROR"; reason = take 300 text }

abbrev pub bypass_verdict : SpamallamVerdict
bypass_verdict = record skipped {
  category = codes "rspamd_bypass";
  reason = codes "AI analysis skipped: rspamd already rejected (bypass enabled)";
}

-- 1. Anti-spoofing.
unfoldable pub clean_message : Bytes → Run Bytes
clean_message raw =
    let (cleaned, removed) = strip_spam_headers raw in
    if is_empty removed then pure cleaned else (do event (headers_stripped removed); pure cleaned)

module _ (env : Env) (req : Request) where
  abbrev pub report_rspamd : RspamdResult → Run (Unit {0})
  report_rspamd rres =
      if rres.ok
      then (do
        event (rspamd_scored rres.action rres.score)
        if rres.av_failed then event (antivirus_error rres.av_error) else pure tt)
      else event (rspamd_error rres.error)

  -- _check_rspamd
  unfoldable pub check_rspamd : Bytes → Run RspamdResult
  check_rspamd message = do
    rres ← lift (
        check env.post message req.client req.envelope_from req.rcpt_tos
          env.cfg.antivirus_fail_symbols)
    report_rspamd rres
    pure rres

  unfoldable pub confirm_sender : Bytes → Text → Source → Run (Option Text × Option RspamdResult)
  confirm_sender cleaned rule source = do
    pre ← check_rspamd cleaned
    if whitelist_is_authenticated rule source (map (λ s. s.0) pre.symbols)
        then pure (some rule, some pre)
        else (do event (whitelist_denied rule source pre.ok); pure (none, some pre))

  abbrev pub confirm : Bytes → Option Text × Source → Run (Option Text × Option RspamdResult)
  confirm cleaned (none, _) = pure (none, none)
  confirm cleaned (some rule, source) =
      if not (is_recipient source) && env.cfg.overrides.require_auth
      then confirm_sender cleaned rule source
      else pure (some rule, none)

  -- 2. Overrides: the whitelist rule that is honored, and the pre-pass of rspamd if there was one.
  unfoldable pub honored_whitelist : Bytes → Text → Run (Option Text × Option RspamdResult)
  honored_whitelist cleaned from_header = confirm cleaned (
      match_whitelist env.parse_address env.cfg.overrides req.envelope_from from_header
        req.rcpt_tos)

  abbrev pub block : Option Text → Run (Option Text × SpamallamVerdict)
  block none = pure (none, skipped)
  block (some rule) = do event (blocklist rule); pure (some rule, blocklisted_verdict rule)

  -- The blocklist rule and the verdict that the overrides set.
  unfoldable pub override_verdict : Option Text → Text → Run (Option Text × SpamallamVerdict)
  override_verdict (some rule) from_header = do
    event (whitelist rule)
    pure (none, whitelisted_verdict rule)
  override_verdict none from_header =
      block (check_blocklist env.parse_address env.cfg.overrides req.envelope_from from_header)

  abbrev pub ai_result : AiOutcome → Run (SpamallamVerdict × Bool)
  ai_result (answered verdict) = pure (verdict, false)
  ai_result (broke text) = do event (ai_error text); pure (error_verdict text, true)

  -- _run_ai_with_failure_handling
  unfoldable pub run_ai : Bytes → Run (SpamallamVerdict × Bool)
  run_ai cleaned =
      if env.cfg.ai_enabled
      then ai_result (env.analyze cleaned)
      else (do event ai_skipped; pure (disabled_verdict, false))

  abbrev pub tagged_by : Bytes → Option (List Header) → Option Bytes
  tagged_by cleaned none = none
  tagged_by cleaned (some headers) = prepend_headers cleaned headers

  unfoldable pub tag : Bytes → SpamallamVerdict → Run Bytes
  tag cleaned verdict = lift (tagged_by cleaned (build_spamallam_headers env.signer verdict))

  unfoldable pub ai_unless_overridden :
      Bytes → Option Text → Option Text → SpamallamVerdict → Run (SpamallamVerdict × Bool)
  ai_unless_overridden cleaned wl_rule bl_rule verdict =
      if is_some wl_rule || is_some bl_rule then pure (verdict, false) else run_ai cleaned

  -- The pre-pass stands for the scan of whitelisted mail.
  abbrev pub scan_unless : Option Text → Option RspamdResult → Bytes → Run RspamdResult
  scan_unless (some rule) (some pre) tagged = pure pre
  scan_unless _ pre tagged = check_rspamd tagged

  -- _order_ai_first
  unfoldable pub order_ai_first :
      Bytes → Option Text → Option Text → SpamallamVerdict → Option RspamdResult → Run Scored
  order_ai_first cleaned wl_rule bl_rule verdict pre = do
    (verdict', ai_failed) ← ai_unless_overridden cleaned wl_rule bl_rule verdict
    tagged ← tag cleaned verdict'
    rres ← scan_unless wl_rule pre tagged
    pure (record { verdict = verdict'; rres = rres; tagged = tagged; ai_failed = ai_failed })

  abbrev pub or_scan : Option RspamdResult → Bytes → Run RspamdResult
  or_scan (some pre) cleaned = pure pre
  or_scan none cleaned = check_rspamd cleaned

  abbrev pub bypasses : Option Text → Option Text → RspamdResult → Bool
  bypasses wl_rule bl_rule rres =
      not (is_some wl_rule)
      && not (is_some bl_rule)
      && env.cfg.ai_enabled
      && env.cfg.bypass_on_reject
      && is_reject rres

  unfoldable pub ai_unless_rejected :
      Bytes
      → Option Text
      → Option Text
      → SpamallamVerdict
      → RspamdResult
      → Run (SpamallamVerdict × Bool)
  ai_unless_rejected cleaned wl_rule bl_rule verdict rres =
      if bypasses wl_rule bl_rule rres
      then (do event (ai_bypass rres.action rres.score); pure (bypass_verdict, false))
      else ai_unless_overridden cleaned wl_rule bl_rule verdict

  -- _order_rspamd_first
  unfoldable pub order_rspamd_first :
      Bytes → Option Text → Option Text → SpamallamVerdict → Option RspamdResult → Run Scored
  order_rspamd_first cleaned wl_rule bl_rule verdict pre = do
    rres ← or_scan pre cleaned
    (verdict', ai_failed) ← ai_unless_rejected cleaned wl_rule bl_rule verdict rres
    tagged ← tag cleaned verdict'
    pure (record { verdict = verdict'; rres = rres; tagged = tagged; ai_failed = ai_failed })

  abbrev pub is_rspamd_first : Option Text → Bool
  is_rspamd_first none = false
  is_rspamd_first (some order) = text_eq order (codes "rspamd_first")

  -- 3-5. The AI analysis and rspamd, in the configured order.
  unfoldable pub score :
      Bytes → Option Text → Option Text → SpamallamVerdict → Option RspamdResult → Run Scored
  score cleaned wl_rule bl_rule verdict pre =
      if is_rspamd_first env.cfg.pipeline_order
      then order_rspamd_first cleaned wl_rule bl_rule verdict pre
      else order_ai_first cleaned wl_rule bl_rule verdict pre
