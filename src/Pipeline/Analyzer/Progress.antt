-- ===== src/Pipeline/Analyzer/Progress.antt =====
-- When `Pipeline.process` returns a decision (spamallam/app/pipeline/analyzer.py).
use spamallam.Prelude.{
  ◌≡◌, ap, ◌∙◌, Bool, true, false, Option, none, some, List, All, Text, Bytes, HasNoSurrogate,
}
use spamallam.Pipeline.Headers.Verdict.{SpamallamVerdict, skipped, Header}
use spamallam.Pipeline.Headers.Encoding.{
  IsEncodable, prepend_headers-some, build_spamallam_headers-some,
}
use spamallam.Pipeline.Overrides.{Source}
use spamallam.Pipeline.Rspamd.{RspamdResult, read_reply, check, check_headers}
use spamallam.Pipeline.Run.Yields.{
  Yields, Anything, Yields-pure, Yields-lift, Yields-if, Yields-event, Yields-bind,
}
use spamallam.Pipeline.Run.{Finish}
use spamallam.Pipeline.Analyzer.Base.{AiOutcome, answered, broke, Env, Request, Scored}
use spamallam.Pipeline.Analyzer.Scoring.{
  clean_message, check_rspamd, report_rspamd, confirm_sender, confirm, honored_whitelist, block,
  override_verdict, ai_result, run_ai, tagged_by, tag, ai_unless_overridden, scan_unless,
  order_ai_first, or_scan, ai_unless_rejected, order_rspamd_first, score, whitelisted_verdict,
  blocklisted_verdict, disabled_verdict, error_verdict, bypass_verdict,
}
use spamallam.Pipeline.Analyzer.Encodable.{
  IsRule, IsRule-match_whitelist, IsRule-check_blocklist, HasCleanAddresses, IsEncodable-skipped,
  IsEncodable-whitelisted_verdict, IsEncodable-blocklisted_verdict, IsEncodable-disabled_verdict,
  IsEncodable-error_verdict, IsEncodable-bypass_verdict,
}
use spamallam.Pipeline.Analyzer.Printable.{HasCleanNames}

-- What the AI reports can be encoded.
abbrev pub IsPrintable : AiOutcome → Type 0
IsPrintable (answered v) = IsEncodable v
IsPrintable (broke text) = HasNoSurrogate text

-- Numbers that `float` takes and texts with no lone surrogate, in what the services return and in
-- the admin's rules, and a trace log that takes every line.
pub record IsReady (env : Env) (req : Request) : Type 0 where
  pub signature : (key message : Bytes) → HasNoSurrogate (env.signer.hmac_hex key message)
  pub replies :
      (headers : List Header) (body : Bytes)
      → (r : RspamdResult) × (read_reply env.cfg.antivirus_fail_symbols (env.post headers body)
          ≡ some r)
        × HasCleanNames r.symbols
  pub reports : (raw : Bytes) → IsPrintable (env.analyze raw)
  pub whitelist_domains : All HasNoSurrogate env.cfg.overrides.whitelist_domains
  pub blocklist_domains : All HasNoSurrogate env.cfg.overrides.blocklist_domains
  pub recipients : HasCleanAddresses env.parse_address req.rcpt_tos
  pub trace : (f : Finish) → env.trace_fails f ≡ false

abbrev IsCleanResult : RspamdResult → Type 0
IsCleanResult r = HasCleanNames r.symbols

abbrev IsCleanPre : Option RspamdResult → Type 0
IsCleanPre none = Unit
IsCleanPre (some r) = IsCleanResult r

pub Yields-clean_message : (raw : Bytes) → Yields Anything (clean_message raw)
unfolding clean_message
Yields-clean_message raw =
    Yields-if Anything _ _ _ (Yields-pure Anything _ tt)
      (Yields-bind Anything Anything _ _ (Yields-event _) (λ a h. Yields-pure Anything _ tt))

module _ (env : Env) (req : Request) (ready : IsReady env req) where
  Yields-report_rspamd : (r : RspamdResult) → Yields Anything (report_rspamd env req r)
  Yields-report_rspamd r =
      Yields-if Anything r.ok _ _
        (Yields-bind Anything Anything _ _ (Yields-event _)
          (λ a h. Yields-if Anything r.av_failed _ _ (Yields-event _) (Yields-pure Anything tt tt)))
        (Yields-event _)

  Yields-check_rspamd : (message : Bytes) → Yields IsCleanResult (check_rspamd env req message)
  unfolding check_rspamd check
  Yields-check_rspamd message =
      let (r, e, clean) =
        ready.replies (check_headers req.client req.envelope_from req.rcpt_tos) message in
      Yields-bind IsCleanResult IsCleanResult _ _ (Yields-lift IsCleanResult _ r e clean) (λ r h.
        Yields-bind Anything IsCleanResult _ _ (Yields-report_rspamd r)
          (λ a k. Yields-pure IsCleanResult r h))

  abbrev IsCleanMatch : Option Text × Option RspamdResult → Type 0
  IsCleanMatch (wl, pre) = IsRule wl × IsCleanPre pre

  Yields-confirm_sender :
      (cleaned : Bytes) (rule : Text) (by : Source)
      → HasNoSurrogate rule
      → Yields IsCleanMatch (confirm_sender env req cleaned rule by)
  unfolding confirm_sender
  Yields-confirm_sender cleaned rule by h =
      Yields-bind IsCleanResult IsCleanMatch _ _ (Yields-check_rspamd cleaned) (λ pre k.
        Yields-if IsCleanMatch _ _ _ (Yields-pure IsCleanMatch (some rule, some pre) (h, k)) (
          Yields-bind Anything IsCleanMatch _ _ (Yields-event _)
            (λ a l. Yields-pure IsCleanMatch (none, some pre) (tt, k))))

  Yields-confirm :
      (cleaned : Bytes) (o : Option Text × Source)
      → IsRule o.0
      → Yields IsCleanMatch (confirm env req cleaned o)
  Yields-confirm cleaned (none, by) h = Yields-pure IsCleanMatch (none, none) (tt, tt)
  Yields-confirm cleaned (some rule, by) h =
      Yields-if IsCleanMatch _ _ _ (Yields-confirm_sender cleaned rule by h)
        (Yields-pure IsCleanMatch (some rule, none) (h, tt))

  pub Yields-honored_whitelist :
      (cleaned : Bytes) (from_header : Text)
      → Yields IsCleanMatch (honored_whitelist env req cleaned from_header)
  unfolding honored_whitelist
  Yields-honored_whitelist cleaned from_header = Yields-confirm cleaned _ (
      IsRule-match_whitelist env.parse_address env.cfg.overrides req.envelope_from from_header
        req.rcpt_tos ready.whitelist_domains ready.recipients)

  abbrev IsCleanOverride : Option Text × SpamallamVerdict → Type 0
  IsCleanOverride (bl, v) = IsEncodable v

  Yields-block : (o : Option Text) → IsRule o → Yields IsCleanOverride (block env req o)
  Yields-block none h = Yields-pure IsCleanOverride (none, skipped) IsEncodable-skipped
  Yields-block (some rule) h = Yields-bind Anything IsCleanOverride _ _ (Yields-event _) (λ a k.
      Yields-pure IsCleanOverride (some rule, blocklisted_verdict rule)
        (IsEncodable-blocklisted_verdict rule h))

  pub Yields-override_verdict :
      (wl : Option Text) (from_header : Text)
      → IsRule wl
      → Yields IsCleanOverride (override_verdict env req wl from_header)
  unfolding override_verdict
  Yields-override_verdict none from_header h = Yields-block _ (
      IsRule-check_blocklist env.parse_address env.cfg.overrides req.envelope_from from_header
        ready.blocklist_domains)
  Yields-override_verdict (some rule) from_header h =
      Yields-bind Anything IsCleanOverride _ _ (Yields-event _) (λ a k.
        Yields-pure IsCleanOverride (none, whitelisted_verdict rule)
          (IsEncodable-whitelisted_verdict rule h))

  abbrev IsCleanReport : SpamallamVerdict × Bool → Type 0
  IsCleanReport (v, failed) = IsEncodable v

  Yields-ai_result : (o : AiOutcome) → IsPrintable o → Yields IsCleanReport (ai_result env req o)
  Yields-ai_result (answered v) h = Yields-pure IsCleanReport (v, false) h
  Yields-ai_result (broke text) h = Yields-bind Anything IsCleanReport _ _ (Yields-event _) (λ a k.
      Yields-pure IsCleanReport (error_verdict text, true) (IsEncodable-error_verdict text h))

  Yields-run_ai : (cleaned : Bytes) → Yields IsCleanReport (run_ai env req cleaned)
  unfolding run_ai
  Yields-run_ai cleaned =
      Yields-if IsCleanReport env.cfg.ai_enabled _ _
        (Yields-ai_result (env.analyze cleaned) (ready.reports cleaned))
        (Yields-bind Anything IsCleanReport _ _ (Yields-event _)
          (λ a k. Yields-pure IsCleanReport (disabled_verdict, false) IsEncodable-disabled_verdict))

  Yields-ai_unless_overridden :
      (cleaned : Bytes) (wl bl : Option Text) (v : SpamallamVerdict)
      → IsEncodable v
      → Yields IsCleanReport (ai_unless_overridden env req cleaned wl bl v)
  unfolding ai_unless_overridden
  Yields-ai_unless_overridden cleaned wl bl v h =
      Yields-if IsCleanReport _ _ _ (Yields-pure IsCleanReport (v, false) h) (Yields-run_ai cleaned)

  Yields-tag :
      (cleaned : Bytes) (v : SpamallamVerdict)
      → IsEncodable v
      → Yields Anything (tag env req cleaned v)
  unfolding tag
  Yields-tag cleaned v h =
      let (hs, e, clean) = build_spamallam_headers-some v h env.signer ready.signature in
      let (b, f) = prepend_headers-some cleaned hs clean in
      Yields-lift Anything _ b (ap (tagged_by env req cleaned) e ∙ f) tt

  abbrev pub IsCleanScored : Scored → Type 0
  IsCleanScored s = IsCleanResult s.rres

  Yields-scan_unless :
      (wl : Option Text) (pre : Option RspamdResult) (tagged : Bytes)
      → IsCleanPre pre
      → Yields IsCleanResult (scan_unless env req wl pre tagged)
  Yields-scan_unless (some rule) (some pre) tagged h = Yields-pure IsCleanResult pre h
  Yields-scan_unless (some rule) none tagged h = Yields-check_rspamd tagged
  Yields-scan_unless none pre tagged h = Yields-check_rspamd tagged

  Yields-or_scan :
      (pre : Option RspamdResult) (cleaned : Bytes)
      → IsCleanPre pre
      → Yields IsCleanResult (or_scan env req pre cleaned)
  Yields-or_scan (some pre) cleaned h = Yields-pure IsCleanResult pre h
  Yields-or_scan none cleaned h = Yields-check_rspamd cleaned

  module _ (cleaned : Bytes) (wl bl : Option Text) (v : SpamallamVerdict)
      (pre : Option RspamdResult) (ok : IsEncodable v) (clean : IsCleanPre pre) where
    Yields-order_ai_first : Yields IsCleanScored (order_ai_first env req cleaned wl bl v pre)
    unfolding order_ai_first
    Yields-order_ai_first =
        Yields-bind IsCleanReport IsCleanScored _ _ (Yields-ai_unless_overridden cleaned wl bl v ok)
          (λ (w, failed) h.
            Yields-bind Anything IsCleanScored _ _ (Yields-tag cleaned w h) (λ tagged k.
              Yields-bind IsCleanResult IsCleanScored _ _ (Yields-scan_unless wl pre tagged clean)
                (λ r l. Yields-pure IsCleanScored _ l)))

    Yields-ai_unless_rejected :
        (r : RspamdResult) → Yields IsCleanReport (ai_unless_rejected env req cleaned wl bl v r)
    unfolding ai_unless_rejected
    Yields-ai_unless_rejected r =
        Yields-if IsCleanReport _ _ _
          (Yields-bind Anything IsCleanReport _ _ (Yields-event _)
            (λ a k. Yields-pure IsCleanReport (bypass_verdict, false) IsEncodable-bypass_verdict))
          (Yields-ai_unless_overridden cleaned wl bl v ok)

    Yields-order_rspamd_first :
        Yields IsCleanScored (order_rspamd_first env req cleaned wl bl v pre)
    unfolding order_rspamd_first
    Yields-order_rspamd_first =
        Yields-bind IsCleanResult IsCleanScored _ _ (Yields-or_scan pre cleaned clean) (λ r l.
          Yields-bind IsCleanReport IsCleanScored _ _ (Yields-ai_unless_rejected r)
            (λ (w, failed) h.
              Yields-bind Anything IsCleanScored _ _ (Yields-tag cleaned w h)
                (λ tagged k. Yields-pure IsCleanScored _ l)))

    pub Yields-score : Yields IsCleanScored (score env req cleaned wl bl v pre)
    unfolding score
    Yields-score = Yields-if IsCleanScored _ _ _ Yields-order_rspamd_first Yields-order_ai_first
