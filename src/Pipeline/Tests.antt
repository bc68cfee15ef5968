-- ===== src/Pipeline/Tests.antt =====
-- Runs of the pipeline on sample messages (spamallam/app/pipeline).
use spamallam.Prelude.{
  ◌≡◌, refl, true, false, none, some, List, [], ◌∷◌, ◌++◌, Text, Bytes, codes, zero_float,
  one_float, ◌≤◌, float_ge, text_eq, print_fixed2, print_fixed1, print_nat, rounded, scale,
  float_lt, encode, float_max, float_min, ℕ,
}
use spamallam.Pipeline.Headers.Message.{
  contains, emit, emit_more, find_sep, is_spam_header, newline_style, scan, split_lines,
  split_message, strip_block, strip_spam_headers,
}
use spamallam.Pipeline.Analyzer.Process.{IsPassage, cleaned, msg_headers}
use spamallam.Pipeline.Analyzer.Deciding.{Outcome}
use spamallam.Pipeline.Analyzer.Guarantees.{process-Outcome}
use spamallam.Pipeline.Analyzer.Whitelist.{IsHonored, honored_whitelist_lem}
use spamallam.Pipeline.Headers.Surrogates.{HasNoSurrogate-of_test}
use spamallam.Pipeline.Analyzer.Encodable.{IsEncodable-skipped}
use spamallam.Pipeline.Analyzer.Progress.{IsReady}
use spamallam.Pipeline.Analyzer.Decided.{process_returns}
use spamallam.Pipeline.Failure.Strictness.{Bounded, strictest-least_bound}
use spamallam.Pipeline.Failure.{
  defer, quarantine, deliver_tagged, severity, resolve, strictest, strictest_from,
}
use spamallam.Pipeline.Settings.{Settings}
use spamallam.Pipeline.Overrides.{
  base_recipient, check_blocklist, domain_of, match_whitelist, recipient_rule, sender_rule,
  clean_pattern, domain_matches, drop_tags, whitelist_is_authenticated, Source,
}
use spamallam.Pipeline.Rspamd.{
  HttpReply, scanned, failed, number, null_symbol, antivirus_failure, check, check_headers,
  is_reject, is_spam, lookup_symbol, read_reply, spamd_result_header, RspamdResult, unavailable,
}
use spamallam.Pipeline.Headers.Verdict.{
  skipped, build_spamallam_headers, sign, canonical, canonical_text, clamp_confidence,
  detail_headers, fold, header_block, join_lines, prepend_headers,
}
use spamallam.Pipeline.Body.{
  rewritten, ai_wants_marking, rspamd_wants_marking, wanted, wants_classification_footer,
  wants_images_broken, wants_marking,
}
use spamallam.Pipeline.Run.{empty_journal, drop, deliver}
use spamallam.Pipeline.Analyzer.Base.{Env, Request, Decision, answered}
use spamallam.Pipeline.Analyzer.Verdict.{
  process, after_detection, ai_drop, all_failed, apply_failure_policy, conclude, defer_message,
  deliver_message, drop_detected, failed_controls, failure_policy, quarantine_message, rewrite,
  save_quarantine, save_raw_copy, result_headers, rspamd_drop,
}
use spamallam.Pipeline.Analyzer.Scoring.{
  ai_unless_overridden, ai_unless_rejected, check_rspamd, confirm_sender, honored_whitelist,
  order_ai_first, order_rspamd_first, override_verdict, run_ai, score, tag, clean_message,
}
use spamallam.Pipeline.Analyzer.Saving.{run}
use spamallam.Pipeline.Analyzer.Deciding.{body_of}

-- The settings of a host with the AI switched off, its policies all the given one.
abbrev pub cfg_with : Text → List Text → Settings
cfg_with policy whitelist_domains = record {
  ai_enabled = false;
  pipeline_order = none;
  bypass_on_reject = true;
  drop_verdicts = codes "SPAM" ∷ codes "PHISHING" ∷ [];
  drop_threshold = one_float;
  failure = record { policy = λ control. some policy; failure_mode = none };
  antivirus_fail_symbols = codes "CLAM_VIRUS_FAIL" ∷ [];
  overrides = record {
    whitelist_domains = whitelist_domains;
    whitelist_recipients = [];
    blocklist_domains = [];
    require_auth = true;
  };
  marking = record {
    enabled = false;
    trigger_verdicts = [];
    trigger_on_rspamd_spam = false;
    scope = codes "off";
  };
  classification = record { enabled = false; placement = codes "header" };
  quarantine_enabled = true;
}

abbrev pub env_with : Settings → HttpReply → Env
env_with cfg reply = record {
  cfg = cfg;
  parse_address = λ address. address;
  headers_of = λ raw. record { from = codes "a@b.com"; subject = codes "S"; message_id = [] };
  signer = record { key = []; now = 7; hmac_hex = λ key message. codes "ab" };
  post = λ headers body. reply;
  analyze = λ raw. answered skipped;
  rewrite_mime = λ raw v r w. rewritten raw;
  strip_for_review = λ raw. raw;
  raw_save = λ id day copy. none;
  quarantine_save = λ e. none;
  trace_fails = λ f. false;
}

abbrev pub request : Request
request = record {
  envelope_from = codes "a@b.com";
  rcpt_tos = codes "c@d.org" ∷ [];
  client = record { addr = codes "192.0.2.1"; name = []; helo = [] };
  trace = some (codes "t1", codes "2026-01-01");
}

-- rspamd is down, and the policy is to hold mail then.
abbrev pub down_env : Env
down_env = env_with (cfg_with (codes "quarantine") []) (failed (codes "refused"))

abbrev pub ham_scan : HttpReply
ham_scan = scanned (record {
  action = codes "no action";
  score = number zero_float;
  required_score = number one_float;
  symbols = (codes "DMARC_POLICY_ALLOW", null_symbol) ∷ [];
})

abbrev pub ham_env : Env
ham_env = env_with (cfg_with (codes "defer") (codes "b.com" ∷ [])) ham_scan

-- A spoofed header with its continuation line, a blank line, and the body.
abbrev pub spoofed : Bytes
spoofed = codes "X-Spam-Flag: NO\n folded\nTo: c\n\nhi\n"

abbrev pub plain : Bytes
plain = codes "To: c\n\nhi\n"

-- All that a run goes through.
unfoldable pub program : Unit {0}
unfolding ai_unless_overridden ai_unless_rejected check_rspamd confirm_sender honored_whitelist
    order_ai_first order_rspamd_first override_verdict run_ai score tag clean_message
    after_detection ai_drop all_failed apply_failure_policy conclude defer_message deliver_message
    drop_detected failed_controls failure_policy process quarantine_message rewrite save_quarantine
    save_raw_copy result_headers rspamd_drop run strip_spam_headers build_spamallam_headers
    prepend_headers match_whitelist check_blocklist whitelist_is_authenticated check is_reject
    is_spam spamd_result_header wanted resolve strictest text_eq print_fixed2 print_fixed1 print_nat
    rounded scale float_ge float_lt zero_float one_float encode antivirus_failure read_reply
    check_headers body_of strip_block split_message split_lines scan emit emit_more newline_style
    contains find_sep is_spam_header fold join_lines clamp_confidence float_max float_min
    canonical_text drop_tags domain_matches clean_pattern lookup_symbol strictest_from
    detail_headers sign canonical header_block sender_rule recipient_rule domain_of base_recipient
    wants_marking wants_images_broken wants_classification_footer ai_wants_marking
    rspamd_wants_marking
program = tt

abbrev held : Decision
held = record {
  action = drop;
  message = none;
  reason = codes "security controls unavailable: antivirus, rspamd";
}

down_test : (process down_env request spoofed empty_journal).0 ≡ some held
unfolding program
down_test = refl

abbrev sent : Decision
sent = record {
  action = deliver;
  message = some (
      codes "X-Spamd-Result: default: False [0.00 / 1.00]; DMARC_POLICY_ALLOW(0.00)\n"
      ++ codes "X-Spam-Score: 0.00\nX-Spam-Status: No, score=0.00 required=1.00\n"
      ++ codes "X-SpamAllam-Verdict: HAM\nX-SpamAllam-Confidence: 1.00\n"
      ++ codes "X-SpamAllam-Category: whitelisted\n"
      ++ codes "X-SpamAllam-Reason: admin whitelist override (domain:b.com)\n"
      ++ codes "X-SpamAllam-Whitelisted: yes; rule=domain:b.com\n"
      ++ codes "X-SpamAllam-Signature: v=1; ts=7; sig=ab\n"
      ++ plain);
  reason = [];
}

process-Outcome_example :
    (p : IsPassage down_env request spoofed empty_journal held
      (process down_env request spoofed empty_journal).1)
    × Outcome down_env request
        (cleaned down_env request spoofed)
        p.scored
        (msg_headers down_env request spoofed)
        p.wl_rule
        empty_journal
        held
        (process down_env request spoofed empty_journal).1
process-Outcome_example = process-Outcome down_env request spoofed empty_journal held down_test

abbrev authenticated : RspamdResult
authenticated = record {
  ok = true;
  action = codes "no action";
  score = zero_float;
  required_score = one_float;
  symbols = (codes "DMARC_POLICY_ALLOW", null_symbol) ∷ [];
  error = [];
  av_failed = false;
  av_error = [];
}

honored_test :
    (honored_whitelist ham_env request plain (codes "a@b.com") empty_journal).0
    ≡ some (some (codes "domain:b.com"), some authenticated)
unfolding program
honored_test = refl

honored_whitelist_lem_example :
    (by : Source) × (match_whitelist ham_env.parse_address ham_env.cfg.overrides
        request.envelope_from
        (codes "a@b.com")
        request.rcpt_tos
      ≡ (some (codes "domain:b.com"), by))
    × IsHonored ham_env request plain by (some authenticated)
honored_whitelist_lem_example =
    honored_whitelist_lem ham_env request plain (codes "a@b.com") empty_journal
      (codes "domain:b.com") (some authenticated) honored_test

-- Spoofed mail under a whitelisted domain: the scan does not authenticate it.
denied_test :
    (honored_whitelist
      (env_with (cfg_with (codes "defer") (codes "b.com" ∷ [])) (failed (codes "refused")))
      request
      plain
      (codes "a@b.com")
      empty_journal).0
    ≡ some (none, some (unavailable (codes "refused")))
unfolding program
denied_test = refl

strictest_test : strictest (quarantine ∷ deliver_tagged ∷ []) ≡ quarantine
unfolding program
strictest_test = refl

strictest-least_bound_example :
    Bounded (severity (strictest (quarantine ∷ defer ∷ []))) (quarantine ∷ defer ∷ [])
    × ((n : ℕ)
        → Bounded n (quarantine ∷ defer ∷ [])
        → severity (strictest (quarantine ∷ defer ∷ [])) ≤ n)
strictest-least_bound_example = strictest-least_bound (quarantine ∷ defer ∷ [])

ham_env-IsReady : IsReady ham_env request
unfolding program
ham_env-IsReady = record {
  signature = λ key message. HasNoSurrogate-of_test (codes "ab") refl;
  replies = λ headers body.
      (authenticated, refl, (HasNoSurrogate-of_test (codes "DMARC_POLICY_ALLOW") refl, tt));
  reports = λ raw. IsEncodable-skipped;
  whitelist_domains = (HasNoSurrogate-of_test (codes "b.com") refl, tt);
  blocklist_domains = tt;
  recipients = (HasNoSurrogate-of_test (codes "c@d.org") refl, tt);
  trace = λ f. refl;
}

process_returns_example :
    (d : Decision) × ((process ham_env request spoofed empty_journal).0 ≡ some d)
process_returns_example = process_returns ham_env request spoofed empty_journal ham_env-IsReady
