-- ===== src/Pipeline/Analyzer/Process.antt =====
-- Theorems on `Pipeline.process` (spamallam/app/pipeline/analyzer.py).
use spamallam.Prelude.{◌≡◌, ◌∙◌, inl, inr, Bool-cases, Option, some, is_empty, Text, Bytes}
use spamallam.Pipeline.Headers.Message.{strip_spam_headers}
use spamallam.Pipeline.Headers.Verdict.{SpamallamVerdict}
use spamallam.Pipeline.Rspamd.{RspamdResult}
use spamallam.Pipeline.Run.{Journal, Run, ◌>>=◌, bind-eq-some}
use spamallam.Pipeline.Run.Keeping.{Keeps}
use spamallam.Pipeline.Analyzer.Base.{Env, Request, MsgHeaders, Decision, Scored}
use spamallam.Pipeline.Analyzer.Scoring.{clean_message, honored_whitelist, override_verdict, score}
use spamallam.Pipeline.Analyzer.Verdict.{conclude, process}
use spamallam.Pipeline.Analyzer.Saving.{run}
use spamallam.Pipeline.Analyzer.Quiet.{
  Keeps-clean_message, Keeps-confirm, Keeps-override_verdict, Keeps-score,
}

clean_message-eq-some :
    (raw : Bytes) (j : Journal) → (clean_message raw j).0 ≡ some (strip_spam_headers raw).0
unfolding clean_message run
clean_message-eq-some raw j = elim (Bool-cases (is_empty (strip_spam_headers raw).1)) [
  | inl e ↦ simp e
  | inr e ↦ simp e
]

module _ (env : Env) (req : Request) (raw : Bytes) where
  abbrev pub cleaned : Bytes
  cleaned = (strip_spam_headers raw).0

  abbrev pub msg_headers : MsgHeaders
  msg_headers = env.headers_of cleaned

  -- The way of a decided message through the steps.
  pub record IsPassage (j : Journal) (d : Decision) (j' : Journal) : Type 0 where
    pub wl_rule : Option Text
    pub pre : Option RspamdResult
    pub bl_rule : Option Text
    pub verdict : SpamallamVerdict
    pub scored : Scored
    pub before_overrides : Journal
    pub before_verdict : Journal
    pub before_scoring : Journal
    pub before_end : Journal
    pub honored :
        (honored_whitelist env req cleaned msg_headers.from before_overrides).0
        ≡ some (wl_rule, pre)
    pub overridden :
        (override_verdict env req wl_rule msg_headers.from before_verdict).0
        ≡ some (bl_rule, verdict)
    pub was_scored :
        (score env req cleaned wl_rule bl_rule verdict pre before_scoring).0 ≡ some scored
    pub entries : before_end.entries ≡ j.entries
    pub finished : before_end.finished ≡ j.finished
    pub decided : (conclude env req wl_rule cleaned scored msg_headers before_end).0 ≡ some d
    pub ended : j' ≡ (conclude env req wl_rule cleaned scored msg_headers before_end).1

  -- The steps behind the anti-spoofing.
  abbrev after_scoring : Option Text → Scored → Run Decision
  after_scoring wl s = conclude env req wl cleaned s msg_headers

  abbrev after_overrides :
      Option Text × Option RspamdResult → Option Text × SpamallamVerdict → Run Decision
  after_overrides (wl, pre) (bl, v) = score env req cleaned wl bl v pre >>= after_scoring wl

  abbrev after_whitelist : Option Text × Option RspamdResult → Run Decision
  after_whitelist (wl, pre) =
      override_verdict env req wl msg_headers.from >>= after_overrides (wl, pre)

  abbrev after_cleaning : Run Decision
  after_cleaning = honored_whitelist env req cleaned msg_headers.from >>= after_whitelist

  process-after_cleaning :
      (j : Journal) → process env req raw j ≡ after_cleaning (clean_message raw j).1
  unfolding process ◌>>=◌
  process-after_cleaning j = rw (clean_message-eq-some raw j)

  Keeps-honored_whitelist : Keeps (honored_whitelist env req cleaned msg_headers.from)
  unfolding honored_whitelist
  Keeps-honored_whitelist = Keeps-confirm env req cleaned _

  after_cleaning-IsPassage :
      (j k : Journal) (d : Decision)
      → k.entries ≡ j.entries
      → k.finished ≡ j.finished
      → (after_cleaning k).0 ≡ some d
      → IsPassage j d (after_cleaning k).1
  after_cleaning-IsPassage j k d en fi e =
      let hw = honored_whitelist env req cleaned msg_headers.from in
      let ((wl, pre), w_is, e2, p2) = bind-eq-some hw after_whitelist k e in
      let k2 = (hw k).1 in
      let ov = override_verdict env req wl msg_headers.from in
      let ((bl, v), o_is, e3, p3) = bind-eq-some ov (after_overrides (wl, pre)) k2 e2 in
      let k3 = (ov k2).1 in
      let sc = score env req cleaned wl bl v pre in
      let (s, s_is, e4, p4) = bind-eq-some sc (after_scoring wl) k3 e3 in
      let kw = Keeps-honored_whitelist in
      let ko = Keeps-override_verdict env req wl msg_headers.from in
      let ks = Keeps-score env req cleaned wl bl v pre in
      record {
        wl_rule = wl;
        pre = pre;
        bl_rule = bl;
        verdict = v;
        scored = s;
        before_overrides = k;
        before_verdict = k2;
        before_scoring = k3;
        before_end = (sc k3).1;
        honored = w_is;
        overridden = o_is;
        was_scored = s_is;
        entries = ks.entries k3 ∙ (ko.entries k2 ∙ (kw.entries k ∙ en));
        finished = ks.finished k3 ∙ (ko.finished k2 ∙ (kw.finished k ∙ fi));
        decided = e4;
        ended = p2 ∙ (p3 ∙ p4);
      }

  pub process-IsPassage :
      (j : Journal) (d : Decision)
      → (process env req raw j).0 ≡ some d
      → IsPassage j d (process env req raw j).1
  process-IsPassage j d e =
      let k = Keeps-clean_message raw in
      let same = process-after_cleaning j in
      rw same (
        after_cleaning-IsPassage j (clean_message raw j).1 d (k.entries j) (k.finished j)
          (rw same at e))
