-- ===== src/Pipeline/Analyzer/Decided.antt =====
-- Every message is decided (spamallam/app/pipeline/analyzer.py, `Pipeline.process`).
use spamallam.Prelude.{
  ◌≡◌, Bool, false, Option, none, some, is_some, is_empty, ◌||◌, List, Text, Bytes,
}
use spamallam.Pipeline.Failure.{Policy, deliver_tagged, quarantine, defer}
use spamallam.Pipeline.Headers.Encoding.{prepend_headers-some}
use spamallam.Pipeline.Run.{Journal, Finish, Failed, Run, ◌>>=◌, finish}
use spamallam.Pipeline.Run.Yields.{
  Yields, Anything, Yields-pure, Yields-lift, Yields-if, Yields-event, Yields-bind,
}
use spamallam.Pipeline.Analyzer.Base.{Env, Request, MsgHeaders, Decision, Scored}
use spamallam.Pipeline.Analyzer.Verdict.{
  rewrite, result_headers, ai_drop, rspamd_drop, drop_reason, drop_detected, failed_controls,
  failure_policy, save_raw_copy, save_quarantine, quarantine_message, defer_message, under_policy,
  apply_failure_policy, deliver_message, unless_decided, after_detection, conclude, process,
}
use spamallam.Pipeline.Analyzer.Saving.{IsQuiet-save_raw_copy, IsSaving-save_quarantine}
use spamallam.Pipeline.Analyzer.Deciding.{body_of, rewrite-eq-some}
use spamallam.Pipeline.Analyzer.Printable.{HasCleanNames, HasCleanHeaders-result_headers}
use spamallam.Pipeline.Analyzer.Progress.{
  IsReady, Yields-clean_message, Yields-honored_whitelist, Yields-override_verdict, Yields-score,
}

Yields-finish :
    (fails : Finish → Bool) (f : Finish) → fails f ≡ false → Yields Anything (finish fails f)
unfolding finish
Yields-finish fails f e j = (tt, simp e, tt)

module _ (env : Env) (req : Request) (cleaned : Bytes) (s : Scored) (h : MsgHeaders)
    (clean : HasCleanNames s.rres.symbols) (writes : (f : Finish) → env.trace_fails f ≡ false) where
  Yields-rewrite : Yields Anything (rewrite env s)
  Yields-rewrite j = (body_of env s, rewrite-eq-some env s j, tt)

  Yields-deliver_message :
      (failed : List Failed) → Yields Anything (deliver_message env req s failed)
  unfolding deliver_message
  Yields-deliver_message failed = Yields-bind Anything Anything _ _ Yields-rewrite (λ body k.
      let (b, e) =
        prepend_headers-some body (result_headers s failed)
          (HasCleanHeaders-result_headers s failed clean) in
      Yields-bind Anything Anything _ _ (Yields-lift Anything _ b e tt) (λ final l.
        Yields-bind Anything Anything _ _ (Yields-finish env.trace_fails _ (writes _))
          (λ a m. Yields-pure Anything _ tt)))

  -- Saving a dropped message returns, whatever the two stores do.
  Yields-saved :
      {A : Type 0} (why : Text) (f : Bool → Bool → Run A)
      → ((raw_saved quarantined : Bool) → Yields Anything (f raw_saved quarantined))
      → Yields Anything (
          save_raw_copy env req s.tagged >>= λ raw_saved.
          save_quarantine env req cleaned s why h >>= f raw_saved)
  Yields-saved why f after =
      Yields-bind Anything Anything _ _
        (λ j. let q = IsQuiet-save_raw_copy env req s.tagged j in (q.value, q.returns, tt))
        (λ raw_saved a.
          Yields-bind Anything Anything _ _
            (λ j.
              let v = IsSaving-save_quarantine env req cleaned s h why j in (v.held, v.returns, tt))
            (λ quarantined b. after raw_saved quarantined))

  Yields-drop_detected : (why : Text) → Yields Anything (drop_detected env req cleaned s why h)
  unfolding drop_detected
  Yields-drop_detected why = Yields-saved why _ (λ raw_saved quarantined.
      Yields-bind Anything Anything _ _ (Yields-finish env.trace_fails _ (writes _))
        (λ a m. Yields-pure Anything _ tt))

  Yields-under_policy :
      (p : Policy) (why : Text) (failed : List Failed)
      → Yields Anything (under_policy env req p cleaned s why failed h)
  unfolding defer_message quarantine_message
  Yields-under_policy defer why failed =
      Yields-bind Anything Anything _ _ (Yields-finish env.trace_fails _ (writes _))
        (λ a m. Yields-pure Anything _ tt)
  Yields-under_policy quarantine why failed = Yields-saved why _ (λ raw_saved quarantined.
      Yields-if Anything quarantined _ _
        (Yields-bind Anything Anything _ _ (Yields-finish env.trace_fails _ (writes _))
          (λ a m. Yields-pure Anything _ tt))
        (Yields-bind Anything Anything _ _ (Yields-event _) (λ a m.
          Yields-bind Anything Anything _ _ (Yields-finish env.trace_fails _ (writes _))
            (λ b n. Yields-pure Anything _ tt))))
  Yields-under_policy deliver_tagged why failed = Yields-pure Anything none tt

  Yields-unless_decided :
      (failed : List Failed) (o : Option Decision)
      → Yields Anything (unless_decided env req s failed o)
  Yields-unless_decided failed (some early) = Yields-pure Anything early tt
  Yields-unless_decided failed none = Yields-deliver_message failed

  Yields-after_detection :
      (wl : Option Text) → Yields Anything (after_detection env req wl cleaned s h)
  unfolding after_detection apply_failure_policy
  Yields-after_detection wl =
      let failed = failed_controls env s in
      Yields-if Anything (is_empty failed || is_some wl) _ _ (Yields-deliver_message failed) (
        Yields-bind Anything Anything _ _
          (Yields-bind Anything Anything _ _ (Yields-event _)
            (λ a m. Yields-under_policy (failure_policy env s) _ failed))
          (λ early m. Yields-unless_decided failed early))

  Yields-conclude : (wl : Option Text) → Yields Anything (conclude env req wl cleaned s h)
  unfolding conclude
  Yields-conclude wl =
      Yields-if Anything (ai_drop env wl s || rspamd_drop wl s) _ _
        (Yields-drop_detected (drop_reason (ai_drop env wl s) s)) (Yields-after_detection wl)

-- Whatever the message and whatever happened before, `process` returns a decision, as long as the
-- services and the rules are readable: rspamd's replies hold numbers, and no text that goes into a
-- header has a lone surrogate; and as long as the trace log takes a line. rspamd or the AI being down,
-- and a failure of the quarantine or of the review copies, is decided like anything else.
pub process_returns :
    (env : Env) (req : Request) (raw : Bytes) (j : Journal)
    → IsReady env req
    → (d : Decision) × ((process env req raw j).0 ≡ some d)
unfolding process
process_returns env req raw j ready =
    let (d, e, _) =
      Yields-bind Anything Anything _ _ (Yields-clean_message raw)
        (λ cleaned k.
          let h = env.headers_of cleaned in
          Yields-bind _ Anything _ _ (Yields-honored_whitelist env req ready cleaned h.from)
            (λ (wl, pre) (rule_ok, pre_ok).
              Yields-bind _ Anything _ _ (Yields-override_verdict env req ready wl h.from rule_ok)
                (λ (bl, v) v_ok.
                  Yields-bind _ Anything _ _
                    (Yields-score env req ready cleaned wl bl v pre v_ok pre_ok)
                    (λ s s_ok. Yields-conclude env req cleaned s h s_ok ready.trace wl))))
        j in
    (d, e)
