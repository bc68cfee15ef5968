-- ===== src/Pipeline/Analyzer/Outcome.antt =====
-- What `conclude` decides on every branch (spamallam/app/pipeline/analyzer.py, steps 6 to 7).
use spamallam.Prelude.{
  ◌≡◌, refl, ap, sym, ◌∙◌, ◌⊎◌, inl, inr, Bool-cases, true, false, Option, none, some, List, [],
  ◌∷◌, ◌++◌, Text, Bytes, codes,
}
use spamallam.Pipeline.Run.{Action, drop, tempfail, Failed, Journal, Finish}
use spamallam.Pipeline.Analyzer.Base.{Env, Request, MsgHeaders, Decision, Scored}
use spamallam.Pipeline.Analyzer.Verdict.{
  save_raw_copy, entry_of, drop_detected, defer_message, quarantine_message, failed_controls,
  failed_names, finish_with,
}
use spamallam.Pipeline.Analyzer.Saving.{
  run, IsQuiet-save_raw_copy, IsHeld, IsSaving-save_quarantine,
}

module _ (env : Env) (req : Request) (cleaned : Bytes) (s : Scored) (h : MsgHeaders) where
  abbrev pub control_reason : Text
  control_reason = codes "security controls unavailable: " ++ failed_names (failed_controls env s)

  -- The journal has one more finish, for the decided action.
  abbrev pub IsFinished : Action → Journal → Journal → Type 0
  IsFinished action j j' = (f : Finish) × (j'.finished ≡ j.finished ++ f ∷ []) × (f.action ≡ action)

  -- A detected threat is dropped, whatever the quarantine and the review copies do.
  pub drop_detected_lem :
      (why : Text) (j : Journal) (d : Decision)
      → (drop_detected env req cleaned s why h j).0 ≡ some d
      → (d.action ≡ drop) × IsFinished drop j (drop_detected env req cleaned s why h j).1
  unfolding drop_detected run
  drop_detected_lem why j d e =
      let q = IsQuiet-save_raw_copy env req s.tagged j in
      let v =
        IsSaving-save_quarantine env req cleaned s h why (save_raw_copy env req s.tagged j).1 in
      let f = finish_with drop s why q.value v.held [] in
      elim (Bool-cases (env.trace_fails f)) [
        | inl x ↦ cc (simp (q.returns, v.returns, x) at e)
        | inr x ↦
            let g : record { action = drop; message = none; reason = why } ≡ d =
              cc (simp (q.returns, v.returns, x) at e) in
            (
              ap (λ (y : Decision). y.action) (sym g),
              (
                f,
                simp (q.returns, v.returns, x) (ap (λ r. r ++ f ∷ []) (v.finished ∙ q.finished)),
                refl,
              ),
            )
      ]

  -- Deferring writes nothing but the end of the trace.
  abbrev deferred : Text → Decision
  deferred why = record { action = tempfail; message = none; reason = why }

  -- A quarantined message is held or deferred, never lost.
  pub record IsKept (why : Text) (o : Option Decision) (j j' : Journal) : Type 0 where
    pub decision : Decision
    pub returns : o ≡ some decision
    pub kept :
        ((decision.action ≡ drop) × IsHeld env req cleaned s h why j j')
        ⊎ ((decision.action ≡ tempfail) × (j'.entries ≡ j.entries))
    pub ended : IsFinished decision.action j j'

  module _ (why : Text) (failed : List Failed) (j : Journal) where
    abbrev after_raw : Journal
    after_raw = (save_raw_copy env req s.tagged j).1

    pub quarantine_message_lem :
        (o : Option Decision)
        → (quarantine_message env req cleaned s why failed h j).0 ≡ some o
        → IsKept why o j (quarantine_message env req cleaned s why failed h j).1
    unfolding quarantine_message defer_message run
    quarantine_message_lem o r =
        let q = IsQuiet-save_raw_copy env req s.tagged j in
        let v = IsSaving-save_quarantine env req cleaned s h why after_raw in
        elim (Bool-cases v.held) [
          | inl e ↦
              let f = finish_with drop s why q.value true failed in
              let (at_day, t, entries) = v.when_held e in
              elim (Bool-cases (env.trace_fails f)) [
                | inl x ↦ cc (simp (q.returns, v.returns, e, x) at r)
                | inr x ↦ record {
                  decision = record { action = drop; message = none; reason = why };
                  returns = cc (simp (q.returns, v.returns, e, x) at r);
                  kept = inl (
                    refl,
                    (
                      at_day,
                      t,
                      simp (q.returns, v.returns, e, x)
                          (entries
                            ∙ ap (λ r. r ++ entry_of env req cleaned s why h at_day ∷ [])
                                q.entries),
                    ),
                  );
                  ended = (
                    f,
                    simp (q.returns, v.returns, e, x)
                        (ap (λ r. r ++ f ∷ []) (v.finished ∙ q.finished)),
                    refl,
                  );
                }
              ]
          | inr e ↦
              let f = finish_with tempfail s why false false failed in
              elim (Bool-cases (env.trace_fails f)) [
                | inl x ↦ cc (simp (q.returns, v.returns, e, x) at r)
                | inr x ↦ record {
                  decision = deferred why;
                  returns = cc (simp (q.returns, v.returns, e, x) at r);
                  kept = inr (refl, simp (q.returns, v.returns, e, x) (v.otherwise e ∙ q.entries));
                  ended = (
                    f,
                    simp (q.returns, v.returns, e, x)
                        (ap (λ r. r ++ f ∷ []) (v.finished ∙ q.finished)),
                    refl,
                  );
                }
              ]
        ]
