-- ===== src/Pipeline/Analyzer/Guarantees.antt =====
-- What `Pipeline.process` guarantees (spamallam/app/pipeline/analyzer.py).
use spamallam.Prelude.{
  ◌≡◌, refl, ap, sym, subst, ◌∙◌, ◌⊎◌, inl, inr, true, Option, some, is_some, [], ◌∷◌, ◌++◌, Text,
  Bytes,
}
use spamallam.Pipeline.Failure.{Policy, deliver_tagged, quarantine, defer}
use spamallam.Pipeline.Headers.Verdict.{prepend_headers}
use spamallam.Pipeline.Run.{deliver, drop, Entry, Journal}
use spamallam.Pipeline.Analyzer.Base.{Env, Request, MsgHeaders, Decision, Scored}
use spamallam.Pipeline.Analyzer.Verdict.{
  process, failure_policy, failed_controls, entry_of, result_headers,
}
use spamallam.Pipeline.Analyzer.Saving.{IsHeld}
use spamallam.Pipeline.Analyzer.Outcome.{control_reason}
use spamallam.Pipeline.Analyzer.Deciding.{body_of, Outcome, IsDelivery, PolicyResult, conclude_lem}
use spamallam.Pipeline.Analyzer.Threats.{
  IsThreat, AreRunning, IsThreat-of_detected, no_threat, AreRunning-of_scanned,
}
use spamallam.Pipeline.Analyzer.Process.{cleaned, msg_headers, IsPassage, process-IsPassage}

-- The message stands in the quarantine, under its trace, with its envelope and its bytes.
abbrev pub IsWhole : Request → Bytes → Journal → Journal → Type 0
IsWhole req c j j' =
    (e : Entry) × (j'.entries ≡ j.entries ++ e ∷ [])
    × (e.original ≡ c)
    × (e.envelope_from ≡ req.envelope_from)
    × (e.rcpt_tos ≡ req.rcpt_tos)
    × (req.trace ≡ some (e.id, e.day))

-- What a delivery means: it is no threat, and either every control ran, or a whitelist rule was
-- honored, or the policy is to deliver; the message is the rewritten one under its headers, and the
-- quarantine is as it was.
abbrev pub IsCheckedDelivery :
    Env
    → Request
    → Bytes
    → Scored
    → MsgHeaders
    → Option Text
    → Journal
    → Decision
    → Journal
    → Type 0
IsCheckedDelivery env req c s h wl j d j' =
    (¬ IsThreat env s wl)
    × (AreRunning env s wl ⊎ (is_some wl ≡ true) ⊎ (failure_policy env s ≡ deliver_tagged))
    × (d.message ≡ prepend_headers (body_of env s) (result_headers s (failed_controls env s)))
    × (j'.entries ≡ j.entries)

module _ (env : Env) (req : Request) (c : Bytes) (s : Scored) (h : MsgHeaders) (j k j' : Journal)
    (en : k.entries ≡ j.entries) (fi : k.finished ≡ j.finished) where
  IsDelivery-from :
      (d : Decision)
      → IsDelivery env req c s h (failed_controls env s) k d j'
      → IsDelivery env req c s h (failed_controls env s) j d j'
  IsDelivery-from d r =
      let (x, e, a) = r.ended in
      record {
        delivered = r.delivered;
        message = r.message;
        entries = r.entries ∙ en;
        ended = (x, e ∙ ap (λ r. r ++ x ∷ []) fi, a);
      }

  PolicyResult-from :
      (p : Policy) (d : Decision)
      → PolicyResult env req c s h p k d j'
      → PolicyResult env req c s h p j d j'
  PolicyResult-from defer d (a, e, (x, f, b)) = (a, e ∙ en, (x, f ∙ ap (λ r. r ++ x ∷ []) fi, b))
  PolicyResult-from quarantine d (inl (a, (day, t, e)), (x, f, b)) = (
    inl (
      a,
      (
        day,
        t,
        e ∙ ap (λ r. r ++ entry_of env req c s (control_reason env req c s h) h day ∷ []) en,
      ),
    ),
    (x, f ∙ ap (λ r. r ++ x ∷ []) fi, b),
  )
  PolicyResult-from quarantine d (inr (a, e), (x, f, b)) =
      (inr (a, e ∙ en), (x, f ∙ ap (λ r. r ++ x ∷ []) fi, b))
  PolicyResult-from deliver_tagged d r = IsDelivery-from d r

  Outcome-from :
      (wl : Option Text) (d : Decision)
      → Outcome env req c s h wl k d j'
      → Outcome env req c s h wl j d j'
  Outcome-from wl d (inl (f, a, (x, e, b))) = inl (f, a, (x, e ∙ ap (λ r. r ++ x ∷ []) fi, b))
  Outcome-from wl d (inr (inl (f, u, r))) = inr (inl (f, u, PolicyResult-from _ d r))
  Outcome-from wl d (inr (inr (f, u, r))) = inr (inr (f, u, IsDelivery-from d r))

  IsHeld-of_drop :
      (p : Policy) (d : Decision)
      → PolicyResult env req c s h p j d j'
      → d.action ≡ drop
      → IsHeld env req c s h (control_reason env req c s h) j j'
  IsHeld-of_drop defer d (a, _, _) e = cc
  IsHeld-of_drop quarantine d (inl (a, held), _) e = held
  IsHeld-of_drop quarantine d (inr (a, _), _) e = cc
  IsHeld-of_drop deliver_tagged d r e = cc (r.delivered)

  IsWhole-of_held : IsHeld env req c s h (control_reason env req c s h) j j' → IsWhole req c j j'
  IsWhole-of_held (at_day, t, e) =
      (entry_of env req c s (control_reason env req c s h) h at_day, e, refl, refl, refl, t)

  drop_of_Outcome :
      (wl : Option Text) (d : Decision)
      → Outcome env req c s h wl j d j'
      → d.action ≡ drop
      → IsThreat env s wl
        ⊎ (IsHeld env req c s h (control_reason env req c s h) j j' × IsWhole req c j j')
  drop_of_Outcome wl d (inl (f, _, _)) e = inl (IsThreat-of_detected env req c s h wl f)
  drop_of_Outcome wl d (inr (inl (f, u, r))) e =
      let held = IsHeld-of_drop _ d r e in inr (held, IsWhole-of_held held)
  drop_of_Outcome wl d (inr (inr (f, u, r))) e = cc (r.delivered)

  deliver_of_PolicyResult :
      (p : Policy) (d : Decision)
      → PolicyResult env req c s h p j d j'
      → d.action ≡ deliver
      → (p ≡ deliver_tagged) × IsDelivery env req c s h (failed_controls env s) j d j'
  deliver_of_PolicyResult defer d (a, _, _) e = cc
  deliver_of_PolicyResult quarantine d (inl (a, held), _) e = cc
  deliver_of_PolicyResult quarantine d (inr (a, _), _) e = cc
  deliver_of_PolicyResult deliver_tagged d r e = (refl, r)

  deliver_of_Outcome :
      (wl : Option Text) (d : Decision)
      → Outcome env req c s h wl j d j'
      → d.action ≡ deliver
      → IsCheckedDelivery env req c s h wl j d j'
  deliver_of_Outcome wl d (inl (f, a, _)) e = cc
  deliver_of_Outcome wl d (inr (inl (f, u, r))) e =
      let (p, v) = deliver_of_PolicyResult _ d r e in
      (no_threat env req c s h wl f, inr (inr p), v.message, v.entries)
  deliver_of_Outcome wl d (inr (inr (f, u, r))) e = (
    no_threat env req c s h wl f,
    elim (AreRunning-of_scanned env req c s h wl u) [ inl a ↦ inl a | inr w ↦ inr (inl w) ],
    r.message,
    r.entries,
  )

module _ (env : Env) (req : Request) (raw : Bytes) (j : Journal) (d : Decision) where
  abbrev pub end_journal : Journal
  end_journal = (process env req raw j).1

  -- A message that is decided is dropped as a detected threat, or ends as the failure policy says
  -- (deferred, held in quarantine or deferred, delivered), or is delivered; its trace is finished
  -- exactly once, with that action. Detection and policy are those of the scores that the steps of
  -- this message came to, with the whitelist rule that they honored.
  pub process-Outcome :
      (process env req raw j).0 ≡ some d
      → (p : IsPassage env req raw j d end_journal) × Outcome env req
          (cleaned env req raw)
          p.scored
          (msg_headers env req raw)
          p.wl_rule
          j
          d
          end_journal
  process-Outcome e =
      let p = process-IsPassage env req raw j d e in
      let c = cleaned env req raw in
      let h = msg_headers env req raw in
      let o = conclude_lem env req c p.scored h p.wl_rule p.before_end d p.decided in
      (
        p,
        Outcome-from env req c p.scored h j p.before_end end_journal p.entries p.finished p.wl_rule
            d
            (subst (λ x. Outcome env req c p.scored h p.wl_rule p.before_end d x) (sym p.ended) o),
      )

  pub drop_is_accounted :
      (process env req raw j).0 ≡ some d
      → d.action ≡ drop
      → (p : IsPassage env req raw j d end_journal) × (IsThreat env p.scored p.wl_rule
          ⊎ (IsHeld env req
                (cleaned env req raw)
                p.scored
                (msg_headers env req raw)
                (control_reason env req (cleaned env req raw) p.scored (msg_headers env req raw))
                j
                end_journal
              × IsWhole req (cleaned env req raw) j end_journal))
  drop_is_accounted e dropped =
      let (p, o) = process-Outcome e in
      (p, drop_of_Outcome env req _ p.scored _ j j end_journal refl refl p.wl_rule d o dropped)

  pub delivery_is_checked :
      (process env req raw j).0 ≡ some d
      → d.action ≡ deliver
      → (p : IsPassage env req raw j d end_journal) × IsCheckedDelivery env req
          (cleaned env req raw)
          p.scored
          (msg_headers env req raw)
          p.wl_rule
          j
          d
          end_journal
  delivery_is_checked e sent =
      let (p, o) = process-Outcome e in
      (p, deliver_of_Outcome env req _ p.scored _ j j end_journal refl refl p.wl_rule d o sent)
