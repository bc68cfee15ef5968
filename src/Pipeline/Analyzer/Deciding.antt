-- ===== src/Pipeline/Analyzer/Deciding.antt =====
-- What `conclude` decides, on every branch (spamallam/app/pipeline/analyzer.py, steps 6 to 7).
use spamallam.Prelude.{
  ◌≡◌, refl, ap, sym, subst, ◌∙◌, ◌⊎◌, inl, inr, Bool-cases, Option-cases, Bool, true, false, not,
  ◌||◌, Option, none, some, is_some, List, [], ◌∷◌, ◌++◌, if◌then◌else◌, is_empty, Text, Bytes,
}
use spamallam.Pipeline.Failure.{Policy, deliver_tagged, quarantine, defer}
use spamallam.Pipeline.Headers.Verdict.{prepend_headers}
use spamallam.Pipeline.Body.{Rewritten, rewritten, raised, wanted, wants_any}
use spamallam.Pipeline.Run.{
  deliver, drop, tempfail, Failed, Journal, Run, ◌>>=◌, bind-eq-some, control_failure,
}
use spamallam.Pipeline.Analyzer.Base.{Env, Request, MsgHeaders, Decision, Scored}
use spamallam.Pipeline.Analyzer.Verdict.{
  defer_message, quarantine_message, unless_decided, apply_failure_policy, fail_open,
  deliver_message, after_detection, conclude, ai_drop, rspamd_drop, failure_policy, failed_controls,
  drop_reason, rewrite, finish_with, result_headers,
}
use spamallam.Pipeline.Analyzer.Saving.{run, IsQuiet, IsHeld}
use spamallam.Pipeline.Analyzer.Outcome.{
  control_reason, IsFinished, drop_detected_lem, quarantine_message_lem,
}

IsQuiet-fail_open : (raw : Bytes) (r : Rewritten) (j : Journal) → IsQuiet (fail_open raw r) j
unfolding run
IsQuiet-fail_open raw (rewritten bytes) j = record {
  value = bytes;
  returns = refl;
  entries = refl;
  finished = refl;
}
IsQuiet-fail_open raw (raised text) j = record {
  value = raw;
  returns = refl;
  entries = refl;
  finished = refl;
}

-- Rewriting the body never fails.
pub IsQuiet-rewrite : (env : Env) (s : Scored) (j : Journal) → IsQuiet (rewrite env s) j
unfolding rewrite
IsQuiet-rewrite env s j = elim (Bool-cases (wants_any (wanted s.verdict s.rres env.cfg))) [
  | inl e ↦ simp e (IsQuiet-fail_open s.tagged _ j)
  | inr e ↦
      simp e
        (unfold run in record { value = s.tagged; returns = refl; entries = refl; finished = refl })
]

abbrev or_raw : Bytes → Rewritten → Bytes
or_raw raw (rewritten bytes) = bytes
or_raw raw (raised text) = raw

-- The body that is delivered: rewritten where a setting asks for it and it succeeds.
unfoldable pub body_of : Env → Scored → Bytes
body_of env s =
    let w = wanted s.verdict s.rres env.cfg in
    if wants_any w then or_raw s.tagged (env.rewrite_mime s.tagged s.verdict s.rres w) else s.tagged

fail_open-eq-some :
    (raw : Bytes) (r : Rewritten) (j : Journal) → (fail_open raw r j).0 ≡ some (or_raw raw r)
unfolding run
fail_open-eq-some raw (rewritten bytes) j = refl
fail_open-eq-some raw (raised text) j = refl

pub rewrite-eq-some :
    (env : Env) (s : Scored) (j : Journal) → (rewrite env s j).0 ≡ some (body_of env s)
unfolding rewrite body_of
rewrite-eq-some env s j = elim (Bool-cases (wants_any (wanted s.verdict s.rres env.cfg))) [
  | inl e ↦ simp e (fail_open-eq-some s.tagged _ j)
  | inr e ↦ simp e (unfold run in refl)
]

module _ (env : Env) (req : Request) (cleaned : Bytes) (s : Scored) (h : MsgHeaders) where
  -- A delivery carries the rewritten message under the result headers.
  pub record IsDelivery (failed : List Failed) (j : Journal) (d : Decision) (j' : Journal)
      : Type 0 where
    pub delivered : d.action ≡ deliver
    pub message : d.message ≡ prepend_headers (body_of env s) (result_headers s failed)
    pub entries : j'.entries ≡ j.entries
    pub ended : IsFinished env req cleaned s h deliver j j'

  deliver_message_lem :
      (failed : List Failed) (j : Journal) (d : Decision)
      → (deliver_message env req s failed j).0 ≡ some d
      → IsDelivery failed j d (deliver_message env req s failed j).1
  unfolding deliver_message run
  deliver_message_lem failed j d e =
      let q = IsQuiet-rewrite env s j in
      let r = rewrite-eq-some env s j in
      let final = prepend_headers (body_of env s) (result_headers s failed) in
      let f = finish_with deliver s [] false false failed in
      elim (Option-cases final) [
        | inl n ↦ cc (simp (r, n) at e)
        | inr (m, n) ↦ elim (Bool-cases (env.trace_fails f)) [
          | inl x ↦ cc (simp (r, n, x) at e)
          | inr x ↦
              let g : record { action = deliver; message = some m; reason = [] } ≡ d =
                cc (simp (r, n, x) at e) in
              record {
                delivered = ap (λ (x : Decision). x.action) (sym g);
                message = ap (λ (x : Decision). x.message) (sym g) ∙ sym n;
                entries = simp (r, n, x) q.entries;
                ended = (f, simp (r, n, x) (ap (λ r. r ++ f ∷ []) q.finished), refl);
              }
        ]
      ]

  -- What ends after the failure policy: a deferral, a message that is held or deferred, or nothing.
  abbrev pub PolicyResult : Policy → Journal → Decision → Journal → Type 0
  PolicyResult defer j d j' =
      (d.action ≡ tempfail)
      × (j'.entries ≡ j.entries)
      × IsFinished env req cleaned s h tempfail j j'
  PolicyResult quarantine j d j' =
      (((d.action ≡ drop) × IsHeld env req cleaned s h (control_reason env req cleaned s h) j j')
        ⊎ ((d.action ≡ tempfail) × (j'.entries ≡ j.entries)))
      × IsFinished env req cleaned s h d.action j j'
  PolicyResult deliver_tagged j d j' = IsDelivery (failed_controls env s) j d j'

  abbrev after_policy : Policy → Run Decision
  after_policy p =
      apply_failure_policy env req p (failed_controls env s) cleaned s h
      >>= unless_decided env req s (failed_controls env s)

  after_policy_lem :
      (p : Policy) (j : Journal) (d : Decision)
      → (after_policy p j).0 ≡ some d
      → PolicyResult p j d (after_policy p j).1
  unfolding apply_failure_policy defer_message run
  after_policy_lem defer j d e =
      let f =
        finish_with tempfail s (control_reason env req cleaned s h) false false
          (failed_controls env s) in
      elim (Bool-cases (env.trace_fails f)) [
        | inl x ↦ cc (simp x at e)
        | inr x ↦
            let g : record {
              action = tempfail;
              message = none;
              reason = control_reason env req cleaned s h;
            }
                ≡ d =
              cc (simp x at e) in
            (ap (λ (x : Decision). x.action) (sym g), simp x, (f, simp x, refl))
      ]
  after_policy_lem quarantine j d e =
      let failed = failed_controls env s in
      let j' = record j { events = j.events ++ control_failure failed quarantine ∷ [] } in
      let m = quarantine_message env req cleaned s (control_reason env req cleaned s h) failed h in
      let (o, is, f, p) = bind-eq-some m (unless_decided env req s failed) j' e in
      let k =
        quarantine_message_lem env req cleaned s h (control_reason env req cleaned s h) failed j' o
          is in
      let g : k.decision ≡ d = cc (simp k.returns at f) in
      subst (λ x. PolicyResult quarantine j x (after_policy quarantine j).1) g
        (subst (PolicyResult quarantine j k.decision) (sym p) (simp k.returns (k.kept, k.ended)))
  after_policy_lem deliver_tagged j d e =
      let failed = failed_controls env s in
      let j' = record j { events = j.events ++ control_failure failed deliver_tagged ∷ [] } in
      let v = deliver_message_lem failed j' d e in
      record { delivered = v.delivered; message = v.message; entries = v.entries; ended = v.ended }

  abbrev pub detected : Option Text → Bool
  detected wl_rule = ai_drop env wl_rule s || rspamd_drop wl_rule s

  -- Some control failed, and no whitelist rule exempts the message.
  abbrev pub is_unscanned : Option Text → Bool
  is_unscanned wl_rule = not (is_empty (failed_controls env s) || is_some wl_rule)

  -- The three ways in which a message ends.
  abbrev pub Outcome : Option Text → Journal → Decision → Journal → Type 0
  Outcome wl_rule j d j' =
      ((detected wl_rule ≡ true) × (d.action ≡ drop) × IsFinished env req cleaned s h drop j j')
      ⊎ ((detected wl_rule ≡ false)
          × (is_unscanned wl_rule ≡ true)
          × PolicyResult (failure_policy env s) j d j')
      ⊎ ((detected wl_rule ≡ false)
          × (is_unscanned wl_rule ≡ false)
          × IsDelivery (failed_controls env s) j d j')

  after_detection_lem :
      (wl_rule : Option Text) (j : Journal) (d : Decision)
      → (after_detection env req wl_rule cleaned s h j).0 ≡ some d
      → ((is_unscanned wl_rule ≡ true)
          × PolicyResult
              (failure_policy env s)
              j
              d
              (after_detection env req wl_rule cleaned s h j).1)
        ⊎ ((is_unscanned wl_rule ≡ false)
            × IsDelivery
                (failed_controls env s)
                j
                d
                (after_detection env req wl_rule cleaned s h j).1)
  unfolding after_detection
  after_detection_lem wl_rule j d e =
      elim (Bool-cases (is_empty (failed_controls env s) || is_some wl_rule)) [
        | inl f ↦
            inr (simp f, simp f (deliver_message_lem (failed_controls env s) j d (simp f at e)))
        | inr f ↦ inl (simp f, simp f (after_policy_lem (failure_policy env s) j d (simp f at e)))
      ]

  -- Whatever the stores, the services and the settings do, a message that is decided ends in one of
  -- the three ways, and its trace is finished once, with the decided action.
  pub conclude_lem :
      (wl_rule : Option Text) (j : Journal) (d : Decision)
      → (conclude env req wl_rule cleaned s h j).0 ≡ some d
      → Outcome wl_rule j d (conclude env req wl_rule cleaned s h j).1
  unfolding conclude
  conclude_lem wl_rule j d e = elim (Bool-cases (detected wl_rule)) [
    | inl f ↦
        let why = drop_reason (ai_drop env wl_rule s) s in
        let (dropped, ended) = drop_detected_lem env req cleaned s h why j d (simp f at e) in
        inl (f, dropped, simp f ended)
    | inr f ↦ elim (after_detection_lem wl_rule j d (simp f at e)) [
      | inl (u, p) ↦ inr (inl (f, u, simp f p))
      | inr (u, p) ↦ inr (inr (f, u, simp f p))
    ]
  ]
