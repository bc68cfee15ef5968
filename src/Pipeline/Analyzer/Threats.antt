-- ===== src/Pipeline/Analyzer/Threats.antt =====
-- What a threat is, and what it is that every control ran (spamallam/app/pipeline/analyzer.py, steps
-- 6 to 6b), in terms of the scores and the settings.
use spamallam.Prelude.{
  ◌≡◌, refl, ◌⊎◌, inl, inr, Bool-cases, Bool, true, false, not, ◌||◌, Option, none, some, is_some,
  List, is_empty, elem, map, upper, float_ge, Text, Bytes, codes, text_eq, text_eq_iff, arith,
}
use spamallam.Pipeline.Rspamd.{is_reject}
use spamallam.Pipeline.Run.{Failed}
use spamallam.Pipeline.Analyzer.Base.{Env, Request, MsgHeaders, Scored}
use spamallam.Pipeline.Analyzer.Verdict.{
  adjoin, ai_down, av_down, failed_controls, ai_drop, rspamd_drop,
}
use spamallam.Pipeline.Analyzer.Deciding.{detected, is_unscanned}

module _ (env : Env) (s : Scored) (wl : Option Text) where
  -- The AI's verdict is one of the settings', in any case, with at least the confidence that they ask
  -- for, or rspamd's scan rejects; no whitelist rule was honored.
  abbrev pub IsThreat : Type 0
  IsThreat =
      (wl ≡ none)
      × (((elem (upper s.verdict.verdict) (map upper env.cfg.drop_verdicts) ≡ true)
            × (float_ge s.verdict.confidence env.cfg.drop_threshold ≡ true))
          ⊎ ((s.rres.ok ≡ true) × (s.rres.action ≡ codes "reject")))

  -- rspamd answered, its antivirus reported no failure, and the AI answered if it is on.
  abbrev pub AreRunning : Type 0
  AreRunning =
      (s.rres.ok ≡ true)
      × (s.rres.av_failed ≡ false)
      × ((env.cfg.ai_enabled ≡ false) ⊎ (s.ai_failed ≡ false))

  none-of_not : (o : Option Text) → not (is_some o) ≡ true → o ≡ none
  none-of_not none e = refl
  none-of_not (some x) e = cc

  IsThreat-of_ai : ai_drop env wl s ≡ true → IsThreat
  unfolding ai_drop
  IsThreat-of_ai e = (none-of_not wl (ground arith), inl (ground arith, ground arith))

  IsThreat-of_rspamd : rspamd_drop wl s ≡ true → IsThreat
  unfolding rspamd_drop is_reject
  IsThreat-of_rspamd e = (
    none-of_not wl (ground arith),
    inr (ground arith, (text_eq_iff s.rres.action (codes "reject")).0 (ground arith)),
  )

  drop-of_IsThreat : IsThreat → (ai_drop env wl s || rspamd_drop wl s) ≡ true
  unfolding ai_drop rspamd_drop is_reject
  drop-of_IsThreat (n, inl (v, c)) = simp (n, v, c)
  drop-of_IsThreat (n, inr (o, a)) =
      let t : text_eq s.rres.action (codes "reject") ≡ true =
        (text_eq_iff s.rres.action (codes "reject")).1 a in
      let m : not (is_some wl) ≡ true = simp n in ground (arith, o, t, m)

is_empty-adjoin :
    (b : Bool) (f : Failed) (more : List Failed)
    → is_empty (adjoin b f more) ≡ true
    → (b ≡ false) × (is_empty more ≡ true)
is_empty-adjoin true f more e = cc
is_empty-adjoin false f more e = (refl, e)

module _ (env : Env) (req : Request) (c : Bytes) (s : Scored) (h : MsgHeaders)
    (wl : Option Text) where
  pub IsThreat-of_detected : detected env req c s h wl ≡ true → IsThreat env s wl
  IsThreat-of_detected e = elim (Bool-cases (ai_drop env wl s)) [
    | inl f ↦ IsThreat-of_ai env s wl f
    | inr f ↦ IsThreat-of_rspamd env s wl (simp f at e)
  ]

  pub no_threat : detected env req c s h wl ≡ false → ¬ IsThreat env s wl
  no_threat e t = cc (e, drop-of_IsThreat env s wl t)

  AreRunning-of_empty : is_empty (failed_controls env s) ≡ true → AreRunning env s wl
  unfolding failed_controls
  AreRunning-of_empty e =
      let (a, f) = is_empty-adjoin (ai_down env s) Failed.ai _ e in
      let (b, g) = is_empty-adjoin (av_down s) Failed.antivirus _ f in
      (
        ground arith,
        ground arith,
        elim (Bool-cases env.cfg.ai_enabled) [ inl i ↦ inr (simp i at a) | inr i ↦ inl i ],
      )

  pub AreRunning-of_scanned :
      is_unscanned env req c s h wl ≡ false → AreRunning env s wl ⊎ (is_some wl ≡ true)
  AreRunning-of_scanned e = elim (Bool-cases (is_empty (failed_controls env s))) [
    | inl f ↦ inl (AreRunning-of_empty f)
    | inr f ↦ inr (ground arith)
  ]
