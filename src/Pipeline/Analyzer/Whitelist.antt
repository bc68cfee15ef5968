-- ===== src/Pipeline/Analyzer/Whitelist.antt =====
-- When a whitelist rule is honored (spamallam/app/pipeline/analyzer.py, step 2).
use spamallam.Prelude.{
  ◌≡◌, refl, ◌∙◌, ◌⊎◌, inl, inr, Bool-cases, true, false, Option, none, some, is_empty, List, [],
  ◌∷◌, elem, Text, Bytes, codes, arith, map,
}
use spamallam.Pipeline.Overrides.{
  Overrides, domain_rule, sender_rule, domain_of, domain_matches, recipient_rule, base_recipient,
  first_rule, Source, envelope, header, recipient, no_source, match_whitelist, is_recipient,
  whitelist_is_authenticated,
}
use spamallam.Pipeline.Rspamd.{RspamdResult, check}
use spamallam.Pipeline.Run.{Journal, ◌>>◌, pure, lift, bind-eq-some}
use spamallam.Pipeline.Analyzer.Base.{Env, Request}
use spamallam.Pipeline.Analyzer.Scoring.{
  report_rspamd, confirm_sender, confirm, honored_whitelist, check_rspamd,
}
use spamallam.Pipeline.Analyzer.Saving.{run}

-- The sender is who it claims to be, by rspamd's symbols: DMARC alignment, or SPF for a rule that
-- the envelope sender matched.
abbrev pub IsAuthenticated : Source → RspamdResult → Type 0
IsAuthenticated by r =
    (elem (codes "DMARC_POLICY_ALLOW") (map (λ x. x.0) r.symbols) ≡ true)
    ⊎ ((by ≡ envelope) × (elem (codes "R_SPF_ALLOW") (map (λ x. x.0) r.symbols) ≡ true))

IsAuthenticated-of_test :
    (rule : Text) (by : Source) (r : RspamdResult)
    → is_recipient by ≡ false
    → is_empty rule ≡ false
    → whitelist_is_authenticated rule by (map (λ x. x.0) r.symbols) ≡ true
    → IsAuthenticated by r
unfolding whitelist_is_authenticated
IsAuthenticated-of_test rule envelope r n m e = ground arith
IsAuthenticated-of_test rule header r n m e = inl (ground arith)
IsAuthenticated-of_test rule recipient r n m e = cc
IsAuthenticated-of_test rule no_source r n m e = inl (ground arith)

-- A rule, where there is one, is not empty.
abbrev IsNamed : Option Text → Type 0
IsNamed none = Unit
IsNamed (some rule) = is_empty rule ≡ false

IsNamed-domain_rule : (o : Option Text) → IsNamed (domain_rule o)
IsNamed-domain_rule none = tt
IsNamed-domain_rule (some p) = refl

module _ (parse_address : Text → Text) where
  IsNamed-sender_rule :
      (patterns : List Text) (sender : Text) → IsNamed (sender_rule parse_address patterns sender)
  unfolding sender_rule
  IsNamed-sender_rule patterns sender =
      let dom = domain_of parse_address sender in
      elim (Bool-cases (is_empty dom)) [
        | inl e ↦ rw e tt
        | inr e ↦ rw e (IsNamed-domain_rule (domain_matches dom patterns))
      ]

  IsNamed-recipient_rule :
      (wanted rcpts : List Text) → IsNamed (recipient_rule parse_address wanted rcpts)
  unfolding recipient_rule
  IsNamed-recipient_rule wanted [] = tt
  IsNamed-recipient_rule wanted (r ∷ rcpts) =
      elim (Bool-cases (elem (base_recipient parse_address r) wanted)) [
        | inl e ↦ rw e refl
        | inr e ↦ rw e (IsNamed-recipient_rule wanted rcpts)
      ]

  IsNamed-first_rule :
      (a b c : Option Text)
      → IsNamed a
      → IsNamed b
      → IsNamed c
      → IsNamed (first_rule parse_address a b c).0
  IsNamed-first_rule (some r) b c h k l = h
  IsNamed-first_rule none (some r) c h k l = k
  IsNamed-first_rule none none (some r) h k l = l
  IsNamed-first_rule none none none h k l = tt

  IsNamed-match_whitelist :
      (o : Overrides) (sender from_header : Text) (rcpts : List Text)
      → IsNamed (match_whitelist parse_address o sender from_header rcpts).0
  unfolding match_whitelist
  IsNamed-match_whitelist o sender from_header rcpts =
      IsNamed-first_rule _ _ _ (IsNamed-sender_rule o.whitelist_domains sender)
        (IsNamed-sender_rule o.whitelist_domains from_header)
        (IsNamed-recipient_rule (map (base_recipient parse_address) o.whitelist_recipients) rcpts)

module _ (env : Env) (req : Request) (c : Bytes) where
  check_rspamd-eq-some :
      (m : Bytes) (j : Journal) {r : RspamdResult}
      → (check_rspamd env req m j).0 ≡ some r
      → check env.post m req.client req.envelope_from req.rcpt_tos env.cfg.antivirus_fail_symbols
        ≡ some r
  unfolding check_rspamd run
  check_rspamd-eq-some m j {r} e =
      let scan =
        check env.post m req.client req.envelope_from req.rcpt_tos env.cfg.antivirus_fail_symbols in
      let (s, s_is, f, _) = bind-eq-some (lift scan) (λ x. report_rspamd env req x >> pure x) j e in
      let (u, u_is, g, _) =
        bind-eq-some (report_rspamd env req s) (λ _. pure s) (lift scan j).1 f in
      s_is ∙ g

  confirm_sender-eq-some :
      (rule : Text) (by : Source) (j : Journal) {wl : Text} {pre : Option RspamdResult}
      → (confirm_sender env req c rule by j).0 ≡ some (some wl, pre)
      → (wl ≡ rule)
        × ((r : RspamdResult) × (pre ≡ some r)
            × (check env.post c req.client req.envelope_from req.rcpt_tos
                  env.cfg.antivirus_fail_symbols
                ≡ some r)
            × (whitelist_is_authenticated rule by (map (λ x. x.0) r.symbols) ≡ true))
  unfolding confirm_sender run
  confirm_sender-eq-some rule by j {wl} {pre} e =
      let (r, r_is, f, _) = bind-eq-some (check_rspamd env req c) _ j e in
      elim (Bool-cases (whitelist_is_authenticated rule by (map (λ x. x.0) r.symbols))) [
        | inl a ↦
            let g : some (some rule, some r) ≡ some (some wl, pre) = simp a at f in
            (cc g, (r, cc g, check_rspamd-eq-some c j r_is, a))
        | inr a ↦ cc (simp a at f)
      ]

  -- The ways in which a whitelist match is honored.
  abbrev pub IsHonored : Source → Option RspamdResult → Type 0
  IsHonored by pre =
      (is_recipient by ≡ true)
      ⊎ (env.cfg.overrides.require_auth ≡ false)
      ⊎ ((r : RspamdResult) × (pre ≡ some r)
          × (check env.post c req.client req.envelope_from req.rcpt_tos
                env.cfg.antivirus_fail_symbols
              ≡ some r)
          × IsAuthenticated by r)

  confirm-eq-some :
      (o : Option Text × Source) (j : Journal) (rule : Text) (pre : Option RspamdResult)
      → IsNamed o.0
      → (confirm env req c o j).0 ≡ some (some rule, pre)
      → (by : Source) × (o ≡ (some rule, by)) × IsHonored by pre
  unfolding run
  confirm-eq-some (none, by) j rule pre n e = cc
  confirm-eq-some (some r, by) j rule pre n e = elim (Bool-cases (is_recipient by)) [
    | inl a ↦ (by, ground arith, inl a)
    | inr a ↦ elim (Bool-cases env.cfg.overrides.require_auth) [
      | inr b ↦ (by, ground arith, inr (inl b))
      | inl b ↦
          let (same, (res, p, scan, t)) = confirm_sender-eq-some r by j (simp (a, b) at e) in
          (by, cc same, inr (inr (res, p, scan, IsAuthenticated-of_test r by res a n t)))
    ]
  ]

  -- A whitelist rule that is honored is one that matched, and it matched a recipient, or the admin
  -- switched the authentication off, or rspamd's scan of the cleaned message authenticates the
  -- sender: by DMARC alignment, or by SPF where the envelope sender matched.
  pub honored_whitelist_lem :
      (from_header : Text) (j : Journal) (rule : Text) (pre : Option RspamdResult)
      → (honored_whitelist env req c from_header j).0 ≡ some (some rule, pre)
      → (by : Source) × (match_whitelist env.parse_address env.cfg.overrides req.envelope_from
            from_header req.rcpt_tos
          ≡ (some rule, by))
        × IsHonored by pre
  unfolding honored_whitelist
  honored_whitelist_lem from_header j rule pre e =
      confirm-eq-some
        (match_whitelist env.parse_address env.cfg.overrides req.envelope_from from_header
          req.rcpt_tos)
        j rule pre (IsNamed-match_whitelist env.parse_address env.cfg.overrides _ _ _) e
