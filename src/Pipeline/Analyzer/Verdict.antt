-- ===== src/Pipeline/Analyzer/Verdict.antt =====
-- The second half of the pipeline (spamallam/app/pipeline/analyzer.py): the drop decision, the
-- failure policy, the result headers, and the whole of `process`.
use spamallam.Prelude.{
  Bool, true, false, not, ◌&&◌, ◌||◌, Option, none, some, is_some, List, [], ◌∷◌, ◌++◌, map,
  if◌then◌else◌, is_empty, elem, Text, Bytes, codes, upper, join, float_ge, print_fixed1,
  print_fixed2,
}
use spamallam.Pipeline.Headers.Verdict.{Header, prepend_headers}
use spamallam.Pipeline.Failure.{
  Policy, deliver_tagged, quarantine, defer, Control, resolve, strictest,
}
use spamallam.Pipeline.Rspamd.{RspamdResult, is_reject, is_spam, spamd_result_header}
use spamallam.Pipeline.Body.{Rewritten, rewritten, raised, wanted, wants_any}
use spamallam.Pipeline.Run.{
  Action, deliver, drop, tempfail, Failed, raw_save_error, quarantine_save_error,
  body_rewrite_error, control_failure, quarantine_unavailable, Finish, Entry, Run, ◌>>=◌, ◌>>◌,
  pure, lift, event, finish, store_entry, store_raw,
}
use spamallam.Pipeline.Analyzer.Base.{Env, Request, MsgHeaders, Decision, Scored}
use spamallam.Pipeline.Analyzer.Scoring.{clean_message, honored_whitelist, override_verdict, score}

abbrev pub rspamd_action_text : RspamdResult → Text
rspamd_action_text r = if r.ok then r.action else codes "error: " ++ r.error

-- _verdict_dict, and the action that goes with it.
abbrev pub finish_with : Action → Scored → Text → Bool → Bool → List Failed → Finish
finish_with action s why raw_saved quarantined failed = record {
  action = action;
  failed_controls = failed;
  verdict = s.verdict;
  rspamd_action = rspamd_action_text s.rres;
  rspamd_score = s.rres.score;
  drop_reason = why;
  raw_saved = raw_saved;
  quarantined = quarantined;
}

abbrev pub failed_name : Failed → Text
failed_name Failed.ai = codes "ai"
failed_name Failed.antivirus = codes "antivirus"
failed_name Failed.rspamd = codes "rspamd"

abbrev pub control_of : Failed → Control
control_of Failed.ai = Control.ai
control_of Failed.antivirus = Control.antivirus
control_of Failed.rspamd = Control.rspamd

abbrev pub failed_names : List Failed → Text
failed_names failed = join (codes ", ") (map failed_name failed)

abbrev pub adjoin : Bool → Failed → List Failed → List Failed
adjoin b f more = if b then f ∷ more else more

abbrev pub rspamd_down : Scored → Bool
rspamd_down s = not s.rres.ok

-- With rspamd down the antivirus behind it did not run either.
abbrev pub av_down : Scored → Bool
av_down s = not s.rres.ok || s.rres.av_failed

abbrev pub fail_open : Bytes → Rewritten → Run Bytes
fail_open raw (rewritten bytes) = pure bytes
fail_open raw (raised text) = do event (body_rewrite_error text); pure raw

module _ (env : Env) where
  abbrev pub ai_down : Scored → Bool
  ai_down s = env.cfg.ai_enabled && s.ai_failed

  -- `sorted(failed)`
  unfoldable pub failed_controls : Scored → List Failed
  failed_controls s =
      adjoin (ai_down s) Failed.ai
        (adjoin (av_down s) Failed.antivirus (adjoin (rspamd_down s) Failed.rspamd []))

  -- `failed >= enabled`
  unfoldable pub all_failed : Scored → Bool
  all_failed s = (not env.cfg.ai_enabled || ai_down s) && av_down s && rspamd_down s

  -- The policy for the failed controls; where all failed, all_down can only make it stricter.
  unfoldable pub failure_policy : Scored → Policy
  unfolding failed_controls all_failed
  failure_policy s =
      let each =
        strictest (map (λ f. resolve env.cfg.failure (control_of f)) (failed_controls s)) in
      if all_failed s
      then strictest (each ∷ resolve env.cfg.failure Control.all_down ∷ [])
      else each

  unfoldable pub ai_drop : Option Text → Scored → Bool
  ai_drop wl_rule s =
      not (is_some wl_rule)
      && elem (upper s.verdict.verdict) (map upper env.cfg.drop_verdicts)
      && float_ge s.verdict.confidence env.cfg.drop_threshold

  -- body.rewrite: it fails open.
  unfoldable pub rewrite : Scored → Run Bytes
  rewrite s =
      let w = wanted s.verdict s.rres env.cfg in
      if wants_any w
      then fail_open s.tagged (env.rewrite_mime s.tagged s.verdict s.rres w)
      else pure s.tagged

unfoldable pub rspamd_drop : Option Text → Scored → Bool
rspamd_drop wl_rule s = is_reject s.rres && not (is_some wl_rule)

abbrev pub drop_reason : Bool → Scored → Text
drop_reason by_ai s =
    if by_ai
    then codes "ai high-confidence threat"
    else codes "rspamd reject (score " ++ print_fixed1 s.rres.score ++ codes ")"

-- 7. The headers for downstream mail rules.
unfoldable pub result_headers : Scored → List Failed → List Header
result_headers s failed =
    let failure =
      (if is_empty failed
        then []
        else (codes "X-SpamAllam-Control-Failure", failed_names failed) ∷ []) in
    if s.rres.ok
    then (codes "X-Spamd-Result", spamd_result_header s.rres)
      ∷ (codes "X-Spam-Score", print_fixed2 s.rres.score)
      ∷ (
        codes "X-Spam-Status",
        (if is_spam s.rres then codes "Yes" else codes "No")
            ++ codes ", score="
            ++ print_fixed2 s.rres.score
            ++ codes " required="
            ++ print_fixed2 s.rres.required_score,
      )
      ∷ (if is_spam s.rres then (codes "X-Spam-Flag", codes "YES") ∷ failure else failure)
    else (codes "X-SpamAllam-Rspamd", codes "error") ∷ failure

module _ (env : Env) (req : Request) where
  abbrev pub saved_raw : Text → Text → Bytes → Option Text → Run Bool
  saved_raw id day copy none = do store_raw id day copy; pure true
  saved_raw id day copy (some text) = do event (raw_save_error text); pure false

  abbrev pub save_raw_as : Bytes → Option (Text × Text) → Run Bool
  save_raw_as tagged none = pure false
  save_raw_as tagged (some (id, day)) =
      let copy = env.strip_for_review tagged in saved_raw id day copy (env.raw_save id day copy)

  -- _save_raw_copy
  unfoldable pub save_raw_copy : Bytes → Run Bool
  save_raw_copy tagged = save_raw_as tagged req.trace

  abbrev pub entry_of : Bytes → Scored → Text → MsgHeaders → Text × Text → Entry
  entry_of cleaned s why h (id, day) = record {
    id = id;
    day = day;
    envelope_from = req.envelope_from;
    from_header = h.from;
    subject = h.subject;
    message_id = h.message_id;
    rcpt_tos = req.rcpt_tos;
    client_addr = req.client.addr;
    client_name = req.client.name;
    drop_reason = why;
    verdict = s.verdict;
    rspamd_action = rspamd_action_text s.rres;
    rspamd_score = s.rres.score;
    original = cleaned;
  }

  abbrev pub saved_entry : Entry → Option Text → Run Bool
  saved_entry e none = do store_entry e; pure true
  saved_entry e (some text) = do event (quarantine_save_error text); pure false

  abbrev pub save_entry_as : Bytes → Scored → Text → MsgHeaders → Option (Text × Text) → Run Bool
  save_entry_as cleaned s why h none = pure false
  save_entry_as cleaned s why h (some at_day) =
      let e = entry_of cleaned s why h at_day in saved_entry e (env.quarantine_save e)

  -- _save_quarantine
  unfoldable pub save_quarantine : Bytes → Scored → Text → MsgHeaders → Run Bool
  save_quarantine cleaned s why h =
      if env.cfg.quarantine_enabled then save_entry_as cleaned s why h req.trace else pure false

  -- The drop of a detected threat.
  unfoldable pub drop_detected : Bytes → Scored → Text → MsgHeaders → Run Decision
  drop_detected cleaned s why h = do
    raw_saved ← save_raw_copy s.tagged
    quarantined ← save_quarantine cleaned s why h
    finish env.trace_fails (finish_with drop s why raw_saved quarantined [])
    pure (record { action = drop; message = none; reason = why })

  unfoldable pub defer_message : Scored → Text → List Failed → Run (Option Decision)
  defer_message s why failed = do
    finish env.trace_fails (finish_with tempfail s why false false failed)
    pure (some (record { action = tempfail; message = none; reason = why }))

  unfoldable pub quarantine_message :
      Bytes → Scored → Text → List Failed → MsgHeaders → Run (Option Decision)
  quarantine_message cleaned s why failed h = do
    raw_saved ← save_raw_copy s.tagged
    quarantined ← save_quarantine cleaned s why h
    if quarantined
        then (do
          finish env.trace_fails (finish_with drop s why raw_saved quarantined failed)
          pure (some (record { action = drop; message = none; reason = why })))
        else (do event quarantine_unavailable; defer_message s why failed)

  abbrev pub under_policy :
      Policy → Bytes → Scored → Text → List Failed → MsgHeaders → Run (Option Decision)
  under_policy defer cleaned s why failed h = defer_message s why failed
  under_policy quarantine cleaned s why failed h = quarantine_message cleaned s why failed h
  under_policy deliver_tagged cleaned s why failed h = pure none

  -- _apply_failure_policy
  unfoldable pub apply_failure_policy :
      Policy → List Failed → Bytes → Scored → MsgHeaders → Run (Option Decision)
  apply_failure_policy policy failed cleaned s h = do
    event (control_failure failed policy)
    under_policy policy cleaned s (codes "security controls unavailable: " ++ failed_names failed)
        failed h

  -- 6c and 7. The delivery of what nothing stopped.
  unfoldable pub deliver_message : Scored → List Failed → Run Decision
  deliver_message s failed = do
    body ← rewrite env s
    final ← lift (prepend_headers body (result_headers s failed))
    finish env.trace_fails (finish_with deliver s [] false false failed)
    pure (record { action = deliver; message = some final; reason = [] })

  abbrev pub unless_decided : Scored → List Failed → Option Decision → Run Decision
  unless_decided s failed (some early) = pure early
  unless_decided s failed none = deliver_message s failed

  -- 6b. Controls that could not run at all.
  unfoldable pub after_detection : Option Text → Bytes → Scored → MsgHeaders → Run Decision
  after_detection wl_rule cleaned s h =
      let failed = failed_controls env s in
      if is_empty failed || is_some wl_rule then deliver_message s failed else (do
        early ← apply_failure_policy (failure_policy env s) failed cleaned s h
        unless_decided s failed early)

  -- 6. The combined verdict.
  unfoldable pub conclude : Option Text → Bytes → Scored → MsgHeaders → Run Decision
  conclude wl_rule cleaned s h =
      let by_ai = ai_drop env wl_rule s in
      if by_ai || rspamd_drop wl_rule s
      then drop_detected cleaned s (drop_reason by_ai s) h
      else after_detection wl_rule cleaned s h

  -- Pipeline.process
  unfoldable pub process : Bytes → Run Decision
  process raw = do
    cleaned ← clean_message raw
    let h = env.headers_of cleaned
    (wl_rule, pre) ← honored_whitelist env req cleaned h.from
    (bl_rule, verdict) ← override_verdict env req wl_rule h.from
    s ← score env req cleaned wl_rule bl_rule verdict pre
    conclude wl_rule cleaned s h
