-- ===== src/Ai/Loop/Answering.antt =====
-- How the loop ends and how it answers tool calls (spamallam/app/providers/base.py, `run`).
use spamallam.Prelude.{
  ℕ, zero, suc, ◌+◌, ◌≤◌, ◌<◌, ◌≡◌, refl, sym, ap, ◌∙◌, ◌⊎◌, inl, inr, Bool-cases, Bool, true, not,
  Option, Option-cases, none, some, List, [], ◌∷◌, ◌++◌, map, is_empty, find_first, keep, length,
  Text, arith,
}
use spamallam.Ai.Loop.{
  ToolCall, ChatResponse, ToolReply, Provider, LoopEvent, ai_request, ai_response, tool_call,
  answer, is_verdict, verdict_call, other_calls, answered_by, nudged, turn_results, alone,
  reply_text, final_text, turn_events, next_messages, iterate, run,
}

module _ {A : Type 0} where
  abbrev pub Among : A → List A → Type 0
  Among c [] = ⊥
  Among c (x ∷ xs) = (c ≡ x) ⊎ Among c xs

  Among-append_left : (c : A) (xs ys : List A) → Among c xs → Among c (xs ++ ys)
  Among-append_left c [] ys h = absurd h
  Among-append_left c (x ∷ xs) ys (inl e) = inl e
  Among-append_left c (x ∷ xs) ys (inr h) = inr (Among-append_left c xs ys h)

  Among-append_right : (c : A) (xs ys : List A) → Among c ys → Among c (xs ++ ys)
  Among-append_right c [] ys h = h
  Among-append_right c (x ∷ xs) ys h = inr (Among-append_right c xs ys h)

  Among-keep : (p : A → Bool) (c : A) (xs : List A) → Among c xs → p c ≡ true → Among c (keep p xs)
  Among-keep p c [] h e = absurd h
  Among-keep p c (x ∷ xs) (inl s) e = let f : p x ≡ true = sym (ap p s) ∙ e in simp f (inl s)
  Among-keep p c (x ∷ xs) (inr h) e = elim (Bool-cases (p x)) [
    | inl f ↦ simp f (inr (Among-keep p c xs h e))
    | inr f ↦ simp f (Among-keep p c xs h e)
  ]

  not_in_empty : (c : A) (xs : List A) → length xs ≤ 0 → ¬ (Among c xs)
  not_in_empty c [] l h = h
  not_in_empty c (x ∷ xs) l h = omega (arith, l)

  find_first-only :
      (p : A → Bool) (c : A) (xs : List A)
      → Among c xs
      → p c ≡ true
      → length (keep p xs) ≤ 1
      → find_first p xs ≡ some c
  find_first-only p c [] h e l = absurd h
  find_first-only p c (x ∷ xs) (inl s) e l =
      let f : p x ≡ true = sym (ap p s) ∙ e in simp f (ap some (sym s))
  find_first-only p c (x ∷ xs) (inr h) e l = elim (Bool-cases (p x)) [
    | inl f ↦
        let k : length (keep p xs) ≤ 0 = omega (arith, (simp f at l)) in
        absurd (not_in_empty c (keep p xs) k (Among-keep p c xs h e))
    | inr f ↦ simp f (find_first-only p c xs h e (simp f at l))
  ]

module _ {Args Messages : Type 0} (p : Provider Args Messages)
    (execute_tool : ℕ → ToolCall Args → ToolReply) where
  -- The call has a result.
  abbrev pub IsAnswered : ToolCall Args → List (ToolCall Args × Text) → Type 0
  IsAnswered c rs = (text : Text) × Among (c, text) rs

  IsAnswered-map :
      (i : ℕ) (c : ToolCall Args) (cs : List (ToolCall Args))
      → Among c cs
      → IsAnswered c (map (answered_by p execute_tool i) cs)
  IsAnswered-map i c [] h = absurd h
  IsAnswered-map i c (x ∷ cs) (inl s) =
      ((answered_by p execute_tool i c).1, inl (ap (answered_by p execute_tool i) s))
  IsAnswered-map i c (x ∷ cs) (inr h) = let (text, k) = IsAnswered-map i c cs h in (text, inr k)

  -- Every call of a turn has a result, in a turn with at most one submit_verdict.
  pub turn_results-IsAnswered :
      (i : ℕ) (resp : ChatResponse Args) (c : ToolCall Args)
      → length (keep is_verdict resp.tool_calls) ≤ 1
      → Among c resp.tool_calls
      → IsAnswered c (turn_results p execute_tool i resp)
  unfolding turn_results
  turn_results-IsAnswered i resp c one h =
      let others = map (answered_by p execute_tool i) (other_calls resp) in
      elim (Bool-cases (is_verdict c)) [
        | inl e ↦
            let f = find_first-only is_verdict c resp.tool_calls h e one in
            (
              p.nudge,
              Among-append_right (c, p.nudge) others (nudged p execute_tool (verdict_call resp))
                  (simp f (inl refl)),
            )
        | inr e ↦
            let k : Among c (other_calls resp) =
              Among-keep (λ c. not (is_verdict c)) c resp.tool_calls h (simp e) in
            let (text, a) = IsAnswered-map i c (other_calls resp) k in
            (text, Among-append_left (c, text) others (nudged p execute_tool (verdict_call resp)) a)
      ]

  -- The response ends the loop with that text: it calls no tool and the text is its own, or it
  -- calls submit_verdict and no other tool, and the text is that call's arguments.
  abbrev pub IsFinal : ChatResponse Args → Text → Type 0
  IsFinal resp text =
      ((is_empty resp.tool_calls ≡ true) × (text ≡ resp.text))
      ⊎ ((c : ToolCall Args) × (other_calls resp ≡ [])
          × (verdict_call resp ≡ some c)
          × (text ≡ p.print_args c.arguments))

  IsFinal-alone :
      (resp : ChatResponse Args) (text : Text) (others : List (ToolCall Args))
      (verdict : Option (ToolCall Args))
      → other_calls resp ≡ others
      → verdict_call resp ≡ verdict
      → alone p execute_tool others verdict ≡ some text
      → IsFinal resp text
  IsFinal-alone resp text [] (some c) o v e = inr (c, o, v, cc e)
  IsFinal-alone resp text [] none o v e = cc
  IsFinal-alone resp text (x ∷ xs) verdict o v e = cc

  IsFinal-final_text :
      (resp : ChatResponse Args) (text : Text)
      → final_text p execute_tool resp ≡ some text
      → IsFinal resp text
  unfolding final_text
  IsFinal-final_text resp text e = elim (Bool-cases (is_empty resp.tool_calls)) [
    | inl f ↦ inl (f, cc (simp f at e))
    | inr f ↦ IsFinal-alone resp text (other_calls resp) (verdict_call resp) refl refl (simp f at e)
  ]

  -- The messages of an iteration: at first those of the prompt, and after a turn that does not end the
  -- loop the model's response, the results of the other tools, and a nudge for the first verdict.
  pub data IsConversation : ℕ → Messages → Type 0 where
    at_start : IsConversation 0 p.initial_messages
    after_turn :
        {i : ℕ} {messages : Messages} {resp : ChatResponse Args}
        → IsConversation i messages
        → p.request i messages ≡ some resp
        → IsConversation (suc i) (
            p.append_tool_results (p.append_assistant messages resp) resp (
              map (λ c. (c, reply_text p execute_tool (execute_tool i c))) (other_calls resp)
              ++ nudged p execute_tool (verdict_call resp)))

  -- The answer is the end of the response to the messages of some iteration below the bound.
  abbrev pub IsAnswer : ℕ → ℕ → Text → Type 0
  IsAnswer n i text =
      (at : ℕ) × (messages : Messages) × (resp : ChatResponse Args) × IsConversation at messages
      × (p.request at messages ≡ some resp)
      × (at < i + n)
      × IsFinal resp text

  iterate-IsAnswer :
      (n i : ℕ) (messages : Messages) (events : List (LoopEvent Args)) (text : Text)
      → IsConversation i messages
      → (iterate p execute_tool n i messages events).0 ≡ answer text
      → IsAnswer n i text
  unfolding iterate turn_results
  iterate-IsAnswer zero i messages events text talk e = cc
  iterate-IsAnswer (suc n) i messages events text talk e =
      elim (Option-cases (p.request i messages)) [
        | inl f ↦ cc (simp f at e)
        | inr (resp, f) ↦ elim (Option-cases (final_text p execute_tool resp)) [
          | inr (t, g) ↦
              let same : t ≡ text = cc (simp (f, g) at e) in
              (
                i,
                messages,
                resp,
                talk,
                f,
                omega arith,
                IsFinal-final_text resp text (g ∙ ap some same),
              )
          | inl g ↦
              let (at, m, r, t, q, l, k) =
                iterate-IsAnswer n (suc i) (next_messages p execute_tool i messages resp) _ text
                  (after_turn talk f) (simp (f, g) at e) in
              (at, m, r, t, q, omega (arith, l), k)
        ]
      ]

  -- An answer of the loop comes from one of its first `max` responses, to a conversation that holds the
  -- prompt and every response before it, with the results of its other tools and a nudge for its first
  -- submit_verdict; the answered response calls no tool at all, or none but submit_verdict.
  pub run-IsAnswer :
      (max : ℕ) (text : Text) → (run p execute_tool max).0 ≡ answer text → IsAnswer max 0 text
  unfolding run
  run-IsAnswer max text e =
      iterate-IsAnswer max 0 p.initial_messages (ai_request ∷ []) text at_start e

  abbrev pub response_count : List (LoopEvent Args) → ℕ
  response_count [] = 0
  response_count (ai_response i resp ∷ events) = suc (response_count events)
  response_count (_ ∷ events) = response_count events

  response_count-append :
      (xs ys : List (LoopEvent Args))
      → response_count (xs ++ ys) ≡ response_count xs + response_count ys
  response_count-append [] ys = omega arith
  response_count-append (ai_response i resp ∷ xs) ys = omega (arith, response_count-append xs ys)
  response_count-append (ai_request ∷ xs) ys = response_count-append xs ys
  response_count-append (tool_call c t ∷ xs) ys = response_count-append xs ys

  response_count-turn_events :
      (rs : List (ToolCall Args × Text)) → response_count (turn_events p execute_tool rs) ≡ 0
  response_count-turn_events [] = refl
  response_count-turn_events ((c, t) ∷ rs) = response_count-turn_events rs

  iterate-count :
      (n i : ℕ) (messages : Messages) (events : List (LoopEvent Args))
      → response_count (iterate p execute_tool n i messages events).1 ≤ response_count events + n
  unfolding iterate
  iterate-count zero i messages events = omega arith
  iterate-count (suc n) i messages events = elim (Option-cases (p.request i messages)) [
    | inl f ↦ simp f (omega arith)
    | inr (resp, f) ↦ elim (Option-cases (final_text p execute_tool resp)) [
      | inr (t, g) ↦
          simp (f, g) (omega (arith, response_count-append events (ai_response i resp ∷ [])))
      | inl g ↦
          let rs = turn_results p execute_tool i resp in
          let more : List (LoopEvent Args) = ai_response i resp ∷ turn_events p execute_tool rs in
          simp (f, g)
            (omega (
              arith,
              response_count-append events more,
              response_count-turn_events rs,
              iterate-count n (suc i) (next_messages p execute_tool i messages resp)
                  (events ++ more),
            ))
    ]
  ]

  -- The provider gives at most `max` responses, whatever the model asks for.
  pub run-response_count : (max : ℕ) → response_count (run p execute_tool max).1 ≤ max
  unfolding run
  run-response_count max = omega (arith, iterate-count max 0 p.initial_messages (ai_request ∷ []))
