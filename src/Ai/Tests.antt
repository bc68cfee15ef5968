-- ===== src/Ai/Tests.antt =====
-- Runs of the AI analysis (spamallam/app/providers/base.py, spamallam/app/ai/engine.py).
use spamallam.Prelude.{
  ℕ, zero, suc, ◌≤◌, ◌≡◌, refl, some, List, [], ◌∷◌, length, keep, Text, codes, text_eq, nan, arith,
}
use spamallam.Pipeline.Rspamd.{number}
use spamallam.Ai.Loop.{
  ToolCall, ChatResponse, ToolReply, result, Provider, answer, is_verdict, turn_results, final_text,
  iterate, run,
}
use spamallam.Ai.Loop.Answering.{IsAnswer, run-IsAnswer}
use spamallam.Ai.Verdict.{Answer, parse_verdict, verdict_of}
use spamallam.Ai.Verdict.Bounds.{IsSound, parse_verdict-IsSound}

loop : Unit {0}
unfolding is_verdict turn_results final_text iterate run text_eq
loop = tt

abbrev call : Text → ToolCall Text
call name = record { id = []; name = name; arguments = codes "{}" }

-- A lookup with a premature verdict, and then the verdict alone.
abbrev turn : ℕ → ChatResponse Text
turn zero = record {
  text = [];
  tool_calls = call (codes "submit_verdict") ∷ call (codes "rdns") ∷ [];
}
turn (suc i) = record { text = []; tool_calls = call (codes "submit_verdict") ∷ [] }

abbrev provider : Provider Text ℕ
provider = record {
  initial_messages = 0;
  request = λ i messages. some (turn i);
  append_assistant = λ messages resp. messages;
  append_tool_results = λ messages resp results. suc messages;
  print_args = λ args. args;
  print_error = λ text. text;
  nudge = codes "alone";
}

abbrev tools : ℕ → ToolCall Text → ToolReply
tools i c = result (codes "ok")

run_test : (run provider tools 8).0 ≡ answer (codes "{}")
unfolding loop
run_test = refl

run-IsAnswer_example : IsAnswer provider tools 8 0 (codes "{}")
run-IsAnswer_example = run-IsAnswer provider tools 8 (codes "{}") run_test

one_verdict : length (keep is_verdict (turn 0).tool_calls) ≤ 1
unfolding loop
one_verdict = omega arith

-- Two verdicts beside another call: the second one has no result.
two_verdicts_test :
    length (
      turn_results provider tools 0
        (record { text = []; tool_calls = call (codes "submit_verdict") ∷ (turn 0).tool_calls }))
    ≡ 2
unfolding loop
two_verdicts_test = refl

abbrev written : Answer
written = record {
  verdict = codes "spam";
  confidence = number nan;
  category = codes "phish";
  reason = [];
  labels = some (codes "social" ∷ codes "social" ∷ codes "x" ∷ []);
}

abbrev social : List Text
social = codes "social" ∷ []

parse_test :
    parse_verdict (λ text. some written) [] (codes "m") [] social
    ≡ some (verdict_of (codes "m") [] social written nan)
unfolding parse_verdict text_eq
parse_test = refl

parse_verdict-IsSound_example : IsSound social (verdict_of (codes "m") [] social written nan)
parse_verdict-IsSound_example =
    parse_verdict-IsSound (codes "m") [] social (λ text. some written) []
      (verdict_of (codes "m") [] social written nan) parse_test
