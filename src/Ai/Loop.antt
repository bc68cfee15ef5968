-- ===== src/Ai/Loop.antt =====
-- The loop of requests and tool calls (spamallam/app/providers/base.py). The wire format of a
-- provider and the tools are arguments.
pub mod Answering
use spamallam.Prelude.{
  ℕ, suc, zero, Bool, true, false, not, ◌&&◌, Option, none, some, List, [], ◌∷◌, ◌++◌, map,
  if◌then◌else◌, is_some, is_empty, find_first, keep, Text, codes, text_eq,
}

-- Args are the arguments of a call, as JSON values.
pub record ToolCall (Args : Type 0) : Type 0 where
  pub id : Text
  pub name : Text
  pub arguments : Args

pub record ChatResponse (Args : Type 0) : Type 0 where
  pub text : Text
  pub tool_calls : List (ToolCall Args)

-- What a tool's run leaves: its result printed as JSON, or an exception's text.
pub data ToolReply : Type 0 where
  result raised : Text → ToolReply

-- VERDICT_TOOL_NAME
abbrev pub verdict_tool_name : Text
verdict_tool_name = codes "submit_verdict"

-- The hooks of a provider over its own messages, and `json.dumps`. A request may raise, and an
-- answer may differ from one iteration to the next.
pub record Provider (Args Messages : Type 0) : Type 0 where
  pub initial_messages : Messages
  pub request : ℕ → Messages → Option (ChatResponse Args)
  pub append_assistant : Messages → ChatResponse Args → Messages
  pub append_tool_results : Messages → ChatResponse Args → List (ToolCall Args × Text) → Messages
  pub print_args : Args → Text
  pub print_error : Text → Text
  pub nudge : Text

pub data LoopEvent (Args : Type 0) : Type 0 where
  ai_request : LoopEvent Args
  ai_response : ℕ → ChatResponse Args → LoopEvent Args
  tool_call : ToolCall Args → Text → LoopEvent Args

pub data LoopEnd : Type 0 where
  answer : Text → LoopEnd
  request_raised not_converged : LoopEnd

module _ {Args : Type 0} where
  unfoldable pub is_verdict : ToolCall Args → Bool
  is_verdict c = text_eq c.name verdict_tool_name

  abbrev pub verdict_call : ChatResponse Args → Option (ToolCall Args)
  verdict_call resp = find_first is_verdict resp.tool_calls

  abbrev pub other_calls : ChatResponse Args → List (ToolCall Args)
  other_calls resp = keep (λ c. not (is_verdict c)) resp.tool_calls

module _ {Args Messages : Type 0} (p : Provider Args Messages)
    (execute_tool : ℕ → ToolCall Args → ToolReply) where
  abbrev pub reply_text : ToolReply → Text
  reply_text (result text) = text
  reply_text (raised text) = p.print_error text

  abbrev pub answered_by : ℕ → ToolCall Args → ToolCall Args × Text
  answered_by i c = (c, reply_text (execute_tool i c))

  abbrev pub nudged : Option (ToolCall Args) → List (ToolCall Args × Text)
  nudged none = []
  nudged (some c) = (c, p.nudge) ∷ []

  -- The results of a turn: those of the other tools, and a nudge for a premature verdict.
  unfoldable pub turn_results : ℕ → ChatResponse Args → List (ToolCall Args × Text)
  turn_results i resp = map (answered_by i) (other_calls resp) ++ nudged (verdict_call resp)

  -- What a response ends with, if it ends the loop.
  abbrev pub alone : List (ToolCall Args) → Option (ToolCall Args) → Option Text
  alone [] (some c) = some (p.print_args c.arguments)
  alone _ _ = none

  unfoldable pub final_text : ChatResponse Args → Option Text
  final_text resp =
      if is_empty resp.tool_calls
      then some resp.text
      else alone (other_calls resp) (verdict_call resp)

  abbrev pub turn_events : List (ToolCall Args × Text) → List (LoopEvent Args)
  turn_events results = map (λ r. tool_call r.0 r.1) results

  abbrev pub next_messages : ℕ → Messages → ChatResponse Args → Messages
  next_messages i messages resp =
      p.append_tool_results (p.append_assistant messages resp) resp (turn_results i resp)

  abbrev pub Ended : Type 0
  Ended = LoopEnd × List (LoopEvent Args)

  -- The end of an iteration, over what the next one does.
  abbrev pub after_response :
      ℕ
      → Messages
      → List (LoopEvent Args)
      → ChatResponse Args
      → (Messages → List (LoopEvent Args) → Ended)
      → Option Text
      → Ended
  after_response i messages events resp next (some text) =
      (answer text, events ++ ai_response i resp ∷ [])
  after_response i messages events resp next none =
      next (next_messages i messages resp)
        (events ++ (ai_response i resp ∷ turn_events (turn_results i resp)))

  abbrev pub after_request :
      ℕ
      → Messages
      → List (LoopEvent Args)
      → (Messages → List (LoopEvent Args) → Ended)
      → Option (ChatResponse Args)
      → Ended
  after_request i messages events next none = (request_raised, events)
  after_request i messages events next (some resp) =
      after_response i messages events resp next (final_text resp)

  -- The rest of the loop: the iterations that are left, their number, the messages, the events.
  unfoldable pub iterate : ℕ → ℕ → Messages → List (LoopEvent Args) → Ended
  iterate zero i messages events = (not_converged, events)
  iterate (suc n) i messages events =
      after_request i messages events (iterate n (suc i)) (p.request i messages)

  -- run(...)
  unfoldable pub run : ℕ → Ended
  unfolding iterate
  run max_iterations = iterate max_iterations 0 p.initial_messages (ai_request ∷ [])
