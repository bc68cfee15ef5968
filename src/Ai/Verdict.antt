-- ===== src/Ai/Verdict.antt =====
-- Reading the model's verdict (spamallam/app/ai/engine.py).
pub mod Bounds
use spamallam.Prelude.{
  ℕ, Bool, true, false, not, ◌&&◌, Option, none, some, List, [], ◌∷◌, ◌++◌, map, if◌then◌else◌,
  is_empty, elem, keep, length, leb, take, Text, codes, upper, Float,
}
use spamallam.Pipeline.Headers.Verdict.{SpamallamVerdict, clamp_confidence}
use spamallam.Pipeline.Rspamd.{Field, float_field}

-- cfg["classification"]["labels"]
pub record Label : Type 0 where
  pub key : Text
  pub enabled : Bool

-- The label keys of build_verdict_tool; the schema around them is for the model to read.
unfoldable pub enabled_keys : Bool → List Label → List Text
enabled_keys enabled labels =
    if enabled then map (λ l. l.key) (keep (λ l. l.enabled) labels) else []

-- The object that the model wrote, each member as `str` prints it.
pub record Answer : Type 0 where
  pub verdict : Text
  pub confidence : Field
  pub category : Text
  pub reason : Text
  -- `none` is a value that is no list.
  pub labels : Option (List Text)

abbrev pub valid_verdicts : List Text
valid_verdicts = codes "HAM" ∷ codes "SPAM" ∷ codes "PHISHING" ∷ codes "MALICIOUS" ∷ []

-- _MAX_LABELS
abbrev pub max_labels : ℕ
max_labels = 3

abbrev pub listed : Option (List Text) → List Text
listed none = []
listed (some labels) = labels

abbrev pub is_taken : List Text → List Text → Text → Bool
is_taken valid labels l = elem l valid && not (elem l labels)

-- The loop over the labels, which stops at the maximum.
unfoldable pub take_labels : List Text → List Text → List Text → List Text
take_labels valid labels [] = labels
take_labels valid labels (l ∷ more) =
    let next = if is_taken valid labels l then labels ++ l ∷ [] else labels in
    let rest = take_labels valid next more in if leb max_labels (length next) then next else rest

abbrev pub verdict_of : Text → List Text → List Text → Answer → Float → SpamallamVerdict
verdict_of model tools_used valid a confidence = record {
  verdict = upper a.verdict;
  confidence = clamp_confidence confidence;
  category = take 120 a.category;
  reason = take 500 a.reason;
  model = model;
  tools_used = tools_used;
  whitelisted = [];
  labels = take_labels valid [] (listed a.labels);
}

abbrev pub read_answer :
    Text → List Text → List Text → Answer → Option Float → Option SpamallamVerdict
read_answer model tools_used valid a none = none
read_answer model tools_used valid a (some confidence) =
    some (verdict_of model tools_used valid a confidence)

abbrev pub checked_answer : Text → List Text → List Text → Option Answer → Option SpamallamVerdict
checked_answer model tools_used valid none = none
checked_answer model tools_used valid (some a) =
    if elem (upper a.verdict) valid_verdicts
    then read_answer model tools_used valid a (float_field a.confidence)
    else none

-- parse_verdict(text, ...), over the search for an object in the text and `json.loads`; `none` is
-- an exception, which the pipeline takes for a failure of the AI.
unfoldable pub parse_verdict :
    (Text → Option Answer) → Text → Text → List Text → List Text → Option SpamallamVerdict
unfolding take_labels clamp_confidence
parse_verdict find_answer text model tools_used valid =
    checked_answer model tools_used valid (find_answer text)
