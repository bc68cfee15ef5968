-- ===== src/Pipeline/Analyzer/Base.antt =====
-- What the pipeline works with (spamallam/app/pipeline/analyzer.py): its surroundings, the message
-- at hand, and the decision.
use spamallam.Prelude.{Bool, Option, List, Text, Bytes}
use spamallam.Pipeline.Headers.Verdict.{Header, SpamallamVerdict, Signer}
use spamallam.Pipeline.Rspamd.{RspamdResult, Client, HttpReply}
use spamallam.Pipeline.Settings.{Settings}
use spamallam.Pipeline.Body.{Rewriter}
use spamallam.Pipeline.Run.{Action, Finish, Entry}

pub record MsgHeaders : Type 0 where
  pub from : Text
  pub subject : Text
  pub message_id : Text

-- The end of the AI analysis under its timeout: a verdict, or an exception's text.
pub data AiOutcome : Type 0 where
  answered : SpamallamVerdict → AiOutcome
  broke : Text → AiOutcome

-- The settings and what the pipeline calls: address and header parsing, the clock and key of the
-- signature, the HTTP exchange with rspamd, the AI engine, MIME rewriting, the review copy, and
-- the two stores, which return an exception's text where they raise, and which ends of a trace cannot
-- be written.
pub record Env : Type 0 where
  pub cfg : Settings
  pub parse_address : Text → Text
  pub headers_of : Bytes → MsgHeaders
  pub signer : Signer
  pub post : List Header → Bytes → HttpReply
  pub analyze : Bytes → AiOutcome
  pub rewrite_mime : Rewriter
  pub strip_for_review : Bytes → Bytes
  pub raw_save : Text → Text → Bytes → Option Text
  pub quarantine_save : Entry → Option Text
  pub trace_fails : Finish → Bool

-- The envelope of a message, and the id and day of its trace; the test page's recorder has none.
pub record Request : Type 0 where
  pub envelope_from : Text
  pub rcpt_tos : List Text
  pub client : Client
  pub trace : Option (Text × Text)

pub record Decision : Type 0 where
  pub action : Action
  pub message : Option Bytes
  pub reason : Text

-- What scoring leaves, in either order.
pub record Scored : Type 0 where
  pub verdict : SpamallamVerdict
  pub rres : RspamdResult
  pub tagged : Bytes
  pub ai_failed : Bool
