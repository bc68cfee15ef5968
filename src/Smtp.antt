-- ===== src/Smtp.antt =====
-- The SMTP front end (spamallam/app/smtp/server.py): XFORWARD and the DATA handler. The relay to
-- the second Postfix instance is an argument.
pub mod Xtext
pub mod Forwarding
pub mod Accounting
mod Tests
use spamallam.Prelude.{
  ℕ, zero, suc, ◌+◌, ◌-◌, ◌*◌, Bool, true, false, not, ◌&&◌, ◌||◌, Option, none, some, List, [],
  ◌∷◌, ◌++◌, leb, ◌==◌, if◌then◌else◌, is_some, is_empty, elem, Text, Bytes, codes, text_eq, upper,
  Map, get, put, words, partition, is_str_space,
}
use spamallam.Pipeline.Run.{Action, deliver, drop, tempfail, Journal}
use spamallam.Pipeline.Rspamd.{Client}
use spamallam.Pipeline.Analyzer.Base.{Env, Request, Decision}
use spamallam.Pipeline.Analyzer.Verdict.{process}

-- The value of a hexadecimal digit. (int() takes the decimal digits of other scripts too.)
abbrev pub hex_digit : ℕ → Option ℕ
hex_digit c =
    if leb 48 c && leb c 57
    then some (c - 48)
    else if leb 65 c && leb c 70
    then some (c - 55)
    else if leb 97 c && leb c 102
    then some (c - 87)
    else none

abbrev pub two_digits : Option ℕ → Option ℕ → Option ℕ
two_digits (some a) (some b) = some (16 * a + b)
two_digits _ _ = none

-- `chr(-n)` raises but for 0.
abbrev pub negated : Option ℕ → Option ℕ
negated (some n) = if n == 0 then some 0 else none
negated none = none

-- `chr(int(a + b, 16))`: a sign in front of a digit and white space around one are allowed.
unfoldable pub hex_pair : ℕ → ℕ → Option ℕ
hex_pair a b =
    if a == 43 || is_str_space a
    then hex_digit b
    else if a == 45
    then negated (hex_digit b)
    else if is_str_space b
    then hex_digit a
    else two_digits (hex_digit a) (hex_digit b)

-- The escape that begins behind a `+`, if there is one.
unfoldable pub escape : Text → Option ℕ
unfolding hex_pair
escape (a ∷ b ∷ s) = hex_pair a b
escape _ = none

abbrev pub escape_at : ℕ → Text → Option ℕ
escape_at c s = if c == 43 then escape s else none

abbrev pub or_code : ℕ → Option ℕ → ℕ
or_code c none = c
or_code c (some d) = d

abbrev pub escape_length : Option ℕ → ℕ
escape_length none = 0
escape_length (some d) = 2

-- _xtext_decode(value); the first argument counts the codes of an escape that are still to pass.
unfoldable pub xtext_from : ℕ → Text → Text
xtext_from k [] = []
xtext_from (suc k) (c ∷ s) = xtext_from k s
xtext_from zero (c ∷ s) = let d = escape_at c s in or_code c d ∷ xtext_from (escape_length d) s

abbrev pub xtext_decode : Text → Text
xtext_decode value = xtext_from 0 value

-- A session: the peer's address, and the dict of XFORWARD once there is one.
pub record Session : Type 0 where
  pub peer : Option Text
  pub xforward : Option (Map Text)

abbrev pub known_peer : Option Text → List Text → Bool
known_peer none trusted = false
known_peer (some peer) trusted = elem peer trusted

-- _peer_is_trusted(session)
unfoldable pub peer_is_trusted : List Text → Session → Bool
peer_is_trusted trusted session = is_empty trusted || known_peer session.peer trusted

abbrev pub attributes : List Text
attributes =
    codes "NAME"
    ∷ codes "ADDR"
    ∷ codes "PORT"
    ∷ codes "PROTO"
    ∷ codes "HELO"
    ∷ codes "SOURCE"
    ∷ codes "IDENT"
    ∷ []

pub data Reply : Type 0 where
  ok_250 : Reply
  syntax_501 : Reply
  unknown_501 : Text → Reply
  not_authorized_550 : Reply

-- One pair of XFORWARD: the refusal, or the dict after it.
abbrev pub store_pair : Text × Text → Map Text → Map Text
store_pair (key, value) store =
    if text_eq (upper value) (codes "[UNAVAILABLE]")
    then store
    else put key (xtext_decode value) store

abbrev pub take_pair : Option (Text × Text) → Map Text → Option Reply × Map Text
take_pair none store = (some syntax_501, store)
take_pair (some (key, value)) store =
    if elem (upper key) attributes
    then (none, store_pair (upper key, value) store)
    else (some (unknown_501 (upper key)), store)

abbrev pub or_refusal : Option Reply × Map Text → Option Reply × Map Text → Option Reply × Map Text
or_refusal (some refusal, store) rest = (some refusal, store)
or_refusal (none, store) rest = rest

-- The loop over the pairs; what was stored before a refusal stays in the dict.
unfoldable pub take_pairs : List Text → Map Text → Option Reply × Map Text
take_pairs [] store = (none, store)
take_pairs (pair ∷ pairs) store =
    let after = take_pair (partition 61 pair) store in or_refusal after (take_pairs pairs after.1)

-- A dict that the session holds already was changed in place; a new one is lost on a refusal.
abbrev pub end_forward : Session → Option Reply × Map Text → Session × Reply
end_forward session (none, store) = (record session { xforward = some store }, ok_250)
end_forward session (some refusal, store) = (
  if is_some session.xforward then record session { xforward = some store } else session,
  refusal,
)

abbrev pub forwarded : Session → Map Text
forwarded session = elim session.xforward [ some store ↦ store | none ↦ [] ]

-- smtp_XFORWARD(arg)
unfoldable pub smtp_xforward : List Text → Session → Text → Session × Reply
unfolding peer_is_trusted take_pairs
smtp_xforward trusted session arg =
    if not (peer_is_trusted trusted session)
    then (session, not_authorized_550)
    else if is_empty arg
    then (session, syntax_501)
    else end_forward session (take_pairs (words arg) (forwarded session))

abbrev pub or_nothing : Option Text → Text
or_nothing (some text) = text
or_nothing none = []

unfoldable pub client_of : Session → Client
client_of session =
    let xf = forwarded session in
    record {
      addr = or_nothing (get (codes "ADDR") xf);
      name = or_nothing (get (codes "NAME") xf);
      helo = or_nothing (get (codes "HELO") xf);
    }

pub record Envelope : Type 0 where
  pub mail_from : Option Text
  pub rcpt_tos : List Text
  pub content : Bytes

-- The replies of handle_DATA.
pub data DataReply : Type 0 where
  queued_250 internal_451 unavailable_451 reinjection_451 : DataReply

abbrev pub accepted : DataReply → Bool
accepted queued_250 = true
accepted _ = false

-- The id and day of the new trace, and the relay, which returns an exception's text where it raises.
pub record Front : Type 0 where
  pub env : Env
  pub new_trace : Text × Text
  pub reinject : Text → List Text → Option Bytes → Option Text

abbrev pub relayed : Option Text → DataReply
relayed none = queued_250
relayed (some text) = reinjection_451

abbrev pub request_of : Front → Session → Envelope → Request
request_of front session envelope = record {
  envelope_from = or_nothing envelope.mail_from;
  rcpt_tos = envelope.rcpt_tos;
  client = client_of session;
  trace = some front.new_trace;
}

abbrev pub reply_to : Front → Request → Action → Option Bytes → DataReply
reply_to front req drop message = queued_250
reply_to front req tempfail message = unavailable_451
reply_to front req deliver message = relayed (front.reinject req.envelope_from req.rcpt_tos message)

abbrev pub answer : Front → Request → Option Decision → DataReply
answer front req none = internal_451
answer front req (some d) = reply_to front req d.action d.message

-- handle_DATA(server, session, envelope)
unfoldable pub handle_data : Front → Session → Envelope → Journal → DataReply × Journal
handle_data front session envelope j =
    let req = request_of front session envelope in
    let (decision, after) = process front.env req envelope.content j in
    (answer front req decision, after)
