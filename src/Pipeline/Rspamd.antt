-- ===== src/Pipeline/Rspamd.antt =====
-- The client of rspamd's /checkv2 endpoint (spamallam/app/pipeline/rspamd_client.py). The HTTP
-- exchange is an argument.
pub mod Antivirus
use spamallam.Prelude.{
  Bool, true, false, ◌&&◌, Option, none, some, List, [], ◌∷◌, ◌++◌, map, if◌then◌else◌, is_empty,
  elem, Text, Bytes, codes, text_eq, text_le, join, strip_left, strip_right, ◌==◌, ◌||◌, Float,
  zero_float, print_fixed2,
}
use spamallam.Pipeline.Headers.Verdict.{Header}

-- What rspamd says of one symbol: an object with its score, options and description, another
-- value, or null.
pub data Symbol : Type 0 where
  entry : Float → List Text → Text → Symbol
  bare null_symbol : Symbol

abbrev pub Symbols : Type 0
Symbols = List (Text × Symbol)

pub record RspamdResult : Type 0 where
  pub ok : Bool
  pub action : Text
  pub score : Float
  pub required_score : Float
  pub symbols : Symbols
  pub error : Text
  pub av_failed : Bool
  pub av_error : Text

unfoldable pub is_reject : RspamdResult → Bool
is_reject r = r.ok && text_eq r.action (codes "reject")

abbrev pub spam_actions : List Text
spam_actions = codes "add header" ∷ codes "rewrite subject" ∷ codes "greylist" ∷ codes "reject" ∷ []

unfoldable pub is_spam : RspamdResult → Bool
is_spam r = r.ok && elem r.action spam_actions

abbrev pub symbol_score : Symbol → Float
symbol_score (entry score options description) = score
symbol_score _ = zero_float

-- `sorted(symbols.items())`, by insertion; the keys of a dict are distinct.
abbrev pub insert_symbol : Text × Symbol → Symbols → Symbols
insert_symbol s [] = s ∷ []
insert_symbol (k, v) ((j, w) ∷ rest) =
    let later = (j, w) ∷ insert_symbol (k, v) rest in
    if text_le k j then (k, v) ∷ (j, w) ∷ rest else later

abbrev pub sort_symbols : Symbols → Symbols
sort_symbols [] = []
sort_symbols (s ∷ rest) = insert_symbol s (sort_symbols rest)

abbrev pub symbol_part : Text × Symbol → Text
symbol_part (name, info) = name ++ codes "(" ++ print_fixed2 (symbol_score info) ++ codes ")"

unfoldable pub spamd_result_header : RspamdResult → Text
spamd_result_header r = join (codes "; ") (
    (codes "default: "
      ++ (if is_spam r then codes "True" else codes "False")
      ++ codes " ["
      ++ print_fixed2 r.score
      ++ codes " / "
      ++ print_fixed2 r.required_score
      ++ codes "]")
    ∷ map symbol_part (sort_symbols r.symbols))

-- `symbols.get(name)`, where a null counts as missing.
unfoldable pub lookup_symbol : Text → Symbols → Option Symbol
lookup_symbol name [] = none
lookup_symbol name ((k, null_symbol) ∷ rest) = lookup_symbol name rest
lookup_symbol name ((k, v) ∷ rest) = if text_eq k name then some v else lookup_symbol name rest

abbrev pub detail_of : Symbol → Text
detail_of (entry score [] description) = description
detail_of (entry score (option ∷ options) description) = option
detail_of _ = []

-- `.strip(": ")`
abbrev pub strip_colon : Text → Text
strip_colon s = strip_right (λ c. c == 58 || c == 32) (strip_left (λ c. c == 58 || c == 32) s)

abbrev pub av_report : Text → Option Symbol → Bool × Text → Bool × Text
av_report name none rest = rest
av_report name (some info) rest = (true, strip_colon (name ++ codes ": " ++ detail_of info))

-- _antivirus_failure(symbols, av_fail_symbols)
unfoldable pub antivirus_failure : Symbols → List Text → Bool × Text
unfolding lookup_symbol
antivirus_failure symbols [] = (false, [])
antivirus_failure symbols (name ∷ names) =
    av_report name (lookup_symbol name symbols) (antivirus_failure symbols names)

pub record Client : Type 0 where
  pub addr : Text
  pub name : Text
  pub helo : Text

abbrev pub given : Text → Text → List Header → List Header
given key value more = if is_empty value then more else (key, value) ∷ more

unfoldable pub check_headers : Client → Text → List Text → List Header
check_headers client envelope_from rcpt_tos =
    (codes "Pass", codes "all")
    ∷ given (codes "IP") client.addr (
        given (codes "Helo") client.helo (
          given (codes "Hostname") client.name
            (given (codes "From") envelope_from (map (λ rcpt. (codes "Rcpt", rcpt)) rcpt_tos))))

-- A number of the reply: left out, a number, or something that `float` refuses.
pub data Field : Type 0 where
  absent refused : Field
  number : Float → Field

-- `none` is the ValueError or TypeError of `float`, which nothing catches.
abbrev pub float_field : Field → Option Float
float_field absent = some zero_float
float_field refused = none
float_field (number x) = some x

pub record Scan : Type 0 where
  pub action : Text
  pub score : Field
  pub required_score : Field
  pub symbols : Symbols

pub data HttpReply : Type 0 where
  -- The exchange failed: refused, timed out, an error status, no JSON.
  failed : Text → HttpReply
  scanned : Scan → HttpReply

abbrev pub unavailable : Text → RspamdResult
unavailable error = record {
  ok = false;
  action = [];
  score = zero_float;
  required_score = zero_float;
  symbols = [];
  error = error;
  av_failed = false;
  av_error = [];
}

abbrev pub scored : Scan → Bool × Text → Option Float → Option Float → Option RspamdResult
scored scan (av_failed, av_error) (some score) (some required_score) = some (record {
  ok = true;
  action = scan.action;
  score = score;
  required_score = required_score;
  symbols = scan.symbols;
  error = [];
  av_failed = av_failed;
  av_error = av_error;
})
scored scan av _ _ = none

unfoldable pub read_reply : List Text → HttpReply → Option RspamdResult
unfolding antivirus_failure
read_reply av_fail_symbols (failed error) = some (unavailable error)
read_reply av_fail_symbols (scanned scan) =
    scored scan (antivirus_failure scan.symbols av_fail_symbols) (float_field scan.score)
      (float_field scan.required_score)

-- check(rspamd_url, raw_message, ...); the exchange takes the headers and the body.
unfoldable pub check :
    (List Header → Bytes → HttpReply)
    → Bytes
    → Client
    → Text
    → List Text
    → List Text
    → Option RspamdResult
unfolding check_headers read_reply
check post raw client envelope_from rcpt_tos av_fail_symbols =
    read_reply av_fail_symbols (post (check_headers client envelope_from rcpt_tos) raw)
