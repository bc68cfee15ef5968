-- ===== src/Tools/Web/Fetch.antt =====
-- `web_fetch` (spamallam/app/tools/webtools.py): the fetch in this process, the fetch by a browser,
-- and the tool, each with the URLs that it contacts.
use spamallam.Prelude.{
  ℕ, zero, suc, ◌+◌, Bool, true, false, not, ◌&&◌, ◌||◌, Option, none, some, List, [], ◌∷◌, ◌++◌,
  leb, if◌then◌else◌, is_empty, length, take, ltb, Text, Bytes, codes, text_eq, strip, lower,
}
use spamallam.Tools.Web.{
  Internet, Response, redirect, bad_status, unreachable, streamed, Reason, host_of,
  resolves_to_unsafe_address, is_http, forbidden_reason,
}
use spamallam.Tools.Web.Plain.{to_text}

pub data FetchError : Type 0 where
  -- The guard's refusal, and an exception of the look-up.
  refused_address lookup_error : FetchError
  no_location not_http_target too_many_redirects http_error browser_error : FetchError

pub data Fetched : Type 0 where
  markup : Text → Fetched
  fetch_error : FetchError → Fetched

abbrev pub max_bytes : ℕ
max_bytes = 1500000

abbrev pub max_text : ℕ
max_text = 5000

abbrev pub max_redirects : ℕ
max_redirects = 3

-- The chunks of a stream up to the one that reaches the limit.
unfoldable pub capped : ℕ → List Bytes → Bytes
capped total [] = []
capped total (chunk ∷ chunks) =
    let now = total + length chunk in
    let rest = capped now chunks in chunk ++ (if leb max_bytes now then [] else rest)

module _ (net : Internet) where
  -- The guard before a connection: a host, and no unsafe address.
  abbrev pub may_contact : Text → Option Bool → Bool
  may_contact host (some unsafe) = not (is_empty host) && not unsafe
  may_contact host none = false

  abbrev pub refusal : Text → Option Bool → FetchError
  refusal host unsafe =
      if is_empty host
      then refused_address
      else elim unsafe [ none ↦ lookup_error | some u ↦ refused_address ]

  abbrev pub follow : (Text → Fetched × List Text) → List Text → Option Text → Fetched × List Text
  follow again contacted none = (fetch_error http_error, contacted)
  follow again contacted (some next) =
      let rest = again next in
      if is_http next then rest else (fetch_error not_http_target, contacted)

  abbrev pub answered :
      (Text → Fetched × List Text) → List Text → Text → Response → Fetched × List Text
  answered again contacted current (redirect location) =
      if is_empty location
      then (fetch_error no_location, contacted)
      else follow again contacted (net.url_join current location)
  answered again contacted current bad_status = (fetch_error http_error, contacted)
  answered again contacted current unreachable = (fetch_error http_error, contacted)
  answered again contacted current (streamed chunks) =
      (markup (net.decode (capped 0 chunks)), contacted)

  -- The loop of _fetch_http, with the URLs contacted so far; the tool's own check was the first lookup.
  unfoldable pub fetch_from : ℕ → List Text → Text → Fetched × List Text
  fetch_from zero contacted current = (fetch_error too_many_redirects, contacted)
  fetch_from (suc n) contacted current =
      let host = host_of net current in
      let unsafe = resolves_to_unsafe_address net (suc (length contacted)) host in
      let next =
        answered (fetch_from n (contacted ++ current ∷ [])) (contacted ++ current ∷ []) current
          (net.answer contacted current) in
      if may_contact host unsafe then next else (fetch_error (refusal host unsafe), contacted)

  -- _fetch_http(url)
  unfoldable pub fetch_http : Text → Fetched × List Text
  fetch_http url = fetch_from (max_redirects + 1) [] url

  abbrev pub continues : Option Bool → Bool
  continues (some unsafe) = not unsafe
  continues none = false

  -- `_guard`: whether a request of the page goes on.
  abbrev pub guard_request : ℕ → Text → Bool
  guard_request at url = continues (resolves_to_unsafe_address net at (host_of net url))

  -- The requests that go on, each checked by a lookup of its own.
  unfoldable pub guard_requests : ℕ → List Text → List Text
  guard_requests at [] = []
  guard_requests at (url ∷ urls) =
      let rest = guard_requests (suc at) urls in if guard_request at url then url ∷ rest else rest

  abbrev pub page_markup : Option Text → Fetched
  page_markup none = fetch_error browser_error
  page_markup (some content) = markup (take max_bytes content)

  -- _fetch_browser(url, backend, endpoint), with what the guard lets go on; a navigation that it aborts
  -- raises. What the browser contacts without the handler is not in the list.
  unfoldable pub fetch_browser : Text → Text → Text → Fetched × List Text
  fetch_browser url backend endpoint =
      let page = net.browse backend endpoint url in
      if guard_request 1 url
      then (page_markup page.content, url ∷ guard_requests 2 page.requests)
      else (fetch_error browser_error, [])

-- cfg["tools"]["web_fetch"]; a missing value is empty.
pub record FetchSettings : Type 0 where
  pub backend : Text
  pub endpoint : Text

pub data FetchResult : Type 0 where
  url_not_http : FetchResult
  refused_reason : Text → Reason → FetchResult
  refused_host : Text → FetchResult
  unknown_backend : Text → FetchResult
  fetch_failed : FetchError → FetchResult
  -- The URL, the backend, the text, and whether it is truncated.
  page_text : Text → Text → Text → Bool → FetchResult
  -- An exception leaves the tool.
  fetch_raised : FetchResult

abbrev pub or_curl : Text → Text
or_curl b = if is_empty b then codes "curl" else b

module _ (net : Internet) where
  abbrev pub finish_fetch : Text → Text → Fetched × List Text → FetchResult × List Text
  finish_fetch url backend (fetch_error e, contacted) = (fetch_failed e, contacted)
  finish_fetch url backend (markup m, contacted) =
      let text = to_text net.unescape m in
      (page_text url backend (take max_text text) (ltb max_text (length text)), contacted)

  abbrev pub fetch_by : Text → Text → Text → FetchResult × List Text
  fetch_by url backend endpoint =
      if text_eq backend (codes "curl") || text_eq backend (codes "http")
      then finish_fetch url backend (fetch_http net url)
      else if text_eq backend (codes "playwright") || text_eq backend (codes "lightpanda")
      then finish_fetch url backend (fetch_browser net url backend (strip endpoint))
      else (unknown_backend backend, [])

  abbrev pub fetch_checked : FetchSettings → Text → Bool → Option Bool → FetchResult × List Text
  fetch_checked cfg url true unsafe = (refused_host url, [])
  fetch_checked cfg url false none = (fetch_raised, [])
  fetch_checked cfg url false (some true) = (refused_host url, [])
  fetch_checked cfg url false (some false) = fetch_by url (lower (or_curl cfg.backend)) cfg.endpoint

  abbrev pub fetch_unless : FetchSettings → Text → Option Reason → FetchResult × List Text
  fetch_unless cfg url (some reason) = (refused_reason url reason, [])
  fetch_unless cfg url none =
      let host = host_of net url in
      fetch_checked cfg url (is_empty host) (resolves_to_unsafe_address net 0 host)

  -- web_fetch(args, cfg, summary), with args' `url` and the summary's urls_in_body; the result, and
  -- the URLs that were contacted.
  unfoldable pub web_fetch : FetchSettings → Text → List Text → FetchResult × List Text
  web_fetch cfg arg body_urls =
      let url = strip arg in
      if not (is_http url)
      then (url_not_http, [])
      else fetch_unless cfg url (forbidden_reason net url body_urls)
