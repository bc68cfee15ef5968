-- ===== src/Tools/Web/Search.antt =====
-- `web_search` (spamallam/app/tools/webtools.py). The search engines, each a function of the request,
-- and the secrets box are arguments.
use spamallam.Prelude.{
  ◌||◌, Option, none, some, List, [], ◌∷◌, ◌++◌, map, ◌==◌, if◌then◌else◌, is_empty, take, Text,
  codes, text_eq, strip, strip_right, lower,
}
use spamallam.Tools.Web.Plain.{sub_tags}

-- What a search engine is sent: the endpoint, the parameters, the headers.
pub record SearchRequest : Type 0 where
  pub url : Text
  pub params : List (Text × Text)
  pub headers : List (Text × Text)

-- An entry of the reply, with what `.get` gives.
pub record SearchHit : Type 0 where
  pub title : Option Text
  pub url : Option Text
  pub text : Option Text

pub record Found : Type 0 where
  pub title : Option Text
  pub url : Option Text
  pub snippet : Text

-- cfg["tools"]["web_search"]; a missing value is empty, and a key that is not encrypted is none.
pub record SearchSettings : Type 0 where
  pub backend : Text
  pub api_key : Option Text
  pub endpoint : Text

pub data SearchResult : Type 0 where
  no_query no_key no_endpoint unknown_engine search_failed : SearchResult
  found : Text → List Found → SearchResult
  -- An exception leaves the tool.
  search_raised : SearchResult

abbrev pub or_no_text : Option Text → Text
or_no_text none = []
or_no_text (some t) = t

abbrev pub brave_hit : SearchHit → Found
brave_hit h = record { title = h.title; url = h.url; snippet = sub_tags [] (or_no_text h.text) }

abbrev pub custom_hit : SearchHit → Found
custom_hit h = record { title = h.title; url = h.url; snippet = take 400 (or_no_text h.text) }

abbrev pub or_brave : Text → Text
or_brave b = if is_empty b then codes "brave" else b

abbrev pub brave_request : Text → Text → SearchRequest
brave_request query api_key = record {
  url = codes "https://api.search.brave.com/res/v1/web/search";
  params = (codes "q", query) ∷ (codes "count", codes "6") ∷ [];
  headers =
      (codes "X-Subscription-Token", api_key) ∷ (codes "Accept", codes "application/json") ∷ [];
}

abbrev pub bearer : Text → List (Text × Text)
bearer api_key =
    if is_empty api_key then [] else (codes "Authorization", codes "Bearer " ++ api_key) ∷ []

abbrev pub custom_request : Text → Text → Text → SearchRequest
custom_request endpoint query api_key = record {
  url = endpoint ++ codes "/search";
  params = (codes "q", query) ∷ (codes "format", codes "json") ∷ [];
  headers = bearer api_key;
}

-- The engines: the results at a path of keys of the reply, `none` where the request, the status or
-- the reply raises.
module _ (engine : SearchRequest → List Text → Option (List SearchHit)) where
  abbrev pub hits_found : Text → (SearchHit → Found) → Option (List SearchHit) → SearchResult
  hits_found query shape none = search_failed
  hits_found query shape (some hits) = found query (map shape (take 6 hits))

  -- The search with its requests, at most one.
  abbrev pub ask :
      Text → (SearchHit → Found) → SearchRequest → List Text → SearchResult × List SearchRequest
  ask query shape request path = (hits_found query shape (engine request path), request ∷ [])

  abbrev pub search_custom : Text → Text → Text → SearchResult × List SearchRequest
  search_custom query endpoint api_key =
      if is_empty endpoint
      then (no_endpoint, [])
      else ask query custom_hit (custom_request endpoint query api_key) (codes "results" ∷ [])

  abbrev pub search_brave : Text → Text → SearchResult × List SearchRequest
  search_brave query api_key =
      if is_empty api_key
      then (no_key, [])
      else ask query brave_hit (brave_request query api_key) (codes "web" ∷ codes "results" ∷ [])

  abbrev pub search_by : SearchSettings → Text → Text → Text → SearchResult × List SearchRequest
  search_by cfg query backend api_key =
      if text_eq backend (codes "brave")
      then search_brave query api_key
      else if text_eq backend (codes "searxng") || text_eq backend (codes "custom")
      then search_custom query (strip_right (λ c. c == 47) cfg.endpoint) api_key
      else (unknown_engine, [])

  abbrev pub with_key :
      SearchSettings → Text → Text → Option Text → SearchResult × List SearchRequest
  with_key cfg query backend none = (search_raised, [])
  with_key cfg query backend (some api_key) = search_by cfg query backend api_key

  abbrev pub decrypted_key : (Text → Option Text) → Option Text → Option Text
  decrypted_key decrypt none = some []
  decrypted_key decrypt (some token) = decrypt token

  -- web_search(args, cfg, box), with args' `query`; the result, and the requests that it made.
  unfoldable pub web_search :
      (Text → Option Text) → SearchSettings → Text → SearchResult × List SearchRequest
  web_search decrypt cfg arg =
      let query = strip arg in
      if is_empty query
      then (no_query, [])
      else with_key cfg query (lower (or_brave cfg.backend)) (decrypted_key decrypt cfg.api_key)
