-- ===== src/Tools/Web/Tests.antt =====
-- Runs of the web tools (spamallam/app/tools/webtools.py).
use spamallam.Prelude.{
  split_on, ◌≡◌, refl, true, false, Option, none, some, [], ◌∷◌, if◌then◌else◌, Text, codes,
  text_eq, partition,
}
use spamallam.Tools.Web.{
  Ip, addresses, Internet, redirect, streamed, same_site, norm_url, host_of,
  resolves_to_unsafe_address, site_of, host_related, forbidden_reason,
}
use spamallam.Tools.Web.Fetch.{
  refused_reason, page_text, fetch_failed, refused_address, FetchSettings, capped, fetch_from,
  fetch_http, guard_requests, fetch_browser, web_fetch,
}
use spamallam.Tools.Web.Plain.{
  after_close, drop_raw_from, after_gt, drop_tags_from, sub_tags, collapse, to_text,
}
use spamallam.Tools.Web.Requests.{IsWalk, fetch_http-IsWalk, IsCareful, web_fetch-IsCareful}
use spamallam.Tools.Web.Search.{no_key, found, web_search}

web : Unit {0}
unfolding text_eq partition split_on norm_url host_of resolves_to_unsafe_address site_of
    host_related forbidden_reason capped fetch_from fetch_http guard_requests fetch_browser
    web_fetch after_close drop_raw_from after_gt drop_tags_from sub_tags collapse to_text web_search
web = tt

to_text_test :
    to_text (λ t. t) (codes "<h1>Hi</h1><SCRIPT>x<y</script>  <>there<") ≡ codes "Hi <>there<"
unfolding web
to_text_test = refl

-- The part of a URL between the slashes.
abbrev after_slashes : Option (Text × Text) → Text
after_slashes none = []
after_slashes (some (a, b)) = b

abbrev test_host : Text → Text
test_host url =
    let rest = after_slashes (partition 47 (after_slashes (partition 47 url))) in
    elim (partition 47 rest) [ none ↦ rest | some p ↦ p.0 ]

abbrev public_ip : Ip
public_ip = record {
  is_private = false;
  is_loopback = false;
  is_link_local = false;
  is_multicast = false;
  is_reserved = false;
  is_unspecified = false;
}

-- A server that redirects to another site, and one on the inside.
abbrev net : Internet
net = record {
  urlsplit = λ url. some (record {
    scheme = [];
    netloc = [];
    path = url;
    query = [];
    hostname = some (test_host url);
  });
  urlunsplit = λ p. p.path;
  ip_address = λ a.
      if text_eq a (codes "8.8.8.8")
      then some public_ip
      else if text_eq a (codes "10.0.0.1")
      then some (record public_ip { is_private = true })
      else none;
  getaddrinfo = λ at h.
      if text_eq h (codes "inside.example")
      then addresses (codes "10.0.0.1" ∷ [])
      else addresses (codes "8.8.8.8" ∷ []);
  answer = λ before url.
      if text_eq url (codes "http://a.example/")
      then redirect (codes "http://b.example/")
      else if text_eq url (codes "http://c.example/")
      then redirect (codes "http://inside.example/")
      else streamed (codes "<b>hello</b>" ∷ []);
  url_join = λ base location. some location;
  decode = λ b. b;
  unescape = λ t. t;
  browse = λ backend endpoint url. record { requests = []; content = none };
}

abbrev curl : FetchSettings
curl = record { backend = []; endpoint = [] }

web_fetch_test :
    (web_fetch net curl (codes " http://a.example/") [] ≡ (
      page_text (codes "http://a.example/") (codes "curl") (codes "hello") false,
      codes "http://a.example/" ∷ codes "http://b.example/" ∷ [],
    ))
    × (web_fetch net curl (codes "http://c.example/") []
        ≡ (fetch_failed refused_address, codes "http://c.example/" ∷ []))
    × (web_fetch net curl (codes "http://www.evil.example/x") (codes "http://t.evil.example/" ∷ [])
        ≡ (
          refused_reason (codes "http://www.evil.example/x") (same_site (codes "www.evil.example")),
          [],
        ))
unfolding web
web_fetch_test = (refl, refl, refl)

site_of_test :
    (site_of net (codes "T.evil.example.") ≡ codes "evil.example")
    × (site_of net (codes "a.shop.co.uk") ≡ codes "shop.co.uk")
unfolding web
site_of_test = (refl, refl)

-- The links of a message are not looked at after a redirect.
redirect_to_link_test :
    (web_fetch net curl (codes "http://a.example/") (codes "http://b.example/" ∷ [])).1
    ≡ codes "http://a.example/" ∷ codes "http://b.example/" ∷ []
unfolding web
redirect_to_link_test = refl

web_search_test :
    (web_search
        (λ r k. some [])
        (λ t. some t)
        (record { backend = []; api_key = none; endpoint = [] })
        (codes "x")
      ≡ (no_key, []))
    × ((web_search
          (λ r k. some [])
          (λ t. some t)
          (record { backend = []; api_key = some (codes "k"); endpoint = [] })
          (codes " x ")).0
        ≡ found (codes "x") [])
unfolding web
web_search_test = (refl, refl)

web_fetch-IsCareful_example :
    IsCareful net
      (codes "http://a.example/")
      []
      (web_fetch net curl (codes " http://a.example/") []).1
web_fetch-IsCareful_example = web_fetch-IsCareful net curl (codes " http://a.example/") []

fetch_http-IsWalk_example :
    IsWalk net 4 [] (codes "http://a.example/") (fetch_http net (codes "http://a.example/")).1
fetch_http-IsWalk_example = fetch_http-IsWalk net (codes "http://a.example/") refl
