-- ===== src/Tools/Web.antt =====
-- The web tools (spamallam/app/tools/webtools.py): the addresses that may be contacted, the guard on
-- a message's own links. urllib's and httpx's URL functions, ipaddress, DNS, the
-- servers, the browser and html.unescape are arguments.
pub mod Plain
pub mod Guard
pub mod Fetch
pub mod Search
pub mod Requests
mod Tests
use spamallam.Prelude.{
  split_on, ℕ, zero, suc, ◌+◌, Bool, true, false, not, ◌&&◌, ◌||◌, Option, none, some, List, [],
  ◌∷◌, ◌++◌, reverse, leb, ◌==◌, if◌then◌else◌, any, keep, is_empty, length, take, elem, ltb, Text,
  Bytes, codes, text_eq, strip, strip_left, strip_right, lower, join, starts_with,
}

-- urlsplit(url)
pub record UrlParts : Type 0 where
  pub scheme : Text
  pub netloc : Text
  pub path : Text
  pub query : Text
  pub hostname : Option Text

-- ipaddress.ip_address(addr)
pub record Ip : Type 0 where
  pub is_private : Bool
  pub is_loopback : Bool
  pub is_link_local : Bool
  pub is_multicast : Bool
  pub is_reserved : Bool
  pub is_unspecified : Bool

-- socket.getaddrinfo(host, None); `lookup_raised` is an exception other than an OSError, such as
-- the UnicodeError of a host with an empty label.
pub data Lookup : Type 0 where
  addresses : List Text → Lookup
  os_error lookup_raised : Lookup

-- A server's answer to a GET: a redirect with its Location header, a status that
-- raise_for_status refuses, the chunks of a body, or an exception of the client.
pub data Response : Type 0 where
  redirect : Text → Response
  bad_status unreachable : Response
  streamed : List Bytes → Response

-- What a page hands to the route handler after the navigation, and its content; `none` where the
-- browser raises. The hops of a redirect and web sockets do not come to the handler.
pub record Page : Type 0 where
  pub requests : List Text
  pub content : Option Text

pub record Internet : Type 0 where
  -- `none` is a ValueError.
  pub urlsplit : Text → Option UrlParts
  pub urlunsplit : UrlParts → Text
  pub ip_address : Text → Option Ip
  -- The resolver's answer may change from one lookup to the next, which the number counts. The
  -- connection looks the host up again, for itself.
  pub getaddrinfo : ℕ → Text → Lookup
  -- The answer of a server, given the URLs contacted before.
  pub answer : List Text → Text → Response
  -- httpx.URL(current).join(location)
  pub url_join : Text → Text → Option Text
  pub decode : Bytes → Text
  pub unescape : Text → Text
  -- The browser of a backend and an endpoint on a URL.
  pub browse : Text → Text → Text → Page

pub data Reason : Type 0 where
  verbatim : Reason
  same_site : Text → Reason

abbrev pub or_no_host : Option Text → Text
or_no_host none = []
or_no_host (some h) = h

abbrev pub ip_is_unsafe : Ip → Bool
ip_is_unsafe ip =
    ip.is_private || ip.is_loopback || ip.is_link_local || ip.is_multicast || ip.is_reserved
    || ip.is_unspecified

abbrev pub parsed_is_unsafe : Option Ip → Bool
parsed_is_unsafe none = true
parsed_is_unsafe (some ip) = ip_is_unsafe ip

abbrev pub pseudo_tlds : List Text
pseudo_tlds =
    codes "co"
    ∷ codes "com"
    ∷ codes "net"
    ∷ codes "org"
    ∷ codes "gov"
    ∷ codes "edu"
    ∷ codes "ac"
    ∷ codes "or"
    ∷ codes "ne"
    ∷ codes "gr"
    ∷ []

-- The site of a host, from its labels with the last one first.
abbrev pub site_from : Text → List Text → Text
site_from host (last ∷ second ∷ third ∷ more) =
    if elem second pseudo_tlds && length last == 2
    then join (codes ".") (third ∷ second ∷ last ∷ [])
    else join (codes ".") (second ∷ last ∷ [])
site_from host few = host

abbrev pub is_label_dot : ℕ → Bool
is_label_dot c = c == 46

abbrev pub bare_host : Text → Text
bare_host host = lower (strip_right is_label_dot (strip_left is_label_dot host))

abbrev pub is_http : Text → Bool
is_http url =
    starts_with (codes "http://") (lower url) || starts_with (codes "https://") (lower url)

module _ (net : Internet) where
  abbrev pub norm_parts : Text → Option UrlParts → Text
  norm_parts url none = url
  norm_parts url (some p) =
      net.urlunsplit (record p { path = strip_right (λ c. c == 47) p.path; hostname = none })

  -- _norm_url(url); the hostname is no part of what urlunsplit takes.
  unfoldable pub norm_url : Text → Text
  norm_url url = let u = lower (strip url) in norm_parts u (net.urlsplit u)

  abbrev pub host_part : Option UrlParts → Text
  host_part none = []
  host_part (some p) = or_no_host p.hostname

  -- _host(url)
  unfoldable pub host_of : Text → Text
  host_of url = host_part (net.urlsplit url)

  abbrev pub is_unsafe_address : Text → Bool
  is_unsafe_address addr = parsed_is_unsafe (net.ip_address addr)

  abbrev pub looked_up : Lookup → Option Bool
  looked_up (addresses found) = some (is_empty found || any is_unsafe_address found)
  looked_up os_error = some true
  looked_up lookup_raised = none

  abbrev pub literal_or_lookup : ℕ → Text → Option Ip → Option Bool
  literal_or_lookup at host (some ip) = some (is_unsafe_address host)
  literal_or_lookup at host none = looked_up (net.getaddrinfo at host)

  -- _resolves_to_unsafe_address(host), at a lookup; `none` where it raises.
  unfoldable pub resolves_to_unsafe_address : ℕ → Text → Option Bool
  resolves_to_unsafe_address at host = literal_or_lookup at host (net.ip_address host)

  abbrev pub site_or_literal : Text → Option Ip → Text
  site_or_literal host (some ip) = host
  site_or_literal host none = site_from host (reverse (split_on 46 host))

  -- _site_of(host)
  unfoldable pub site_of : Text → Text
  site_of host = let h = bare_host host in site_or_literal h (net.ip_address h)

  -- _host_related(a, b)
  unfoldable pub host_related : Text → Text → Bool
  host_related a b =
      if is_empty a || is_empty b then false else text_eq a b || text_eq (site_of a) (site_of b)

  -- forbidden_reason(url, summary), with the summary's urls_in_body.
  unfoldable pub forbidden_reason : Text → List Text → Option Reason
  forbidden_reason url body_urls =
      let norm = norm_url url in
      let host = host_of url in
      if any (λ u. text_eq (norm_url u) norm) body_urls
      then some verbatim
      else if not (is_empty host) && any (λ u. host_related host (host_of u)) body_urls
      then some (same_site host)
      else none
