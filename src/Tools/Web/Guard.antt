-- ===== src/Tools/Web/Guard.antt =====
-- What the guards of the web tools let pass (spamallam/app/tools/webtools.py,
-- `_resolves_to_unsafe_address` and `forbidden_reason`).
use spamallam.Prelude.{
  ℕ, suc, ◌≤◌, ◌≡◌, ◌≢◌, refl, ◌⊎◌, inl, inr, Bool-cases, Bool, false, not, ◌&&◌, ◌||◌, Option,
  none, some, List, [], ◌∷◌, any, is_empty, All, Text, text_eq, text_eq_iff, arith,
}
use spamallam.Tools.Web.{
  Ip, Lookup, addresses, os_error, lookup_raised, Internet, parsed_is_unsafe, is_unsafe_address,
  looked_up, literal_or_lookup, resolves_to_unsafe_address, norm_url, host_of, site_of,
  host_related, forbidden_reason,
}

module _ (net : Internet) where
  -- The address parses, and is of none of the reserved kinds.
  abbrev pub IsOrdinary : Text → Type 0
  IsOrdinary addr =
      (ip : Ip) × (net.ip_address addr ≡ some ip)
      × (ip.is_private ≡ false)
      × (ip.is_loopback ≡ false)
      × (ip.is_link_local ≡ false)
      × (ip.is_multicast ≡ false)
      × (ip.is_reserved ≡ false)
      × (ip.is_unspecified ≡ false)

  -- The host is such an address, or the lookup gives such addresses only.
  abbrev pub IsPublicHost : ℕ → Text → Type 0
  IsPublicHost at host =
      IsOrdinary host
      ⊎ ((found : List Text) × (net.getaddrinfo at host ≡ addresses found)
          × (is_empty found ≡ false)
          × All IsOrdinary found)

  abbrev pub IsPublic : ℕ → Text → Type 0
  IsPublic at url = IsPublicHost at (host_of net url)

  -- Each URL is so by a lookup of its own, from the given one on, in the order of the URLs.
  abbrev pub AreChecked : ℕ → List Text → Type 0
  AreChecked from [] = Unit
  AreChecked from (url ∷ urls) = (at : ℕ) × (from ≤ at) × IsPublic at url × AreChecked (suc at) urls

  pub AreChecked-le :
      (from since : ℕ) (urls : List Text)
      → from ≤ since
      → AreChecked since urls
      → AreChecked from urls
  AreChecked-le from since [] l h = tt
  AreChecked-le from since (url ∷ urls) l (at, m, p, h) = (at, omega (arith, l, m), p, h)

  IsOrdinary-parsed :
      (addr : Text) (o : Option Ip)
      → net.ip_address addr ≡ o
      → parsed_is_unsafe o ≡ false
      → IsOrdinary addr
  IsOrdinary-parsed addr none p e = cc
  IsOrdinary-parsed addr (some ip) p e =
      (ip, p, ground arith, ground arith, ground arith, ground arith, ground arith, ground arith)

  All-IsOrdinary :
      (found : List Text) → any (is_unsafe_address net) found ≡ false → All IsOrdinary found
  All-IsOrdinary [] e = tt
  All-IsOrdinary (a ∷ found) e = elim (Bool-cases (is_unsafe_address net a)) [
    | inl f ↦ cc
    | inr f ↦ (IsOrdinary-parsed a (net.ip_address a) refl f, All-IsOrdinary found (simp f at e))
  ]

  IsPublicHost-looked_up :
      (at : ℕ) (host : Text) (l : Lookup)
      → net.getaddrinfo at host ≡ l
      → looked_up net l ≡ some false
      → IsPublicHost at host
  IsPublicHost-looked_up at host (addresses found) g e =
      let f : (is_empty found || any (is_unsafe_address net) found) ≡ false = cc in
      elim (Bool-cases (is_empty found)) [
        | inl n ↦ cc
        | inr n ↦ inr (found, g, n, All-IsOrdinary found (simp n at f))
      ]
  IsPublicHost-looked_up at host os_error g e = cc
  IsPublicHost-looked_up at host lookup_raised g e = cc

  IsPublicHost-literal_or_lookup :
      (at : ℕ) (host : Text) (o : Option Ip)
      → net.ip_address host ≡ o
      → literal_or_lookup net at host o ≡ some false
      → IsPublicHost at host
  IsPublicHost-literal_or_lookup at host none p e =
      IsPublicHost-looked_up at host (net.getaddrinfo at host) refl e
  IsPublicHost-literal_or_lookup at host (some ip) p e =
      inl (IsOrdinary-parsed host (net.ip_address host) refl (cc e))

  pub IsPublicHost-resolves :
      (at : ℕ) (host : Text)
      → resolves_to_unsafe_address net at host ≡ some false
      → IsPublicHost at host
  unfolding resolves_to_unsafe_address
  IsPublicHost-resolves at host e =
      IsPublicHost-literal_or_lookup at host (net.ip_address host) refl e

  -- The URL is no other spelling of the message's link, and its host is not on the link's site.
  pub record IsUnrelated (url link : Text) : Type 0 where
    pub other_url : norm_url net link ≢ norm_url net url
    pub other_host :
        is_empty (host_of net url) ≡ false
        → is_empty (host_of net link) ≡ false
        → (host_of net url ≢ host_of net link)
          × (site_of net (host_of net url) ≢ site_of net (host_of net link))

  text_neq : (a b : Text) → text_eq a b ≡ false → a ≢ b
  text_neq a b e = λ same. cc (e, (text_eq_iff a b).1 same)

  unrelated_hosts :
      (a b : Text)
      → host_related net a b ≡ false
      → is_empty a ≡ false
      → is_empty b ≡ false
      → (a ≢ b) × (site_of net a ≢ site_of net b)
  unfolding host_related
  unrelated_hosts a b e na nb =
      let f : (text_eq a b || text_eq (site_of net a) (site_of net b)) ≡ false =
        simp (na, nb) at e in
      (text_neq a b (ground arith), text_neq (site_of net a) (site_of net b) (ground arith))

  IsUnrelated-each :
      (url u : Text)
      → text_eq (norm_url net u) (norm_url net url) ≡ false
      → (not (is_empty (host_of net url)) && host_related net (host_of net url) (host_of net u))
        ≡ false
      → IsUnrelated url u
  IsUnrelated-each url u v s = record {
    other_url = text_neq (norm_url net u) (norm_url net url) v;
    other_host = λ a b. unrelated_hosts (host_of net url) (host_of net u) (simp a at s) a b;
  }

  All-IsUnrelated :
      (url : Text) (links : List Text)
      → any (λ u. text_eq (norm_url net u) (norm_url net url)) links ≡ false
      → (not (is_empty (host_of net url))
          && any (λ u. host_related net (host_of net url) (host_of net u)) links)
        ≡ false
      → All (IsUnrelated url) links
  All-IsUnrelated url [] v s = tt
  All-IsUnrelated url (u ∷ links) v s = (
    IsUnrelated-each url u (ground arith) (ground arith),
    All-IsUnrelated url links (ground arith) (ground arith),
  )

  -- A URL that may be fetched is unrelated to every link of the message.
  pub forbidden_reason_lem :
      (url : Text) (links : List Text)
      → forbidden_reason net url links ≡ none
      → All (IsUnrelated url) links
  unfolding forbidden_reason
  forbidden_reason_lem url links e =
      let v : Bool = any (λ u. text_eq (norm_url net u) (norm_url net url)) links in
      let s : Bool =
        not (is_empty (host_of net url))
        && any (λ u. host_related net (host_of net url) (host_of net u)) links in
      elim (Bool-cases v) [
        | inl f ↦ cc (simp f at e)
        | inr f ↦ elim (Bool-cases s) [
          | inl g ↦ cc (simp (f, g) at e)
          | inr g ↦ All-IsUnrelated url links f g
        ]
      ]
