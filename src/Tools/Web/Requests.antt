-- ===== src/Tools/Web/Requests.antt =====
-- What `web_fetch` contacts (spamallam/app/tools/webtools.py).
use spamallam.Prelude.{
  ℕ, zero, suc, ◌+◌, ◌<◌, ◌≡◌, refl, sym, subst, ◌∙◌, ◌⊎◌, inl, inr, Bool-cases, Bool, true, false,
  ◌||◌, Option, none, some, List, [], ◌∷◌, ◌++◌, append_assoc, is_empty, length, length-append, All,
  Text, codes, text_eq, strip, lower, arith,
}
use spamallam.Tools.Web.{
  Internet, Response, redirect, bad_status, unreachable, streamed, Reason, host_of,
  resolves_to_unsafe_address, is_http, forbidden_reason,
}
use spamallam.Tools.Web.Fetch.{
  Fetched, markup, fetch_error, FetchSettings, may_contact, follow, answered, fetch_from,
  fetch_http, continues, guard_request, guard_requests, fetch_browser, finish_fetch, fetch_by,
  fetch_checked, fetch_unless, web_fetch, max_redirects, or_curl,
}
use spamallam.Tools.Web.Guard.{
  IsPublic, AreChecked, AreChecked-le, IsPublicHost-resolves, IsUnrelated, forbidden_reason_lem,
}

module _ (net : Internet) where
  abbrev pub IsTarget : Text → Type 0
  IsTarget url = (is_http url ≡ true) × (is_empty (host_of net url) ≡ false)

  -- At most `n` more URLs were contacted, the given one first; all of them are targets, and each was
  -- checked by a lookup of its own, after those of the URLs before.
  abbrev pub IsWalk : ℕ → List Text → Text → List Text → Type 0
  IsWalk n before current after =
      (after ≡ before)
      ⊎ ((more : List Text) × (after ≡ before ++ current ∷ more)
          × (length more < n)
          × All IsTarget (current ∷ more)
          × AreChecked net (suc (length before)) (current ∷ more))

  may_contact-IsPublic :
      (at : ℕ) (url : Text) (unsafe : Option Bool)
      → resolves_to_unsafe_address net at (host_of net url) ≡ unsafe
      → may_contact net (host_of net url) unsafe ≡ true
      → (is_empty (host_of net url) ≡ false) × IsPublic net at url
  may_contact-IsPublic at url none r e = cc
  may_contact-IsPublic at url (some true) r e = elim (Bool-cases (is_empty (host_of net url))) [
    | inl h ↦ cc (simp h at e)
    | inr h ↦ cc (simp h at e)
  ]
  may_contact-IsPublic at url (some false) r e =
      (ground arith, IsPublicHost-resolves net at (host_of net url) r)

  -- The URL is a target, and its own lookup was good.
  abbrev IsAllowed : List Text → Text → Type 0
  IsAllowed before url = IsTarget url × IsPublic net (suc (length before)) url

  -- A walk that goes on from the next URL.
  IsWalk-next :
      (n : ℕ) (before : List Text) (current next : Text) (after : List Text)
      → IsAllowed before current
      → IsWalk n (before ++ current ∷ []) next after
      → IsWalk (suc n) before current after
  IsWalk-next n before current next after (t, p) (inl e) =
      inr ([], e, omega arith, (t, tt), (suc (length before), omega arith, p, tt))
  IsWalk-next n before current next after (t, p) (inr (more, e, l, h, c)) = inr (
    next ∷ more,
    e ∙ append_assoc before (current ∷ []) (next ∷ more),
    omega (arith, l),
    (t, h),
    (
      suc (length before),
      omega arith,
      p,
      AreChecked-le net (suc (suc (length before))) (suc (length (before ++ current ∷ [])))
          (next ∷ more) (omega (arith, length-append before (current ∷ []))) c,
    ),
  )

  IsWalk-stop :
      (n : ℕ) (before : List Text) (current : Text)
      → IsAllowed before current
      → IsWalk (suc n) before current (before ++ current ∷ [])
  IsWalk-stop n before current (t, p) =
      inr ([], refl, omega arith, (t, tt), (suc (length before), omega arith, p, tt))

  module _ (n : ℕ) (before : List Text) (current : Text) (a : IsAllowed before current)
      (again : Text → Fetched × List Text)
      (walks : (next : Text)
        → is_http next ≡ true
        → IsWalk n (before ++ current ∷ []) next (again next).1) where
    IsWalk-follow :
        (o : Option Text)
        → IsWalk (suc n) before current (follow net again (before ++ current ∷ []) o).1
    IsWalk-follow none = IsWalk-stop n before current a
    IsWalk-follow (some next) = elim (Bool-cases (is_http next)) [
      | inl e ↦ simp e (IsWalk-next n before current next (again next).1 a (walks next e))
      | inr e ↦ simp e (IsWalk-stop n before current a)
    ]

    IsWalk-answered :
        (r : Response)
        → IsWalk (suc n) before current (answered net again (before ++ current ∷ []) current r).1
    IsWalk-answered (redirect location) = elim (Bool-cases (is_empty location)) [
      | inl e ↦ simp e (IsWalk-stop n before current a)
      | inr e ↦ simp e (IsWalk-follow (net.url_join current location))
    ]
    IsWalk-answered bad_status = IsWalk-stop n before current a
    IsWalk-answered unreachable = IsWalk-stop n before current a
    IsWalk-answered (streamed chunks) = IsWalk-stop n before current a

  IsWalk-fetch_from :
      (n : ℕ) (before : List Text) (current : Text)
      → is_http current ≡ true
      → IsWalk n before current (fetch_from net n before current).1
  unfolding fetch_from
  IsWalk-fetch_from zero before current h = inl refl
  IsWalk-fetch_from (suc n) before current h =
      let host = host_of net current in
      let at = suc (length before) in
      let unsafe = resolves_to_unsafe_address net at host in
      elim (Bool-cases (may_contact net host unsafe)) [
        | inr e ↦ inl (simp e)
        | inl e ↦
            let after = before ++ current ∷ [] in
            let c = may_contact-IsPublic at current unsafe refl e in
            simp e (
              IsWalk-answered n before current ((h, c.0), c.1) (fetch_from net n after)
                (IsWalk-fetch_from n after) (net.answer before current))
      ]

  -- The in-process fetch contacts at most four URLs, the given one first; each is http or https, also
  -- after redirects, and a lookup of its own, before its contact, gave none but addresses that are not
  -- private, loopback, link-local, multicast, reserved or unspecified. The connection looks the host
  -- up again, which this does not cover.
  pub fetch_http-IsWalk :
      (url : Text) → is_http url ≡ true → IsWalk (max_redirects + 1) [] url (fetch_http net url).1
  unfolding fetch_http
  fetch_http-IsWalk url h = IsWalk-fetch_from (max_redirects + 1) [] url h

  -- Nothing was contacted, or the URL was, first; it is http or https and unrelated to the links of
  -- the message, and each URL contacted was checked by a lookup of its own, after the tool's first.
  abbrev pub IsCareful : Text → List Text → List Text → Type 0
  IsCareful url links contacted =
      (contacted ≡ [])
      ⊎ ((more : List Text) × (contacted ≡ url ∷ more)
          × (is_http url ≡ true)
          × All (IsUnrelated net url) links
          × AreChecked net 1 contacted)

  continues-IsPublic :
      (at : ℕ) (url : Text) (o : Option Bool)
      → resolves_to_unsafe_address net at (host_of net url) ≡ o
      → continues net o ≡ true
      → IsPublic net at url
  continues-IsPublic at url none r e = cc
  continues-IsPublic at url (some true) r e = cc
  continues-IsPublic at url (some false) r e = IsPublicHost-resolves net at (host_of net url) r

  guard_requests-AreChecked :
      (at : ℕ) (urls : List Text) → AreChecked net at (guard_requests net at urls)
  unfolding guard_requests
  guard_requests-AreChecked at [] = tt
  guard_requests-AreChecked at (url ∷ urls) =
      let rest = guard_requests-AreChecked (suc at) urls in
      elim (Bool-cases (guard_request net at url)) [
        | inl e ↦ simp e (
          at,
          omega arith,
          continues-IsPublic at url (resolves_to_unsafe_address net at (host_of net url)) refl e,
          rest,
        )
        | inr e ↦
            simp e
              (AreChecked-le net at (suc at) (guard_requests net (suc at) urls) (omega arith) rest)
      ]

  module _ (url : Text) (links : List Text) (http : is_http url ≡ true)
      (unrelated : All (IsUnrelated net url) links) where
    contacted-finish_fetch :
        (backend : Text) (r : Fetched × List Text) → (finish_fetch net url backend r).1 ≡ r.1
    contacted-finish_fetch backend (markup m, contacted) = refl
    contacted-finish_fetch backend (fetch_error e, contacted) = refl

    IsCareful-walk :
        (after : List Text) → IsWalk (max_redirects + 1) [] url after → IsCareful url links after
    IsCareful-walk after (inl e) = inl e
    IsCareful-walk after (inr (more, e, l, h, c)) =
        inr (more, e, http, unrelated, subst (AreChecked net 1) (sym e) c)

    IsCareful-http : IsCareful url links (fetch_http net url).1
    unfolding fetch_http
    IsCareful-http = IsCareful-walk (fetch_http net url).1 (fetch_http-IsWalk url http)

    IsCareful-browser :
        (backend endpoint : Text) → IsCareful url links (fetch_browser net url backend endpoint).1
    unfolding fetch_browser
    IsCareful-browser backend endpoint =
        let requests = (net.browse backend endpoint url).requests in
        elim (Bool-cases (guard_request net 1 url)) [
          | inl pass ↦ simp pass (
              inr (
                guard_requests net 2 requests,
                refl,
                http,
                unrelated,
                (
                  1,
                  omega arith,
                  continues-IsPublic 1 url (resolves_to_unsafe_address net 1 (host_of net url)) refl
                      pass,
                  guard_requests-AreChecked 2 requests,
                ),
              ))
          | inr stop ↦ inl (simp stop)
        ]

    IsCareful-fetch_by :
        (backend endpoint : Text) → IsCareful url links (fetch_by net url backend endpoint).1
    IsCareful-fetch_by backend endpoint =
        let in_process = text_eq backend (codes "curl") || text_eq backend (codes "http") in
        let by_browser =
          text_eq backend (codes "playwright") || text_eq backend (codes "lightpanda") in
        elim (Bool-cases in_process) [
          | inl e ↦ simp e (
              subst (IsCareful url links)
                (sym (contacted-finish_fetch backend (fetch_http net url))) IsCareful-http)
          | inr e ↦ elim (Bool-cases by_browser) [
            | inl f ↦
                simp (e, f)
                  (subst (IsCareful url links)
                    (sym (
                      contacted-finish_fetch backend
                        (fetch_browser net url backend (strip endpoint))))
                    (IsCareful-browser backend (strip endpoint)))
            | inr f ↦ simp (e, f) (inl refl)
          ]
        ]

  IsCareful-fetch_checked :
      (cfg : FetchSettings) (url : Text) (links : List Text) (no_host : Bool) (unsafe : Option Bool)
      → is_http url ≡ true
      → All (IsUnrelated net url) links
      → IsCareful url links (fetch_checked net cfg url no_host unsafe).1
  IsCareful-fetch_checked cfg url links true unsafe h u = inl refl
  IsCareful-fetch_checked cfg url links false none h u = inl refl
  IsCareful-fetch_checked cfg url links false (some true) h u = inl refl
  IsCareful-fetch_checked cfg url links false (some false) h u =
      IsCareful-fetch_by url links h u (lower (or_curl cfg.backend)) cfg.endpoint

  IsCareful-fetch_unless :
      (cfg : FetchSettings) (url : Text) (links : List Text) (reason : Option Reason)
      → is_http url ≡ true
      → forbidden_reason net url links ≡ reason
      → IsCareful url links (fetch_unless net cfg url reason).1
  IsCareful-fetch_unless cfg url links (some reason) h r = inl refl
  IsCareful-fetch_unless cfg url links none h r =
      IsCareful-fetch_checked cfg url links (is_empty (host_of net url))
        (resolves_to_unsafe_address net 0 (host_of net url)) h
        (forbidden_reason_lem net url links r)

  -- Whatever URL the model asks for, `web_fetch` contacts nothing, or that URL first; then the URL is
  -- http or https, is no spelling of a link of the message and lies on the site of none, and for each
  -- URL of the fetch's own connections or of the requests that a browser hands to the guard, a lookup
  -- of its own gave none but addresses that are not private, loopback, link-local, multicast,
  -- reserved or unspecified. The lookup of the connection, the hops of a browser's redirects and its
  -- web sockets are not covered.
  pub web_fetch-IsCareful :
      (cfg : FetchSettings) (arg : Text) (links : List Text)
      → IsCareful (strip arg) links (web_fetch net cfg arg links).1
  unfolding web_fetch
  web_fetch-IsCareful cfg arg links =
      let url = strip arg in
      elim (Bool-cases (is_http url)) [
        | inr e ↦ inl (simp e)
        | inl e ↦
            let reason = forbidden_reason net url links in
            let same : (fetch_unless net cfg url reason).1 ≡ (web_fetch net cfg arg links).1 =
              simp e in
            subst (IsCareful url links) same (IsCareful-fetch_unless cfg url links reason e refl)
      ]
