-- ===== src/Tools/Providers.antt =====
-- The shared mail providers (spamallam/app/tools/providers_db.py).
pub mod Covering
use spamallam.Prelude.{
  ℕ, Bool, ◌||◌, Option, none, some, List, [], ◌∷◌, ◌++◌, ◌==◌, if◌then◌else◌, is_empty, ends_with,
  Text, codes, text_eq, lower, strip_left, strip_right,
}
use spamallam.Pipeline.Headers.Message.{contains}

pub record SharedProvider : Type 0 where
  pub key : Text
  pub name : Text
  pub rdns : List Text
  pub domains : List Text

-- SHARED_PROVIDERS
abbrev pub shared_providers : List SharedProvider
shared_providers =
    (record {
      key = codes "sendgrid";
      name = codes "Twilio SendGrid";
      rdns = codes ".sendgrid.net" ∷ codes ".sendgrid.com" ∷ [];
      domains = codes "sendgrid.net" ∷ codes "sendgrid.com" ∷ [];
    })
    ∷ (record {
      key = codes "amazon_ses";
      name = codes "Amazon SES";
      rdns =
          codes ".amazonses.com"
          ∷ codes ".smtp-out.amazonses.com"
          ∷ codes ".ses.amazonaws.com"
          ∷ [];
      domains = codes "amazonses.com" ∷ [];
    })
    ∷ (record {
      key = codes "mailchimp";
      name = codes "Mailchimp / Mandrill";
      rdns =
          codes ".mcsv.net"
          ∷ codes ".mcdlv.net"
          ∷ codes ".rsgsv.net"
          ∷ codes ".mandrillapp.com"
          ∷ [];
      domains =
          codes "mcsv.net"
          ∷ codes "mcdlv.net"
          ∷ codes "rsgsv.net"
          ∷ codes "mandrillapp.com"
          ∷ codes "mailchimp.com"
          ∷ [];
    })
    ∷ (record {
      key = codes "acs";
      name = codes "Azure Communication Services";
      rdns = codes ".azurecomm.net" ∷ codes ".acssend.net" ∷ [];
      domains = codes "azurecomm.net" ∷ codes "acssend.net" ∷ [];
    })
    ∷ (record {
      key = codes "microsoft";
      name = codes "Microsoft 365 / Outlook";
      rdns = codes ".outbound.protection.outlook.com" ∷ codes ".outlook.com" ∷ [];
      domains = codes "protection.outlook.com" ∷ codes "outlook.com" ∷ [];
    })
    ∷ (record {
      key = codes "google";
      name = codes "Google Workspace / Gmail";
      rdns = codes ".google.com" ∷ codes ".googlemail.com" ∷ codes ".smtp-out.gmail.com" ∷ [];
      domains = codes "google.com" ∷ codes "googlemail.com" ∷ codes "gmail.com" ∷ [];
    })
    ∷ (record {
      key = codes "mailgun";
      name = codes "Mailgun";
      rdns = codes ".mailgun.net" ∷ codes ".mailgun.org" ∷ codes ".mailgun.info" ∷ [];
      domains = codes "mailgun.org" ∷ codes "mailgun.net" ∷ codes "mailgun.info" ∷ [];
    })
    ∷ (record {
      key = codes "postmark";
      name = codes "Postmark";
      rdns = codes ".mtasv.net" ∷ [];
      domains = codes "mtasv.net" ∷ codes "postmarkapp.com" ∷ [];
    })
    ∷ (record {
      key = codes "sparkpost";
      name = codes "SparkPost";
      rdns = codes ".sparkpostmail.com" ∷ codes ".spmta.com" ∷ [];
      domains = codes "sparkpostmail.com" ∷ codes "spmta.com" ∷ [];
    })
    ∷ (record {
      key = codes "brevo";
      name = codes "Brevo (Sendinblue)";
      rdns = codes ".sendinblue.com" ∷ codes ".brevosend.com" ∷ [];
      domains = codes "sendinblue.com" ∷ codes "brevosend.com" ∷ [];
    })
    ∷ (record {
      key = codes "zoho";
      name = codes "Zoho Mail";
      rdns = codes ".zoho.com" ∷ codes ".zohomail.com" ∷ [];
      domains = codes "zoho.com" ∷ codes "zohomail.com" ∷ [];
    })
    ∷ (record {
      key = codes "proton";
      name = codes "Proton Mail";
      rdns = codes ".protonmail.ch" ∷ [];
      domains = codes "protonmail.ch" ∷ codes "proton.me" ∷ [];
    })
    ∷ []

-- A match: the provider's key and name, and what matched.
pub record Hit : Type 0 where
  pub provider : Text
  pub name : Text
  pub matched : Text

abbrev pub hit_of : SharedProvider → Option Text → Option Hit → Option Hit
hit_of p none rest = rest
hit_of p (some matched) rest = some (record { provider = p.key; name = p.name; matched = matched })

abbrev pub is_dot : ℕ → Bool
is_dot c = c == 46

abbrev pub suffix_hit : Text → Text → Bool
suffix_hit host suffix = ends_with suffix host || text_eq host (strip_left is_dot suffix)

unfoldable pub match_suffix : Text → List Text → Option Text
match_suffix host [] = none
match_suffix host (suffix ∷ more) =
    let rest = match_suffix host more in if suffix_hit host suffix then some suffix else rest

unfoldable pub match_rdns : Text → List SharedProvider → Option Hit
unfolding match_suffix
match_rdns host [] = none
match_rdns host (p ∷ more) = hit_of p (match_suffix host p.rdns) (match_rdns host more)

abbrev pub host_name : Text → Text
host_name hostname = strip_right is_dot (lower hostname)

-- match_hostname(hostname)
unfoldable pub match_hostname : Text → Option Hit
unfolding match_rdns
match_hostname hostname =
    if is_empty (host_name hostname) then none else match_rdns (host_name hostname) shared_providers

abbrev pub candidate_hit : Text → Text → Bool
candidate_hit dom candidate = text_eq dom candidate || ends_with (46 ∷ candidate) dom

unfoldable pub match_candidate : Text → List Text → Option Text
match_candidate dom [] = none
match_candidate dom (candidate ∷ more) =
    let rest = match_candidate dom more in
    if candidate_hit dom candidate then some candidate else rest

unfoldable pub match_domains : Text → List SharedProvider → Option Hit
unfolding match_candidate
match_domains dom [] = none
match_domains dom (p ∷ more) = hit_of p (match_candidate dom p.domains) (match_domains dom more)

-- match_domain(domain)
unfoldable pub match_domain : Text → Option Hit
unfolding match_domains
match_domain domain =
    let dom = strip_right is_dot (strip_left is_dot (lower domain)) in
    if is_empty dom then none else match_domains dom shared_providers

unfoldable pub first_contained : Text → List Text → Option Text
first_contained low [] = none
first_contained low (candidate ∷ more) =
    let rest = first_contained low more in if contains candidate low then some candidate else rest

abbrev pub add_hit : SharedProvider → Option Text → List Hit → List Hit
add_hit p none hits = hits
add_hit p (some matched) hits = record { provider = p.key; name = p.name; matched = matched } ∷ hits

unfoldable pub hits_in : Text → List SharedProvider → List Hit
unfolding first_contained
hits_in low [] = []
hits_in low (p ∷ more) = add_hit p (first_contained low p.domains) (hits_in low more)

-- match_text(text)
unfoldable pub match_text : Text → List Hit
unfolding hits_in
match_text text = hits_in (lower text) shared_providers
