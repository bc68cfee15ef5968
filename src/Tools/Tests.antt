-- ===== src/Tools/Tests.antt =====
-- Runs of the tools (spamallam/app/tools).
use spamallam.Prelude.{
  ◌≡◌, refl, ◌↔◌, All, strip_right, lower, false, none, some, [], codes, strip, text_eq,
}
use spamallam.Tools.Providers.{
  SharedProvider, shared_providers, is_dot, match_hostname, match_rdns, match_suffix, match_domain,
  match_domains, match_candidate,
}
use spamallam.Tools.Providers.Covering.{IsOutside, match_hostname_iff}
use spamallam.Tools.Blocking.{
  BlockSettings, BlockArgs, Network, Firewall, not_the_client, block_done, rollup, block_target,
  unifi_block,
}
use spamallam.Tools.Blocking.Guardrails.{IsGuarded, unifi_block-IsGuarded}

tools : Unit {0}
unfolding match_hostname match_rdns match_suffix match_domain match_domains match_candidate rollup
    block_target unifi_block text_eq
tools = tt

hostname_test :
    (match_hostname (codes "O1.sendgrid.NET.")
      ≡ some (record {
        provider = codes "sendgrid";
        name = codes "Twilio SendGrid";
        matched = codes ".sendgrid.net";
      }))
    × (match_hostname (codes "notsendgrid.net") ≡ none)
    × (match_domain (codes ".x.gmail.com")
        ≡ some (record {
          provider = codes "google";
          name = codes "Google Workspace / Gmail";
          matched = codes "gmail.com";
        }))
unfolding tools
hostname_test = (refl, refl, refl)

abbrev net : Network
net = record {
  parse_ip = λ ip. some (record {
    version = 4;
    is_private = false;
    is_loopback = false;
    is_reserved = false;
    is_multicast = false;
  });
  network = λ ip prefix. some ip;
  reverse_dns = λ ip. codes "mx.example.org";
  push = λ cidr. none;
}

abbrev auto : BlockSettings
auto = record { policy = codes "auto"; max_prefix = 24 }

abbrev idle : Firewall
idle = record { pushed = []; suggestions = []; audits = [] }

abbrev args : BlockArgs
args = record { ip = codes " 8.8.8.8"; reason = []; prefix = some 8 }

block_tests :
    ((unifi_block net auto args (codes "8.8.8.8") idle).0 ≡ block_done (codes "8.8.8.8"))
    × ((unifi_block net auto args (codes "9.9.9.9") idle).0 ≡ not_the_client)
unfolding tools
block_tests = (refl, refl)

unifi_block-IsGuarded_example :
    IsGuarded net auto
      (strip (codes " 8.8.8.8"))
      (strip (codes "8.8.8.8"))
      (some 8)
      idle
      (unifi_block net auto args (codes "8.8.8.8") idle).1
unifi_block-IsGuarded_example = unifi_block-IsGuarded net auto args (codes "8.8.8.8") idle

match_hostname_iff_example :
    (match_hostname (codes "O1.sendgrid.NET.") ≡ none)
    ↔ All
        (λ (p : SharedProvider).
          IsOutside (strip_right is_dot (lower (codes "O1.sendgrid.NET."))) p.rdns)
        shared_providers
match_hostname_iff_example = match_hostname_iff (codes "O1.sendgrid.NET.") refl
