-- ===== src/Tools/Blocking.antt =====
-- The firewall tool (spamallam/app/tools/unifi.py). The controller, reverse DNS and the standard
-- library's ipaddress are arguments.
pub mod Guardrails
use spamallam.Prelude.{
  ℕ, ◌≤◌, Bool, true, false, not, ◌&&◌, ◌||◌, Option, none, some, List, [], ◌∷◌, ◌++◌, leb, ◌==◌,
  if◌then◌else◌, is_empty, take, Text, codes, text_eq, strip,
}
use spamallam.Tools.Providers.{Hit, match_hostname}

-- ipaddress.ip_address(ip)
pub record Address : Type 0 where
  pub version : ℕ
  pub is_private : Bool
  pub is_loopback : Bool
  pub is_reserved : Bool
  pub is_multicast : Bool

-- cfg["tools"]["unifi_block"]
pub record BlockSettings : Type 0 where
  pub policy : Text
  pub max_prefix : ℕ

-- The arguments of a call; `int(prefix)` may raise, and a negative prefix counts as 0.
pub record BlockArgs : Type 0 where
  pub ip : Text
  pub reason : Text
  pub prefix : Option ℕ

pub record Network : Type 0 where
  pub parse_ip : Text → Option Address
  -- ip_network(f"{ip}/{prefix}", strict=False); `none` where it raises.
  pub network : Text → ℕ → Option Text
  pub reverse_dns : Text → Text
  -- push_block; an exception's text, or none.
  pub push : Text → Option Text

pub data EntryStatus : Type 0 where
  suggested blocked failed : EntryStatus

pub record Suggestion : Type 0 where
  pub ip : Text
  pub cidr : Text
  pub host : Text
  pub reason : Text
  pub status : EntryStatus

pub data Audit : Type 0 where
  refused_target : Text → Text → Audit
  refused_shared : Text → Hit → Audit
  noted : Suggestion → Audit

-- What a call changes: the blocks sent to the controller, the suggestions, the audit log.
pub record Firewall : Type 0 where
  pub pushed : List Text
  pub suggestions : List Suggestion
  pub audits : List Audit

pub data BlockResult : Type 0 where
  invalid_ip ipv6 reserved_space no_client not_the_client : BlockResult
  shared : Hit → BlockResult
  block_suggested block_failed block_done : Text → BlockResult
  -- An exception leaves the tool.
  block_raised : BlockResult

abbrev pub larger : ℕ → ℕ → ℕ
larger a b = if leb a b then b else a

-- rollup(ip, prefix, max_prefix)
unfoldable pub rollup : Network → Text → ℕ → ℕ → Option Text
rollup net ip prefix max_prefix = net.network ip (larger prefix max_prefix)

abbrev pub entry_of : Text → Text → Text → Text → EntryStatus → Suggestion
entry_of ip cidr host reason status = record {
  ip = ip;
  cidr = cidr;
  host = host;
  reason = reason;
  status = status;
}

-- The entry goes into the suggestions and the audit log.
abbrev pub note : Suggestion → Firewall → Firewall
note e f = record f { suggestions = f.suggestions ++ e ∷ []; audits = f.audits ++ noted e ∷ [] }

abbrev pub audit : Audit → Firewall → Firewall
audit a f = record f { audits = f.audits ++ a ∷ [] }

abbrev pub send : Text → Firewall → Firewall
send cidr f = record f { pushed = f.pushed ++ cidr ∷ [] }

abbrev pub is_special : Address → Bool
is_special a = a.is_private || a.is_loopback || a.is_reserved || a.is_multicast

module _ (net : Network) (cfg : BlockSettings) where
  abbrev pub pushed_as : Text → Text → Text → Text → Option Text → Firewall → BlockResult × Firewall
  pushed_as ip cidr host reason none f =
      (block_done cidr, note (entry_of ip cidr host reason blocked) (send cidr f))
  pushed_as ip cidr host reason (some error) f =
      (block_failed cidr, note (entry_of ip cidr host reason failed) (send cidr f))

  abbrev pub block_net : Text → Text → Text → Option Text → Firewall → BlockResult × Firewall
  block_net ip host reason none f = (block_raised, f)
  block_net ip host reason (some cidr) f =
      if text_eq cfg.policy (codes "auto")
      then pushed_as ip cidr host reason (net.push cidr) f
      else (block_suggested cidr, note (entry_of ip cidr host reason suggested) f)

  abbrev pub unless_shared : Text → ℕ → Text → Text → Option Hit → Firewall → BlockResult × Firewall
  unless_shared ip prefix host reason (some hit) f = (shared hit, audit (refused_shared ip hit) f)
  unless_shared ip prefix host reason none f =
      block_net ip host reason (rollup net ip prefix cfg.max_prefix) f

  -- The target has to be the client that delivered the message.
  unfoldable pub block_target : Text → ℕ → Text → Text → Firewall → BlockResult × Firewall
  block_target ip prefix reason client_ip f =
      let host = net.reverse_dns ip in
      if is_empty client_ip
      then (no_client, f)
      else if not (text_eq ip client_ip)
      then (not_the_client, audit (refused_target ip client_ip) f)
      else unless_shared ip prefix host reason (match_hostname host) f

  abbrev pub block_address :
      Text → ℕ → Text → Text → Option Address → Firewall → BlockResult × Firewall
  block_address ip prefix reason client_ip none f = (invalid_ip, f)
  block_address ip prefix reason client_ip (some a) f =
      if not (a.version == 4)
      then (ipv6, f)
      else if is_special a
      then (reserved_space, f)
      else block_target ip prefix reason client_ip f

  abbrev pub block_prefix : Text → Option ℕ → Text → Text → Firewall → BlockResult × Firewall
  block_prefix ip none reason client_ip f = (block_raised, f)
  block_prefix ip (some prefix) reason client_ip f =
      block_address ip prefix reason client_ip (net.parse_ip ip) f

  -- unifi_block(args, cfg, box, summary), with the client's address of the summary.
  unfoldable pub unifi_block : BlockArgs → Text → Firewall → BlockResult × Firewall
  unfolding block_target
  unifi_block args client_ip f =
      block_prefix (strip args.ip) args.prefix (take 300 (strip args.reason)) (strip client_ip) f
