-- ===== src/Tools/Blocking/Guardrails.antt =====
-- What the firewall tool may block (spamallam/app/tools/unifi.py, `unifi_block`).
use spamallam.Prelude.{
  ℕ, ◌≡◌, refl, ◌⊎◌, inl, inr, Bool-cases, true, false, Option, none, some, [], ◌∷◌, ◌++◌, ◌==◌,
  is_empty, take, Text, codes, text_eq, text_eq_iff, strip, arith,
}
use spamallam.Tools.Providers.{Hit, match_hostname}
use spamallam.Tools.Blocking.{
  Address, BlockSettings, BlockArgs, Network, Firewall, larger, rollup, pushed_as, block_net,
  unless_shared, block_target, is_special, block_address, block_prefix, unifi_block,
}

module _ (net : Network) (cfg : BlockSettings) where
  -- What a block that went out had to be.
  pub record IsAllowed (ip client_ip cidr : Text) (requested : ℕ) : Type 0 where
    pub address : Address
    pub parsed : net.parse_ip ip ≡ some address
    pub version : (address.version == 4) ≡ true
    pub not_private : address.is_private ≡ false
    pub not_loopback : address.is_loopback ≡ false
    pub not_reserved : address.is_reserved ≡ false
    pub not_multicast : address.is_multicast ≡ false
    pub is_client : ip ≡ client_ip
    pub not_shared : match_hostname (net.reverse_dns ip) ≡ none
    pub policy : text_eq cfg.policy (codes "auto") ≡ true
    pub rolled_up : net.network ip (larger requested cfg.max_prefix) ≡ some cidr

  -- Nothing went out, or one allowed block did.
  abbrev pub IsGuarded : Text → Text → Option ℕ → Firewall → Firewall → Type 0
  IsGuarded ip client_ip prefix f g =
      (g.pushed ≡ f.pushed)
      ⊎ ((cidr : Text) × (requested : ℕ) × (prefix ≡ some requested)
          × (g.pushed ≡ f.pushed ++ cidr ∷ [])
          × IsAllowed ip client_ip cidr requested)

  pushed-pushed_as :
      (ip cidr host reason : Text) (o : Option Text) (f : Firewall)
      → (pushed_as net cfg ip cidr host reason o f).1.pushed ≡ f.pushed ++ cidr ∷ []
  pushed-pushed_as ip cidr host reason none f = refl
  pushed-pushed_as ip cidr host reason (some error) f = refl

  module _ (ip client_ip : Text) (requested : ℕ) (a : Address) (reason : Text) (f : Firewall)
      (p : net.parse_ip ip ≡ some a) (v : (a.version == 4) ≡ true) (s : is_special a ≡ false) where
    IsGuarded-block_net :
        (o : Option Text)
        → ip ≡ client_ip
        → match_hostname (net.reverse_dns ip) ≡ none
        → net.network ip (larger requested cfg.max_prefix) ≡ o
        → IsGuarded ip client_ip
            (some requested)
            f
            (block_net net cfg ip (net.reverse_dns ip) reason o f).1
    IsGuarded-block_net none c m n = inl refl
    IsGuarded-block_net (some cidr) c m n = elim (Bool-cases (text_eq cfg.policy (codes "auto"))) [
      | inl e ↦ inr (
        cidr,
        requested,
        refl,
        simp e (pushed-pushed_as ip cidr (net.reverse_dns ip) reason (net.push cidr) f),
        record {
          address = a;
          parsed = p;
          version = v;
          not_private = ground arith;
          not_loopback = ground arith;
          not_reserved = ground arith;
          not_multicast = ground arith;
          is_client = c;
          not_shared = m;
          policy = e;
          rolled_up = n;
        },
      )
      | inr e ↦ inl (simp e)
    ]

    IsGuarded-unless_shared :
        (o : Option Hit)
        → ip ≡ client_ip
        → match_hostname (net.reverse_dns ip) ≡ o
        → IsGuarded ip client_ip
            (some requested)
            f
            (unless_shared net cfg ip requested (net.reverse_dns ip) reason o f).1
    unfolding rollup
    IsGuarded-unless_shared (some hit) c m = inl refl
    IsGuarded-unless_shared none c m =
        IsGuarded-block_net (net.network ip (larger requested cfg.max_prefix)) c m refl

    IsGuarded-block_target :
        IsGuarded ip client_ip
          (some requested)
          f
          (block_target net cfg ip requested reason client_ip f).1
    unfolding block_target
    IsGuarded-block_target = elim (Bool-cases (is_empty client_ip)) [
      | inl e ↦ inl (simp e)
      | inr e ↦ elim (Bool-cases (text_eq ip client_ip)) [
        | inr g ↦ inl (simp (e, g))
        | inl g ↦
            simp (e, g)
              (IsGuarded-unless_shared (match_hostname (net.reverse_dns ip))
                ((text_eq_iff ip client_ip).0 g) refl)
      ]
    ]

  IsGuarded-block_address :
      (ip client_ip : Text) (requested : ℕ) (reason : Text) (o : Option Address) (f : Firewall)
      → net.parse_ip ip ≡ o
      → IsGuarded ip client_ip
          (some requested)
          f
          (block_address net cfg ip requested reason client_ip o f).1
  IsGuarded-block_address ip client_ip requested reason none f p = inl refl
  IsGuarded-block_address ip client_ip requested reason (some a) f p =
      elim (Bool-cases (a.version == 4)) [
        | inr v ↦ inl (simp v)
        | inl v ↦ elim (Bool-cases (is_special a)) [
          | inl s ↦ inl (simp (v, s))
          | inr s ↦ simp (v, s) (IsGuarded-block_target ip client_ip requested a reason f p v s)
        ]
      ]

  IsGuarded-block_prefix :
      (ip client_ip reason : Text) (prefix : Option ℕ) (f : Firewall)
      → IsGuarded ip client_ip prefix f (block_prefix net cfg ip prefix reason client_ip f).1
  IsGuarded-block_prefix ip client_ip reason none f = inl refl
  IsGuarded-block_prefix ip client_ip reason (some requested) f =
      IsGuarded-block_address ip client_ip requested reason (net.parse_ip ip) f refl

  -- Whatever the model asks for, at most one block goes to the controller, and only if the policy is
  -- `auto`, the target is an IPv4 address that is not private,
  -- loopback, reserved or multicast, it is the client that delivered the message, and
  -- its host is no shared provider's; the network is no larger than the admin's limit.
  pub unifi_block-IsGuarded :
      (args : BlockArgs) (client_ip : Text) (f : Firewall)
      → IsGuarded
          (strip args.ip)
          (strip client_ip)
          args.prefix
          f
          (unifi_block net cfg args client_ip f).1
  unfolding unifi_block
  unifi_block-IsGuarded args client_ip f =
      IsGuarded-block_prefix (strip args.ip) (strip client_ip) (take 300 (strip args.reason))
        args.prefix f
