-- ===== src/Pipeline/Failure.antt =====
-- What happens when a security control could not run (spamallam/app/pipeline/failure.py).
pub mod Strictness
use spamallam.Prelude.{
  ℕ, Bool, true, false, Option, none, some, List, [], ◌∷◌, ltb, if◌then◌else◌, text_eq, Text, codes,
}

-- The three values of `VALID`.
pub data Policy : Type 0 where
  deliver_tagged quarantine defer : Policy

-- The controls, and the key `all_down` of the same table.
pub data Control : Type 0 where
  ai rspamd antivirus all_down : Control

-- `value in VALID`; `none` also stands for a missing value.
abbrev pub policy_of : Option Text → Option Policy
policy_of none = none
policy_of (some value) =
    if text_eq value (codes "deliver_tagged")
    then some deliver_tagged
    else if text_eq value (codes "defer")
    then some defer
    else if text_eq value (codes "quarantine")
    then some quarantine
    else none

pub record FailureConfig : Type 0 where
  pub policy : Control → Option Text
  -- The older setting ai.failure_mode.
  pub failure_mode : Option Text

abbrev pub legacy : Option Text → Policy
legacy none = deliver_tagged
legacy (some mode) = if text_eq mode (codes "tempfail") then defer else deliver_tagged

abbrev pub fallback : FailureConfig → Control → Policy
fallback cfg ai = legacy cfg.failure_mode
fallback cfg _ = deliver_tagged

abbrev pub or_fallback : FailureConfig → Control → Option Policy → Policy
or_fallback cfg control none = fallback cfg control
or_fallback cfg control (some p) = p

-- resolve(cfg, control)
unfoldable pub resolve : FailureConfig → Control → Policy
resolve cfg control = or_fallback cfg control (policy_of (cfg.policy control))

abbrev pub severity : Policy → ℕ
severity deliver_tagged = 0
severity quarantine = 1
severity defer = 2

-- `max` keeps the first of two equals.
abbrev pub stricter : Policy → Policy → Policy
stricter p q = if ltb (severity p) (severity q) then q else p

unfoldable pub strictest_from : Policy → List Policy → Policy
strictest_from p [] = p
strictest_from p (q ∷ qs) = strictest_from (stricter p q) qs

-- strictest(policies)
unfoldable pub strictest : List Policy → Policy
unfolding strictest_from
strictest [] = deliver_tagged
strictest (p ∷ ps) = strictest_from p ps
