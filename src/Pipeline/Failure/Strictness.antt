-- ===== src/Pipeline/Failure/Strictness.antt =====
-- `strictest` is the least upper bound of the policies, in any order.
use spamallam.Prelude.{ℕ, ◌≤◌, ◌≡◌, List, [], ◌∷◌, arith, All}
use spamallam.Pipeline.Failure.{Policy, severity, stricter, strictest_from, strictest}

severity-injective : (p q : Policy) → severity p ≡ severity q → p ≡ q
severity-injective p q h = ground arith

-- A list of policies seen as the bound that it imposes.
abbrev pub Bounded : ℕ → List Policy → Type 0
Bounded n = All (λ p. severity p ≤ n)

strictest_from-bound :
    (p : Policy) (ps : List Policy)
    → (severity p ≤ severity (strictest_from p ps)) × Bounded (severity (strictest_from p ps)) ps
unfolding strictest_from
strictest_from-bound p [] = (omega arith, tt)
strictest_from-bound p (q ∷ qs) =
    let (h, k) = strictest_from-bound (stricter p q) qs in
    (ground (arith, h), (ground (arith, h), k))

strictest_from-least :
    (n : ℕ) (p : Policy) (ps : List Policy)
    → severity p ≤ n
    → Bounded n ps
    → severity (strictest_from p ps) ≤ n
unfolding strictest_from
strictest_from-least n p [] h k = h
strictest_from-least n p (q ∷ qs) h (g, k) =
    strictest_from-least n (stricter p q) qs (ground arith) k

-- No policy of the list is stricter than the result, and the result is no stricter than any bound.
pub strictest-least_bound :
    (ps : List Policy)
    → Bounded (severity (strictest ps)) ps × ((n : ℕ) → Bounded n ps → severity (strictest ps) ≤ n)
unfolding strictest
strictest-least_bound [] = (tt, λ n h. omega arith)
strictest-least_bound (p ∷ ps) =
    (strictest_from-bound p ps, λ n (h, k). strictest_from-least n p ps h k)

-- Adding a policy never weakens the result: the all_down policy can only make it stricter.
pub strictest_mono : (p q : Policy) → severity p ≤ severity (strictest (p ∷ q ∷ []))
unfolding strictest strictest_from
strictest_mono p q = ground arith
