-- ===== src/Fulfillment/Approval/Resolve/Choice.antt =====
-- Which rule of the matrix of src/oneops/use_cases/uc08_fulfillment/approval.py decides.
use one_ops_next_gen.Prelude.{
  String, true, false, List, [], ◌∷◌, ◌++◌, none, some, Dict, any, Bool-cases, ◌≡◌, ◌⊎◌, inl, inr,
  refl, ap,
}
use one_ops_next_gen.Fulfillment.Approval.Resolve.{Policy, matches, match_policy}

-- A policy is the first of the matrix that matches.
unfoldable pub IsFirstMatch : Dict String → List Policy → Policy → Type 0
IsFirstMatch attrs policies p =
    (before : List Policy) × (after : List Policy) × (policies ≡ before ++ p ∷ after)
    × (any (λ q. matches attrs q.match) before ≡ false)
    × (matches attrs p.match ≡ true)

-- `match_policy` returns the first policy of the matrix all of whose attributes the request has,
-- and nothing only when no policy is matched.
pub match_policy_first :
    (attrs : Dict String) (policies : List Policy)
    → ((p : Policy) × (match_policy attrs policies ≡ some p) × IsFirstMatch attrs policies p)
      ⊎ ((match_policy attrs policies ≡ none) × (any (λ q. matches attrs q.match) policies ≡ false))
unfolding match_policy IsFirstMatch
match_policy_first attrs [] = inr (refl, refl)
match_policy_first attrs (p ∷ ps) =
    let rest = match_policy_first attrs ps in
    elim (Bool-cases (matches attrs p.match)) [
      | inl e ↦ inl (p, rw e refl, ([], ps, refl, refl, e))
      | inr e ↦ elim rest [
        | inl (q, f, (before, after, cut, others, m)) ↦
            inl (q, rw e f, (p ∷ before, after, ap (λ l. p ∷ l) cut, rw e others, m))
        | inr (f, others) ↦ inr (rw e f, rw e others)
      ]
    ]
