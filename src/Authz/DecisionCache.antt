-- ===== src/Authz/DecisionCache.antt =====
-- The decision cache of src/oneops/authz/decision_cache.py: the key of a decision, and
-- `InMemoryDecisionCache`. Times are ticks of time.monotonic().
pub mod Sorted
use Prim.Native.String.{compare}
use text.Mathlib.Text.{is_le, is_lt}
use one_ops_next_gen.Prelude.{
  ℕ, ◌+◌, String, Bool, true, false, ◌&&◌, ◌||◌, List, [], ◌∷◌, Option, none, some, Dict, lookup,
  insert, erase, leb, if◌then◌else◌, ◌==◌,
}
use one_ops_next_gen.Authz.Models.{
  Tier, DataClass, Principal, ResourceDescriptor, AuthzDecision, with_cache_flag,
}

-- Python's `sorted`, by a test of `<=`.
insert_sorted {ℓ} : {A : Type ℓ} → (A → A → Bool) → A → List A → List A
insert_sorted le x [] = x ∷ []
insert_sorted le x (y ∷ ys) =
    let rest = insert_sorted le x ys in if le x y then x ∷ y ∷ ys else y ∷ rest

unfoldable pub sorted {ℓ} : {A : Type ℓ} → (A → A → Bool) → List A → List A
unfolding insert_sorted
sorted le [] = []
sorted le (x ∷ xs) = insert_sorted le x (sorted le xs)

abbrev pub text_le : String → String → Bool
text_le s t = is_le (compare s t)

abbrev pub pair_le : String × String → String × String → Bool
pair_le (a, b) (c, d) = is_lt (compare a c) || (a == c && text_le b d)

-- The payload that `decision_key` digests.
pub record KeyFields : Type 0 where
  pub p_tenant : String
  pub p_user : String
  pub p_role : String
  pub p_attrs : List (String × String)
  pub r_id : String
  pub r_tenant : String
  pub r_tier : Tier
  pub r_data : DataClass
  pub r_audience : List String
  pub r_scopes : List String

unfoldable pub key_fields : Principal → ResourceDescriptor → KeyFields
unfolding sorted
key_fields p r = record {
  p_tenant = p.tenant_id;
  p_user = p.user_id;
  p_role = p.role;
  p_attrs = sorted pair_le p.attributes;
  r_id = r.resource_id;
  r_tenant = r.resource_tenant_id;
  r_tier = r.tier;
  r_data = r.data_classification;
  r_audience = sorted text_le r.audience;
  r_scopes = sorted text_le r.required_scopes;
}

-- A stored decision and when it expires.
abbrev pub Store : Type 0
Store = Dict (AuthzDecision × ℕ)

-- Lazy expiry: an entry that is due is deleted when it is asked for.
unfoldable pub live_entry :
    String → ℕ → Store → Option (AuthzDecision × ℕ) → Option AuthzDecision × Store
live_entry key now store none = (none, store)
live_entry key now store (some (decision, expires_at)) =
    if leb expires_at now then (none, erase key store) else (some (with_cache_flag decision), store)

unfoldable pub get : String → ℕ → Store → Option AuthzDecision × Store
unfolding live_entry
get key now store = live_entry key now store (lookup key store)

-- `none` is the ValueError of a TTL that is not positive.
unfoldable pub put : String → AuthzDecision → ℕ → ℕ → Store → Option Store
put key decision ttl_seconds now store =
    if leb ttl_seconds 0 then none else some (insert key (decision, now + ttl_seconds) store)

unfoldable pub invalidate : String → Store → Store
invalidate key store = erase key store
