-- ===== src/Authz/Service/Cached.antt =====
-- The cache of service.py never changes a verdict.
use one_ops_next_gen.Prelude.{
  ℕ, ◌≤◌, ◌<◌, ◌+◌, String, true, List, [], Option, none, some, ◌≡◌, ◌↔◌, ◌⊎◌, inl, inr, refl, sym,
  ap, ◌∙◌, arith, Memᴰ, subst, lookup, insert, erase, lookup-insert_cases, lookup-insert_self,
  lookup-erase_cases, leb, Bool-cases,
}
use one_ops_next_gen.Authz.Models.{
  Principal, ResourceDescriptor, AuthzDecision, allowed, Rbac, permissions_for, with_cache_flag,
}
use one_ops_next_gen.Authz.Abac.Verdict.{IsPermitted}
use one_ops_next_gen.Authz.DecisionCache.{
  KeyFields, key_fields, Store, get, put, invalidate, live_entry,
}
use one_ops_next_gen.Authz.Service.{fresh_decision, or_decide, check, answer}
use one_ops_next_gen.Authz.Service.Keys.{allowed-fresh_iff, allowed-key_fields}

-- What a lookup in the cache does, by the entry that it finds.
data Found (key : String) (now : ℕ) (s : Store) : Type 0 where
  hit :
      (d : AuthzDecision) (expires_at : ℕ)
      → lookup key s ≡ some (d, expires_at)
      → get key now s ≡ (some (with_cache_flag d), s)
      → Found key now s
  miss : (s' : Store) → (s' ≡ s) ⊎ (s' ≡ erase key s) → get key now s ≡ (none, s') → Found key now s

get_cases : (key : String) (now : ℕ) (s : Store) → Found key now s
unfolding get
get_cases key now s = go (lookup key s) refl
  where
    go : (entry : Option (AuthzDecision × ℕ)) → lookup key s ≡ entry → Found key now s
    go none e = Found.miss s (inl refl) (rw (e, live_entry))
    go (some (d, at)) e = elim (Bool-cases (leb at now)) [
      | inl due ↦ Found.miss (erase key s) (inr refl) (rw (e, live_entry) (rw due))
      | inr live ↦ Found.hit d at e (rw (e, live_entry) (rw live))
    ]

put_positive :
    (key : String) (d : AuthzDecision) (ttl now : ℕ) (s : Store)
    → 0 < ttl
    → put key d ttl now s ≡ some (insert key (d, now + ttl) s)
unfolding put
put_positive key d ttl now s h = ground arith

same_store :
    {d d' : AuthzDecision} {s s' : Store} {o : Option (AuthzDecision × Store)}
    → o ≡ some (d, s)
    → o ≡ some (d', s')
    → s ≡ s'
same_store e e' = cc

module _ (digest : KeyFields → String) (roles : Rbac) (ttl : ℕ) (asked : List KeyFields) where
  -- The digests of the requests are free of collisions.
  unfoldable pub CollisionFree : Type 0
  CollisionFree = (a b : KeyFields) → Memᴰ a asked → Memᴰ b asked → digest a ≡ digest b → a ≡ b

  -- The stores that the service can reach by those requests, with revocations in between.
  pub data Reached : Store → Type 0 where
    start : Reached []
    checked :
        {s s' : Store} (p : Principal) (r : ResourceDescriptor) (now : ℕ) (d : AuthzDecision)
        → Memᴰ (key_fields p r) asked
        → Reached s
        → check digest roles ttl p r now s ≡ some (d, s')
        → Reached s'
    revoked : {s : Store} (key : String) → Reached s → Reached (invalidate key s)

  -- Each stored decision is the verdict on every request of its key.
  record IsSound (s : Store) : Type 0 where
    stored :
        (key : String) (d : AuthzDecision) (expires_at : ℕ)
        → lookup key s ≡ some (d, expires_at)
        → (p : Principal) (r : ResourceDescriptor) → Memᴰ (key_fields p r) asked
        → digest (key_fields p r) ≡ key
        → allowed d ≡ allowed (fresh_decision roles p r)

  erase-IsSound : (key : String) (s : Store) → IsSound s → IsSound (erase key s)
  erase-IsSound key s h = record {
    stored = λ k d e found. h.stored k d e (lookup-erase_cases key k s found);
  }

  insert-IsSound :
      CollisionFree
      → (p : Principal) (r : ResourceDescriptor) (expires_at : ℕ) (s : Store)
      → Memᴰ (key_fields p r) asked
      → IsSound s
      → IsSound (insert (digest (key_fields p r)) (fresh_decision roles p r, expires_at) s)
  unfolding CollisionFree
  insert-IsSound inj p r at s mine h = record {
    stored = λ k d e found p' r' theirs named.
        elim (lookup-insert_cases (digest (key_fields p r)) k (fresh_decision roles p r, at) s
          found) [
            | inr old ↦ h.stored k d e old p' r' theirs named
            | inl (same, value) ↦
                ap (λ (v : AuthzDecision × ℕ). allowed v.0) (sym value)
                ∙ allowed-key_fields roles p p' r r' (inj _ _ mine theirs (same ∙ sym named))
          ];
  }

  -- A check answers, rightly, and leaves a sound store.
  record IsRight (p : Principal) (r : ResourceDescriptor) (now : ℕ) (s : Store) : Type 0 where
    decision : AuthzDecision
    after : Store
    answers : check digest roles ttl p r now s ≡ some (decision, after)
    right : allowed decision ≡ allowed (fresh_decision roles p r)
    sound : IsSound after

  decide_afresh :
      (p : Principal) (r : ResourceDescriptor) (now : ℕ) (s : Store)
      → 0 < ttl
      → or_decide digest roles ttl p r now (none, s)
        ≡ some (
          fresh_decision roles p r,
          insert (digest (key_fields p r)) (fresh_decision roles p r, now + ttl) s,
        )
  unfolding or_decide
  decide_afresh p r now s h = rw (put_positive _ _ ttl now s h, answer)

  check-IsRight :
      CollisionFree
      → 0 < ttl
      → (p : Principal) (r : ResourceDescriptor) (now : ℕ) (s : Store) → Memᴰ (key_fields p r) asked
      → IsSound s
      → IsRight p r now s
  unfolding check
  check-IsRight inj pos p r now s m h = elim (get_cases (digest (key_fields p r)) now s) [
    | Found.hit d at e g ↦ record {
      decision = with_cache_flag d;
      after = s;
      answers = rw (g, or_decide);
      right = h.stored _ d at e p r m refl;
      sound = h;
    }
    | Found.miss s' kept g ↦
        let h' : IsSound s' = elim kept [ inl e ↦ rw e h | inr e ↦ rw e (erase-IsSound _ s h) ] in
        record {
          decision = fresh_decision roles p r;
          after = _;
          answers = rw g (decide_afresh p r now s' pos);
          right = refl;
          sound = insert-IsSound inj p r (now + ttl) s' m h';
        }
  ]

  Reached-IsSound : CollisionFree → 0 < ttl → {s : Store} → Reached s → IsSound s
  unfolding lookup invalidate
  Reached-IsSound inj pos Reached.start = record { stored = λ k d e found. cc }
  Reached-IsSound inj pos (Reached.checked {s} {s'} p r now d m reached e) =
      let v = check-IsRight inj pos p r now s m (Reached-IsSound inj pos reached) in
      subst IsSound (same_store v.answers e) v.sound
  Reached-IsSound inj pos (Reached.revoked {s} key reached) =
      erase-IsSound key s (Reached-IsSound inj pos reached)

-- The cache never changes a verdict: in every store that checks and revocations can reach from the
-- empty one, at any times, a check answers and allows exactly when the rules allow that request
-- now. The digests of the requests that are ever asked are to be free of collisions, and the time
-- to live positive.
pub check-eq-fresh :
    (digest : KeyFields → String) (roles : Rbac) (ttl : ℕ) (asked : List KeyFields)
    → CollisionFree digest roles ttl asked
    → 0 < ttl
    → {s : Store} → Reached digest roles ttl asked s
    → (p : Principal) (r : ResourceDescriptor) (now : ℕ) → Memᴰ (key_fields p r) asked
    → (d : AuthzDecision) × (s' : Store) × (check digest roles ttl p r now s ≡ some (d, s'))
      × ((allowed d ≡ true) ↔ IsPermitted p r (permissions_for roles p.role))
check-eq-fresh digest roles ttl asked no_clash pos {s} reached p r now m =
    let v =
      check-IsRight digest roles ttl asked no_clash pos p r now s m
        (Reached-IsSound digest roles ttl asked no_clash pos reached) in
    (v.decision, v.after, v.answers, rw v.right (allowed-fresh_iff roles p r))

-- A decision is served from the cache for less than its time to live: once it is due it is deleted
-- and decided afresh, whatever was stored.
pub get_expired :
    (key : String) (d : AuthzDecision) (ttl put_at now : ℕ) (s s' : Store)
    → put key d ttl put_at s ≡ some s'
    → (put_at + ttl ≤ now → get key now s' ≡ (none, erase key s'))
      × (now < put_at + ttl → get key now s' ≡ (some (with_cache_flag d), s'))
unfolding put get live_entry
get_expired key d ttl put_at now s s' h = elim (Bool-cases (leb ttl 0)) [
  | inl none_stored ↦ cc (rw (none_stored, put) at h)
  | inr stored ↦
      let e : insert key (d, put_at + ttl) s ≡ s' = ground (arith, h) in
      let found : lookup key s' ≡ some (d, put_at + ttl) =
        rw (← e) (lookup-insert_self key (d, put_at + ttl) s) in
      (λ due. rw found (ground arith), λ live. rw found (ground arith))
]
