-- ===== src/Router/Conditions/Groups.antt =====
-- The verdicts of groups, by their clauses.
use one_ops_next_gen.Prelude.{
  Bool, true, false, List, any, ◌≡◌, ◌↔◌, refl, sym, ap, subst, ◌∙◌, inl, inr, Bool-cases, Memᴰ,
  any_witness, any-mem,
}
use one_ops_next_gen.Router.Conditions.{
  Ternary, Condition, Clauses, RequestSignals, all_verdict, any_verdict, evaluate, evaluate_all,
  is_fail, is_pass, is_indeterminate,
}

-- A clause of the group.
pub data IsClause (c : Condition) : Clauses → Type 0 where
  first : {cs : Clauses} → IsClause c (Clauses.clause c cs)
  later : {d : Condition} {cs : Clauses} → IsClause c cs → IsClause c (Clauses.clause d cs)

-- The verdicts of the clauses are the list that the group reads.
clause_reading :
    (signals : RequestSignals) {c : Condition} {cs : Clauses}
    → IsClause c cs
    → Memᴰ (evaluate c signals) (evaluate_all cs signals)
unfolding evaluate
clause_reading signals IsClause.first = Memᴰ.head refl
clause_reading signals (IsClause.later i) = Memᴰ.tail (clause_reading signals i)

verdict_origin :
    (signals : RequestSignals) (cs : Clauses) {v : Ternary}
    → Memᴰ v (evaluate_all cs signals)
    → (c : Condition) × IsClause c cs × (evaluate c signals ≡ v)
unfolding evaluate
verdict_origin signals Clauses.no_more m = elim m [ ]
verdict_origin signals (Clauses.clause c cs) (Memᴰ.head e) = (c, IsClause.first, sym e)
verdict_origin signals (Clauses.clause c cs) (Memᴰ.tail m) =
    let (d, i, e) = verdict_origin signals cs m in (d, IsClause.later i, e)

is_fail_iff : (v : Ternary) → is_fail v ≡ true → v ≡ Ternary.fail
unfolding is_fail
is_fail_iff Ternary.fail h = refl
is_fail_iff Ternary.pass h = cc
is_fail_iff Ternary.indeterminate h = cc

is_pass_iff : (v : Ternary) → is_pass v ≡ true → v ≡ Ternary.pass
unfolding is_pass
is_pass_iff Ternary.pass h = refl
is_pass_iff Ternary.fail h = cc
is_pass_iff Ternary.indeterminate h = cc

-- Neither failing nor passing on the list leaves the other definite verdict.
only_pass :
    (vs : List Ternary) (v : Ternary)
    → any is_fail vs ≡ false
    → any is_indeterminate vs ≡ false
    → Memᴰ v vs
    → v ≡ Ternary.pass
unfolding is_fail is_indeterminate
only_pass vs Ternary.pass f i m = refl
only_pass vs Ternary.fail f i m = cc (any-mem is_fail m refl)
only_pass vs Ternary.indeterminate f i m = cc (any-mem is_indeterminate m refl)

only_fail :
    (vs : List Ternary) (v : Ternary)
    → any is_pass vs ≡ false
    → any is_indeterminate vs ≡ false
    → Memᴰ v vs
    → v ≡ Ternary.fail
unfolding is_pass is_indeterminate
only_fail vs Ternary.fail f i m = refl
only_fail vs Ternary.pass f i m = cc (any-mem is_pass m refl)
only_fail vs Ternary.indeterminate f i m = cc (any-mem is_indeterminate m refl)

-- What a list of verdicts comes to: the decisive verdict exactly where a member has it, the other
-- definite one exactly where every member has that one.
record IsConjunction (vs : List Ternary) : Type 0 where
  fails : (all_verdict vs ≡ Ternary.fail) ↔ Memᴰ Ternary.fail vs
  passes : (all_verdict vs ≡ Ternary.pass) ↔ ((v : Ternary) → Memᴰ v vs → v ≡ Ternary.pass)

record IsDisjunction (vs : List Ternary) : Type 0 where
  passes : (any_verdict vs ≡ Ternary.pass) ↔ Memᴰ Ternary.pass vs
  fails : (any_verdict vs ≡ Ternary.fail) ↔ ((v : Ternary) → Memᴰ v vs → v ≡ Ternary.fail)

all_verdict-IsConjunction : (vs : List Ternary) → IsConjunction vs
unfolding all_verdict is_fail is_indeterminate
all_verdict-IsConjunction vs = elim (Bool-cases (any is_fail vs)) [
  | inl f ↦
      let (v, m, e) = any_witness is_fail vs f in
      let here : Memᴰ Ternary.fail vs = subst (λ x. Memᴰ x vs) (is_fail_iff v e) m in
      record {
        fails = rw f (λ h. here, λ n. refl);
        passes = rw f (λ h. cc, λ all_pass. cc (all_pass Ternary.fail here));
      }
  | inr f ↦ elim (Bool-cases (any is_indeterminate vs)) [
    | inl i ↦
        let (v, m, e) = any_witness is_indeterminate vs i in
        record {
          fails = rw (f, i) (λ h. cc, λ n. cc (any-mem is_fail n refl));
          passes = rw (f, i) (λ h. cc, λ all_pass. cc (ap is_indeterminate (all_pass v m)));
        }
    | inr i ↦ record {
      fails = rw (f, i) (λ h. cc, λ n. cc (any-mem is_fail n refl));
      passes = rw (f, i) (λ h v m. only_pass vs v f i m, λ all_pass. refl);
    }
  ]
]

any_verdict-IsDisjunction : (vs : List Ternary) → IsDisjunction vs
unfolding any_verdict is_pass is_indeterminate
any_verdict-IsDisjunction vs = elim (Bool-cases (any is_pass vs)) [
  | inl f ↦
      let (v, m, e) = any_witness is_pass vs f in
      let here : Memᴰ Ternary.pass vs = subst (λ x. Memᴰ x vs) (is_pass_iff v e) m in
      record {
        passes = rw f (λ h. here, λ n. refl);
        fails = rw f (λ h. cc, λ all_fail. cc (all_fail Ternary.pass here));
      }
  | inr f ↦ elim (Bool-cases (any is_indeterminate vs)) [
    | inl i ↦
        let (v, m, e) = any_witness is_indeterminate vs i in
        record {
          passes = rw (f, i) (λ h. cc, λ n. cc (any-mem is_pass n refl));
          fails = rw (f, i) (λ h. cc, λ all_fail. cc (ap is_indeterminate (all_fail v m)));
        }
    | inr i ↦ record {
      passes = rw (f, i) (λ h. cc, λ n. cc (any-mem is_pass n refl));
      fails = rw (f, i) (λ h v m. only_fail vs v f i m, λ all_fail. refl);
    }
  ]
]

some_reading_iff :
    (cs : Clauses) (signals : RequestSignals) {P : Type 0} {v : Ternary}
    → P ↔ Memᴰ v (evaluate_all cs signals)
    → P ↔ ((c : Condition) × IsClause c cs × (evaluate c signals ≡ v))
some_reading_iff cs signals (to, from) = (
  λ h. verdict_origin signals cs (to h),
  λ found.
      let (c, i, e) = found in
      from (subst (λ x. Memᴰ x (evaluate_all cs signals)) e (clause_reading signals i)),
)

every_reading_iff :
    (cs : Clauses) (signals : RequestSignals) {P : Type 0} {v : Ternary}
    → P ↔ ((w : Ternary) → Memᴰ w (evaluate_all cs signals) → w ≡ v)
    → P ↔ ((c : Condition) → IsClause c cs → evaluate c signals ≡ v)
every_reading_iff cs signals (to, from) = (
  λ h c i. to h _ (clause_reading signals i),
  λ f. from (λ w m. let (c, i, e) = verdict_origin signals cs m in sym e ∙ f c i),
)

-- A conjunction fails exactly when one of its clauses fails and passes exactly when all of them
-- pass; a disjunction passes exactly when one of its clauses passes and fails exactly when all of
-- them fail. In every other case they are undetermined. Their `negate` does not matter.
pub evaluate_groups :
    (negate : Bool) (cs : Clauses) (signals : RequestSignals)
    → ((evaluate (Condition.all_of negate cs) signals ≡ Ternary.fail)
        ↔ ((c : Condition) × IsClause c cs × (evaluate c signals ≡ Ternary.fail)))
      × ((evaluate (Condition.all_of negate cs) signals ≡ Ternary.pass)
          ↔ ((c : Condition) → IsClause c cs → evaluate c signals ≡ Ternary.pass))
      × ((evaluate (Condition.any_of negate cs) signals ≡ Ternary.pass)
          ↔ ((c : Condition) × IsClause c cs × (evaluate c signals ≡ Ternary.pass)))
      × ((evaluate (Condition.any_of negate cs) signals ≡ Ternary.fail)
          ↔ ((c : Condition) → IsClause c cs → evaluate c signals ≡ Ternary.fail))
unfolding evaluate
evaluate_groups negate cs signals =
    let vs = evaluate_all cs signals in
    let both = all_verdict-IsConjunction vs in
    let either = any_verdict-IsDisjunction vs in
    (
      some_reading_iff cs signals both.fails,
      every_reading_iff cs signals both.passes,
      some_reading_iff cs signals either.passes,
      every_reading_iff cs signals either.fails,
    )
