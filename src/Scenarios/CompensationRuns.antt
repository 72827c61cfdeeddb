-- ===== src/Scenarios/CompensationRuns.antt =====
-- A compensation of two finished tasks.
use one_ops_next_gen.Prelude.{
  String, true, List, [], ◌∷◌, some, ◌≡◌, refl, sym, subst, Memᴰ, Memᴰ-cons, lookup, inl, inr,
}
use one_ops_next_gen.Fulfillment.Contracts.{Json, Fields, Task, TaskState}
use one_ops_next_gen.Fulfillment.Db.{Db, list_tasks_for_ritm}
use one_ops_next_gen.Fulfillment.Compensation.{
  Undoing, compensate_ritm, compensate_each, completed_tasks, output_of,
}
use one_ops_next_gen.Fulfillment.Compensation.Outcomes.{HasFields}
use one_ops_next_gen.Fulfillment.Compensation.Undone.{IsUndone, compensate_ritm_lem}
use one_ops_next_gen.Fulfillment.Executor.{one_field}
use one_ops_next_gen.Scenarios.Fixtures.{a_task, db_of, env}

-- Each has left the id of what it has made, the second under the key `result`.
abbrev vpn : Task
vpn = record (a_task "T1" (some "grant_vpn_access") [] [] TaskState.done) {
  output_payload = some (one_field "config_id" "VPN7");
}

abbrev mail : Task
mail = record (a_task "T2" (some "provision_email_mailbox") [] [] TaskState.done) {
  output_payload =
      some (Json.object (Fields.field "result" (one_field "mailbox_id" "MBX3") Fields.end));
}

abbrev db : Db
db = db_of (vpn ∷ mail ∷ [])

both_listed : list_tasks_for_ritm "acme" "RITM1" db ≡ vpn ∷ mail ∷ []
unfolding list_tasks_for_ritm
both_listed = refl

vpn-HasFields : HasFields vpn
unfolding HasFields output_of
vpn-HasFields s e = cc

mail-HasFields : HasFields mail
unfolding HasFields output_of
mail-HasFields s e = cc

listed-HasFields :
    (t : Task)
    → Memᴰ t (list_tasks_for_ritm "acme" "RITM1" db)
    → t.state ≡ TaskState.done
    → HasFields t
listed-HasFields t m d = elim (Memᴰ-cons (subst (λ x. Memᴰ t x) both_listed m)) [
  | inl e ↦ subst HasFields (sym e) vpn-HasFields
  | inr n ↦ elim (Memᴰ-cons n) [
    | inl e ↦ subst HasFields (sym e) mail-HasFields
    | inr o ↦ elim o [ ]
  ]
]

-- The second task is undone first, and both are.
undone_in_order :
    compensate_each env (completed_tasks (vpn ∷ mail ∷ []))
    ≡ some (
        ("T2", Undoing.called "deprovision_email_mailbox" true)
        ∷ ("T1", Undoing.called "revoke_vpn_access" true)
        ∷ [])
unfolding compensate_each completed_tasks lookup
undone_in_order = refl

compensate_ritm_lem_example :
    (results : List (String × Undoing)) × (db' : Db) × (compensate_ritm env "acme" "RITM1" db
      ≡ some (results, db'))
    × IsUndone env "acme" "RITM1" db results db'
compensate_ritm_lem_example = compensate_ritm_lem env "acme" "RITM1" db listed-HasFields
