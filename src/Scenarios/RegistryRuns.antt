-- ===== src/Scenarios/RegistryRuns.antt =====
-- Two versions of a record, the second activated and then rolled back.
use one_ops_next_gen.Prelude.{
  ◌⊎◌, ℕ, Bool, true, not, if◌then◌else◌, List, [], ◌∷◌, none, some, lookup, insert, ◌≡◌, refl,
}
use one_ops_next_gen.Registry.{
  RecordStatus, status_eq, RegistryRecord, Envelope, version_at, set_version, set_status,
  max_version,
}
use one_ops_next_gen.Registry.Store.{Fault, Backend, Result, create, update, activate, get, demoted}
use one_ops_next_gen.Registry.Store.Moves.{Op, step}
use one_ops_next_gen.Registry.Store.Invariant.{IsWellFormed}
use one_ops_next_gen.Registry.Store.Lifecycle.{run_calls, IsDrafted, run_calls-IsWellFormed}
use one_ops_next_gen.Registry.Store.History.{stored_version, IsKept, IsUndeleted, run_calls-IsKept}
use one_ops_next_gen.Registry.Store.Served.{get-activate}
use one_ops_next_gen.Registry.Store.Status.{envelope_lifecycle_status}
use one_ops_next_gen.Registry.Store.Status.Readable.{IsLive, get-lifecycle_status}

abbrev draft_of : ℕ → RegistryRecord
draft_of n = record { id = "triage"; version = n; status = RecordStatus.draft; body = "agent" }

abbrev with_state : ℕ → RecordStatus → RegistryRecord
with_state n status = record (draft_of n) { status = status }

abbrev valid : RegistryRecord → Bool
valid r = true

abbrev written : List Op
written =
    Op.creates (draft_of 1)
    ∷ Op.activates "triage" 1
    ∷ Op.updates (draft_of 2)
    ∷ Op.activates "triage" 2
    ∷ []

-- The first version has been demoted.
abbrev envelope : Envelope
envelope = record {
  versions = (1, with_state 1 RecordStatus.retired) ∷ (2, with_state 2 RecordStatus.active) ∷ [];
  active_version = some 2;
}

found : lookup "triage" (run_calls valid written []) ≡ some envelope
unfolding run_calls step create update activate demoted lookup insert version_at set_version
    set_status max_version
found = refl

drafted : IsDrafted written
unfolding IsDrafted
drafted = (refl, (tt, (refl, (tt, tt))))

well_formed : IsWellFormed "triage" envelope
well_formed = run_calls-IsWellFormed valid written "triage" envelope drafted found

run_calls-IsWellFormed_example : IsWellFormed "triage" envelope
run_calls-IsWellFormed_example =
    run_calls-IsWellFormed valid written "triage" envelope drafted found

abbrev rest : List Op
rest =
    Op.updates (draft_of 2)
    ∷ Op.activates "triage" 2
    ∷ Op.retires "triage" 1
    ∷ Op.deletes "search"
    ∷ []

rest-IsDrafted : IsDrafted rest
unfolding IsDrafted
rest-IsDrafted = (refl, (tt, (tt, (tt, tt))))

rest-IsUndeleted : IsUndeleted "triage" rest
unfolding IsUndeleted
rest-IsUndeleted = (tt, (tt, (tt, (refl, tt))))

abbrev begun : Backend
begun = ("triage", record { versions = (1, draft_of 1) ∷ []; active_version = none }) ∷ []

begun_stored : stored_version "triage" 1 begun ≡ some (draft_of 1)
unfolding stored_version lookup version_at
begun_stored = refl

run_calls-IsKept_example :
    (q : RegistryRecord) × (stored_version "triage" 1 (run_calls valid rest begun) ≡ some q)
    × IsKept (draft_of 1) q
run_calls-IsKept_example =
    run_calls-IsKept valid rest "triage" 1 (draft_of 1) begun rest-IsDrafted rest-IsUndeleted
      begun_stored

old_stored : version_at 1 envelope.versions ≡ some (with_state 1 RecordStatus.retired)
unfolding version_at
old_stored = refl

get-activate_example :
    ((activate valid "triage" 1 (run_calls valid written [])).0
      ≡ Result.returned (with_state 1 RecordStatus.active))
    × (get valid "triage" none (activate valid "triage" 1 (run_calls valid written [])).1
        ≡ Result.returned (with_state 1 RecordStatus.active))
get-activate_example =
    get-activate valid "triage" 1 (run_calls valid written []) envelope
      (with_state 1 RecordStatus.retired) found old_stored well_formed refl

-- A schema that has no RETIRED records.
abbrev no_retired : RegistryRecord → Bool
no_retired r = not (status_eq r.status RecordStatus.retired)

get-lifecycle_status_example :
    ((r : RegistryRecord) × (get no_retired "triage" none (run_calls valid written [])
        ≡ (if no_retired r then Result.returned r else Result.raised Fault.record_validation))
      × (envelope_lifecycle_status envelope ≡ some r.status)
      × IsLive (envelope_lifecycle_status envelope))
    ⊎ ((get no_retired "triage" none (run_calls valid written [])
          ≡ Result.raised Fault.record_not_found)
        × (¬ IsLive (envelope_lifecycle_status envelope)))
get-lifecycle_status_example =
    get-lifecycle_status no_retired "triage" (run_calls valid written []) envelope found well_formed
