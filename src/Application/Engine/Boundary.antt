-- ===== src/Application/Engine/Boundary.antt =====
-- app/application/engine.py: what the compatibility route can and cannot write.
use range_apply.Application.Engine.{AdapterRun, EngineStore, get_or_create, submit}
use range_apply.Application.KillSwitch.{is_paused}
use range_apply.Application.Models.{in_submitted}
use range_apply.Application.Rows.{ApplicationRow}
use range_apply.Common.{
  Bool, Bool-cases, Option, String, arith, dict_get, false, inl, inr, none, refl, sym, true, ℕ, ◌≡◌,
}
use range_apply.Core.Errors.{Result}
use range_apply.Core.Guards.{ok_value}

module _ (db : EngineStore) (id : String) (now : ℕ) (job_id : String) (approved : Bool)
    (adapter : Option (String × AdapterRun)) (tenant_id opportunity_id : Option String) where
  abbrev found : EngineStore × ApplicationRow
  found = get_or_create db id now job_id tenant_id opportunity_id none none

  -- A live call leaves the rows as the lookup or the creation of the attempt left them, and returns
  -- no row but that attempt, when it was submitted before.
  pub submit-live :
      ((submit db id now job_id approved false adapter tenant_id opportunity_id).0.rows
        ≡ found.0.rows)
      × ((row : ApplicationRow)
          → (submit db id now job_id approved false adapter tenant_id opportunity_id).1
            ≡ Result.ok row
          → (row ≡ found.1) × (in_submitted row.status ≡ true))
  unfolding submit
  submit-live =
      let paused = is_paused found.0.switches (dict_get job_id found.0.job_sources) in
      elim (Bool-cases paused) [
        | inl h ↦ rw h (refl, λ row e. absurd (ground (arith, e)))
        | inr h ↦ rw h (elim (Bool-cases (in_submitted found.1.status)) [
          | inl sent ↦ rw sent (refl, λ row e. (sym (ok_value e), rw (sym (ok_value e)) sent))
          | inr fresh ↦ rw fresh (elim (Bool-cases approved) [
            | inl yes_said ↦ rw yes_said (refl, λ row e. absurd (ground (arith, e)))
            | inr not_said ↦ rw not_said (refl, λ row e. absurd (ground (arith, e)))
          ])
        ])
      ]
