-- ===== src/Execution/Preconditions/Passed.antt =====
-- app/execution/preconditions.py: what a report without failures guarantees.
use range_apply.Application.Models.{in_submitted}
use range_apply.Application.Rows.{ApplicationRow}
use range_apply.Common.{
  Bool, List, Option, String, [], any_of, arith, dict_get, eq_refl, false, is_some, keep, length,
  ltb, map, none, not, refl, some, str_eq, true, ℕ, ◌&&◌, ◌++◌, ◌<◌, ◌==◌, ◌||◌, ◌∷◌, ◌≡◌,
}
use range_apply.Core.Texts.{is_text, opt_eq}
use range_apply.Execution.Models.{PreconditionCode, PreconditionReport}
use range_apply.Execution.Preconditions.{
  Situation, at_company, attempt_failures, check, check_caps, expected_status, has_status,
  history_failures, is_same_period, is_shut, opening_failures, preparation_failures, refresh_slot,
  refreshed, static_failures, status_failures, when,
}
use range_apply.Pipeline.Models.{OpportunityStatus, status_place}
use range_apply.Pipeline.Policy.{ApplicationPolicy}
use range_apply.Pipeline.Rows.{OpportunityRow}
use range_apply.Scheduler.Attempts.{Names, duplicate_key}
use range_apply.Scheduler.Attempts.Cooldown.{
  CooldownIndex, DuplicateIndex, active_until, build_indexes, has_other, index_attempts,
  index_candidates,
}
use range_apply.Scheduler.Caps.{CapLedger}
use range_apply.Scheduler.Decisions.{PreparationRow, PreparationStatus, blocks_reposts}

when-nil : (b : Bool) (code : PreconditionCode) → when b code ≡ [] → b ≡ false
when-nil true code h = absurd (ground (arith, h))
when-nil false code h = refl

pub append-nil : {A : Type 0} (xs ys : List A) → xs ++ ys ≡ [] → (xs ≡ []) × (ys ≡ [])
append-nil [] ys h = (refl, h)
append-nil (x ∷ xs) ys h = absurd (ground (arith, h))

pub length-nil : {A : Type 0} (xs : List A) → ltb 0 (length xs) ≡ false → xs ≡ []
length-nil [] h = refl
length-nil (x ∷ xs) h = absurd (ground (arith, h))

implied : (b : Bool) {x : Bool} → (b ≡ true → x ≡ true) → (not b || x) ≡ true
implied true f = f refl
implied false f = refl

-- The preparation is the tenant's and of the attempt's opening, where the attempt names one, and is
-- ready, validated, answered and fresh.
pub record IsPrepared (tenant_id : String) (attempt : ApplicationRow) (stale_inputs : List String)
    (p : PreparationRow) : Type 0 where
  pub of_tenant : str_eq p.tenant_id tenant_id ≡ true
  pub same_opening :
      (not (is_text attempt.opportunity_id)
        || opt_eq (some p.opportunity_id) attempt.opportunity_id)
      ≡ true
  pub is_ready : p.status ≡ PreparationStatus.ready
  pub validated : p.validation_passed ≡ true
  pub answered : ltb 0 p.unanswered ≡ false
  pub fresh : stale_inputs ≡ []

-- The cool-downs and the twins that the other attempts at the company make
abbrev pub company_indexes :
    Names
    → ApplicationPolicy
    → OpportunityRow
    → List (ApplicationRow × OpportunityRow)
    → CooldownIndex × DuplicateIndex
company_indexes names policy o rows =
    build_indexes names (map (λ (p : ApplicationRow × OpportunityRow). (p.1.id, p.0)) rows)
      (map (λ (p : ApplicationRow × OpportunityRow). (p.1.id, p.1)) rows) (λ co. o) []
      policy.cooldown_days

-- Another attempt at this opening was submitted.
abbrev pub was_applied_to : OpportunityRow → List (ApplicationRow × OpportunityRow) → Bool
was_applied_to o rows =
    elim (dict_get o.id (map (λ (p : ApplicationRow × OpportunityRow). (p.1.id, p.0)) rows)) [
      | none ↦ false
      | some previous ↦ in_submitted previous.status
    ]

-- The other attempts at the company, `rows`, stand in no way of one at `o`: no cool-down of the company
-- is active, no other opening has the same title, and no repost of an opening that was applied to
-- goes against the policy.
pub record IsUnspent (names : Names) (policy : ApplicationPolicy) (o : OpportunityRow) (now : ℕ)
    (rows : List (ApplicationRow × OpportunityRow)) : Type 0 where
  pub no_cooldown :
      is_some (active_until names (company_indexes names policy o rows).0 o.company now) ≡ false
  pub no_twin :
      has_other (company_indexes names policy o rows).1 (duplicate_key names o.company o.title) o.id
      ≡ false
  pub no_repost :
      ((status_place o.status == status_place OpportunityStatus.reposted)
        && (blocks_reposts policy && was_applied_to o rows))
      ≡ false

-- The opening and the candidate's state are open, the company is not blocked, and the other attempts
-- at the company stand in no way.
pub record IsOpening (names : Names) (lower : String → String) (s : Situation)
    (attempt : ApplicationRow) (o : OpportunityRow) : Type 0 where
  pub is_open : (status_place o.status == status_place OpportunityStatus.closed) ≡ false
  pub wanted : is_shut s.candidate ≡ false
  pub allowed :
      any_of
        (λ c. str_eq (names.company_key c) (names.company_key o.company))
        s.policy.blocked_companies
      ≡ false
  pub no_history :
      IsUnspent names s.policy o s.now (keep (at_company names lower s.tenant_id attempt o) s.rows)

-- Every condition of a submission that does not read the ledger.
pub record IsClear (names : Names) (lower : String → String) (s : Situation)
    (attempt : ApplicationRow) (executing : Bool) : Type 0 where
  pub of_tenant : opt_eq attempt.tenant_id (some s.tenant_id) ≡ true
  pub in_status : has_status (expected_status executing) attempt ≡ true
  pub not_released : is_some attempt.released_at ≡ false
  pub prepared :
      (p : PreparationRow) × ((s.preparation ≡ some p)
        × IsPrepared s.tenant_id attempt s.stale_inputs p)
  pub opening :
      (o : OpportunityRow) × ((s.opportunity ≡ some o) × IsOpening names lower s attempt o)

pub undo_not : (b : Bool) → not b ≡ false → b ≡ true
undo_not true h = refl
undo_not false h = absurd (ground (arith, h))

status_failures-nil :
    (st : PreparationStatus) → status_failures st ≡ [] → st ≡ PreparationStatus.ready
unfolding status_failures
status_failures-nil PreparationStatus.pending h = absurd (ground (arith, h))
status_failures-nil PreparationStatus.ready h = refl
status_failures-nil PreparationStatus.needs_review h = absurd (ground (arith, h))
status_failures-nil PreparationStatus.needs_user_input h = absurd (ground (arith, h))
status_failures-nil PreparationStatus.failed h = absurd (ground (arith, h))
status_failures-nil PreparationStatus.superseded h = absurd (ground (arith, h))
status_failures-nil PreparationStatus.invalidated h = absurd (ground (arith, h))

undo_and : (a b : Bool) → (a && not b) ≡ false → (not a || b) ≡ true
undo_and a b h = ground (arith, h)

preparation_failures-nil :
    (t : String) (attempt : ApplicationRow) (o : Option PreparationRow) (stale : List String)
    → preparation_failures t attempt o stale ≡ []
    → (p : PreparationRow) × ((o ≡ some p) × IsPrepared t attempt stale p)
unfolding preparation_failures
preparation_failures-nil t attempt none stale h = absurd (ground (arith, h))
preparation_failures-nil t attempt (some p) stale h =
    let a = append-nil (when (not (str_eq p.tenant_id t)) PreconditionCode.tenant_mismatch) _ h in
    let b =
      append-nil
        (when
          (is_text attempt.opportunity_id
            && not (opt_eq (some p.opportunity_id) attempt.opportunity_id))
          PreconditionCode.opportunity_mismatch)
        _ a.1 in
    let c = append-nil (status_failures p.status) _ b.1 in
    let d = append-nil (when (not p.validation_passed) PreconditionCode.validation_failed) _ c.1 in
    let e = append-nil (when (ltb 0 p.unanswered) PreconditionCode.user_input_required) _ d.1 in
    (
      p,
      (
        refl,
        record {
          of_tenant = undo_not (str_eq p.tenant_id t) (when-nil _ _ a.0);
          same_opening = undo_and (is_text attempt.opportunity_id) _ (when-nil _ _ b.0);
          is_ready = status_failures-nil p.status c.0;
          validated = undo_not p.validation_passed (when-nil _ _ d.0);
          answered = when-nil _ _ e.0;
          fresh = length-nil stale (when-nil _ _ e.1);
        },
      ),
    )

IsUnspent-first :
    (names : Names) (policy : ApplicationPolicy) (o : OpportunityRow) (now : ℕ)
    → IsUnspent names policy o now []
unfolding build_indexes index_attempts index_candidates active_until has_other
IsUnspent-first names policy o now = record {
  no_cooldown = refl;
  no_twin = refl;
  no_repost = ground arith;
}

module _ (names : Names) (lower : String → String) (s : Situation) (attempt : ApplicationRow) where
  history_failures-nil :
      (o : OpportunityRow) (rows : List (ApplicationRow × OpportunityRow))
      → history_failures names lower s.policy o s.now rows ≡ []
      → IsUnspent names s.policy o s.now rows
  unfolding history_failures
  history_failures-nil o [] h = IsUnspent-first names s.policy o s.now
  history_failures-nil o (r ∷ rs) h =
      let i = company_indexes names s.policy o (r ∷ rs) in
      let a =
        append-nil
          (when (is_some (active_until names i.0 o.company s.now)) PreconditionCode.cooldown_active)
          _ h in
      let b =
        append-nil
          (when (has_other i.1 (duplicate_key names o.company o.title) o.id)
            PreconditionCode.duplicate_application)
          _ a.1 in
      record {
        no_cooldown = when-nil _ _ a.0;
        no_twin = when-nil _ _ b.0;
        no_repost = when-nil _ _ b.1;
      }

  opening_failures-nil :
      (o : Option OpportunityRow)
      → opening_failures names lower s.tenant_id s.policy s.rows attempt s.candidate o s.now ≡ []
      → (o' : OpportunityRow) × ((o ≡ some o') × IsOpening names lower s attempt o')
  unfolding opening_failures
  opening_failures-nil none h = absurd (ground (arith, h))
  opening_failures-nil (some o) h =
      let a =
        append-nil
          (when (status_place o.status == status_place OpportunityStatus.closed)
            PreconditionCode.opportunity_closed)
          _ h in
      let b = append-nil (when (is_shut s.candidate) PreconditionCode.opportunity_closed) _ a.1 in
      let c =
        append-nil
          (when
            (any_of (λ c. str_eq (names.company_key c) (names.company_key o.company))
              s.policy.blocked_companies)
            PreconditionCode.company_blocked)
          _ b.1 in
      (
        o,
        (
          refl,
          record {
            is_open = when-nil _ _ a.0;
            wanted = when-nil _ _ b.0;
            allowed = when-nil _ _ c.0;
            no_history = history_failures-nil o _ c.1;
          },
        ),
      )

  static_failures-IsClear :
      (executing : Bool)
      → opt_eq attempt.tenant_id (some s.tenant_id) ≡ true
      → static_failures names lower s attempt executing ≡ []
      → IsClear names lower s attempt executing
  unfolding static_failures
  static_failures-IsClear executing tenant h =
      let a = append-nil (attempt_failures attempt executing) _ h in
      let b =
        append-nil
          (when (not (has_status (expected_status executing) attempt))
            PreconditionCode.attempt_not_ready)
          _ a.0 in
      let c =
        append-nil (preparation_failures s.tenant_id attempt s.preparation s.stale_inputs) _ a.1 in
      record {
        of_tenant = tenant;
        in_status = undo_not (has_status (expected_status executing) attempt) (when-nil _ _ b.0);
        not_released = when-nil _ _ b.1;
        prepared = preparation_failures-nil s.tenant_id attempt s.preparation s.stale_inputs c.0;
        opening = opening_failures-nil s.opportunity c.1;
      }

abbrev pub caps_checked :
    Situation
    → CapLedger
    → ApplicationRow
    → Bool
    → CapLedger × ApplicationRow × Option PreconditionCode
caps_checked s ledger attempt reserve = check_caps s.policy ledger attempt s.keys s.now reserve

module _ (s : Situation) (ledger : CapLedger) (attempt : ApplicationRow) where
  same_refreshed : is_same_period (refreshed attempt s.keys s.now) s.keys ≡ true
  same_refreshed = rw (eq_refl s.keys.day_key, eq_refl s.keys.week_key) refl

  refresh_slot-none :
      (refresh_slot s.policy ledger attempt s.keys s.now).2 ≡ none
      → (refresh_slot s.policy ledger attempt s.keys s.now).1 ≡ refreshed attempt s.keys s.now
  unfolding refresh_slot
  refresh_slot-none h = ground (arith, h)

  check_caps-open :
      (reserve : Bool)
      → (caps_checked s ledger attempt reserve).2 ≡ none
      → (0 < s.policy.daily_cap)
        × (0 < s.policy.weekly_cap)
        × (reserve ≡ true → is_same_period (caps_checked s ledger attempt reserve).1 s.keys ≡ true)
  unfolding check_caps
  check_caps-open reserve h = (
    ground (arith, h),
    ground (arith, h),
    λ r. ground (arith, h, r, same_refreshed, refresh_slot-none),
  )

module _ (names : Names) (lower : String → String) (s : Situation) (ledger : CapLedger)
    (attempt : ApplicationRow) (reserve executing : Bool) where
  abbrev checked : CapLedger × ApplicationRow × PreconditionReport
  checked = check names lower s ledger attempt reserve executing

  check-parts :
      checked.2.ok ≡ true
      → (opt_eq attempt.tenant_id (some s.tenant_id) ≡ true)
        × (ltb 0 (length (static_failures names lower s attempt executing)) ≡ false)
        × ((caps_checked s ledger attempt reserve).2 ≡ none)
        × (checked.1 ≡ (caps_checked s ledger attempt reserve).1)
  unfolding check
  check-parts h = ground (arith, h)

  -- A report without failures says that every condition of a submission held of the attempt, the
  -- preparation and the opening, that the caps are not paused, and, when the check may reserve, that
  -- the attempt holds a slot of the current day and week.
  pub check-IsClear :
      checked.2.ok ≡ true
      → IsClear names lower s attempt executing
        × (0 < s.policy.daily_cap)
        × (0 < s.policy.weekly_cap)
        × ((not reserve || is_same_period checked.1 s.keys) ≡ true)
  check-IsClear h =
      let p = check-parts h in
      let opened = check_caps-open s ledger attempt reserve p.2 in
      (
        static_failures-IsClear names lower s attempt executing p.0 (length-nil _ p.1),
        opened.0,
        opened.1,
        implied reserve (λ r. rw p.3 (opened.2 r)),
      )
