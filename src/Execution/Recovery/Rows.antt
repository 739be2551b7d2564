-- ===== src/Execution/Recovery/Rows.antt =====
-- app/execution/service.py: the rows of the attempts that one round of the recovery writes.
use range_apply.Application.Models.{ApplicationStatus}
use range_apply.Application.Rows.{ApplicationRow, save_attempt}
use range_apply.Common.{
  Bool, Bool-cases, List, Option, String, [], ap, arith, eq_iff, false, find_first,
  find_first-passes, if◌then◌else◌, inl, inr, none, or_else, refl, some, str_eq, sym, true, ℕ, ◌&&◌,
  ◌∙◌, ◌∷◌, ◌≡◌, ◌⊎◌,
}
use range_apply.Core.Errors.{Result}
use range_apply.Core.Texts.{opt_eq}
use range_apply.Execution.Models.{ErrorClass, ExecutionOutcome, ExecutionStatus}
use range_apply.Execution.Preconditions.{has_status}
use range_apply.Execution.Recovery.{
  Recovery, force_attempt, is_live, item_of, reclaim_item, recover_early, recover_invoked,
  recover_run, review_item,
}
use range_apply.Execution.Runs.{
  ExecutionRunRow, ExecutionStore, audit, finish_run, get_attempt, put_run,
}
use range_apply.Pipeline.Queue.Outcomes.{needs_review}
use range_apply.Pipeline.Rows.{QueueRow}
use range_apply.Scheduler.Attempts.{commit_attempt, log_event, moved_attempt, transition}

abbrev pub doubtful : ApplicationRow → ApplicationRow
doubtful attempt =
    moved_attempt attempt ApplicationStatus.uncertain (some "worker lost after submit was invoked")

abbrev pub again_ready : ApplicationRow → ApplicationRow
again_ready attempt =
    moved_attempt (record attempt { submission_key = none }) ApplicationStatus.ready
      (some "reclaimed after a lost worker")

module _ (s : ExecutionStore) (run : ExecutionRunRow) (item : Option QueueRow)
    (attempt : ApplicationRow) (now : ℕ) {s' : ExecutionStore} where
  pub recover_invoked-rows :
      recover_invoked s run item attempt now ≡ Result.ok s'
      → (s'.tenant_id ≡ s.tenant_id)
        × (s'.attempts.rows ≡ (
            if has_status ApplicationStatus.uncertain attempt
            then s.attempts.rows
            else save_attempt (doubtful attempt) s.attempts.rows))
  unfolding recover_invoked force_attempt transition commit_attempt log_event audit review_item
      needs_review
  recover_invoked-rows h = (ground (arith, h), ground (arith, h))

  pub recover_early-rows :
      recover_early s run item attempt now ≡ Result.ok s'
      → (s'.tenant_id ≡ s.tenant_id)
        × (s'.attempts.rows ≡ (
            if has_status ApplicationStatus.submitting attempt
            then save_attempt (again_ready attempt) s.attempts.rows
            else s.attempts.rows))
  unfolding recover_early force_attempt transition commit_attempt log_event audit reclaim_item
  recover_early-rows h = (ground (arith, h), ground (arith, h))

-- The attempt of the key, if there is one, is uncertain.
abbrev pub IsDoubtful : ExecutionStore → String → Type 0
IsDoubtful s id =
    (a : ApplicationRow)
    → get_attempt s id ≡ some a
    → has_status ApplicationStatus.uncertain a ≡ true

abbrev is_keyed : String → String → ApplicationRow → Bool
is_keyed t id r = opt_eq r.tenant_id (some t) && str_eq r.id id

-- The lookup of a key after the write of its row, and of another's.
found_own :
    (t id : String) (row row' : ApplicationRow) (rows : List ApplicationRow)
    → is_keyed t id row' ≡ true
    → find_first (is_keyed t id) rows ≡ some row
    → find_first (is_keyed t id) (save_attempt row' rows) ≡ some row'
unfolding save_attempt
found_own t id row row' [] keyed h = absurd (ground (arith, h))
found_own t id row row' (r ∷ rs) keyed h =
    let e : row'.id ≡ id = (eq_iff row'.id id).0 (ground (arith, keyed)) in
    elim (Bool-cases (str_eq r.id row'.id)) [
      | inl mine ↦ rw mine (rw keyed refl)
      | inr other ↦
          let far : str_eq r.id id ≡ false = rw e at other in
          let passed : is_keyed t id r ≡ false = ground (arith, far) in
          rw other (rw passed (found_own t id row row' rs keyed (rw passed at h)))
    ]

found_other :
    (t id : String) (row' : ApplicationRow) (rows : List ApplicationRow)
    → str_eq row'.id id ≡ false
    → find_first (is_keyed t id) (save_attempt row' rows) ≡ find_first (is_keyed t id) rows
unfolding save_attempt
found_other t id row' [] far = refl
found_other t id row' (r ∷ rs) far = elim (Bool-cases (str_eq r.id row'.id)) [
  | inl mine ↦
      let e : r.id ≡ row'.id = (eq_iff r.id row'.id).0 mine in
      let far' : str_eq r.id id ≡ false = rw e far in ground (arith, mine, far, far')
  | inr other ↦ rw other (ground (arith, found_other t id row' rs far))
]

-- The run of an attempt that has vanished
abbrev pub orphan_run : ExecutionRunRow → ℕ → ExecutionRunRow
orphan_run run now =
    finish_run run ExecutionStatus.failed_permanent (some ExecutionOutcome.permanent_failure)
      (some ErrorClass.executor_crash) (some "attempt vanished while running") now

-- The four ways of a round
module _ (s : ExecutionStore) (run : ExecutionRunRow) (now : ℕ) {s' : ExecutionStore}
    {kind : Recovery} where
  pub recover_run-cases :
      recover_run s run now ≡ Result.ok (s', kind)
      → ((is_live (item_of s run) now ≡ true) × (s' ≡ s))
        ⊎ (((get_attempt s run.application_id ≡ none) × (s' ≡ put_run s (orphan_run run now)))
            ⊎ ((attempt : ApplicationRow) × ((get_attempt s run.application_id ≡ some attempt)
                  × (((run.submit_invoked ≡ true)
                        × (recover_invoked s run (item_of s run) attempt now ≡ Result.ok s'))
                      ⊎ ((run.submit_invoked ≡ false)
                          × (recover_early s run (item_of s run) attempt now ≡ Result.ok s'))))))
  unfolding recover_run
  recover_run-cases h = ground (arith, h)

module _ (s : ExecutionStore) (run : ExecutionRunRow) where
  is_found :
      {attempt : ApplicationRow}
      → get_attempt s run.application_id ≡ some attempt
      → is_keyed s.tenant_id run.application_id attempt ≡ true
  unfolding get_attempt
  is_found h = find_first-passes (is_keyed s.tenant_id run.application_id) s.attempts.rows h

module _ (s s' : ExecutionStore) (t : s'.tenant_id ≡ s.tenant_id) where
  pub unmoved :
      s'.attempts.rows ≡ s.attempts.rows → (id : String) → IsDoubtful s id → IsDoubtful s' id
  unfolding get_attempt
  unmoved r id was a h = was a (rw (t, r) at h)

  moved_other :
      (id : String) (row' : ApplicationRow)
      → s'.attempts.rows ≡ save_attempt row' s.attempts.rows
      → str_eq row'.id id ≡ false
      → IsDoubtful s id
      → IsDoubtful s' id
  unfolding get_attempt
  moved_other id row' r far was a h =
      was a (sym (found_other s.tenant_id id row' s.attempts.rows far) ∙ (rw (t, r) at h))

  moved_own :
      (id : String) (row row' : ApplicationRow)
      → s'.attempts.rows ≡ save_attempt row' s.attempts.rows
      → get_attempt s id ≡ some row
      → is_keyed s.tenant_id id row' ≡ true
      → has_status ApplicationStatus.uncertain row' ≡ true
      → IsDoubtful s' id
  unfolding get_attempt
  moved_own id row row' r found keyed doubt a h =
      let it = found_own s.tenant_id id row row' s.attempts.rows keyed found in
      let same : some row' ≡ some a = sym it ∙ (rw (t, r) at h) in
      let e : row' ≡ a = ap (λ o. or_else o a) same in rw (sym e) doubt

  module _ (run : ExecutionRunRow) (attempt : ApplicationRow)
      (found : get_attempt s run.application_id ≡ some attempt) where
    near_id : (id : String) → str_eq attempt.id id ≡ true → run.application_id ≡ id
    near_id id near =
        let keyed = is_found s run found in
        let e : attempt.id ≡ run.application_id =
          (eq_iff attempt.id run.application_id).0 (ground (arith, keyed)) in
        sym e ∙ (eq_iff attempt.id id).0 near

    -- The write of an uncertain row makes its key uncertain and leaves every other key as it was.
    pub doubt_saved :
        s'.attempts.rows ≡ save_attempt (doubtful attempt) s.attempts.rows
        → IsDoubtful s' run.application_id × ((id : String) → IsDoubtful s id → IsDoubtful s' id)
    doubt_saved r =
        let own =
          moved_own run.application_id attempt (doubtful attempt) r found (is_found s run found)
            refl in
        (
          own,
          λ id was. elim (Bool-cases (str_eq attempt.id id)) [
            | inl near ↦ rw (sym (near_id id near)) own
            | inr far ↦ moved_other id (doubtful attempt) r far was
          ],
        )

    -- The write of a ready row, where a submitting one was, leaves every uncertain key uncertain.
    pub ready_saved :
        has_status ApplicationStatus.submitting attempt ≡ true
        → s'.attempts.rows ≡ save_attempt (again_ready attempt) s.attempts.rows
        → (id : String) → IsDoubtful s id
        → IsDoubtful s' id
    ready_saved pressed r id was = elim (Bool-cases (str_eq attempt.id id)) [
      | inl near ↦
          let certain = was attempt (rw (sym (near_id id near)) found) in
          absurd (ground (arith, pressed, certain))
      | inr far ↦ moved_other id (again_ready attempt) r far was
    ]
