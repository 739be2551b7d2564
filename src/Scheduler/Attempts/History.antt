-- ===== src/Scheduler/Attempts/History.antt =====
-- app/scheduler/attempts.py: what an attempt that is past SUBMITTING can still become.
use range_apply.Application.Models.{ApplicationStatus, attempt_place, may_transition}
use range_apply.Application.Rows.{ApplicationRow}
use range_apply.Common.{Bool, Option, String, ap, arith, false, inl, inr, true, ◌==◌, ◌≡◌, ◌⊎◌}
use range_apply.Core.Errors.{Result}
use range_apply.Core.Guards.{guarded-write}
use range_apply.Scheduler.Attempts.{AttemptStore, commit_attempt, moved_attempt, transition}

-- The attempt has left SUBMITTING for a status of an application that went out, or may have.
abbrev pub is_past_submitting : ApplicationStatus → Bool
is_past_submitting ApplicationStatus.submitted = true
is_past_submitting ApplicationStatus.verified = true
is_past_submitting ApplicationStatus.uncertain = true
is_past_submitting ApplicationStatus.interviewing = true
is_past_submitting ApplicationStatus.rejected = true
is_past_submitting _ = false

-- The two ways out: a person's review, and the end.
abbrev pub is_way_out : ApplicationStatus → Bool
is_way_out ApplicationStatus.needs_review = true
is_way_out ApplicationStatus.closed = true
is_way_out _ = false

reached-step :
    (a b : ApplicationStatus)
    → may_transition a b ≡ true
    → is_past_submitting a ≡ true
    → is_way_out b ≡ false
    → is_past_submitting b ≡ true
reached-step a b m h out = ground (arith, m, h, out)

-- The rows that unforced transitions lead to without a review or a close.
pub data RunsTo (row : ApplicationRow) : ApplicationRow → Type 0 where
  origin : RunsTo row row
  move :
      {mid last : ApplicationRow} {changed : Bool} (s s' : AttemptStore) (t : ApplicationStatus)
      (reason : Option String)
      → RunsTo row mid
      → is_way_out t ≡ false
      → transition s mid t reason false ≡ Result.ok (s', last, changed)
      → RunsTo row last

transition-moves :
    (s : AttemptStore) (row : ApplicationRow) (t : ApplicationStatus) (reason : Option String)
    {s' : AttemptStore} {row' : ApplicationRow} {changed : Bool}
    → transition s row t reason false ≡ Result.ok (s', row', changed)
    → (row' ≡ row) ⊎ ((may_transition row.status t ≡ true) × (row'.status ≡ t))
unfolding transition
transition-moves s row t reason h =
    elim (guarded-write (attempt_place row.status == attempt_place t) (may_transition row.status t)
      (s, row, false)
      (
        commit_attempt s row (moved_attempt row t reason) "attempt",
        moved_attempt row t reason,
        true,
      )
      h) [ inl same ↦ inl (ap (λ p. p.1) same) | inr (m, e) ↦ inr (m, ap (λ p. p.1.status) e) ]

-- An attempt that is submitted, verified, uncertain, interviewing or rejected stays one of these,
-- through any unforced transitions that do not go into a review or a close: it is never ready or
-- submitting again. One that is still submitting is none of these.
pub RunsTo-is_past_submitting :
    {row last : ApplicationRow}
    → RunsTo row last
    → is_past_submitting row.status ≡ true
    → is_past_submitting last.status ≡ true
RunsTo-is_past_submitting RunsTo.origin h = h
RunsTo-is_past_submitting (RunsTo.move {mid} s s' t reason before out e) h =
    let earlier = RunsTo-is_past_submitting before h in
    elim (transition-moves s mid t reason e) [
      | inl same ↦ rw same earlier
      | inr (m, to) ↦ rw to (reached-step mid.status t m earlier out)
    ]
