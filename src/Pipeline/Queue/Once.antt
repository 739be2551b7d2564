-- ===== src/Pipeline/Queue/Once.antt =====
-- app/pipeline/queue.py: `enqueue` is idempotent, and keeps one row for each key.
use range_apply.Common.{
  Bool, Bool-cases, Option, String, [], arith, count_of, count_of-append, count_of-find_none,
  eq_iff, false, find_first, find_first-append, if◌then◌else◌, inl, inr, none, some, str_eq, true,
  ℕ, ◌&&◌, ◌++◌, ◌∙◌, ◌∷◌, ◌≡◌, ◌≤◌, ◌⊎◌,
}
use range_apply.Core.Errors.{Result, ServiceError}
use range_apply.Pipeline.Models.{Lane, QueueAction, is_active}
use range_apply.Pipeline.Queue.{QueueStore, find_item, idempotency_key}
use range_apply.Pipeline.Queue.Enqueue.{enqueue, new_item}
use range_apply.Pipeline.Rows.{CandidateOpportunityRow, QueueRow}

-- How many of the tenant's rows have the key.
unfoldable pub key_count : QueueStore → String → ℕ
key_count q key =
    count_of (λ r. str_eq r.tenant_id q.tenant_id && str_eq r.idempotency_key key) q.rows

module _ (q : QueueStore) (id : String) (now : ℕ) (co : CandidateOpportunityRow)
    (action : QueueAction) (actor : String) (lane : Lane) (priority available_at : Option ℕ)
    (max_attempts : ℕ) where
  pub enqueue-foreign :
      str_eq co.tenant_id q.tenant_id ≡ false
      → enqueue q id now co action actor lane priority available_at max_attempts
        ≡ Result.raise ServiceError.not_found
  unfolding enqueue
  enqueue-foreign h = rw h

  pub enqueue-existing :
      (existing : QueueRow)
      → str_eq co.tenant_id q.tenant_id ≡ true
      → find_item q co.opportunity_id action ≡ some existing
      → enqueue q id now co action actor lane priority available_at max_attempts ≡ (
          if is_active existing.state
          then Result.ok (q, existing, false)
          else Result.raise ServiceError.conflict)
  unfolding enqueue
  enqueue-existing existing t f = ground arith

  -- A success has made the row, or has found an active one and changed nothing.
  pub enqueue-ok :
      {q' : QueueStore} {row : QueueRow} {created : Bool}
      → enqueue q id now co action actor lane priority available_at max_attempts
        ≡ Result.ok (q', row, created)
      → (str_eq co.tenant_id q.tenant_id ≡ true)
        × (((created ≡ true)
              × (find_item q co.opportunity_id action ≡ none)
              × (row ≡ new_item q id now co action lane priority available_at max_attempts)
              × (q'.rows ≡ q.rows ++ row ∷ [])
              × (q'.tenant_id ≡ q.tenant_id))
            ⊎ ((created ≡ false)
                × (q' ≡ q)
                × (find_item q co.opportunity_id action ≡ some row)
                × (is_active row.state ≡ true)))
  unfolding enqueue
  enqueue-ok h = ground arith

abbrev has_key : QueueStore → String → QueueRow → Bool
has_key q key r = str_eq r.tenant_id q.tenant_id && str_eq r.idempotency_key key

-- The tenant has at most one row for each key.
pub record HasOneRowPerKey (q : QueueStore) : Type 0 where
  pub at_key : (key : String) → key_count q key ≤ 1

-- One more row: at most one for each key, if its key was free.
added :
    (q : QueueStore) (row : QueueRow) (key : String)
    → find_first (has_key q row.idempotency_key) q.rows ≡ none
    → count_of (has_key q key) q.rows ≤ 1
    → count_of (has_key q key) (q.rows ++ row ∷ []) ≤ 1
added q row key free h = elim (Bool-cases (str_eq row.idempotency_key key)) [
  | inl same ↦
      let e : row.idempotency_key ≡ key = (eq_iff row.idempotency_key key).0 same in
      rw (count_of-append (has_key q key) q.rows (row ∷ []))
        (let z = count_of-find_none (has_key q key) q.rows (rw e at free) in ground (arith, z))
  | inr other ↦ rw (count_of-append (has_key q key) q.rows (row ∷ [])) (ground arith)
]

-- The row that was added is found under its key.
found_added :
    (q : QueueStore) (row : QueueRow) (key : String)
    → row.tenant_id ≡ q.tenant_id
    → row.idempotency_key ≡ key
    → find_first (has_key q key) q.rows ≡ none
    → find_first (has_key q key) (q.rows ++ row ∷ []) ≡ some row
found_added q row key t k free =
    find_first-append (has_key q key) q.rows (row ∷ []) free
    ∙ ground
        (arith, t, k, (eq_iff row.tenant_id q.tenant_id).1 t, (eq_iff row.idempotency_key key).1 k)

module _ (q : QueueStore) (id : String) (now : ℕ) (co : CandidateOpportunityRow)
    (action : QueueAction) (actor : String) (lane : Lane) (priority available_at : Option ℕ)
    (max_attempts : ℕ) {q' : QueueStore} {row : QueueRow} {created : Bool}
    (h : enqueue q id now co action actor lane priority available_at max_attempts
      ≡ Result.ok (q', row, created)) where
  -- An enqueue that succeeds keeps at most one row of the tenant for each idempotency key.
  pub enqueue-HasOneRowPerKey : HasOneRowPerKey q → HasOneRowPerKey q'
  unfolding key_count new_item find_item
  enqueue-HasOneRowPerKey one = record {
    at_key = λ key.
        elim (enqueue-ok q id now co action actor lane priority available_at max_attempts h).1 [
          | inl (c, free, e, rows, tenant) ↦
              rw (rows, tenant) (added q row key (rw e free) (one.at_key key))
          | inr (c, same, found, active) ↦ rw same (one.at_key key)
        ];
  }

  found_again :
      (find_item q' co.opportunity_id action ≡ some row)
      × (is_active row.state ≡ true)
      × (q'.tenant_id ≡ q.tenant_id)
  unfolding find_item new_item
  found_again =
      elim (enqueue-ok q id now co action actor lane priority available_at max_attempts h).1 [
        | inl (c, free, e, rows, tenant) ↦ (
          rw (rows, tenant)
              (found_added q row (idempotency_key q.tenant_id co.opportunity_id action) (rw e)
                (rw e) free),
          rw e,
          tenant,
        )
        | inr (c, same, found, active) ↦ (rw same found, active, rw same)
      ]

  -- After an enqueue that succeeds, a second request for the same work gives the row of the first and
  -- writes nothing.
  pub enqueue-again :
      (id' : String) (now' : ℕ) (actor' : String) (lane' : Lane)
      (priority' available_at' : Option ℕ) (max_attempts' : ℕ)
      → enqueue q' id' now' co action actor' lane' priority' available_at' max_attempts'
        ≡ Result.ok (q', row, false)
  enqueue-again id' now' actor' lane' priority' available_at' max_attempts' =
      let (found, active, tenant) = found_again in
      let mine =
        (enqueue-ok q id now co action actor lane priority available_at max_attempts h).0 in
      enqueue-existing q' id' now' co action actor' lane' priority' available_at' max_attempts' row
        (rw tenant mine) found
      ∙ rw active
