-- ===== src/Execution/Recovery/Leases.antt =====
-- app/execution/service.py: the recovery gives no item a live lease.
use range_apply.Application.Rows.{ApplicationRow}
use range_apply.Common.{
  Bool, Bool-cases, List, Option, Option-cases, String, [], arith, eq_iff, false, find_first,
  find_first-passes, if◌then◌else◌, inl, inr, none, refl, some, str_eq, true, ℕ, ◌&&◌, ◌==◌, ◌||◌,
  ◌∙◌, ◌∷◌, ◌≡◌,
}
use range_apply.Core.Errors.{Result}
use range_apply.Core.Texts.{clip}
use range_apply.Execution.Recovery.{
  force_attempt, is_held_item, is_live, item_of, reclaim_item, recover_early, recover_invoked,
  review_item,
}
use range_apply.Execution.Runs.{ExecutionRunRow, ExecutionStore, audit}
use range_apply.Pipeline.Models.{QueueState, queue_place}
use range_apply.Pipeline.Queue.{QueueStore, commit_change, get_item, record_event, save}
use range_apply.Pipeline.Queue.Outcomes.{needs_review}
use range_apply.Pipeline.Rows.{QueueRow}
use range_apply.Scheduler.Attempts.{transition}
use range_apply.Scheduler.Attempts.Held.{held}

-- A lease that is live in the second queue was live in the first.
pub record IsQuiet (q q' : QueueStore) : Type 0 where
  pub tenant_id : q'.tenant_id ≡ q.tenant_id
  pub lease :
      (now : ℕ) (id : String)
      → is_live (get_item q' id) now ≡ true
      → is_live (get_item q id) now ≡ true

pub IsQuiet-self : (q : QueueStore) → IsQuiet q q
IsQuiet-self q = record { tenant_id = refl; lease = λ now id h. h }

pub IsQuiet-trans : {a b c : QueueStore} → IsQuiet a b → IsQuiet b c → IsQuiet a c
IsQuiet-trans x y = record {
  tenant_id = y.tenant_id ∙ x.tenant_id;
  lease = λ now id h. x.lease now id (y.lease now id h);
}

unheld_lease :
    (row : QueueRow) (now : ℕ) → is_held_item row ≡ false → is_live (some row) now ≡ false
unfolding is_live
unheld_lease row now free = ground (arith, free)

-- The write of a row that nobody holds gives no key a live lease.
save-lease :
    (t id : String) (now : ℕ) (row' : QueueRow) (rows : List QueueRow)
    → str_eq row'.tenant_id t ≡ true
    → is_held_item row' ≡ false
    → is_live (find_first (λ r. str_eq r.tenant_id t && str_eq r.id id) (save row' rows)) now ≡ true
    → is_live (find_first (λ r. str_eq r.tenant_id t && str_eq r.id id) rows) now ≡ true
unfolding save
save-lease t id now row' [] own free h = h
save-lease t id now row' (r ∷ rs) own free h =
    let p : QueueRow → Bool = λ x. str_eq x.tenant_id t && str_eq x.id id in
    elim (Bool-cases (str_eq r.id row'.id)) [
      | inl mine ↦
          let e : r.id ≡ row'.id = (eq_iff r.id row'.id).0 mine in
          elim (Bool-cases (p row')) [
            | inl found ↦ absurd (ground (arith, h, mine, found, unheld_lease row' now free))
            | inr passed ↦
                let far : str_eq r.id id ≡ false = rw e (ground (arith, passed, own)) in
                let passed' : p r ≡ false = ground (arith, far) in
                rw passed' (rw passed at (rw mine at h))
          ]
      | inr other ↦ elim (Bool-cases (p r)) [
        | inl found ↦ rw found (rw found at (rw other at h))
        | inr passed ↦
            rw passed (save-lease t id now row' rs own free (rw passed at (rw other at h)))
      ]
    ]

commit_change-IsQuiet :
    (q : QueueStore) (row row' : QueueRow) (action actor : String) (summary : Option String)
    → str_eq row.tenant_id q.tenant_id ≡ true
    → row'.tenant_id ≡ row.tenant_id
    → is_held_item row' ≡ false
    → IsQuiet q (commit_change q row row' action actor summary)
unfolding commit_change record_event get_item
commit_change-IsQuiet q row row' action actor summary own same free = record {
  tenant_id = refl;
  lease = λ now id h. save-lease q.tenant_id id now row' q.rows (rw same own) free h;
}

-- The item of a run is the tenant's.
pub item_of-own :
    (s : ExecutionStore) (run : ExecutionRunRow) {item : QueueRow}
    → item_of s run ≡ some item
    → str_eq item.tenant_id s.queue.tenant_id ≡ true
unfolding item_of get_item
item_of-own s run {item} h = elim (Option-cases run.queue_item_id) [
  | inl gone ↦ absurd (ground (arith, h, gone))
  | inr (key, named) ↦ elim (Bool-cases (str_eq key "")) [
    | inl blank ↦ absurd (ground (arith, h, named, blank))
    | inr real ↦
        let p : QueueRow → Bool = λ r. str_eq r.tenant_id s.queue.tenant_id && str_eq r.id key in
        let found : find_first p s.queue.rows ≡ some item = ground (arith, h, named, real) in
        ground (arith, find_first-passes p s.queue.rows found)
  ]
]

-- The queue after `review_item` and after `reclaim_item`
abbrev pub reviewed_queue : QueueStore → Option QueueRow → String → String → QueueStore
reviewed_queue q none actor reason = q
reviewed_queue q (some item) actor reason =
    if (queue_place item.state == queue_place QueueState.succeeded)
      || ((queue_place item.state == queue_place QueueState.cancelled)
          || (queue_place item.state == queue_place QueueState.needs_review))
    then q
    else commit_change q item
        (record item {
          state = QueueState.needs_review;
          last_error = some (clip 2000 (some reason));
          lease_expires_at = none;
          claimed_by = none;
        })
        "needs_review" actor (some reason)

module _ (s : ExecutionStore) (run : ExecutionRunRow) (attempt : ApplicationRow) (now : ℕ)
    (item : Option QueueRow) where
  pub recover_invoked-queue :
      {s' : ExecutionStore}
      → recover_invoked s run item attempt now ≡ Result.ok s'
      → s'.queue
        ≡ reviewed_queue s.queue item s.actor
            "awaiting verification: worker was lost after pressing submit"
  unfolding recover_invoked force_attempt transition audit review_item needs_review
  recover_invoked-queue h = ground (arith, h)

  pub recover_early-queue :
      {s' : ExecutionStore}
      → recover_early s run item attempt now ≡ Result.ok s'
      → s'.queue ≡ (reclaim_item s item now).queue
  unfolding recover_early force_attempt transition audit reclaim_item
  recover_early-queue h = ground (arith, h)

pub reviewed_queue-IsQuiet :
    (q : QueueStore) (item : Option QueueRow) (actor reason : String)
    → ((i : QueueRow) → item ≡ some i → str_eq i.tenant_id q.tenant_id ≡ true)
    → IsQuiet q (reviewed_queue q item actor reason)
reviewed_queue-IsQuiet q none actor reason own = IsQuiet-self q
reviewed_queue-IsQuiet q (some item) actor reason own =
    let settled : Bool =
      (queue_place item.state == queue_place QueueState.succeeded)
      || ((queue_place item.state == queue_place QueueState.cancelled)
          || (queue_place item.state == queue_place QueueState.needs_review)) in
    elim (Bool-cases settled) [
      | inl done ↦ rw done (IsQuiet-self q)
      | inr waits ↦ rw waits (
          commit_change-IsQuiet q item _ "needs_review" actor (some reason) (own item refl) refl
            refl)
    ]

pub reclaim_item-IsQuiet :
    (s : ExecutionStore) (item : Option QueueRow) (now : ℕ)
    → ((i : QueueRow) → item ≡ some i → str_eq i.tenant_id s.queue.tenant_id ≡ true)
    → IsQuiet s.queue (reclaim_item s item now).queue
unfolding reclaim_item
reclaim_item-IsQuiet s none now own = IsQuiet-self s.queue
reclaim_item-IsQuiet s (some item) now own = elim (Bool-cases (is_held_item item)) [
  | inl held ↦ rw held (
      commit_change-IsQuiet s.queue item _ "lease_expired" s.actor
        (some "worker lost before submit") (own item refl) refl refl)
  | inr free ↦ rw free (IsQuiet-self s.queue)
]

-- A live lease of a run's item after a round was one before.
pub item_of-lease :
    (s s' : ExecutionStore) (run : ExecutionRunRow) (now : ℕ)
    → IsQuiet s.queue s'.queue
    → is_live (item_of s' run) now ≡ true
    → is_live (item_of s run) now ≡ true
unfolding item_of
item_of-lease s s' run now quiet h = elim (Option-cases run.queue_item_id) [
  | inl gone ↦ rw gone (rw gone at h)
  | inr (key, named) ↦ elim (Bool-cases (str_eq key "")) [
    | inl blank ↦ rw (named, blank) (rw (named, blank) at h)
    | inr real ↦ rw (named, real) (quiet.lease now key (rw (named, real) at h))
  ]
]
