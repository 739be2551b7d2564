-- ===== src/Pipeline/Queue/Claim.antt =====
-- app/pipeline/queue.py: claiming, leases and parking. A claim reads a row and then updates it under a
-- guard; the two steps are separate functions, since other workers may write in between.
use Prim.Native.String
use range_apply.Common.{
  Bool, List, Option, String, [], false, find_first, if◌then◌else◌, keep, leb, length, ltb, none,
  not, some, str_eq, take, true, ℕ, ◌&&◌, ◌+◌, ◌==◌, ◌||◌, ◌∷◌,
}
use range_apply.Core.Texts.{decimal, opt_eq}
use range_apply.Pipeline.Models.{
  EligibilityDecision, Lane, QueueAction, QueueState, action_place, lane_place, queue_place,
}
use range_apply.Pipeline.Queue.{QueueStore, commit_change}
use range_apply.Pipeline.Rows.{CandidateOpportunityRow, QueueRow}

abbrev pub is_waiting : QueueState → Bool
is_waiting QueueState.pending = true
is_waiting QueueState.retry_wait = true
is_waiting _ = false

abbrev pub is_held : QueueState → Bool
is_held QueueState.claimed = true
is_held QueueState.processing = true
is_held _ = false

-- `lease_expires_at < now`, false for NULL
abbrev pub lease_lapsed : QueueRow → ℕ → Bool
lease_lapsed row now = elim row.lease_expires_at [ none ↦ false | some t ↦ ltb t now ]

-- The `WHERE` of `claim`
abbrev pub is_runnable : ℕ → QueueRow → Bool
is_runnable now row =
    (is_waiting row.state && leb row.available_at now)
    || (is_held row.state && (lease_lapsed row now && ltb row.attempts row.max_attempts))

-- The `WHERE` of `_park_exhausted_leases`
abbrev pub is_exhausted : ℕ → QueueRow → Bool
is_exhausted now row =
    is_held row.state && (lease_lapsed row now && leb row.max_attempts row.attempts)

-- The optional filters on action and lane
abbrev pub in_scope : QueueStore → Option QueueAction → Option Lane → QueueRow → Bool
in_scope q action lane row =
    str_eq row.tenant_id q.tenant_id
    && (elim action [ none ↦ true | some a ↦ action_place row.action == action_place a ]
        && elim lane [ none ↦ true | some l ↦ lane_place row.lane == lane_place l ])

-- `_ELIGIBILITY_TIER`, over the outer join with the candidate opportunity
abbrev pub tier_of : Option CandidateOpportunityRow → ℕ
tier_of none = 0
tier_of (some co) = elim co.eligibility_status [
  | none ↦ 0
  | some d ↦ elim d [ EligibilityDecision.uncertain ↦ 1 | _ ↦ 0 ]
]

pub eligibility_tier : QueueStore → QueueRow → ℕ
eligibility_tier q row =
    tier_of (find_first (λ c. str_eq c.id row.candidate_opportunity_id) q.candidates)

-- `ORDER BY tier, priority DESC, available_at, created_at`: whether `a` may stand before `b`
unfoldable pub comes_before : (QueueRow → ℕ) → QueueRow → QueueRow → Bool
comes_before tier a b =
    ltb (tier a) (tier b)
    || (tier a == tier b
        && (ltb b.priority a.priority
            || (b.priority == a.priority
                && (ltb a.available_at b.available_at
                    || (a.available_at == b.available_at && leb a.created_at b.created_at)))))

unfoldable pub insert_row : (QueueRow → ℕ) → QueueRow → List QueueRow → List QueueRow
insert_row tier row [] = row ∷ []
insert_row tier row (r ∷ rs) =
    if comes_before tier row r then row ∷ r ∷ rs else r ∷ insert_row tier row rs

unfoldable pub order_rows : (QueueRow → ℕ) → List QueueRow → List QueueRow
unfolding insert_row
order_rows tier [] = []
order_rows tier (r ∷ rs) = insert_row tier r (order_rows tier rs)

-- The rows that `claim` reads
unfoldable pub select_runnable :
    QueueStore → ℕ → Option QueueAction → Option Lane → ℕ → List QueueRow
unfolding order_rows
select_runnable q now action lane limit = take limit (
    order_rows (eligibility_tier q)
      (keep (λ r. in_scope q action lane r && is_runnable now r) q.rows))

-- The guard of a claim: the stored row still has the state and the owner that were read.
abbrev pub is_unchanged : QueueRow → QueueRow → Bool
is_unchanged seen row =
    str_eq row.id seen.id
    && ((queue_place row.state == queue_place seen.state) && opt_eq row.claimed_by seen.claimed_by)

abbrev pub claimed_row : ℕ → String → ℕ → QueueRow → QueueRow
claimed_row now worker_id lease_seconds row = record row {
  state = QueueState.claimed;
  claimed_by = some worker_id;
  claimed_at = some now;
  lease_expires_at = some (now + lease_seconds);
  attempts = row.attempts + 1;
}

-- The guarded `UPDATE` of `claim` for the row `seen`, and its audit event; `none` when it is lost.
unfoldable pub claim_seen :
    QueueStore → ℕ → String → ℕ → String → QueueRow → QueueStore × Option QueueRow
unfolding commit_change
claim_seen q now worker_id lease_seconds event seen = elim (find_first (is_unchanged seen) q.rows) [
  | none ↦ (q, none)
  | some row ↦
      let row' = claimed_row now worker_id lease_seconds row in
      (commit_change q seen row' event worker_id none, some row')
]

-- The loop of `claim` over the rows read.
unfoldable pub claim_all : QueueStore → ℕ → String → ℕ → List QueueRow → QueueStore × List QueueRow
unfolding claim_seen
claim_all q now worker_id lease_seconds [] = (q, [])
claim_all q now worker_id lease_seconds (seen ∷ rest) =
    let event = if is_held seen.state then "reclaimed" else "claimed" in
    let (q', won) = claim_seen q now worker_id lease_seconds event seen in
    let (q'', more) = claim_all q' now worker_id lease_seconds rest in
    (q'', elim won [ none ↦ more | some row ↦ row ∷ more ])

-- `f"worker lost on all {row.max_attempts} attempts (lease expired); parked for review"`
unfoldable pub lost_reason : ℕ → String
lost_reason max_attempts =
    String.◌++◌ "worker lost on all "
      (String.◌++◌ (decimal max_attempts) " attempts (lease expired); parked for review")

-- `_park_exhausted`: the store, and whether the guarded update hit the row
unfoldable pub park_exhausted : QueueStore → QueueRow → ℕ → String → QueueStore × Bool
unfolding commit_change
park_exhausted q seen now actor =
    elim (find_first (λ r. is_unchanged seen r && lease_lapsed r now) q.rows) [
      | none ↦ (q, false)
      | some row ↦
          let row' : QueueRow = record row {
            state = QueueState.needs_review;
            claimed_by = none;
            lease_expires_at = none;
            last_error = some (lost_reason seen.max_attempts);
          } in
          (
            commit_change q seen row' "attempts_exhausted" actor
                (some (lost_reason seen.max_attempts)),
            true,
          )
    ]

unfoldable pub park_all : QueueStore → ℕ → List QueueRow → QueueStore
unfolding park_exhausted
park_all q now [] = q
park_all q now (seen ∷ rest) = park_all (park_exhausted q seen now "system").0 now rest

-- `_park_exhausted_leases`; its count is not used
unfoldable pub park_exhausted_leases :
    QueueStore → ℕ → Option QueueAction → Option Lane → QueueStore
unfolding park_all
park_exhausted_leases q now action lane =
    park_all q now (keep (λ r. in_scope q action lane r && is_exhausted now r) q.rows)

-- `claim`
unfoldable pub claim :
    QueueStore → ℕ → String → Option QueueAction → Option Lane → ℕ → ℕ → QueueStore × List QueueRow
unfolding park_exhausted_leases select_runnable claim_all
claim q now worker_id action lane limit lease_seconds =
    let parked = park_exhausted_leases q now action lane in
    claim_all parked now worker_id lease_seconds (select_runnable parked now action lane limit)

-- `claim_item` on the row `seen`, as the session read it
unfoldable pub claim_item : QueueStore → ℕ → QueueRow → String → ℕ → QueueStore × Option QueueRow
unfolding claim_seen park_exhausted
claim_item q now seen worker_id lease_seconds =
    if is_held seen.state && opt_eq seen.claimed_by (some worker_id)
    then (q, some seen)
    else if not (
        (is_waiting seen.state && leb seen.available_at now)
        || (is_held seen.state && lease_lapsed seen now))
    then (q, none)
    else if is_held seen.state && leb seen.max_attempts seen.attempts
    then ((park_exhausted q seen now "system").0, none)
    else claim_seen q now worker_id lease_seconds "claimed" seen

-- `reclaim_expired`: its loop, and the count that it returns
unfoldable pub reclaim_all : QueueStore → ℕ → String → List QueueRow → QueueStore
unfolding park_exhausted
reclaim_all q now actor [] = q
reclaim_all q now actor (row ∷ rest) =
    let parked = (park_exhausted q row now actor).0 in
    let row' : QueueRow = record row {
      state = QueueState.pending;
      claimed_by = none;
      claimed_at = none;
      lease_expires_at = none;
    } in
    let freed = commit_change q row row' "lease_expired" actor none in
    reclaim_all (if leb row.max_attempts row.attempts then parked else freed) now actor rest

unfoldable pub reclaim_expired : QueueStore → ℕ → String → QueueStore × ℕ
unfolding reclaim_all
reclaim_expired q now actor =
    let lapsed =
      keep (λ r. str_eq r.tenant_id q.tenant_id && (is_held r.state && lease_lapsed r now))
        q.rows in
    (reclaim_all q now actor lapsed, length lapsed)
