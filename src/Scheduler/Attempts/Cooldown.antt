-- ===== src/Scheduler/Attempts/Cooldown.antt =====
-- app/scheduler/attempts.py: the cool-down of a company, and the index of what was applied to.
use range_apply.Application.Rows.{ApplicationRow}
use range_apply.Common.{
  Bool, List, Option, String, [], any_of, dict_get, dict_set, first_some, if◌then◌else◌, is_some,
  ltb, none, not, or_else, some, str_eq, true, ℕ, ◌&&◌, ◌*◌, ◌+◌, ◌==◌, ◌||◌, ◌∷◌,
}
use range_apply.Pipeline.Rows.{CandidateOpportunityRow, OpportunityRow}
use range_apply.Scheduler.Attempts.{Names, duplicate_key, holds_slot, in_applied, is_submitted}

-- `CooldownIndex`: the ends, and what started them, by normalised company
pub record CooldownIndex : Type 0 where
  pub until : List (String × ℕ)
  pub source : List (String × String)

abbrev pub empty_index : CooldownIndex
empty_index = record { until = []; source = [] }

abbrev pub seconds_per_day : ℕ
seconds_per_day = 86400

-- `CooldownIndex.add`
unfoldable pub add_cooldown : Names → CooldownIndex → String → Option ℕ → ℕ → String → CooldownIndex
add_cooldown names index company none days source = index
add_cooldown names index company (some started) days source =
    let key = names.company_key company in
    let ends = started + days * seconds_per_day in
    let later : Bool = elim (dict_get key index.until) [ none ↦ true | some old ↦ ltb old ends ] in
    if days == 0
    then index
    else if later
    then record { until = dict_set key ends index.until; source = dict_set key source index.source }
    else index

-- `CooldownIndex.active_until`
unfoldable pub active_until : Names → CooldownIndex → String → ℕ → Option ℕ
active_until names index company now = elim (dict_get (names.company_key company) index.until) [
  | none ↦ none
  | some ends ↦ if ltb now ends then some ends else none
]

-- The dictionary of sets of opportunity ids by duplicate key, as the list of its pairs.
abbrev pub DuplicateIndex : Type 0
DuplicateIndex = List (String × String)

-- The rounds of `build_indexes` over the attempts, by opportunity id
unfoldable pub index_attempts :
    Names
    → ℕ
    → List (String × OpportunityRow)
    → List (String × ApplicationRow)
    → CooldownIndex × DuplicateIndex
    → CooldownIndex × DuplicateIndex
unfolding add_cooldown duplicate_key
index_attempts names days opportunities [] acc = acc
index_attempts names days opportunities ((opportunity_id, row) ∷ rest) (cooldown, duplicates) =
    let step : CooldownIndex × DuplicateIndex = elim (dict_get opportunity_id opportunities) [
      | none ↦ (cooldown, duplicates)
      | some opp ↦
          let started = first_some row.submitted_at (first_some row.reserved_at row.updated_at) in
          let cooled =
            if is_submitted row
            then add_cooldown names cooldown opp.company started days "submitted"
            else if holds_slot row
            then add_cooldown names cooldown opp.company row.reserved_at days "in_progress"
            else cooldown in
          (
            cooled,
            if holds_slot row || is_submitted row
                then (duplicate_key names opp.company opp.title, opportunity_id) ∷ duplicates
                else duplicates,
          )
    ] in
    index_attempts names days opportunities rest step

-- The rounds over the candidates with no attempt; `own` is the relation `co.opportunity`
unfoldable pub index_candidates :
    Names
    → ℕ
    → List (String × OpportunityRow)
    → List (String × ApplicationRow)
    → (CandidateOpportunityRow → OpportunityRow)
    → List CandidateOpportunityRow
    → CooldownIndex × DuplicateIndex
    → CooldownIndex × DuplicateIndex
unfolding add_cooldown duplicate_key
index_candidates names days opportunities attempts own [] acc = acc
index_candidates names days opportunities attempts own (co ∷ rest) (cooldown, duplicates) =
    let opp = or_else (dict_get co.opportunity_id opportunities) (own co) in
    let step : CooldownIndex × DuplicateIndex =
      if in_applied co.state && not (is_some (dict_get co.opportunity_id attempts))
      then (
        add_cooldown names cooldown opp.company co.state_changed_at days "state",
        (duplicate_key names opp.company opp.title, co.opportunity_id) ∷ duplicates,
      )
      else (cooldown, duplicates) in
    index_candidates names days opportunities attempts own rest step

-- `build_indexes`
unfoldable pub build_indexes :
    Names
    → List (String × ApplicationRow)
    → List (String × OpportunityRow)
    → (CandidateOpportunityRow → OpportunityRow)
    → List CandidateOpportunityRow
    → ℕ
    → CooldownIndex × DuplicateIndex
unfolding index_attempts index_candidates
build_indexes names attempts opportunities own candidates days =
    index_candidates names days opportunities attempts own candidates
      (index_attempts names days opportunities attempts (empty_index, []))

-- `duplicates.get(key, set()) - {id}` is not empty
unfoldable pub has_other : DuplicateIndex → String → String → Bool
has_other duplicates key opportunity_id =
    any_of (λ p. str_eq p.0 key && not (str_eq p.1 opportunity_id)) duplicates
