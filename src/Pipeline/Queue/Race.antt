-- ===== src/Pipeline/Queue/Race.antt =====
-- app/pipeline/queue.py: two workers that read one row before either of them updates it.
use range_apply.Common.{
  Bool-cases, List, String, [], ap, arith, count_of, count_of-found, eq_iff, false, find_first,
  find_first-count_zero, find_first-passes, inl, inr, none, or_else, refl, some, str_eq, sym, true,
  ℕ, ◌∙◌, ◌∷◌, ◌≡◌, ◌≤◌, ◌⊎◌,
}
use range_apply.Core.Texts.{opt_eq, opt_eq_self}
use range_apply.Pipeline.Models.{QueueState}
use range_apply.Pipeline.Queue.{QueueStore, save}
use range_apply.Pipeline.Queue.Claim.{claim_seen, claimed_row, is_unchanged, is_waiting}
use range_apply.Pipeline.Rows.{QueueRow}

-- The row read has one owner at most: no other row of the table has its primary key.
abbrev pub IsUniqueId : QueueStore → String → Type 0
IsUniqueId q j = count_of (λ r. str_eq r.id j) q.rows ≤ 1

unchanged_id : (seen row : QueueRow) → is_unchanged seen row ≡ true → str_eq row.id seen.id ≡ true
unchanged_id seen row h = ground arith

-- After the write of a row that the guard refuses, the guard finds no row.
save_refused :
    (seen row row' : QueueRow) (rows : List QueueRow)
    → count_of (λ r. str_eq r.id seen.id) rows ≤ 1
    → find_first (is_unchanged seen) rows ≡ some row
    → row'.id ≡ row.id
    → is_unchanged seen row' ≡ false
    → find_first (is_unchanged seen) (save row' rows) ≡ none
unfolding save
save_refused seen row row' [] c f e u = refl
save_refused seen row row' (r ∷ rs) c f e u = elim (Bool-cases (is_unchanged seen r)) [
  | inl hit ↦
      let same : some r ≡ some row = rw hit at f in
      let ids : r.id ≡ row'.id = ap (λ o. (or_else o r).id) same ∙ sym e in
      let last : count_of (λ x. str_eq x.id seen.id) rs ≡ 0 =
        let one = unchanged_id seen r hit in omega (arith, (rw one at c)) in
      rw ((eq_iff r.id row'.id).1 ids) (
        rw u (
          find_first-count_zero (is_unchanged seen) (λ x. str_eq x.id seen.id) (unchanged_id seen)
            rs last))
  | inr miss ↦
      let rest : find_first (is_unchanged seen) rs ≡ some row = rw miss at f in
      let held = unchanged_id seen row (find_first-passes (is_unchanged seen) rs rest) in
      let more =
        count_of-found (is_unchanged seen) (λ x. str_eq x.id seen.id) (unchanged_id seen) rs rest in
      elim (Bool-cases (str_eq r.id row'.id)) [
        | inl same ↦
            let id : r.id ≡ seen.id =
              (eq_iff r.id row'.id).0 same ∙ e ∙ (eq_iff row.id seen.id).0 held in
            let first = (eq_iff r.id seen.id).1 id in absurd (omega (arith, more, (rw first at c)))
        | inr other ↦
            rw other (rw miss (save_refused seen row row' rs (ground (arith, c)) rest e u))
      ]
]

module _ (q : QueueStore) (now : ℕ) (w : String) (lease : ℕ) (event : String) (seen : QueueRow)
    {q' : QueueStore} {won : QueueRow}
    (h : claim_seen q now w lease event seen ≡ (q', some won)) where
  -- What a claim that wins has written.
  pub claim_seen-won :
      (row : QueueRow) × (find_first (is_unchanged seen) q.rows ≡ some row)
      × (won ≡ claimed_row now w lease row)
      × (q'.rows ≡ save won q.rows)
  unfolding claim_seen
  claim_seen-won = ground arith

-- A claim whose guard finds no row writes nothing.
pub claim_seen-lost :
    (q : QueueStore) (now : ℕ) (w : String) (lease : ℕ) (event : String) (seen : QueueRow)
    → find_first (is_unchanged seen) q.rows ≡ none
    → claim_seen q now w lease event seen ≡ (q, none)
unfolding claim_seen
claim_seen-lost q now w lease event seen h = ground arith

module _ (q : QueueStore) (seen : QueueRow) (now now' : ℕ) (w w' : String) (lease lease' : ℕ)
    (event event' : String) {q' : QueueStore} {won : QueueRow} where
  -- When two workers claim by one reading of a row and the first gets it, the second gets nothing and
  -- writes nothing, if the row's id is unique and the row was read waiting or held by a worker other
  -- than the first.
  pub claim_seen-once :
      IsUniqueId q seen.id
      → (is_waiting seen.state ≡ true) ⊎ (opt_eq (some w) seen.claimed_by ≡ false)
      → claim_seen q now w lease event seen ≡ (q', some won)
      → claim_seen q' now' w' lease' event' seen ≡ (q', none)
  claim_seen-once unique fresh h =
      let (row, found, e, rows) = claim_seen-won q now w lease event seen h in
      claim_seen-lost q' now' w' lease' event' seen (
        rw rows
          (save_refused seen row won q.rows unique found (rw e) (rw e (ground (arith, fresh)))))

-- After the write of a row that the guard accepts, the guard finds it.
save_accepted :
    (seen row row' : QueueRow) (rows : List QueueRow)
    → find_first (is_unchanged seen) rows ≡ some row
    → row'.id ≡ row.id
    → is_unchanged seen row' ≡ true
    → find_first (is_unchanged seen) (save row' rows) ≡ some row'
unfolding save
save_accepted seen row row' [] f e u = absurd (ground arith)
save_accepted seen row row' (r ∷ rs) f e u = elim (Bool-cases (str_eq r.id row'.id)) [
  | inl same ↦ rw same (rw u refl)
  | inr other ↦ elim (Bool-cases (is_unchanged seen r)) [
    | inl hit ↦
        let same : some r ≡ some row = rw hit at f in
        let ids : r.id ≡ row'.id = ap (λ o. (or_else o r).id) same ∙ sym e in
        cc (other, (eq_iff r.id row'.id).1 ids)
    | inr miss ↦ rw other (rw miss (save_accepted seen row row' rs (rw miss at f) e u))
  ]
]

claim_seen-found :
    (q : QueueStore) (now : ℕ) (w : String) (lease : ℕ) (event : String) (seen : QueueRow)
    {row : QueueRow}
    → find_first (is_unchanged seen) q.rows ≡ some row
    → (claim_seen q now w lease event seen).1 ≡ some (claimed_row now w lease row)
unfolding claim_seen
claim_seen-found q now w lease event seen h = ground arith

module _ (q : QueueStore) (seen : QueueRow) (now now' : ℕ) (w w' : String) (lease lease' : ℕ)
    (event event' : String) {q' : QueueStore} {won : QueueRow} where
  -- When a worker gets the claimed item that it already held, the claim of another worker by the same
  -- reading of the row wins too.
  pub claim_seen-twice :
      seen.state ≡ QueueState.claimed
      → seen.claimed_by ≡ some w
      → claim_seen q now w lease event seen ≡ (q', some won)
      → (claim_seen q' now' w' lease' event' seen).1 ≡ some (claimed_row now' w' lease' won)
  claim_seen-twice st owner h =
      let (row, found, e, rows) = claim_seen-won q now w lease event seen h in
      let same_id : won.id ≡ row.id = rw e in
      let id = unchanged_id seen row (find_first-passes (is_unchanged seen) q.rows found) in
      let passes : is_unchanged seen won ≡ true =
        ground (arith, e, st, owner, id, opt_eq_self (some w)) in
      let again : find_first (is_unchanged seen) q'.rows ≡ some won =
        rw rows (save_accepted seen row won q.rows found same_id passes) in
      claim_seen-found q' now' w' lease' event' seen again
