-- ===== src/Scheduler/Caps.antt =====
-- app/scheduler/caps.py: the ledger of day and week slots. The caps are the policy's, which the API
-- validates to be at least 0; `reserved - released` is compared with a cap above 0 and is read as
-- `max(0, …)`, so the truncated `-` is exact.
pub mod Entries
pub mod Ensure
pub mod Slots
pub mod Reserve
pub mod Limit
pub mod Release
use range_apply.Common.{
  Bool, List, Option, String, [], find_first, if◌then◌else◌, ltb, none, not, some, str_eq, true, ℕ,
  ◌&&◌, ◌++◌, ◌+◌, ◌-◌, ◌==◌, ◌∷◌,
}
use range_apply.Pipeline.Models.{AdmissionReason}

pub data PeriodKind : Type 0 where
  day week : PeriodKind

abbrev pub kind_place : PeriodKind → ℕ
kind_place PeriodKind.day = 0
kind_place PeriodKind.week = 1

-- `ApplicationCapLedgerRow`
pub record LedgerRow : Type 0 where
  pub tenant_id : String
  pub period_kind : PeriodKind
  pub period_key : String
  pub reserved : ℕ
  pub released : ℕ

-- `PeriodKeys`: the keys of the day and of the ISO week, from `zoneinfo` and `datetime`.
pub record PeriodKeys : Type 0 where
  pub day_key : String
  pub week_key : String

-- `CapLedger`: its tenant and the table.
pub record CapLedger : Type 0 where
  pub tenant_id : String
  pub entries : List LedgerRow

abbrev pub is_period : String → PeriodKind → String → LedgerRow → Bool
is_period tenant_id kind key r =
    str_eq r.tenant_id tenant_id
    && ((kind_place r.period_kind == kind_place kind) && str_eq r.period_key key)

-- `_get`
unfoldable pub get_entry : CapLedger → PeriodKind → String → Option LedgerRow
get_entry l kind key = find_first (is_period l.tenant_id kind key) l.entries

-- `usage`
unfoldable pub usage : CapLedger → PeriodKind → String → ℕ
unfolding get_entry
usage l kind key = elim (get_entry l kind key) [ none ↦ 0 | some row ↦ row.reserved - row.released ]

-- `_ensure`: a missing row is made; the cache of rows already seen changes no result.
unfoldable pub ensure : CapLedger → PeriodKind → String → CapLedger
unfolding get_entry
ensure l kind key = elim (get_entry l kind key) [
  | none ↦ record l {
    entries =
        l.entries
        ++ record {
          tenant_id = l.tenant_id;
          period_kind = kind;
          period_key = key;
          reserved = 0;
          released = 0;
        }
          ∷ [];
  }
  | some row ↦ l
]

-- An `UPDATE` of the rows of one period that pass the test, and how many it hit.
unfoldable pub update_period :
    String
    → PeriodKind
    → String
    → (LedgerRow → Bool)
    → (LedgerRow → LedgerRow)
    → List LedgerRow
    → List LedgerRow × ℕ
update_period tenant_id kind key test change [] = ([], 0)
update_period tenant_id kind key test change (r ∷ rs) =
    let (rs', n) = update_period tenant_id kind key test change rs in
    if is_period tenant_id kind key r && test r then (change r ∷ rs', n + 1) else (r ∷ rs', n)

abbrev pub take_slot : LedgerRow → LedgerRow
take_slot r = record r { reserved = r.reserved + 1 }

abbrev pub has_room : ℕ → LedgerRow → Bool
has_room cap r = ltb (r.reserved - r.released) cap

-- `_increment`, with a cap
unfoldable pub increment : CapLedger → PeriodKind → String → ℕ → CapLedger × Bool
unfolding update_period
increment l kind key cap =
    let (entries', n) = update_period l.tenant_id kind key (has_room cap) take_slot l.entries in
    (record l { entries = entries' }, n == 1)

-- `_decrement`
unfoldable pub decrement : CapLedger → PeriodKind → String → CapLedger
unfolding update_period
decrement l kind key = record l {
  entries =
      (update_period l.tenant_id kind key (λ r. true) (λ r. record r { reserved = r.reserved - 1 })
        l.entries).0;
}

-- `reserve`: the ledger, and the reason of a refusal
unfoldable pub reserve_slots : CapLedger → PeriodKeys → ℕ → ℕ → CapLedger × Option AdmissionReason
unfolding ensure increment decrement
reserve_slots l keys daily_cap weekly_cap =
    let ready = ensure (ensure l PeriodKind.day keys.day_key) PeriodKind.week keys.week_key in
    let (l1, day_ok) = increment ready PeriodKind.day keys.day_key daily_cap in
    let (l2, week_ok) = increment l1 PeriodKind.week keys.week_key weekly_cap in
    if daily_cap == 0
    then (l, some AdmissionReason.daily_cap_reached)
    else if weekly_cap == 0
    then (l, some AdmissionReason.weekly_cap_reached)
    else if not day_ok
    then (l1, some AdmissionReason.daily_cap_reached)
    else if not week_ok
    then (decrement l2 PeriodKind.day keys.day_key, some AdmissionReason.weekly_cap_reached)
    else (l2, none)

-- The `UPDATE` of `release` for one period
unfoldable pub give_slot_back : CapLedger → PeriodKind → String → CapLedger
unfolding update_period
give_slot_back l kind key = record l {
  entries =
      (update_period l.tenant_id kind key (λ r. true) (λ r. record r { released = r.released + 1 })
        l.entries).0;
}

-- One round of `release`; an empty key is skipped.
unfoldable pub release_slot : CapLedger → PeriodKind → Option String → CapLedger
unfolding ensure give_slot_back
release_slot l kind none = l
release_slot l kind (some key) =
    if str_eq key "" then l else give_slot_back (ensure l kind key) kind key

-- `release`
unfoldable pub release_slots : CapLedger → Option String → Option String → CapLedger
unfolding release_slot
release_slots l day_key week_key =
    release_slot (release_slot l PeriodKind.day day_key) PeriodKind.week week_key
