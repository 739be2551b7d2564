-- ===== src/Scheduler/Caps/Limit.antt =====
-- app/scheduler/caps.py: how many reservations of one day and week succeed.
use range_apply.Common.{
  Bool-cases, arith, eq_refl, false, if◌then◌else◌, inl, inr, is_some, leb, ltb, suc, true, zero, ℕ,
  ◌+◌, ◌-◌, ◌≡◌,
}
use range_apply.Scheduler.Caps.{CapLedger, PeriodKeys, PeriodKind, reserve_slots, usage}
use range_apply.Scheduler.Caps.Ensure.{IsKeyedLedger}
use range_apply.Scheduler.Caps.Reserve.{
  refusal, reserve_slots-IsKeyedLedger, reserve_slots-reason, usage-reserve_slots,
}

abbrev pub smaller : ℕ → ℕ → ℕ
smaller a b = if leb a b then a else b

granted_round :
    (n d w u v : ℕ)
    → ltb u d ≡ true
    → ltb v w ≡ true
    → smaller n (smaller (d - (u + 1)) (w - (v + 1))) + 1
      ≡ smaller (suc n) (smaller (d - u) (w - v))
granted_round n d w u v hu hv = ground (arith, hu, hv)

refused_round :
    (n d w u v : ℕ)
    → is_some (refusal d w u v) ≡ true
    → smaller n (smaller (d - u) (w - v)) ≡ smaller (suc n) (smaller (d - u) (w - v))
refused_round n d w u v h = ground (arith, h)

room_left : (d w u v : ℕ) → is_some (refusal d w u v) ≡ false → (ltb u d ≡ true) × (ltb v w ≡ true)
room_left d w u v h = (ground (arith, h), ground (arith, h))

module _ (keys : PeriodKeys) (d w : ℕ) where
  -- `n` reservations in a row, and how many of them succeed.
  unfoldable pub reserve_times : ℕ → CapLedger → CapLedger × ℕ
  reserve_times zero l = (l, 0)
  reserve_times (suc n) l =
      let (l', reason) = reserve_slots l keys d w in
      let (l'', granted) = reserve_times n l' in
      (l'', if is_some reason then granted else granted + 1)

  -- On a table with one row a period, of any number of reservations in a row as many succeed as both
  -- caps leave room for.
  pub reserve_times_granted :
      (n : ℕ) (l : CapLedger)
      → IsKeyedLedger l
      → (reserve_times n l).1
        ≡ smaller n (
            smaller
              (d - usage l PeriodKind.day keys.day_key)
              (w - usage l PeriodKind.week keys.week_key))
  unfolding reserve_times
  reserve_times_granted zero l keyed = ground arith
  reserve_times_granted (suc n) l keyed =
      let rest =
        reserve_times_granted n (reserve_slots l keys d w).0
          (reserve_slots-IsKeyedLedger l keys d w keyed) in
      let reason = reserve_slots-reason l keys d w keyed in
      let day = usage-reserve_slots l keys d w keyed PeriodKind.day keys.day_key in
      let week = usage-reserve_slots l keys d w keyed PeriodKind.week keys.week_key in
      let u = usage l PeriodKind.day keys.day_key in
      let v = usage l PeriodKind.week keys.week_key in
      rw (rest, day, week, reason)
        (rw (eq_refl keys.day_key, eq_refl keys.week_key)
          (elim (Bool-cases (is_some (refusal d w u v))) [
            | inl full ↦ rw full (refused_round n d w u v full)
            | inr free ↦
                let (hu, hv) = room_left d w u v free in rw free (granted_round n d w u v hu hv)
          ]))
