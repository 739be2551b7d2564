-- ===== src/Pipeline/Policy/Bands.antt =====
-- app/pipeline/policy.py: the bands of `fit_band_config` against `band_for`.
use range_apply.Common.{
  All, Bool, List, String, any_of, arith, leb, some, true, ℕ, ◌&&◌, ◌<◌, ◌==◌, ◌↔◌, ◌≡◌, ◌≤◌,
}
use range_apply.Pipeline.Models.{FitBand, band_place}
use range_apply.Pipeline.Policy.{
  ApplicationPolicy, FitBandRange, band_for, fit_band_config, high_threshold, medium_threshold,
}

abbrev pub in_range : ℕ → FitBandRange → Bool
in_range score r = leb r.min_score score && leb score r.max_score

-- The range holds exactly the scores that get its band.
abbrev pub IsExact : ApplicationPolicy → ℕ → FitBandRange → Type 0
IsExact policy score r =
    (in_range score r ≡ true) ↔ (band_for (some score) policy.band_thresholds ≡ some r.band)

-- Between 0 and 100, each range of the configuration holds exactly the scores of its band, if the
-- thresholds are in order and the lower one is above 0.
pub fit_band_config-IsExact :
    (policy : ApplicationPolicy) (score : ℕ)
    → 0 < medium_threshold policy.band_thresholds
    → medium_threshold policy.band_thresholds < high_threshold policy.band_thresholds
    → score ≤ 100
    → All (IsExact policy score) (fit_band_config policy).bands
unfolding fit_band_config band_for
fit_band_config-IsExact policy score low order top = ground arith

-- With a lower threshold of 0 the LOW range of the configuration holds the score 0, whose band is
-- MEDIUM.
pub fit_band_config-low_zero :
    (policy : ApplicationPolicy)
    → medium_threshold policy.band_thresholds ≡ 0
    → (any_of
          (λ r. in_range 0 r && (band_place r.band == band_place FitBand.low))
          (fit_band_config policy).bands
        ≡ true)
      × (band_for (some 0) policy.band_thresholds ≡ some FitBand.medium)
unfolding fit_band_config band_for
fit_band_config-low_zero policy zero_medium = ground arith

-- A better score never gets a worse band.
pub band_for_mono :
    (thresholds : List (String × ℕ)) (s t : ℕ) {b c : FitBand}
    → s ≤ t
    → band_for (some s) thresholds ≡ some b
    → band_for (some t) thresholds ≡ some c
    → band_place c ≤ band_place b
unfolding band_for
band_for_mono thresholds s t {b} {c} h hb hc = ground arith
