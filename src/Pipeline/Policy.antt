-- ===== src/Pipeline/Policy.antt =====
-- app/pipeline/policy.py and the policy of app/pipeline/models.py. The readable `reason` texts are not
-- modelled; a dictionary by band has the band's value as its key.
pub mod Bands
use range_apply.Common.{
  Bool, List, Option, String, [], any_of, dict_get, if◌then◌else◌, leb, ltb, none, or_else, some, ℕ,
  ◌+◌, ◌-◌, ◌==◌, ◌∷◌,
}
use range_apply.Pipeline.Models.{
  DuplicatePolicy, EligibilityDecision, FitBand, Lane, TailoringLevel, band_place,
}

abbrev pub band_value : FitBand → String
band_value FitBand.high = "HIGH"
band_value FitBand.medium = "MEDIUM"
band_value FitBand.low = "LOW"

-- The parts of `ApplicationPolicy` that the decisions read.
pub record ApplicationPolicy : Type 0 where
  pub tenant_id : String
  pub enabled_bands : List FitBand
  pub band_thresholds : List (String × ℕ)
  pub daily_cap : ℕ
  pub weekly_cap : ℕ
  pub tailoring_by_band : List (String × TailoringLevel)
  pub lane_by_band : List (String × Lane)
  pub cover_letter_by_band : List (String × String)
  pub cooldown_days : ℕ
  pub blocked_companies : List String
  pub minimum_eligibility : EligibilityDecision
  pub duplicate_policy : DuplicatePolicy
  pub minimum_fit_score : Option ℕ
  pub timezone : String
  pub version : ℕ

abbrev pub default_high : ℕ
default_high = 70

abbrev pub default_medium : ℕ
default_medium = 45

-- `thresholds or DEFAULT_BAND_THRESHOLDS`: an empty dictionary is false, and both keys default.
abbrev pub high_threshold : List (String × ℕ) → ℕ
high_threshold thresholds = or_else (dict_get "HIGH" thresholds) default_high

abbrev pub medium_threshold : List (String × ℕ) → ℕ
medium_threshold thresholds = or_else (dict_get "MEDIUM" thresholds) default_medium

-- `band_for`
unfoldable pub band_for : Option ℕ → List (String × ℕ) → Option FitBand
band_for none thresholds = none
band_for (some fit_score) thresholds =
    if ltb (high_threshold thresholds) fit_score
    then some FitBand.high
    else if leb (medium_threshold thresholds) fit_score
    then some FitBand.medium
    else some FitBand.low

-- `FitBandRange`
pub record FitBandRange : Type 0 where
  pub band : FitBand
  pub min_score : ℕ
  pub max_score : ℕ
  pub enabled : Bool
  pub lane : Lane
  pub tailoring_level : TailoringLevel
  pub cover_letter : String

-- `FitBandConfig`
pub record FitBandConfig : Type 0 where
  pub tenant_id : String
  pub version : ℕ
  pub high : ℕ
  pub medium : ℕ
  pub enabled_bands : List FitBand
  pub bands : List FitBandRange
  pub minimum_fit_score : Option ℕ

abbrev pub is_enabled : ApplicationPolicy → FitBand → Bool
is_enabled policy band = any_of (λ b. band_place b == band_place band) policy.enabled_bands

abbrev pub lane_for : ApplicationPolicy → FitBand → Lane
lane_for policy band = or_else (dict_get (band_value band) policy.lane_by_band) Lane.review

abbrev pub tailoring_for : ApplicationPolicy → FitBand → TailoringLevel
tailoring_for policy band =
    or_else (dict_get (band_value band) policy.tailoring_by_band) TailoringLevel.l0

abbrev pub band_range : ApplicationPolicy → FitBand → ℕ → ℕ → FitBandRange
band_range policy band lo hi = record {
  band = band;
  min_score = lo;
  max_score = hi;
  enabled = is_enabled policy band;
  lane = lane_for policy band;
  tailoring_level = tailoring_for policy band;
  cover_letter = or_else (dict_get (band_value band) policy.cover_letter_by_band) "DISABLED";
}

-- `fit_band_config`; `medium - 1` stops at 0 as `max(medium - 1, 0)` does
unfoldable pub fit_band_config : ApplicationPolicy → FitBandConfig
fit_band_config policy =
    let high = high_threshold policy.band_thresholds in
    let medium = medium_threshold policy.band_thresholds in
    record {
      tenant_id = policy.tenant_id;
      version = policy.version;
      high = high;
      medium = medium;
      enabled_bands = policy.enabled_bands;
      bands =
          band_range policy FitBand.high (high + 1) 100
          ∷ band_range policy FitBand.medium medium high
          ∷ band_range policy FitBand.low 0 (medium - 1)
          ∷ [];
      minimum_fit_score = policy.minimum_fit_score;
    }
