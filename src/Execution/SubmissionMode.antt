-- ===== src/Execution/SubmissionMode.antt =====
-- app/execution/submission_mode.py: the SAFE / LIVE switch. The dictionary of the process is the list
-- of its pairs, and the lock makes each operation one step.
use range_apply.Common.{
  Bool, Bool-cases, List, Option, String, [], ap, arith, dict_get, dict_set, eq_iff, eq_refl, false,
  if◌then◌else◌, inl, inr, none, not, or_else, refl, some, str_eq, ℕ, ◌&&◌, ◌||◌, ◌∷◌, ◌≡◌,
}
use range_apply.Core.Errors.{Result, ServiceError}
use range_apply.Core.Texts.{take_chars, text_or}

abbrev pub safe : String
safe = "SAFE"

abbrev pub live : String
live = "LIVE"

-- `ModeState`
pub record ModeState : Type 0 where
  pub mode : String
  pub changed_at : Option ℕ
  pub changed_by : Option String

-- `get_state`
unfoldable pub get_state : List (String × ModeState) → String → ModeState
get_state states tenant_id =
    or_else (dict_get tenant_id states)
      (record { mode = safe; changed_at = none; changed_by = none })

-- `is_live_enabled`
unfoldable pub is_live_enabled : List (String × ModeState) → Option String → Bool
is_live_enabled states none = false
is_live_enabled states (some tenant_id) =
    not (str_eq tenant_id "") && str_eq (get_state states tenant_id).mode live

-- `set_mode`, with the clock
unfoldable pub set_mode :
    List (String × ModeState)
    → String
    → String
    → String
    → ℕ
    → Result (List (String × ModeState) × ModeState)
set_mode states tenant_id mode actor now =
    let state : ModeState = record {
      mode = mode;
      changed_at = some now;
      changed_by = some (take_chars 64 (text_or actor "unknown"));
    } in
    if str_eq tenant_id ""
    then Result.raise ServiceError.value_error
    else if not (str_eq mode safe || str_eq mode live)
    then Result.raise ServiceError.value_error
    else Result.ok (dict_set tenant_id state states, state)

-- `enable_live`, `set_safe` and `reset`
abbrev pub enable_live :
    List (String × ModeState) → String → String → ℕ → Result (List (String × ModeState) × ModeState)
enable_live states tenant_id actor now = set_mode states tenant_id live actor now

abbrev pub set_safe :
    List (String × ModeState) → String → String → ℕ → Result (List (String × ModeState) × ModeState)
set_safe states tenant_id actor now = set_mode states tenant_id safe actor now

abbrev pub reset : List (String × ModeState) → List (String × ModeState)
reset states = []

module _ {ℓ} {V : Type ℓ} (k : String) (v : V) where
  dict_get-dict_set : (d : List (String × V)) → dict_get k (dict_set k v d) ≡ some v
  dict_get-dict_set [] = rw (eq_refl k) refl
  dict_get-dict_set ((j, w) ∷ rest) = elim (Bool-cases (str_eq j k)) [
    | inl same ↦ rw same (rw (eq_refl k) refl)
    | inr other ↦ rw other (rw other (dict_get-dict_set rest))
  ]

  dict_get-dict_set_other :
      (d : List (String × V)) (j : String)
      → str_eq k j ≡ false
      → dict_get j (dict_set k v d) ≡ dict_get j d
  dict_get-dict_set_other [] j h = rw h refl
  dict_get-dict_set_other ((i, w) ∷ rest) j h = elim (Bool-cases (str_eq i k)) [
    | inl same ↦
        let e : i ≡ k = (eq_iff i k).0 same in
        let far : str_eq i j ≡ false = rw e h in rw same (rw h (rw far refl))
    | inr other ↦
        rw other (ap (λ o. if str_eq i j then some w else o) (dict_get-dict_set_other rest j h))
  ]

module _ (states : List (String × ModeState)) (t mode actor : String) (now : ℕ)
    {states' : List (String × ModeState)} {state : ModeState}
    (run : set_mode states t mode actor now ≡ Result.ok (states', state)) where
  set_mode-ok : (str_eq t "" ≡ false) × (state.mode ≡ mode) × (states' ≡ dict_set t state states)
  unfolding set_mode
  set_mode-ok = ground (arith, run)

  -- After a change of mode that does not raise, a real submission of the tenant is possible exactly when
  -- the mode is LIVE, and that of any other tenant as before.
  pub is_live_enabled-set_mode :
      (is_live_enabled states' (some t) ≡ str_eq mode live)
      × ((other : String)
          → str_eq t other ≡ false
          → is_live_enabled states' (some other) ≡ is_live_enabled states (some other))
  unfolding is_live_enabled get_state
  is_live_enabled-set_mode =
      let (named, is_mode, written) = set_mode-ok in
      (
        rw written (rw named (rw (dict_get-dict_set t state states) (rw is_mode refl))),
        λ other h. rw written (rw (dict_get-dict_set_other t state states other h) refl),
      )
