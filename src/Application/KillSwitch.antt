-- ===== src/Application/KillSwitch.antt =====
-- app/application/killswitch.py: the switches that stop a submission.
use range_apply.Common.{
  Bool, Bool-cases, List, Option, String, [], any_of, ap, arith, eq_iff, eq_refl, false,
  if◌then◌else◌, inl, inr, none, or_else, refl, some, str_eq, true, ◌&&◌, ◌||◌, ◌∷◌, ◌≡◌,
}
use range_apply.Core.Texts.{is_text, opt_eq, text_or}

-- `KillSwitchRow`
pub record KillSwitchRow : Type 0 where
  pub id : String
  pub paused : Bool
  pub reason : Option String

abbrev pub global_id : String
global_id = "global"

-- The row's id is one of `ids`.
abbrev pub applies_to : Option String → KillSwitchRow → Bool
applies_to source row = str_eq row.id global_id || (is_text source && opt_eq (some row.id) source)

-- `is_paused`
unfoldable pub is_paused : List KillSwitchRow → Option String → Bool
is_paused switches source = any_of (λ row. applies_to source row && row.paused) switches

-- `source or GLOBAL_ID`
abbrev pub switch_id : Option String → String
switch_id source = text_or (or_else source "") global_id

-- `set_paused`
unfoldable pub set_paused :
    List KillSwitchRow → Bool → Option String → Option String → List KillSwitchRow
set_paused [] paused reason source =
    record { id = switch_id source; paused = paused; reason = reason } ∷ []
set_paused (row ∷ rest) paused reason source =
    if str_eq row.id (switch_id source)
    then record row { paused = paused; reason = reason } ∷ rest
    else row ∷ set_paused rest paused reason source

applies_to-other :
    (row : KillSwitchRow) (name other : String)
    → str_eq name global_id ≡ false
    → str_eq name other ≡ false
    → str_eq row.id name ≡ true
    → applies_to (some other) row ≡ false
applies_to-other row name other g o mine =
    let e : row.id ≡ name = (eq_iff row.id name).0 mine in
    let g' : str_eq row.id global_id ≡ false = rw e g in
    let o' : str_eq row.id other ≡ false = rw e o in rw g' (rw o' (ground arith))

module _ (reason : Option String) where
  -- The global switch, once paused, stops every source.
  pub is_paused-global :
      (switches : List KillSwitchRow) (source : Option String)
      → is_paused (set_paused switches true reason none) source ≡ true
  unfolding is_paused set_paused
  is_paused-global [] source = refl
  is_paused-global (row ∷ rest) source = ground (arith, is_paused-global rest source)

  pause-own :
      (switches : List KillSwitchRow) (name : String)
      → str_eq name "" ≡ false
      → is_paused (set_paused switches true reason (some name)) (some name) ≡ true
  unfolding is_paused set_paused
  pause-own [] name h = ground (arith, h, eq_refl name)
  pause-own (row ∷ rest) name h = ground (arith, h, pause-own rest name h)

  pause-other :
      (switches : List KillSwitchRow) (name other : String)
      → str_eq name "" ≡ false
      → str_eq name global_id ≡ false
      → str_eq name other ≡ false
      → is_paused (set_paused switches true reason (some name)) (some other)
        ≡ is_paused switches (some other)
  unfolding is_paused set_paused
  pause-other [] name other h g o = ground (arith, h, g, o)
  pause-other (row ∷ rest) name other h g o =
      let further = pause-other rest name other h g o in
      elim (Bool-cases (str_eq row.id name)) [
        | inl mine ↦
            let silent = applies_to-other row name other g o mine in rw h (rw mine (rw silent refl))
        | inr apart ↦
            rw h (rw apart (ap (λ b. (applies_to (some other) row && row.paused) || b) further))
      ]

  -- Pausing the switch of a source whose name is neither empty nor `global` stops that source, and
  -- every other named source is paused as it was before.
  pub is_paused-source :
      (switches : List KillSwitchRow) (name : String)
      → str_eq name "" ≡ false
      → str_eq name global_id ≡ false
      → (is_paused (set_paused switches true reason (some name)) (some name) ≡ true)
        × ((other : String)
            → str_eq name other ≡ false
            → is_paused (set_paused switches true reason (some name)) (some other)
              ≡ is_paused switches (some other))
  is_paused-source switches name h g =
      (pause-own switches name h, λ other o. pause-other switches name other h g o)
