-- ===== src/Core/Guards.antt =====
-- The two tables of allowed transitions are guarded in one way: nothing to do, a conflict, or a write.
use range_apply.Common.{Bool, arith, false, if◌then◌else◌, inl, inr, not, refl, true, ◌≡◌, ◌⊎◌}
use range_apply.Core.Errors.{Result, ServiceError}

abbrev pub guarded {ℓ} : {A : Type ℓ} → Bool → Bool → A → A → Result A
guarded same allowed old new =
    if same
    then Result.ok old
    else if not allowed
    then Result.raise ServiceError.conflict
    else Result.ok new

-- A guarded write returns the old value, or the new one and its guard holds.
pub guarded-write {ℓ} :
    {A : Type ℓ} (same allowed : Bool) (old new : A) {a : A}
    → guarded same allowed old new ≡ Result.ok a
    → (a ≡ old) ⊎ ((allowed ≡ true) × (a ≡ new))
guarded-write true allowed old new h = inl (ground (arith, h))
guarded-write false true old new h = inr (refl, ground (arith, h))
guarded-write false false old new h = absurd (ground (arith, h))

pub ok_value {ℓ} : {A : Type ℓ} {a b : A} → Result.ok a ≡ Result.ok b → a ≡ b
ok_value h = ground (arith, h)
