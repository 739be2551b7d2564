-- ===== src/Common/Lists.antt =====
-- Lists measured by native numbers, and tests over lists.
use Prim.Native.Nat.{ℕ, zero, suc, ◌+◌, ◌<◌}
use mathlib.Core.Logic.{inl, inr}
use mathlib.Core.Bool.{Bool, true, false, not, ◌||◌}
use mathlib.Core.List.{List, [], ◌∷◌, ◌++◌}
use mathlib.Core.Path.{◌≡◌, refl, subst, ap}
use native.Mathlib.Omega.{arith}
use Prim.Native.String.{String}
use text.Mathlib.Text.{◌==◌ as str_eq}
use mathlib.Core.Option.{Option, none, some}
use range_apply.Common.Tests.{Bool-cases, or_else, if◌then◌else◌}

module _ {ℓ} {A : Type ℓ} where
  abbrev pub length : List A → ℕ
  length [] = 0
  length (x ∷ xs) = suc (length xs)

  abbrev pub take : ℕ → List A → List A
  take zero xs = []
  take (suc n) [] = []
  take (suc n) (x ∷ xs) = x ∷ take n xs

  -- The members that pass the test, in order.
  abbrev pub keep : (A → Bool) → List A → List A
  keep p [] = []
  keep p (x ∷ xs) = let rest = keep p xs in if p x then x ∷ rest else rest

  -- The first member that passes the test.
  abbrev pub find_first : (A → Bool) → List A → Option A
  find_first p [] = none
  find_first p (x ∷ xs) = if p x then some x else find_first p xs

  abbrev pub any_of : (A → Bool) → List A → Bool
  any_of p [] = false
  any_of p (x ∷ xs) = p x || any_of p xs

  -- How many members pass the test.
  abbrev pub count_of : (A → Bool) → List A → ℕ
  count_of p [] = 0
  count_of p (x ∷ xs) = (if p x then 1 else 0) + count_of p xs

  -- Every member has the property.
  abbrev pub All {κ} : (A → Type κ) → List A → Type κ
  All P [] = Unit
  All P (x ∷ xs) = P x × All P xs

module _ {ℓ} {A : Type ℓ} (p : A → Bool) where
  -- A search that fails in the first part goes on in the second.
  pub find_first-append :
      (xs ys : List A) → find_first p xs ≡ none → find_first p (xs ++ ys) ≡ find_first p ys
  find_first-append [] ys h = refl
  find_first-append (x ∷ xs) ys h = ground (arith, find_first-append xs ys)

  pub find_first-append_some :
      (xs ys : List A) {a : A} → find_first p xs ≡ some a → find_first p (xs ++ ys) ≡ some a
  find_first-append_some [] ys h = absurd (ground arith)
  find_first-append_some (x ∷ xs) ys {a} h = ground (arith, find_first-append_some xs ys {a = a})

  -- What is found passes the test.
  pub find_first-passes : (xs : List A) {a : A} → find_first p xs ≡ some a → p a ≡ true
  find_first-passes [] h = ground arith
  find_first-passes (x ∷ xs) {a} h = ground (arith, find_first-passes xs {a = a})

  pub count_of-append : (xs ys : List A) → count_of p (xs ++ ys) ≡ count_of p xs + count_of p ys
  count_of-append [] ys = omega arith
  count_of-append (x ∷ xs) ys = omega (arith, count_of-append xs ys)

  pub count_of-find_none : (xs : List A) → find_first p xs ≡ none → count_of p xs ≡ 0
  count_of-find_none [] h = refl
  count_of-find_none (x ∷ xs) h = ground (arith, count_of-find_none xs)

module _ {ℓ κ} {A : Type ℓ} (p : A → Bool) (P : A → Type κ) where
  All-if :
      (b : Bool) (x : A) (o : Option A) {a : A}
      → P x
      → ((a : A) → o ≡ some a → P a)
      → (if b then some x else o) ≡ some a
      → P a
  All-if true x o hx ho h = subst P (ap (λ o'. or_else o' x) h) hx
  All-if false x o {a} hx ho h = ho a h

  -- What is found among members that all have a property has it.
  pub All-find_first : (xs : List A) {a : A} → All P xs → find_first p xs ≡ some a → P a
  All-find_first [] hs h = absurd (ground arith)
  All-find_first (x ∷ xs) hs h =
      All-if (p x) x (find_first p xs) hs.0 (λ a e. All-find_first xs hs.1 e) h

module _ {ℓ} {A : Type ℓ} (p p' : A → Bool) (stronger : (a : A) → p a ≡ true → p' a ≡ true) where
  -- Where a member passes the stronger test, the weaker test counts one at least.
  pub count_of-found : (xs : List A) {a : A} → find_first p xs ≡ some a → 0 < count_of p' xs
  count_of-found [] h = absurd (ground arith)
  count_of-found (x ∷ xs) {a} h = ground (arith, count_of-found xs {a = a}, stronger x)

  pub find_first-count_zero : (xs : List A) → count_of p' xs ≡ 0 → find_first p xs ≡ none
  find_first-count_zero [] h = refl
  find_first-count_zero (x ∷ xs) h = ground (arith, find_first-count_zero xs, stronger x)

-- `dict.get(key)` of a dictionary kept as the list of its pairs, the latest first.
abbrev pub dict_get {ℓ} : {V : Type ℓ} → String → List (String × V) → Option V
dict_get key [] = none
dict_get key ((k, v) ∷ rest) = if str_eq k key then some v else dict_get key rest

-- `dict[key] = value`
abbrev pub dict_set {ℓ} : {V : Type ℓ} → String → V → List (String × V) → List (String × V)
dict_set key v [] = (key, v) ∷ []
dict_set key v ((k, w) ∷ rest) =
    if str_eq k key then (key, v) ∷ rest else (k, w) ∷ dict_set key v rest

module _ {ℓ} {A : Type ℓ} (p : A → Bool) where
  -- No member fails the test: each passes it.
  pub All-none_fails : (xs : List A) → any_of (λ x. not (p x)) xs ≡ false → All (λ x. p x ≡ true) xs
  All-none_fails [] h = tt
  All-none_fails (x ∷ xs) h = (ground (arith, h), All-none_fails xs (ground (arith, h)))

  pub none_fails-All : (xs : List A) → All (λ x. p x ≡ true) xs → any_of (λ x. not (p x)) xs ≡ false
  none_fails-All [] h = refl
  none_fails-All (x ∷ xs) h = ground (arith, h.0, none_fails-All xs h.1)

  pub find_first-any_of : (xs : List A) → any_of p xs ≡ false → find_first p xs ≡ none
  find_first-any_of [] h = refl
  find_first-any_of (x ∷ xs) h = ground (arith, h, find_first-any_of xs)

module _ {ℓ} {A : Type ℓ} (p q : A → Bool) where
  -- A member that is found and passes another test is counted by that test.
  pub count_of-member :
      (xs : List A) {a : A} → find_first q xs ≡ some a → p a ≡ true → 0 < count_of p xs
  count_of-member [] h t = absurd (ground (arith, h))
  count_of-member (x ∷ xs) {a} h t = elim (Bool-cases (q x)) [
    | inl here ↦
        let same : some x ≡ some a = rw here at h in
        let e : x ≡ a = ap (λ o. or_else o x) same in
        let passes : p x ≡ true = rw e t in rw passes (omega arith)
    | inr there ↦ let rest = count_of-member xs (rw there at h) t in omega (arith, rest)
  ]
