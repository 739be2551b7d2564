-- ===== src/Core/Texts.antt =====
-- Python's slices `text[:n]` and tests of texts that may be `None`.
use Prim.Native.String
use range_apply.Common.{
  Bool, Option, String, ap, arith, eq_iff, eq_refl, false, if◌then◌else◌, ltb, none, not, or_else,
  refl, some, str_eq, suc, true, zero, ℕ, ◌%◌, ◌&&◌, ◌/◌, ◌==◌, ◌||◌, ◌≡◌,
}

-- `text[:n]`
pub take_chars : ℕ → String → String
take_chars zero s = String.[]
take_chars (suc n) String.[] = String.[]
take_chars (suc n) (String.◌∷◌ c s) = String.◌∷◌ c (take_chars n s)

-- `len(text)`
pub text_length : String → ℕ
text_length String.[] = 0
text_length (String.◌∷◌ c s) = suc (text_length s)

-- The part stands somewhere in the text, where `n` is its length.
has_part : ℕ → String → String → Bool
has_part n part String.[] = str_eq part ""
has_part n part (String.◌∷◌ c s) = str_eq (take_chars n (String.◌∷◌ c s)) part || has_part n part s

-- `part in text`
unfoldable pub in_text : String → String → Bool
unfolding has_part text_length take_chars
in_text part text = has_part (text_length part) part text

in_text_test : in_text "CAP_REACHED" "DAILY_CAP_REACHED: full" && not (in_text "x" "abc") ≡ true
unfolding in_text
in_text_test = refl

-- `(text or "")[:n]`
abbrev pub clip : ℕ → Option String → String
clip n text = take_chars n (or_else text "")

-- `(text or "")[:n] or None`
abbrev pub clip_or_none : ℕ → Option String → Option String
clip_or_none n text = if str_eq (clip n text) "" then none else some (clip n text)

-- `text or fallback`, where the empty text is false too.
abbrev pub text_or : String → String → String
text_or text fallback = if str_eq text "" then fallback else text

-- `a == b` where both may be `None`
abbrev pub opt_eq : Option String → Option String → Bool
opt_eq none none = true
opt_eq (some a) (some b) = str_eq a b
opt_eq none (some b) = false
opt_eq (some a) none = false

-- `bool(text)`
abbrev pub is_text : Option String → Bool
is_text none = false
is_text (some a) = not (str_eq a "")

pub opt_eq_self : (o : Option String) → opt_eq o o ≡ true
opt_eq_self none = refl
opt_eq_self (some a) = eq_refl a

pub opt_eq-path : (a b : Option String) → opt_eq a b ≡ true → a ≡ b
opt_eq-path none none h = refl
opt_eq-path (some a) (some b) h = ap some ((eq_iff a b).0 h)
opt_eq-path none (some b) h = ground arith
opt_eq-path (some a) none h = ground arith

-- The decimal digits of `n`, as `str(n)`; the fuel `n` is enough, since each round divides by ten.
digit_text : ℕ → String
digit_text d =
    if d == 0
    then "0"
    else if d == 1
    then "1"
    else if d == 2
    then "2"
    else if d == 3
    then "3"
    else if d == 4
    then "4"
    else if d == 5
    then "5"
    else if d == 6
    then "6"
    else if d == 7
    then "7"
    else if d == 8
    then "8"
    else "9"

decimal_digits : ℕ → ℕ → String
unfolding digit_text
decimal_digits zero n = digit_text n
decimal_digits (suc fuel) n =
    let higher = decimal_digits fuel (n / 10) in
    if ltb n 10 then digit_text n else String.◌++◌ higher (digit_text (n % 10))

unfoldable pub decimal : ℕ → String
unfolding decimal_digits
decimal n = decimal_digits n n

decimal_test : decimal 1203 ≡ "1203"
unfolding decimal
decimal_test = refl
