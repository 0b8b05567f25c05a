-- ===== src/Base/Numbers.antt =====
-- Python's `int` and its decimal text.
use Prim.Native.Nat.{ℕ, zero, suc, ◌+◌, ◌-◌, ◌*◌, ◌/◌, ◌%◌, ◌≤◌, ◌<◌}
use Prim.Native.String.{String}
use mathlib.Core.Path.{◌≡◌, refl}
use mathlib.Core.Logic.{◌≢◌}
use mathlib.Core.Bool.{Bool, true, false, not, ◌&&◌, ◌||◌}
use mathlib.Core.Option
use mathlib.Core.Option.{Option, none, some}
use mathlib.Core.List.{[], ◌∷◌}
use native.Mathlib.Omega.{arith}
use insatomcat_webui.Base.Tests.{ltb, leb, ◌=?◌, if◌then◌else◌}
use insatomcat_webui.Base.Lists.{All}
use insatomcat_webui.Base.Chars.{Text, strip, text_of, NoSpaces, strip-NoSpaces}

-- `negsuc n` is -(n + 1).
pub data ℤ : Type 0 where
  pos : ℕ → ℤ
  negsuc : ℕ → ℤ

-- `str(n)`: the digits in front of `acc`; `fuel` above `n` is enough.
digits_acc : ℕ → ℕ → Text → Text
digits_acc zero n acc = acc
digits_acc (suc fuel) n acc =
    let rest = digits_acc fuel (n / 10) ((b'0' + n % 10) ∷ acc) in
    if ltb n 10 then (b'0' + n) ∷ acc else rest

unfoldable pub decimal : ℕ → Text
unfolding digits_acc
decimal n = digits_acc (suc n) n []

unfoldable pub string_of_nat : ℕ → String
unfolding decimal
string_of_nat n = text_of (decimal n)

abbrev is_digit : ℕ → Bool
is_digit c = leb b'0' c && leb c b'9'

-- digits with single underscores between them; the flag says that a digit has to come
scan : Bool → Text → ℕ → Option ℕ
scan need [] n = if need then none else some n
scan need (c ∷ s) n =
    let rest = scan (not (is_digit c)) s (if is_digit c then n * 10 + (c - b'0') else n) in
    if is_digit c || ((c =? b'_') && not need) then rest else none

abbrev negated : ℕ → ℤ
negated zero = pos 0
negated (suc n) = negsuc n

signed : Text → Option ℤ
unfolding scan
signed [] = none
signed (c ∷ s) =
    if c =? b'-'
    then Option.map negated (scan true s 0)
    else if c =? b'+'
    then Option.map pos (scan true s 0)
    else Option.map pos (scan true (c ∷ s) 0)

-- `int(s)` for ASCII digits; `none` is `ValueError`.
unfoldable pub int_of_text : Text → Option ℤ
unfolding signed
int_of_text s = signed (strip s)

abbrev pub IsDecimal : ℕ → Type 0
IsDecimal c = (b'0' ≤ c) × (c ≤ b'9')

digits_acc-IsDecimal :
    (fuel n : ℕ) (acc : Text) → All IsDecimal acc → All IsDecimal (digits_acc fuel n acc)
unfolding digits_acc
digits_acc-IsDecimal zero n acc h = h
digits_acc-IsDecimal (suc fuel) n acc h =
    ground (arith, digits_acc-IsDecimal fuel (n / 10) ((b'0' + n % 10) ∷ acc))

scan-digits_acc :
    (need : Bool) (fuel n : ℕ) (acc : Text)
    → n < fuel
    → scan need (digits_acc fuel n acc) 0 ≡ scan false acc n
unfolding digits_acc scan
scan-digits_acc need zero n acc h = absurd (omega arith)
scan-digits_acc need (suc fuel) n acc h =
    ground (arith, scan-digits_acc need fuel (n / 10) ((b'0' + n % 10) ∷ acc))

pub decimal-IsDecimal : (n : ℕ) → All IsDecimal (decimal n)
unfolding decimal
decimal-IsDecimal n = digits_acc-IsDecimal (suc n) n [] tt

digits_acc-ne-nil : (fuel n : ℕ) (c : ℕ) (acc : Text) → digits_acc fuel n (c ∷ acc) ≢ []
unfolding digits_acc
digits_acc-ne-nil zero n c acc = cc
digits_acc-ne-nil (suc fuel) n c acc =
    ground (arith, digits_acc-ne-nil fuel (n / 10) (b'0' + n % 10) (c ∷ acc))

pub decimal-ne-nil : (n : ℕ) → decimal n ≢ []
unfolding decimal digits_acc
decimal-ne-nil n = ground (arith, digits_acc-ne-nil n (n / 10) (b'0' + n % 10) [])

IsDecimal-NoSpaces : (s : Text) → All IsDecimal s → NoSpaces s
IsDecimal-NoSpaces [] h = tt
IsDecimal-NoSpaces (c ∷ s) (hc, hs) = (ground arith, IsDecimal-NoSpaces s hs)

signed-scan : (s : Text) → s ≢ [] → All IsDecimal s → signed s ≡ Option.map pos (scan true s 0)
unfolding signed
signed-scan [] ne h = absurd (ne refl)
signed-scan (c ∷ s) ne (hc, hs) = ground arith

-- The decimal text of a number is read as that number.
pub int_of_text-decimal : (n : ℕ) → int_of_text (decimal n) ≡ some (pos n)
unfolding int_of_text
int_of_text-decimal n =
    rw
      (
        strip-NoSpaces (decimal n) (IsDecimal-NoSpaces (decimal n) (decimal-IsDecimal n)),
        signed-scan (decimal n) (decimal-ne-nil n) (decimal-IsDecimal n),
      )
      (unfold decimal scan in rw (scan-digits_acc true (suc n) n [] (omega arith)))

-- Numbers of one, two and three digits.
pub decimal_one : (n : ℕ) → n < 10 → decimal n ≡ (b'0' + n) ∷ []
unfolding decimal digits_acc
decimal_one n h = ground arith

pub decimal_two : (n : ℕ) → 10 ≤ n → n < 100 → decimal n ≡ (b'0' + n / 10) ∷ (b'0' + n % 10) ∷ []
unfolding decimal digits_acc
decimal_two zero h k = absurd (omega arith)
decimal_two (suc n) h k = ground arith

pub decimal_three :
    (n : ℕ)
    → 100 ≤ n
    → n < 1000
    → decimal n ≡ (b'0' + n / 10 / 10) ∷ (b'0' + n / 10 % 10) ∷ (b'0' + n % 10) ∷ []
unfolding decimal digits_acc
decimal_three zero h k = absurd (omega arith)
decimal_three (suc zero) h k = absurd (omega arith)
decimal_three (suc (suc n)) h k = ground arith
