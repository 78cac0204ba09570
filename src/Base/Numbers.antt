-- ===== src/Base/Numbers.antt =====
-- Python's `int` of a text: an optional sign and ASCII digits, with single underscores between them and
-- blanks round it.
use Prim.Native.Char.{code}
use Prim.Native.String.{String}
use Prim.Native.Nat.{ℕ, zero, suc, ◌+◌, ◌-◌, ◌*◌}
use mathlib.Core.Path.{◌≡◌, refl}
use mathlib.Core.Bool.{Bool, false, ◌&&◌, ◌||◌}
use mathlib.Core.Option.{Option, none, some}
use project_os_core.Base.Tests.{leb, eqb, if◌then◌else◌}
use project_os_core.Base.Text.{strip}

pub data ℤ : Type 0 where
  pos negsuc : ℕ → ℤ

abbrev pub suc_int : ℤ → ℤ
suc_int (pos n) = pos (suc n)
suc_int (negsuc zero) = pos 0
suc_int (negsuc (suc n)) = negsuc n

abbrev negate : ℕ → ℤ
negate zero = pos 0
negate (suc n) = negsuc n

abbrev is_digit : ℕ → Bool
is_digit c = leb b'0' c && leb c b'9'

abbrev with_digit : ℕ → ℕ → ℕ
with_digit c n = if is_digit c then n * 10 + (c - b'0') else n

-- the number of a text whose digits so far make n; `after` is whether the last character was a digit
digits_from : Bool → ℕ → String → Option ℕ
digits_from after n String.[] = if after then some n else none
digits_from after n (String.◌∷◌ c s) =
    let rest = digits_from (is_digit (code c)) (with_digit (code c) n) s in
    if is_digit (code c) || (after && eqb (code c) b'_') then rest else none

abbrev signed : (ℕ → ℤ) → Option ℕ → Option ℤ
signed f none = none
signed f (some n) = some (f n)

sign_and_digits : String → Option ℤ
unfolding digits_from
sign_and_digits String.[] = none
sign_and_digits (String.◌∷◌ c s) =
    if eqb (code c) b'-'
    then signed negate (digits_from false 0 s)
    else if eqb (code c) b'+'
    then signed pos (digits_from false 0 s)
    else signed pos (digits_from false 0 (String.◌∷◌ c s))

-- int(s); none is its ValueError
unfoldable pub int_of_text : String → Option ℤ
unfolding sign_and_digits strip
int_of_text s = sign_and_digits (strip s)

int_of_text_example : int_of_text " -1_20 " ≡ some (negsuc 119)
unfolding int_of_text
int_of_text_example = refl

int_of_text_refused : int_of_text "abc" ≡ none
unfolding int_of_text
int_of_text_refused = refl
