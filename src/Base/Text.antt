-- ===== src/Base/Text.antt =====
-- What the program uses of Python's `str`: `strip`, `lower`, `in`, and the truth of a text.
-- `lower` is that of ASCII text; `strip` removes what `str.isspace` accepts.
use Prim.Native.Char.{Char, code}
use Prim.Native.String.{String, char_at, slice, ◌++◌ as concat}
use text.Mathlib.Text.{find?}
use project_os_core.Base.Tests.{leb, ltb, eqb, ◌==◌, if◌then◌else◌, is_some, Bool-cases}
use Prim.Native.Nat.{ℕ, zero, suc, ◌+◌, ◌-◌, ◌/◌, ◌%◌, ◌<◌}
use mathlib.Core.Path.{◌≡◌, refl}
use mathlib.Core.Logic.{inl, inr}
use native.Mathlib.Omega.{arith}
use mathlib.Core.Bool.{Bool, true, false, ◌&&◌, ◌||◌}
use mathlib.Core.Option.{Option, none, some}
use mathlib.Core.List.{List, [], ◌∷◌}

abbrev alphabet : String
alphabet = "abcdefghijklmnopqrstuvwxyz"

lower_char : Char → Char
lower_char c = if leb 65 (code c) && leb (code c) 90 then char_at alphabet (code c - 65) else c

-- s.lower()
unfoldable pub lower : String → String
unfolding lower_char
lower String.[] = String.[]
lower (String.◌∷◌ c s) = String.◌∷◌ (lower_char c) (lower s)

is_space : ℕ → Bool
is_space n =
    (leb 9 n && leb n 13)
    || (leb 28 n && leb n 32)
    || eqb n 0x85
    || eqb n 0xa0
    || eqb n 0x1680
    || (leb 0x2000 n && leb n 0x200a)
    || eqb n 0x2028
    || eqb n 0x2029
    || eqb n 0x202f
    || eqb n 0x205f
    || eqb n 0x3000

lstrip : String → String
lstrip String.[] = String.[]
lstrip (String.◌∷◌ c s) = if is_space (code c) then lstrip s else String.◌∷◌ c s

rstrip : String → String
rstrip String.[] = String.[]
rstrip (String.◌∷◌ c s) =
    let rest = rstrip s in if is_space (code c) && rest == "" then String.[] else String.◌∷◌ c rest

-- s.strip()
unfoldable pub strip : String → String
unfolding is_space lstrip rstrip
strip s = rstrip (lstrip s)

-- keyword in s
unfoldable pub contains_text : String → String → Bool
contains_text keyword s = is_some (find? s keyword)

-- any(keyword in s for keyword in keywords)
unfoldable pub contains_any : List String → String → Bool
unfolding contains_text
contains_any [] s = false
contains_any (k ∷ ks) s = contains_text k s || contains_any ks s

-- x or default, for a text that may be missing or empty
abbrev pub or_text : Option String → String → String
or_text none d = d
or_text (some s) d = if s == "" then d else s

-- s or None
abbrev pub or_none : String → Option String
or_none s = if s == "" then none else some s

-- bool(x), for a text that may be missing
abbrev pub given : Option String → Bool
given none = false
given (some s) = if s == "" then false else true

-- str(x or "").strip() or None
unfoldable pub clean : Option String → Option String
unfolding strip
clean x = or_none (strip (or_text x ""))

-- x in xs
unfoldable pub is_member : String → List String → Bool
is_member x [] = false
is_member x (y ∷ ys) = x == y || is_member x ys

lower_example : lower "Delete Mail 7" ≡ "delete mail 7"
unfolding lower
lower_example = refl

strip_example : strip "  a b " ≡ "a b"
unfolding strip
strip_example = refl

contains_any_example : contains_any ("web" ∷ "mail" ∷ []) "send mail" ≡ true
unfolding contains_any
contains_any_example = refl

abbrev digit : ℕ → String
digit n = slice "0123456789" n (n + 1)

-- the digits of n before `tail`, on fuel that is more than n
unfoldable pub decimal_from : ℕ → ℕ → String → String
decimal_from zero n tail = tail
decimal_from (suc k) n tail =
    let rest = decimal_from k (n / 10) (concat (digit (n % 10)) tail) in
    if ltb n 10 then concat (digit n) tail else rest

-- str(n)
unfoldable pub decimal : ℕ → String
decimal n = decimal_from (suc n) n ""

-- Any fuel above n gives the digits that `decimal` gives.
pub decimal_from-enough :
    (f g n : ℕ) (tail : String) → n < f → n < g → decimal_from f n tail ≡ decimal_from g n tail
unfolding decimal_from
decimal_from-enough zero g n tail h i = absurd (omega arith)
decimal_from-enough (suc f) zero n tail h i = absurd (omega arith)
decimal_from-enough (suc f) (suc g) n tail h i = elim (Bool-cases (ltb n 10)) [
  | inl small ↦ rw small refl
  | inr large ↦ rw large (
      decimal_from-enough f g (n / 10) (concat (digit (n % 10)) tail) (ground arith) (ground arith))
]
