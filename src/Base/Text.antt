-- ===== src/Base/Text.antt =====
-- Texts character by character: the slices `s[:n]`, and concatenation.
use Prim.Native.Nat.{ℕ, zero, suc, ◌+◌, ◌/◌, ◌%◌, ◌≤◌}
use Prim.Native.String.{String, ◌++◌}
use mathlib.Core.Path.{◌≡◌, refl, ap}
use native.Mathlib.Omega.{arith}
use novax_ai_assignment.Base.Tests.{ltb, if◌then◌else◌}
use text.Mathlib.TextLemmas.{cons-append}

-- `s[:n]`
abbrev pub take_chars : ℕ → String → String
take_chars zero s = ""
take_chars (suc n) String.[] = ""
take_chars (suc n) (String.◌∷◌ c s) = String.◌∷◌ c (take_chars n s)

-- `len(s)`
abbrev pub count_chars : String → ℕ
count_chars String.[] = 0
count_chars (String.◌∷◌ c s) = suc (count_chars s)

-- `a + b`
abbrev pub join : String → String → String
join a b = a ++ b

-- A slice within a text does not see what is appended to it.
pub take_chars-join :
    (n : ℕ) (s t : String)
    → n ≤ count_chars s
    → take_chars n (join (take_chars n s) t) ≡ take_chars n s
take_chars-join zero s t h = refl
take_chars-join (suc n) String.[] t h = absurd (omega arith)
take_chars-join (suc n) (String.◌∷◌ c s) t h =
    rw cons-append (ap (String.◌∷◌ c) (take_chars-join n s t (omega arith)))

pub count_chars-take_chars :
    (n : ℕ) (s t : String) → n ≤ count_chars s → n ≤ count_chars (join (take_chars n s) t)
count_chars-take_chars zero s t h = omega arith
count_chars-take_chars (suc n) String.[] t h = absurd (omega arith)
count_chars-take_chars (suc n) (String.◌∷◌ c s) t h =
    rw cons-append (omega (arith, count_chars-take_chars n s t (omega arith)))

abbrev pub drop_chars : ℕ → String → String
drop_chars zero s = s
drop_chars (suc n) String.[] = ""
drop_chars (suc n) (String.◌∷◌ c s) = drop_chars n s

digits_of : ℕ → ℕ → String
digits_of zero n = ""
digits_of (suc fuel) n =
    let front = digits_of fuel (n / 10) in
    let last = take_chars 1 (drop_chars (n % 10) "0123456789") in
    if ltb n 10 then last else join front last

-- `str(n)`; a number has fewer digits than `n + 1`.
unfoldable pub show : ℕ → String
unfolding digits_of
show n = digits_of (n + 1) n

-- `f"{n:04d}"`
unfoldable pub show_padded : ℕ → String
unfolding show
show_padded n =
    if ltb n 10
    then join "000" (show n)
    else if ltb n 100
    then join "00" (show n)
    else if ltb n 1000
    then join "0" (show n)
    else show n
