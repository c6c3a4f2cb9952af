-- ===== src/Base/CString.antt =====
-- The C library's strings, as the firmware uses them. A char array is the list of its bytes; a
-- string is the bytes in front of its NUL. `none` is a read or a write past the end of an array,
-- which C leaves undefined.
pub mod Decimal
pub mod Chars
use watermeter.Base.Text.{Text}
use watermeter.Base.Tests.{leb, ltb, ◌==◌, if◌then◌else◌}
use watermeter.Base.Lists.{length, drop, replicate, take}
use Prim.Native.Nat.{ℕ, zero, suc, ◌+◌, ◌-◌, ◌*◌, ◌/◌, ◌%◌, ◌^◌}
use mathlib.Core.Bool.{Bool, true, false, ◌&&◌, ◌||◌}
use mathlib.Core.Option.{Option, none, some}
use mathlib.Core.List.{List, [], ◌∷◌, ◌++◌}

infixl 5 ◌>>=◌
abbrev pub ◌>>=◌ {ℓ κ} : {A : Type ℓ} {B : Type κ} → Option A → (A → Option B) → Option B
none >>= f = none
some a >>= f = f a

-- The string that a char array holds.
unfoldable pub c_string : List ℕ → Option Text
c_string [] = none
c_string (c ∷ cs) =
    let rest = c_string cs in if c == 0 then some [] else (rest >>= λ s. some (c ∷ s))

-- `strcpy` into an array: the string and its NUL over the first bytes.
unfoldable pub strcpy : List ℕ → Text → Option (List ℕ)
strcpy dst s =
    if ltb (length s) (length dst) then some (s ++ (0 ∷ drop (suc (length s)) dst)) else none

-- `sprintf` of a finished text into a buffer of `size` bytes.
unfoldable pub sprintf : ℕ → Text → Option Text
sprintf size s = if ltb (length s) size then some s else none

-- `strcmp(a, b) == 0`.
unfoldable pub str_eq : Text → Text → Bool
str_eq [] [] = true
str_eq [] (y ∷ ys) = false
str_eq (x ∷ xs) [] = false
str_eq (x ∷ xs) (y ∷ ys) = x == y && str_eq xs ys

unfoldable pub starts_with : Text → Text → Bool
starts_with [] s = true
starts_with (x ∷ xs) [] = false
starts_with (x ∷ xs) (y ∷ ys) = x == y && starts_with xs ys

-- `strstr`: the string from the first occurrence on.
unfoldable pub strstr : Text → Text → Option Text
strstr [] pat = if starts_with pat [] then some [] else none
strstr (c ∷ s) pat = if starts_with pat (c ∷ s) then some (c ∷ s) else strstr s pat

abbrev pub is_found : Option Text → Bool
is_found none = false
is_found (some s) = true

-- `strstr(s, pat) != NULL`.
unfoldable pub contains : Text → Text → Bool
unfolding strstr
contains s pat = is_found (strstr s pat)

-- `strcspn(s, " ")`: how many bytes stand in front of the first space.
unfoldable pub strcspn_space : Text → ℕ
strcspn_space [] = 0
strcspn_space (c ∷ s) = if c == 32 then 0 else suc (strcspn_space s)

-- `%lu` and `%u` of a 32-bit number: at most ten digits.
unfoldable pub print_digits : ℕ → ℕ → Text
print_digits zero n = []
print_digits (suc f) n =
    let more = print_digits f (n / 10) in
    if ltb n 10 then (48 + n) ∷ [] else more ++ ((48 + n % 10) ∷ [])

unfoldable pub decimal : ℕ → Text
unfolding print_digits
decimal n = print_digits 10 n

-- `%5u`.
unfoldable pub decimal_padded : ℕ → Text
unfolding decimal
decimal_padded n = replicate (5 - length (decimal n)) 32 ++ decimal n

abbrev pub is_digit : ℕ → Bool
is_digit c = leb 48 c && leb c 57

abbrev pub is_space : ℕ → Bool
is_space c = c == 32 || (leb 9 c && leb c 13)

unfoldable pub skip_spaces : Text → Text
skip_spaces [] = []
skip_spaces (c ∷ s) = if is_space c then skip_spaces s else c ∷ s

-- The value of the digits in front.
unfoldable pub scan_digits : ℕ → Text → ℕ
scan_digits acc [] = acc
scan_digits acc (c ∷ s) = elim (is_digit c) [
  | true ↦ scan_digits (acc * 10 + (c - 48)) s
  | false ↦ acc
]

abbrev pub clamp_u32 : ℕ → ℕ
clamp_u32 n = if ltb n (2 ^ 32) then n else 2 ^ 32 - 1

abbrev pub neg_u32 : ℕ → ℕ
neg_u32 n = if ltb n (2 ^ 32) then (2 ^ 32 - n) % 2 ^ 32 else 2 ^ 32 - 1

-- `strtoul` behind the white space: an optional sign, and the digits.
pub strtoul_signed : Text → ℕ
strtoul_signed [] = 0
strtoul_signed (c ∷ s) =
    if c == 43
    then clamp_u32 (scan_digits 0 s)
    else if c == 45
    then neg_u32 (scan_digits 0 s)
    else clamp_u32 (scan_digits 0 (c ∷ s))

-- `strtoul(s, 0, 10)`, where unsigned long has 32 bits and a value out of range gives its maximum.
unfoldable pub strtoul : Text → ℕ
unfolding strtoul_signed
strtoul s = strtoul_signed (skip_spaces s)
