-- ===== src/Base/CString/Chars.antt =====
-- Copies between char arrays.
use watermeter.Base.Text.{Text}
use watermeter.Base.Tests.{◌==◌, &&-split, Bool-cases, Option-cases, lt→ltb}
use watermeter.Base.Lists.{length, All, drop, length-append, length-drop}
use watermeter.Base.CString.{c_string, strcpy}
use Prim.Native.Nat.{ℕ, suc, ◌<◌}
use mathlib.Core.Path.{◌≡◌, refl, subst}
use mathlib.Core.Bool.{Bool, true, false, not, ◌&&◌}
use mathlib.Core.Logic.{◌≢◌, inl, inr}
use mathlib.Core.Option.{some, some-injective}
use mathlib.Core.List.{List, [], ◌∷◌, ◌++◌}
use native.Mathlib.Omega.{arith}

-- `a` is an array of `size` bytes that holds the string `s`.
pub record Holds (size : ℕ) (a : List ℕ) (s : Text) : Type 0 where
  pub sized : length a ≡ size
  pub read : c_string a ≡ some s

abbrev pub IsNonzero : ℕ → Type 0
IsNonzero c = c ≢ 0

-- A string is shorter than its array, and has no NUL in it.
pub c_string_sound :
    (a : List ℕ) (s : Text) → c_string a ≡ some s → (length s < length a) × All IsNonzero s
unfolding c_string
c_string_sound [] s h = cc
c_string_sound (c ∷ a) s h = elim (Bool-cases (c == 0)) [
  | inl end ↦
      let e : [] ≡ s = some-injective _ _ (rw end at h) in
      subst (λ t. (length t < suc (length a)) × All IsNonzero t) e (omega arith, tt)
  | inr more ↦ elim (Option-cases (c_string a)) [
    | inl unread ↦ absurd (cc (rw (more, unread) at h))
    | inr (t, read) ↦
        let e : c ∷ t ≡ s = some-injective _ _ (rw (more, read) at h) in
        let (short, nonzero) = c_string_sound a t read in
        subst (λ t. (length t < suc (length a)) × All IsNonzero t) e
          (omega arith, (λ z. ground (arith, z), nonzero))
  ]
]

pub c_string-append :
    (s : Text) (rest : List ℕ) → All IsNonzero s → c_string (s ++ (0 ∷ rest)) ≡ some s
unfolding c_string
c_string-append [] rest h = refl
c_string-append (c ∷ s) rest h =
    let more : (c == 0) ≡ false = ground (arith, h.0) in rw (more, c_string-append s rest h.1)

-- A string without NUL that is shorter than the array is copied, and is what the array then holds.
pub strcpy-Holds :
    (dst : List ℕ) (s : Text)
    → length s < length dst
    → All IsNonzero s
    → (out : List ℕ) × (strcpy dst s ≡ some out) × Holds (length dst) out s
unfolding strcpy
strcpy-Holds dst s fits nz = (
  s ++ (0 ∷ drop (suc (length s)) dst),
  rw (lt→ltb _ _ fits),
  record {
    sized = rw length-append (omega (arith, length-drop (suc (length s)) dst));
    read = c_string-append s _ nz;
  },
)

abbrev pub has_no_nul : Text → Bool
has_no_nul [] = true
has_no_nul (c ∷ s) = not (c == 0) && has_no_nul s

pub has_no_nul-All : (s : Text) → has_no_nul s ≡ true → All IsNonzero s
has_no_nul-All [] h = tt
has_no_nul-All (c ∷ s) h =
    let (other, rest) = &&-split {a = not (c == 0)} h in
    (λ z. ground (arith, other, z), has_no_nul-All s rest)
