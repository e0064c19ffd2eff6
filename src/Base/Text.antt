-- ===== src/Base/Text.antt =====
-- A Rust string as its bytes (UTF-8), with the comparisons of `str`: equality and the order of
-- `Ord for str`, which is that of the bytes, lexicographically.
use Prim.Native.Nat.{ℕ}
use Prim.Native.Char.{code}
use Prim.Native.String.{String}
use mathlib.Core.Path.{◌≡◌, refl}
use mathlib.Core.Logic.{◌↔◌}
use mathlib.Core.Bool.{Bool, true, false, ◌&&◌, ◌||◌}
use mathlib.Core.List.{List, [], ◌∷◌}
use native.Mathlib.Omega.{arith}
use aethos_linux.Base.Tests.{ltb, ◌==◌, if◌then◌else◌}

-- Also `Vec<u8>`.
abbrev pub Text : Type 0
Text = List ℕ

-- A text literal, which is ASCII in every use.
abbrev pub codes : String → Text
codes String.[] = []
codes (String.◌∷◌ c s) = code c ∷ codes s

-- A text of the program, such as an error message; what the statements say of it is which it is.
unfoldable pub message : String → Text
message s = codes s

unfoldable pub text_eq : Text → Text → Bool
text_eq [] [] = true
text_eq [] (y ∷ ys) = false
text_eq (x ∷ xs) [] = false
text_eq (x ∷ xs) (y ∷ ys) = x == y && text_eq xs ys

unfoldable pub text_lt : Text → Text → Bool
text_lt [] [] = false
text_lt [] (y ∷ ys) = true
text_lt (x ∷ xs) [] = false
text_lt (x ∷ xs) (y ∷ ys) = if x == y then text_lt xs ys else ltb x y

text_eq_sound : (a b : Text) → text_eq a b ≡ true → a ≡ b
unfolding text_eq
text_eq_sound [] [] h = refl
text_eq_sound [] (y ∷ ys) h = cc
text_eq_sound (x ∷ xs) [] h = cc
text_eq_sound (x ∷ xs) (y ∷ ys) h = ground (arith, text_eq_sound xs ys)

pub text_eq_refl : (a : Text) → text_eq a a ≡ true
unfolding text_eq
text_eq_refl [] = refl
text_eq_refl (x ∷ xs) = ground (arith, text_eq_refl xs)

pub text_eq_iff : (a b : Text) → (text_eq a b ≡ true) ↔ (a ≡ b)
text_eq_iff a b = (text_eq_sound a b, λ e. subst_eq e)
  where
    subst_eq : a ≡ b → text_eq a b ≡ true
    subst_eq e = rw (← e) (text_eq_refl a)

pub text_lt_irrefl : (a : Text) → text_lt a a ≡ false
unfolding text_lt
text_lt_irrefl [] = refl
text_lt_irrefl (x ∷ xs) = ground (arith, text_lt_irrefl xs)

pub text_lt_asym : (a b : Text) → text_lt a b ≡ true → text_lt b a ≡ false
unfolding text_lt
text_lt_asym [] [] h = cc
text_lt_asym [] (y ∷ ys) h = refl
text_lt_asym (x ∷ xs) [] h = cc
text_lt_asym (x ∷ xs) (y ∷ ys) h = ground (arith, text_lt_asym xs ys)

pub text_lt_trans : (a b c : Text) → text_lt a b ≡ true → text_lt b c ≡ true → text_lt a c ≡ true
unfolding text_lt
text_lt_trans [] [] [] h k = cc
text_lt_trans [] (y ∷ ys) [] h k = cc
text_lt_trans [] b (z ∷ zs) h k = refl
text_lt_trans (x ∷ xs) [] c h k = cc
text_lt_trans (x ∷ xs) (y ∷ ys) [] h k = cc
text_lt_trans (x ∷ xs) (y ∷ ys) (z ∷ zs) h k = ground (arith, text_lt_trans xs ys zs)

pub text_lt_total : (a b : Text) → text_eq a b ≡ false → text_lt a b ≡ false → text_lt b a ≡ true
unfolding text_eq text_lt
text_lt_total [] [] h k = cc
text_lt_total [] (y ∷ ys) h k = cc
text_lt_total (x ∷ xs) [] h k = refl
text_lt_total (x ∷ xs) (y ∷ ys) h k = ground (arith, text_lt_total xs ys)

-- `BTreeSet::contains` and `HashMap::contains_key` on a collection of strings.
unfoldable pub contains : List Text → Text → Bool
contains [] a = false
contains (x ∷ xs) a = text_eq x a || contains xs a

-- `Vec::dedup`: of neighbours that are equal the first stays.
unfoldable pub dedup_from : Text → List Text → List Text
dedup_from x [] = x ∷ []
dedup_from x (y ∷ ys) = elim (text_eq x y) [ true ↦ dedup_from x ys | false ↦ x ∷ dedup_from y ys ]

unfoldable pub dedup : List Text → List Text
unfolding dedup_from
dedup [] = []
dedup (x ∷ xs) = dedup_from x xs
