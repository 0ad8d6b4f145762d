-- ===== src/Base/Strings.antt =====
-- Text as a list of codes, with the searches that the program makes in it.
use Prim.Native.Nat.{ℕ}
use Prim.Native.Char.{code}
use Prim.Native.String.{String}
use mathlib.Core.Path.{◌≡◌, refl}
use mathlib.Core.Logic.{◌≢◌}
use mathlib.Core.Bool.{Bool, true, false, ◌&&◌, ◌||◌}
use mathlib.Core.List.{List, [], ◌∷◌}
use native.Mathlib.Omega.{arith}
use ec_server.Base.Tests.{◌==◌}

abbrev pub Text : Type 0
Text = List ℕ

abbrev pub codes : String → Text
codes String.[] = []
codes (String.◌∷◌ c s) = code c ∷ codes s

unfoldable pub text_eq : Text → Text → Bool
text_eq [] [] = true
text_eq [] (b ∷ bs) = false
text_eq (a ∷ xs) [] = false
text_eq (a ∷ xs) (b ∷ bs) = (a == b) && text_eq xs bs

pub text_eq→eq : (a b : Text) → text_eq a b ≡ true → a ≡ b
unfolding text_eq
text_eq→eq [] [] h = refl
text_eq→eq [] (b ∷ bs) h = cc
text_eq→eq (a ∷ xs) [] h = cc
text_eq→eq (a ∷ xs) (b ∷ bs) h = ground (arith, text_eq→eq xs bs)

pub text_eq_refl : (a : Text) → text_eq a a ≡ true
unfolding text_eq
text_eq_refl [] = refl
text_eq_refl (a ∷ xs) = ground (arith, text_eq_refl xs)

-- `std::string::find`, compared with `npos`.
unfoldable pub starts_with : Text → Text → Bool
starts_with line [] = true
starts_with [] (b ∷ bs) = false
starts_with (a ∷ line) (b ∷ bs) = (a == b) && starts_with line bs

unfoldable pub contains : Text → Text → Bool
unfolding starts_with
contains [] part = starts_with [] part
contains (c ∷ line) part = starts_with (c ∷ line) part || contains line part

pub starts_with_self : (a : Text) → starts_with a a ≡ true
unfolding starts_with
starts_with_self [] = refl
starts_with_self (a ∷ xs) = ground (arith, starts_with_self xs)

pub contains-nil : (line : Text) → contains line [] ≡ true
unfolding contains
contains-nil [] = refl
contains-nil (c ∷ line) = refl

pub contains_self : (a : Text) → contains a a ≡ true
unfolding contains
contains_self [] = refl
contains_self (c ∷ line) = rw (starts_with_self (c ∷ line)) refl

pub text_eq-ne : (a b : Text) → a ≢ b → text_eq a b ≡ false
text_eq-ne a b h = ground (arith, text_eq→eq a b)
