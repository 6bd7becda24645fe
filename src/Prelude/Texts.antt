-- ===== src/Prelude/Texts.antt =====
-- A Go string as the list of its bytes: equality, order, sorting, joining and searching.
use Prim.Native.Char.{code}
use Prim.Native.String.{String}
use Prim.Native.Nat.{ℕ}
use mathlib.Core.Path.{◌≡◌, refl}
use mathlib.Core.Logic.{◌↔◌}
use mathlib.Core.Bool.{Bool, true, false, ◌&&◌, ◌||◌}
use mathlib.Core.List.{List, [], ◌∷◌, ◌++◌}
use native.Mathlib.Omega.{arith}
use pm.Prelude.Tests.{ltb, ◌==◌, if◌then◌else◌}

abbrev pub Text : Type 0
Text = List ℕ

-- The bytes of an ASCII literal.
abbrev pub codes : String → Text
codes String.[] = []
codes (String.◌∷◌ c s) = code c ∷ codes s

unfoldable pub same : Text → Text → Bool
same [] [] = true
same [] (b ∷ t) = false
same (a ∷ s) [] = false
same (a ∷ s) (b ∷ t) = a == b && same s t

pub same_eq : (s t : Text) → same s t ≡ true → s ≡ t
unfolding same
same_eq [] [] h = refl
same_eq [] (b ∷ t) h = ground arith
same_eq (a ∷ s) [] h = ground arith
same_eq (a ∷ s) (b ∷ t) h = ground (arith, same_eq s t)

pub same_refl : (s : Text) → same s s ≡ true
unfolding same
same_refl [] = refl
same_refl (a ∷ s) = ground (arith, same_refl s)

pub same_iff : (s t : Text) → (same s t ≡ true) ↔ (s ≡ t)
same_iff s t = (same_eq s t, λ e. subst_same e)
  where
    subst_same : s ≡ t → same s t ≡ true
    subst_same e = rw e (same_refl t)

-- s == ""
abbrev pub is_empty : Text → Bool
is_empty [] = true
is_empty (a ∷ s) = false

-- Bytewise order, `s <= t` on Go strings.
unfoldable pub text_le : Text → Text → Bool
text_le [] t = true
text_le (a ∷ s) [] = false
text_le (a ∷ s) (b ∷ t) = ltb a b || (a == b && text_le s t)

unfoldable pub contains : Text → List Text → Bool
contains x [] = false
contains x (y ∷ ys) = same x y || contains x ys

-- sort.Strings
unfoldable pub insert_text : Text → List Text → List Text
insert_text x [] = x ∷ []
insert_text x (y ∷ ys) = if text_le x y then x ∷ y ∷ ys else y ∷ insert_text x ys

unfoldable pub sort_texts : List Text → List Text
unfolding insert_text
sort_texts [] = []
sort_texts (x ∷ xs) = insert_text x (sort_texts xs)

pub contains-insert_text :
    (x y : Text) (ys : List Text) → contains x (insert_text y ys) ≡ (same x y || contains x ys)
unfolding contains insert_text
contains-insert_text x y [] = refl
contains-insert_text x y (z ∷ zs) = ground (arith, contains-insert_text x y zs)

pub contains-sort_texts : (x : Text) (xs : List Text) → contains x (sort_texts xs) ≡ contains x xs
unfolding sort_texts contains
contains-sort_texts x [] = refl
contains-sort_texts x (y ∷ ys) =
    ground (arith, contains-insert_text x y (sort_texts ys), contains-sort_texts x ys)

pub contains-append :
    (x : Text) (xs ys : List Text) → contains x (xs ++ ys) ≡ (contains x xs || contains x ys)
unfolding contains
contains-append x [] ys = refl
contains-append x (y ∷ xs) ys = ground (arith, contains-append x xs ys)

-- strings.Join
unfoldable pub join : Text → List Text → Text
join sep [] = []
join sep (x ∷ []) = x
join sep (x ∷ y ∷ ys) = x ++ sep ++ join sep (y ∷ ys)
