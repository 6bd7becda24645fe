-- ===== src/Paths.antt =====
-- Names of files, as path/filepath and strings treat them on Unix.
use mathlib.Core.List.{append-nil}
use pm.Prelude.{
  ℕ, ◌≡◌, refl, ap, inl, inr, Bool, false, not, ◌&&◌, ◌||◌, [], ◌∷◌, ◌++◌, ◌==◌, if◌then◌else◌,
  Bool-cases, Text, is_empty,
}

abbrev pub dot : ℕ
dot = b'.'

abbrev slash : ℕ
slash = b'/'

abbrev pub has_slash : Text → Bool
has_slash [] = false
has_slash (b ∷ s) = b == slash || has_slash s

-- filepath.Ext: the text from the last dot of the last element on.
unfoldable pub ext : Text → Text
ext [] = []
ext (b ∷ s) =
    let later = ext s in
    if not (is_empty later) then later else (if b == dot && not (has_slash s) then b ∷ s else [])

-- What strings.TrimSuffix(path, filepath.Ext(path)) leaves.
unfoldable pub stem : Text → Text
unfolding ext
stem [] = []
stem (b ∷ s) =
    let later = stem s in
    if not (is_empty (ext s))
    then b ∷ later
    else (if b == dot && not (has_slash s) then [] else b ∷ s)

-- The stem and the extension are the whole name.
pub stem-ext : (s : Text) → stem s ++ ext s ≡ s
unfolding stem ext
stem-ext [] = refl
stem-ext (b ∷ s) = elim (Bool-cases (is_empty (ext s))) [
  | inr e ↦ rw e (ap (λ t. b ∷ t) (stem-ext s))
  | inl e ↦ elim (Bool-cases (b == dot && not (has_slash s))) [
    | inl d ↦ rw (e, d) refl
    | inr d ↦ rw (e, d) (append-nil (b ∷ s))
  ]
]
