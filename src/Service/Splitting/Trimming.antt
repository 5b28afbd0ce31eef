-- ===== src/Service/Splitting/Trimming.antt =====
-- Trimming removes white space only.
use webhook_telegram_proxy.Prelude.{
  ◌≤◌, true, false, not, [], ◌∷◌, ◌++◌, ◌≡◌, refl, ◌∙◌, arith, Text, length, filter, Bool-cases,
  inl, inr,
}
use webhook_telegram_proxy.Prelude.{is_space, is_empty, trim_left, trim_right, trim_space}

-- what is not white space
abbrev pub visible : Text → Text
visible s = filter (λ c. not (is_space c)) s

pub visible-append : (s t : Text) → visible (s ++ t) ≡ visible s ++ visible t
visible-append [] t = refl
visible-append (c ∷ s) t = ground (arith, visible-append s t)

visible-trim_left : (s : Text) → visible (trim_left s) ≡ visible s
unfolding trim_left
visible-trim_left [] = refl
visible-trim_left (c ∷ s) = ground (arith, visible-trim_left s)

empty_lem : (s : Text) → is_empty s ≡ true → s ≡ []
empty_lem [] h = refl
empty_lem (c ∷ s) h = cc

visible-trim_right : (s : Text) → visible (trim_right s) ≡ visible s
unfolding trim_right
visible-trim_right [] = refl
visible-trim_right (c ∷ s) = ground (arith, visible-trim_right s, empty_lem (trim_right s))

pub visible-trim_space : (s : Text) → visible (trim_space s) ≡ visible s
unfolding trim_space
visible-trim_space s = visible-trim_right (trim_left s) ∙ visible-trim_left s

length-trim_left-le : (s : Text) → length (trim_left s) ≤ length s
unfolding trim_left
length-trim_left-le [] = omega arith
length-trim_left-le (c ∷ s) = ground (arith, length-trim_left-le s)

length-trim_right-le : (s : Text) → length (trim_right s) ≤ length s
unfolding trim_right
length-trim_right-le [] = omega arith
length-trim_right-le (c ∷ s) = ground (arith, length-trim_right-le s)

pub length-trim_space-le : (s : Text) → length (trim_space s) ≤ length s
unfolding trim_space
length-trim_space-le s = omega (arith, length-trim_right-le (trim_left s), length-trim_left-le s)

-- A text that is empty or starts with a visible character.
abbrev pub StartsVisible : Text → Type 0
StartsVisible [] = Unit
StartsVisible (c ∷ s) = is_space c ≡ false

trim_left-StartsVisible : (s : Text) → StartsVisible (trim_left s)
unfolding trim_left
trim_left-StartsVisible [] = tt
trim_left-StartsVisible (c ∷ s) = elim (Bool-cases (is_space c)) [
  | inl h ↦ rw h (trim_left-StartsVisible s)
  | inr h ↦ rw h h
]

trim_right-StartsVisible : (s : Text) → StartsVisible s → StartsVisible (trim_right s)
unfolding trim_right
trim_right-StartsVisible [] h = tt
trim_right-StartsVisible (c ∷ s) h = rw h h

pub trim_space-StartsVisible : (s : Text) → StartsVisible (trim_space s)
unfolding trim_space
trim_space-StartsVisible s = trim_right-StartsVisible (trim_left s) (trim_left-StartsVisible s)
