-- ===== src/Service/Splitting/Parts.antt =====
-- The parts of a split message fit, are not blank, and lose nothing but white space.
use mathlib.Core.List.{flatten, cons-ne-nil}
use webhook_telegram_proxy.Prelude.{
  ℕ, zero, suc, ◌+◌, ◌≤◌, ◌<◌, false, [], ◌∷◌, ◌++◌, ◌≡◌, ◌≢◌, refl, ap, ◌∙◌, sym, arith, Text,
  length, take, drop, All, leb, Bool-cases, inl, inr, length-take, length-drop, take-append-drop,
  append-nil,
}
use webhook_telegram_proxy.Service.Splitting.{
  cut_from, last_fitting_cut, split_rounds, split_message,
}
use webhook_telegram_proxy.Prelude.{is_space, trim_space}
use webhook_telegram_proxy.Service.Splitting.Trimming.{
  visible, visible-append, visible-trim_space, length-trim_space-le, StartsVisible,
  trim_space-StartsVisible,
}

cut_from_bounds :
    (limit index last : ℕ) (s : Text)
    → 0 < limit
    → index ≤ limit
    → last ≤ limit
    → limit < index + length s
    → (0 < cut_from limit index last s) × (cut_from limit index last s ≤ limit)
unfolding cut_from
cut_from_bounds limit index last [] pos i l h = absurd (omega arith)
cut_from_bounds limit index last (c ∷ s) pos i l h =
    ground
      (arith, cut_from_bounds limit (suc index) index s, cut_from_bounds limit (suc index) last s)

-- A part fits, and shows something.
pub record IsGoodPart (limit : ℕ) (part : Text) : Type 0 where
  pub fits : length part ≤ limit
  pub shows : visible part ≢ []

pub shown_nonempty : (c : ℕ) (s : Text) → is_space c ≡ false → visible (c ∷ s) ≢ []
shown_nonempty c s h e =
    let shown : visible (c ∷ s) ≡ c ∷ visible s = rw h refl in
    cons-ne-nil c (visible s) (sym shown ∙ e)

cut_shows :
    (n : ℕ) (c : ℕ) (s : Text)
    → 0 < n
    → is_space c ≡ false
    → visible (trim_space (take n (c ∷ s))) ≢ []
cut_shows zero c s pos h e = elim pos [ ]
cut_shows (suc n) c s pos h e =
    let shown : visible (take (suc n) (c ∷ s)) ≡ c ∷ visible (take n s) = rw h refl in
    cons-ne-nil c (visible (take n s))
      (sym shown ∙ sym (visible-trim_space (take (suc n) (c ∷ s))) ∙ e)

visible-cut :
    (n : ℕ) (s : Text)
    → visible (trim_space (take n s)) ++ visible (trim_space (drop n s)) ≡ visible s
visible-cut n s = rw (
  visible-trim_space (take n s),
  visible-trim_space (drop n s),
  ← visible-append (take n s) (drop n s),
  take-append-drop n s,
)

module _ (limit : ℕ) (pos : 0 < limit) where
  split_rounds_lem :
      (rounds : ℕ) (s : Text)
      → length s < rounds
      → StartsVisible s
      → All (IsGoodPart limit) (split_rounds rounds limit s)
        × (visible (flatten (split_rounds rounds limit s)) ≡ visible s)
  unfolding split_rounds last_fitting_cut flatten
  split_rounds_lem zero s enough h = elim enough [ ]
  split_rounds_lem (suc rounds) [] enough h = (tt, refl)
  split_rounds_lem (suc rounds) (c ∷ s) enough h = elim (Bool-cases (leb (length (c ∷ s)) limit)) [
    | inl short ↦ rw short (
      (record { fits = ground arith; shows = shown_nonempty c s h }, tt),
      ap visible (append-nil (c ∷ s)),
    )
    | inr long ↦
        let n = cut_from limit 0 0 (c ∷ s) in
        let b = cut_from_bounds limit 0 0 (c ∷ s) pos (omega arith) (omega arith) (ground arith) in
        let rest = trim_space (drop n (c ∷ s)) in
        let ih =
          split_rounds_lem rounds rest
            (omega (arith, length-trim_space-le (drop n (c ∷ s)), length-drop n (c ∷ s)))
            (trim_space-StartsVisible (drop n (c ∷ s))) in
        rw long (
          (
            record {
              fits = omega (arith, length-trim_space-le (take n (c ∷ s)), length-take n (c ∷ s));
              shows = cut_shows n c s b.0 h;
            },
            ih.0,
          ),
          visible-append (trim_space (take n (c ∷ s))) (flatten (split_rounds rounds limit rest))
              ∙ ap (λ l. visible (trim_space (take n (c ∷ s))) ++ l) (ih.1)
              ∙ visible-cut n (c ∷ s),
        )
  ]

-- What is not white space.
module _ (limit : ℕ) (pos : 0 < limit) where
  -- When the message shows something, each part of `split_message` has at most `limit` characters and
  -- shows something, and the parts together show what the message shows.
  pub split_message_lem :
      (message : Text)
      → visible message ≢ []
      → All (IsGoodPart limit) (split_message message limit)
        × (visible (flatten (split_message message limit)) ≡ visible message)
  unfolding split_message flatten
  split_message_lem message shows = elim (Bool-cases (leb (length message) limit)) [
    | inl short ↦
        rw short
          ((record { fits = ground arith; shows = shows }, tt), ap visible (append-nil message))
    | inr long ↦
        let lem =
          split_rounds_lem limit pos (suc (length message)) (trim_space message)
            (omega (arith, length-trim_space-le message)) (trim_space-StartsVisible message) in
        rw long (lem.0, lem.1 ∙ visible-trim_space message)
  ]
