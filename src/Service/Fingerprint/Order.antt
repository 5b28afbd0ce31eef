-- ===== src/Service/Fingerprint/Order.antt =====
-- The fingerprint does not depend on the order in which a webhook lists its alerts.
use mathlib.Core.List.{Permᴰ, is_set}
use mathlib.Core.List.Perm
use mathlib.Core.List.{Perm}
use mathlib.Core.Logic.{∥∥₁_elim}
use native.Mathlib.Nat.{ℕ_set}
use webhook_telegram_proxy.Prelude.{
  true, false, List, [], ◌∷◌, map, Text, if◌then◌else◌, ◌≡◌, refl, ap, ◌∙◌, arith, inl, inr,
  Bool-cases,
}
use webhook_telegram_proxy.Models.{Alert, WebhookPayload}
use webhook_telegram_proxy.Runtime.{Env}
use webhook_telegram_proxy.Service.Fingerprint.{alert_string, canonical_string, compute_fingerprint}
use webhook_telegram_proxy.Prelude.{text_leb, insert_text, sort_texts}

text_leb_total : (s t : Text) → text_leb s t ≡ false → text_leb t s ≡ true
unfolding text_leb
text_leb_total [] t h = cc
text_leb_total (c ∷ s) [] h = refl
text_leb_total (c ∷ s) (d ∷ t) h = ground (arith, text_leb_total s t)

text_leb_antisym : (s t : Text) → text_leb s t ≡ true → text_leb t s ≡ true → s ≡ t
unfolding text_leb
text_leb_antisym [] [] h k = refl
text_leb_antisym [] (d ∷ t) h k = cc
text_leb_antisym (c ∷ s) [] h k = cc
text_leb_antisym (c ∷ s) (d ∷ t) h k = ground (arith, text_leb_antisym s t)

text_leb_trans : (s t u : Text) → text_leb s t ≡ true → text_leb t u ≡ true → text_leb s u ≡ true
unfolding text_leb
text_leb_trans [] t u h k = refl
text_leb_trans (c ∷ s) [] u h k = cc
text_leb_trans (c ∷ s) (d ∷ t) [] h k = cc
text_leb_trans (c ∷ s) (d ∷ t) (e ∷ u) h k = ground (arith, text_leb_trans s t u)

text_leb_later : (a b x : Text) → text_leb a x ≡ true → text_leb b x ≡ false → text_leb b a ≡ false
text_leb_later a b x ax bx = elim (Bool-cases (text_leb b a)) [
  | inl ba ↦ absurd (let bx' = text_leb_trans b a x ba ax in cc)
  | inr ba ↦ ba
]

-- two texts at the head of a list
insert_two :
    (a b : Text) (l : List Text)
    → (if text_leb a b then a ∷ b ∷ l else b ∷ a ∷ l)
      ≡ (if text_leb b a then b ∷ a ∷ l else a ∷ b ∷ l)
insert_two a b l = elim (Bool-cases (text_leb a b)) [
  | inl ab ↦ elim (Bool-cases (text_leb b a)) [
    | inl ba ↦ rw (ab, ba, text_leb_antisym a b ab ba) refl
    | inr ba ↦ rw (ab, ba) refl
  ]
  | inr ab ↦ rw (ab, text_leb_total a b ab) refl
]

insert_text_comm :
    (a b : Text) (l : List Text) → insert_text a (insert_text b l) ≡ insert_text b (insert_text a l)
unfolding insert_text
insert_text_comm a b [] = insert_two a b []
insert_text_comm a b (x ∷ l) = elim (Bool-cases (text_leb a x)) [
  | inl ax ↦ elim (Bool-cases (text_leb b x)) [
    | inl bx ↦ rw (bx, ax, bx) (insert_two a b (x ∷ l))
    | inr bx ↦ rw (bx, ax, text_leb_later a b x ax bx, bx) refl
  ]
  | inr ax ↦ elim (Bool-cases (text_leb b x)) [
    | inl bx ↦ rw (bx, ax, text_leb_later b a x bx ax, bx) refl
    | inr bx ↦ rw (bx, ax, bx) (ap (λ k. x ∷ k) (insert_text_comm a b l))
  ]
]

sort_texts_perm : {k l : List Text} → Permᴰ k l → sort_texts k ≡ sort_texts l
unfolding sort_texts
sort_texts_perm Permᴰ.nil = refl
sort_texts_perm (Permᴰ.cons {b = b} {l₁ = k} e d) = rw e (ap (insert_text b) (sort_texts_perm d))
sort_texts_perm (Permᴰ.swap {a' = a} {b' = b} {l = l} e f) =
    rw (e, f) (insert_text_comm b a (sort_texts l))
sort_texts_perm (Permᴰ.trans d e) = sort_texts_perm d ∙ sort_texts_perm e

-- `sort_texts` gives permuted lists of texts the same result.
sort_texts-Perm : (k l : List Text) → Perm k l → sort_texts k ≡ sort_texts l
sort_texts-Perm k l p =
    ∥∥₁_elim p (is_set (is_set ℕ_set) (sort_texts k) (sort_texts l)) sort_texts_perm

-- Payloads that differ only in the order of their alerts have the same fingerprint.
pub compute_fingerprint-Perm :
    (env : Env) (p : WebhookPayload) (alerts : List Alert)
    → Perm alerts p.alerts
    → compute_fingerprint env (record p { alerts = alerts }) ≡ compute_fingerprint env p
unfolding compute_fingerprint canonical_string
compute_fingerprint-Perm env p alerts h =
    rw
      (
        compute_fingerprint,
        canonical_string,
        sort_texts-Perm (map (alert_string env) alerts) (map (alert_string env) p.alerts)
            (Perm.map (alert_string env) h),
      )
      refl
