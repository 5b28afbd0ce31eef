-- ===== src/Http/Guards/Access.antt =====
-- Who may post a webhook.
use webhook_telegram_proxy.Prelude.{
  Bool, true, false, not, ◌&&◌, Option, none, some, Text, ◌≡◌, refl, ◌↔◌, ◌⊎◌, inl, inr, arith,
  same_text_iff, is_empty, Bool-cases, if◌then◌else◌,
}
use webhook_telegram_proxy.Config.{Config, basic_auth_enabled}
use webhook_telegram_proxy.Http.{Request}
use webhook_telegram_proxy.Http.Guards.{Site, secure_compare, credentials_match, authorize_webhook}

-- Two texts that are compared by their digests are equal where the digests are.
abbrev pub NoCollision : Site → Text → Text → Type 0
NoCollision site a b = site.sha256_hex a ≡ site.sha256_hex b → a ≡ b

pub record Distinguishes (site : Site) (cfg : Config) (r : Request) : Type 0 where
  pub secrets : NoCollision site r.webhook_secret cfg.webhook_secret
  pub usernames :
      (u p : Text) → r.basic_auth ≡ some (u, p) → NoCollision site u cfg.basic_auth_username
  pub passwords :
      (u p : Text) → r.basic_auth ≡ some (u, p) → NoCollision site p cfg.basic_auth_password

-- A configured secret is given, or configured credentials are, or nothing is configured.
abbrev pub GivesSecret : Config → Request → Type 0
GivesSecret cfg r = (is_empty cfg.webhook_secret ≡ false) × (r.webhook_secret ≡ cfg.webhook_secret)

abbrev pub GivesCredentials : Config → Request → Type 0
GivesCredentials cfg r =
    (basic_auth_enabled cfg ≡ true)
    × (r.basic_auth ≡ some (cfg.basic_auth_username, cfg.basic_auth_password))

abbrev pub IsOpen : Config → Type 0
IsOpen cfg = (is_empty cfg.webhook_secret ≡ true) × (basic_auth_enabled cfg ≡ false)

abbrev pub IsAllowed : Config → Request → Type 0
IsAllowed cfg r = GivesSecret cfg r ⊎ (GivesCredentials cfg r ⊎ IsOpen cfg)

and-true : (a b : Bool) → (a && b) ≡ true → (a ≡ true) × (b ≡ true)
and-true a b h = ground arith

not-true : (a : Bool) → not a ≡ true → a ≡ false
not-true a h = ground arith

not-false : (a : Bool) → not a ≡ false → a ≡ true
not-false a h = ground arith

either-true : (b rest : Bool) → (if b then true else if true && true then true else rest) ≡ true
either-true b rest = ground arith

module _ (site : Site) where
  secure_compare_refl : (a : Text) → secure_compare site a a ≡ true
  unfolding secure_compare
  secure_compare_refl a = (same_text_iff _ _).1 refl

  secure_compare-eq : (a b : Text) → NoCollision site a b → secure_compare site a b ≡ true → a ≡ b
  unfolding secure_compare
  secure_compare-eq a b distinct h = distinct ((same_text_iff _ _).0 h)

  pub matched :
      (cfg : Config) (r : Request) (given : Option (Text × Text))
      → r.basic_auth ≡ given
      → Distinguishes site cfg r
      → credentials_match site cfg given ≡ true
      → r.basic_auth ≡ some (cfg.basic_auth_username, cfg.basic_auth_password)
  unfolding credentials_match
  matched cfg r none e d h = cc
  matched cfg r (some (u, p)) e d h =
      let (same_u, same_p) = and-true _ _ h in
      let eq_u = secure_compare-eq u cfg.basic_auth_username (d.usernames u p e) same_u in
      let eq_p = secure_compare-eq p cfg.basic_auth_password (d.passwords u p e) same_p in cc

  match-own :
      (cfg : Config)
      → credentials_match site cfg (some (cfg.basic_auth_username, cfg.basic_auth_password)) ≡ true
  unfolding credentials_match
  match-own cfg =
      rw (secure_compare_refl cfg.basic_auth_username, secure_compare_refl cfg.basic_auth_password)
        refl

  authorize_webhook-IsAllowed :
      (cfg : Config) (r : Request)
      → Distinguishes site cfg r
      → authorize_webhook site cfg r ≡ true
      → IsAllowed cfg r
  unfolding authorize_webhook
  authorize_webhook-IsAllowed cfg r d h =
      elim (Bool-cases (
        not (is_empty cfg.webhook_secret)
        && secure_compare site r.webhook_secret cfg.webhook_secret)) [
          | inl secret ↦
              let (given, same) = and-true _ _ secret in
              inl (not-true _ given, secure_compare-eq _ _ d.secrets same)
          | inr other ↦
              elim (Bool-cases
                (basic_auth_enabled cfg && credentials_match site cfg r.basic_auth)) [
                  | inl basic ↦
                      let (enabled, match) = and-true _ _ basic in
                      inr (inl (enabled, matched cfg r r.basic_auth refl d match))
                  | inr neither ↦
                      let rest = rw (other, neither) at h in
                      let (no_secret, no_basic) =
                        and-true (is_empty cfg.webhook_secret) (not (basic_auth_enabled cfg))
                          rest in
                      inr (inr (no_secret, not-true _ no_basic))
                ]
        ]

  allowing : (cfg : Config) (r : Request) → IsAllowed cfg r → authorize_webhook site cfg r ≡ true
  unfolding authorize_webhook
  allowing cfg r (inl (given, same)) = rw (given, same, secure_compare_refl cfg.webhook_secret) refl
  allowing cfg r (inr (inl (enabled, given))) =
      rw (enabled, given, match-own cfg)
        (either-true
          (not (is_empty cfg.webhook_secret)
            && secure_compare site r.webhook_secret cfg.webhook_secret)
          (is_empty cfg.webhook_secret && not true))
  allowing cfg r (inr (inr (no_secret, no_basic))) = rw (no_secret, no_basic) refl

-- Where the digests of what is compared do not collide, a webhook is authorized exactly when it gives the
-- secret that is configured, or the credentials that are configured, or when neither is configured.
pub authorize_webhook_lem :
    (site : Site) (cfg : Config) (r : Request)
    → Distinguishes site cfg r
    → (authorize_webhook site cfg r ≡ true) ↔ IsAllowed cfg r
authorize_webhook_lem site cfg r d = (authorize_webhook-IsAllowed site cfg r d, allowing site cfg r)
