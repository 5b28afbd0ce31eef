-- ===== src/Service/Splitting/Passthrough.antt =====
-- What `buildPassthroughMessages` makes of the message of Alertmanager, or of its title.
use mathlib.Core.List.{flatten}
use webhook_telegram_proxy.Prelude.{
  false, true, ◌∷◌, [], List, Text, codes, All, ◌≡◌, ◌≢◌, inl, inr, refl, sym, ◌∙◌, arith,
  Bool-cases,
}
use webhook_telegram_proxy.Errors.{Result, ok, err, plain}
use webhook_telegram_proxy.Models.{WebhookPayload}
use webhook_telegram_proxy.Template.{max_telegram_message_chars}
use webhook_telegram_proxy.Service.Splitting.{split_message, build_passthrough_messages}
use webhook_telegram_proxy.Prelude.{trim_space, is_empty}
use webhook_telegram_proxy.Service.Splitting.Trimming.{
  visible, visible-trim_space, StartsVisible, trim_space-StartsVisible,
}
use webhook_telegram_proxy.Service.Splitting.Parts.{IsGoodPart, split_message_lem, shown_nonempty}

-- The messages that a text is passed on in.
pub record IsPassedOn (text : Text) (messages : List Text) : Type 0 where
  pub good : All (IsGoodPart max_telegram_message_chars) messages
  pub complete : visible (flatten messages) ≡ visible text

-- A text to send: trimmed, and not empty.
starting_shows : (s : Text) → StartsVisible s → is_empty s ≡ false → visible s ≢ []
starting_shows [] h e = cc
starting_shows (c ∷ s) h e = shown_nonempty c s h

blank_lem : (s : Text) → is_empty s ≡ true → visible s ≡ []
blank_lem [] h = refl
blank_lem (c ∷ s) h = cc

trimmed_empty : (s : Text) → is_empty (trim_space s) ≡ true → visible s ≡ []
trimmed_empty s h = sym (visible-trim_space s) ∙ blank_lem (trim_space s) h

trimmed_shows : (s : Text) → is_empty (trim_space s) ≡ false → visible s ≢ []
trimmed_shows s h e =
    starting_shows (trim_space s) (trim_space-StartsVisible s) h (visible-trim_space s ∙ e)

passed_on :
    (s : Text)
    → is_empty (trim_space s) ≡ false
    → IsPassedOn s (split_message (trim_space s) max_telegram_message_chars)
passed_on s h =
    let lem =
      split_message_lem max_telegram_message_chars (omega arith) (trim_space s)
        (starting_shows (trim_space s) (trim_space-StartsVisible s) h) in
    record { good = lem.0; complete = lem.1 ∙ visible-trim_space s }

-- What `buildPassthroughMessages` answers: the message where it shows something, else the title where
-- that does, else an error.
pub data IsPassthrough (p : WebhookPayload) : Result (List Text) → Type 0 where
  of_message :
      (messages : List Text)
      → visible p.message ≢ []
      → IsPassedOn p.message messages
      → IsPassthrough p (ok messages)
  of_title :
      (messages : List Text)
      → visible p.message ≡ []
      → visible p.title ≢ []
      → IsPassedOn p.title messages
      → IsPassthrough p (ok messages)
  of_neither :
      visible p.message ≡ []
      → visible p.title ≡ []
      → IsPassthrough p (err (plain (codes "alertmanager message is empty")))

-- `build_passthrough_messages` passes on the message when it shows something, else the title when that
-- does, in parts of at most 4096 characters that each show something and together show what it shows;
-- when neither does, it answers with an error.
pub build_passthrough_messages_lem :
    (p : WebhookPayload) → IsPassthrough p (build_passthrough_messages p)
unfolding build_passthrough_messages
build_passthrough_messages_lem p = elim (Bool-cases (is_empty (trim_space p.message))) [
  | inr shows ↦
      rw (shows, shows) (of_message _ (trimmed_shows p.message shows) (passed_on p.message shows))
  | inl blank ↦ elim (Bool-cases (is_empty (trim_space p.title))) [
    | inr shows ↦
        rw (blank, shows)
          (of_title _ (trimmed_empty p.message blank) (trimmed_shows p.title shows)
            (passed_on p.title shows))
    | inl none ↦
        rw (blank, none) (of_neither (trimmed_empty p.message blank) (trimmed_empty p.title none))
  ]
]
