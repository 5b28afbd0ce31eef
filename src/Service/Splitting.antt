-- ===== src/Service/Splitting.antt =====
-- `splitMessage`, `lastFittingCut` and `buildPassthroughMessages` of
-- internal/service/delivery_service.go. A text is the list of its runes, so that a byte index at which
-- a rune starts is the number of runes before it.
pub mod Trimming
pub mod Parts
pub mod Passthrough
use webhook_telegram_proxy.Prelude.{
  trim_space, is_empty, ℕ, zero, suc, Bool, true, false, not, ◌&&◌, ◌||◌, List, [], ◌∷◌, Text,
  codes, ltb, leb, ◌==◌, length, take, drop, filter, if◌then◌else◌,
}
use webhook_telegram_proxy.Errors.{Result, ok, err, plain}
use webhook_telegram_proxy.Template.{max_telegram_message_chars}
use webhook_telegram_proxy.Models.{WebhookPayload}

-- char == '\n' || char == ' ' || char == '\t'
abbrev pub is_break : ℕ → Bool
is_break c = c == 0xa || c == 0x20 || c == 0x9

-- The loop of `lastFittingCut`, at `index` with `last_whitespace`.
unfoldable pub cut_from : ℕ → ℕ → ℕ → Text → ℕ
cut_from limit index last_whitespace [] = index
cut_from limit index last_whitespace (c ∷ s) =
    let more = cut_from limit (suc index) (if is_break c then index else last_whitespace) s in
    if index == limit then (if ltb 0 last_whitespace then last_whitespace else index) else more

unfoldable pub last_fitting_cut : Text → ℕ → ℕ
last_fitting_cut message limit = cut_from limit 0 0 message

-- The loop of `splitMessage` and the rounds that it may still take; each shortens the rest. A part that
-- is empty is computed a second time in the source, in the same way.
unfoldable pub split_rounds : ℕ → ℕ → Text → List Text
split_rounds zero limit remaining = []
split_rounds (suc rounds) limit [] = []
split_rounds (suc rounds) limit (c ∷ s) =
    let cut = last_fitting_cut (c ∷ s) limit in
    let more =
      trim_space (take cut (c ∷ s)) ∷ split_rounds rounds limit (trim_space (drop cut (c ∷ s))) in
    if leb (length (c ∷ s)) limit then (c ∷ s) ∷ [] else more

unfoldable pub split_message : Text → ℕ → List Text
split_message message limit =
    if leb (length message) limit
    then message ∷ []
    else split_rounds (suc (length message)) limit (trim_space message)

-- the title stands in for an empty message
abbrev pub passthrough_text : WebhookPayload → Text
passthrough_text p =
    if is_empty (trim_space p.message) then trim_space p.title else trim_space p.message

unfoldable pub build_passthrough_messages : WebhookPayload → Result (List Text)
build_passthrough_messages p =
    if is_empty (passthrough_text p)
    then err (plain (codes "alertmanager message is empty"))
    else ok (split_message (passthrough_text p) max_telegram_message_chars)
