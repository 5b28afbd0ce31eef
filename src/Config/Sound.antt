-- ===== src/Config/Sound.antt =====
-- An accepted configuration has natural numbers in the bounds that the services rely on, and its
-- retention windows are the hours asked for where these fit a duration.
mod Checks
use webhook_telegram_proxy.Prelude.{
  subst, ◌<◌, true, false, not, Option, none, some, ◌++◌, ◌≡◌, refl, Text, is_empty, All, ℤ, negsuc,
  is_positive, less, natural, natural-positive,
}
use webhook_telegram_proxy.Errors.{ok-injective, ok-injective, Error, Result, ok, and_then-ok}
use webhook_telegram_proxy.Config.Bounds.{
  IsClear, problems_of-IsClear, reported-none, positive-not, less-natural, or-false,
  attempts-positive, below-natural, integer_config-natural_config, natural_config, integer_config,
  Positives, IsSound,
}
use webhook_telegram_proxy.Config.{Settings}
use webhook_telegram_proxy.Config.Validate.{Libraries, text_checks, number_checks, validate}
use webhook_telegram_proxy.Config.Parse.{
  Flags, with_retention, if_no_problem, parsed_flags, default_flags, parse,
}
use webhook_telegram_proxy.Config.Sound.Checks.{Cleared, checks-Cleared}

Cleared-IsSound : (c : Settings) → Cleared c → IsSound (natural_config c)
unfolding natural_config
Cleared-IsSound c cleared =
    let p = cleared.positives in
    let above : (z : ℤ) → is_positive z ≡ true → 0 < natural z = natural-positive in
    record {
      port_range = (above c.app_port p.app_port_positive, cleared.port_at_most);
      token_given = cleared.token;
      chat_given = cleared.chat;
      body_limit = (
        above c.max_request_body_bytes p.max_request_body_bytes_positive,
        above c.max_header_bytes p.max_header_bytes_positive,
      );
      timeouts = (
        above c.http_read_timeout p.http_read_timeout_positive,
        (
          above c.http_write_timeout p.http_write_timeout_positive,
          (
            above c.http_shutdown_timeout p.http_shutdown_timeout_positive,
            above c.http_idle_timeout p.http_idle_timeout_positive,
          ),
        ),
      );
      attempts = above c.max_delivery_attempts p.max_delivery_attempts_positive;
      delays = (above c.retry_base_delay p.retry_base_delay_positive, cleared.delays_ordered);
      intervals = (
        above c.recovery_interval p.recovery_interval_positive,
        above c.store_rotation_interval p.store_rotation_interval_positive,
      );
      batch = above c.worker_batch_size p.worker_batch_size_positive;
      watermarks = (
        above c.store_rotation_low_watermark p.store_rotation_low_watermark_positive,
        (cleared.low_below, cleared.high_at_most),
      );
      retention = (
        above c.store_retention_delivered p.store_retention_delivered_positive,
        above c.store_retention_dead_letter p.store_retention_dead_letter_positive,
      );
    }

-- A configuration that `validate` accepts has positive numbers only, which the services use as natural
-- numbers, and these are sound: the port is at most 65535, there is a bot token and a chat, the first
-- retry delay is at most the largest, and the low watermark is below the high one, which is at most the
-- largest size.
pub validate-IsSound :
    (libs : Libraries) (c : Settings)
    → validate libs c ≡ none
    → IsSound (natural_config c) × (integer_config (natural_config c) ≡ c)
unfolding validate
validate-IsSound libs c h =
    let clear = problems_of-IsClear _ (reported-none libs _ h) in
    let cleared = checks-Cleared libs c clear in
    (Cleared-IsSound c cleared, integer_config-natural_config c cleared.positives)

if_no_problem-ok :
    (c d : Settings) (e : Option Error) → if_no_problem c e ≡ ok d → (e ≡ none) × (c ≡ d)
if_no_problem-ok c d none h = (refl, ok-injective h)
if_no_problem-ok c d (some e) h = cc

parsed_flags-ok :
    (libs : Libraries) (flags : Flags) (c : Settings)
    → parsed_flags libs flags ≡ ok c
    → (validate libs c ≡ none) × (with_retention flags ≡ c)
parsed_flags-ok libs flags c h =
    let (clear, same) =
      if_no_problem-ok (with_retention flags) c (validate libs (with_retention flags)) h in
    (subst (λ d. validate libs d ≡ none) same clear, same)

pub parse-IsSound :
    (libs : Libraries) (lookup : Text → Option Text) (parse_flags : Flags → Result Flags)
    (c : Settings)
    → parse libs lookup parse_flags ≡ ok c
    → IsSound (natural_config c)
unfolding parse
parse-IsSound libs lookup parse_flags c h =
    let (flags, (read, built)) =
      and_then-ok (parse_flags (default_flags libs lookup)) (parsed_flags libs) c h in
    (validate-IsSound libs c (parsed_flags-ok libs flags c built).0).0
