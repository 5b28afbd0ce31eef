-- ===== src/Config/Sound/Checks.antt =====
-- What the checks of `validate` (internal/config/config.go) leave true when none of them finds a problem.
use webhook_telegram_proxy.Prelude.{
  ◌≤◌, ◌<◌, true, false, not, ◌++◌, ◌≡◌, arith, is_empty, All, ℤ, pos, negsuc, is_positive, less,
  natural,
}
use webhook_telegram_proxy.Config.Bounds.{
  IsClear, positive-not, less-natural, or-false, attempts-positive, below-natural, Positives,
}
use webhook_telegram_proxy.Config.{Settings}
use webhook_telegram_proxy.Config.Validate.{Libraries, text_checks, number_checks}

-- the checks that found nothing, as what they checked
pub record Cleared (c : Settings) : Type 0 where
  pub positives : Positives c
  pub port_at_most : natural c.app_port ≤ 65535
  pub token : is_empty c.telegram_bot_token ≡ false
  pub chat : is_empty c.telegram_chat_id ≡ false
  pub delays_ordered : natural c.retry_base_delay ≤ natural c.retry_max_delay
  pub high_at_most : natural c.store_rotation_high_watermark ≤ natural c.store_max_size_bytes
  pub low_below : natural c.store_rotation_low_watermark < natural c.store_rotation_high_watermark

at_most_port : (z : ℤ) → less (pos 65535) z ≡ false → natural z ≤ 65535
at_most_port (pos n) h = ground arith
at_most_port (negsuc n) h = omega arith

pub checks-Cleared :
    (libs : Libraries) (c : Settings)
    → All IsClear (text_checks libs c ++ number_checks libs c)
    → Cleared c
unfolding text_checks number_checks
checks-Cleared libs c
      (
        host,
        (
          port,
          (
            token,
            (
              chat,
              (
                base_url,
                (
                  proxy_url,
                  (
                    zone,
                    (
                      source,
                      (
                        path,
                        (
                          auth,
                          (
                            realm,
                            (
                              mode,
                              (
                                body,
                                (
                                  header,
                                  (
                                    read,
                                    (
                                      write,
                                      (
                                        shutdown,
                                        (
                                          idle,
                                          (
                                            attempts,
                                            (
                                              delays,
                                              (
                                                recovery,
                                                (
                                                  batch,
                                                  (
                                                    store,
                                                    (
                                                      size,
                                                      (high, (low, (retention, (rotation, _)))),
                                                    ),
                                                  ),
                                                ),
                                              ),
                                            ),
                                          ),
                                        ),
                                      ),
                                    ),
                                  ),
                                ),
                              ),
                            ),
                          ),
                        ),
                      ),
                    ),
                  ),
                ),
              ),
            ),
          ),
        ),
      ) =
    let plus : (z : ℤ) → not (is_positive z) ≡ false → is_positive z ≡ true = positive-not in
    let (port_pos, port_max) = or-false _ _ port in
    let (both_pos, order) = or-false _ _ delays in
    let (base_pos, max_pos) = or-false _ _ both_pos in
    let (high_pos, high_max) = or-false _ _ high in
    let (low_pos, low_high) = or-false _ _ low in
    let (kept_pos, dead_pos) = or-false _ _ retention in
    record {
      positives = record {
        app_port_positive = plus c.app_port port_pos;
        http_read_timeout_positive = plus c.http_read_timeout read;
        http_write_timeout_positive = plus c.http_write_timeout write;
        http_shutdown_timeout_positive = plus c.http_shutdown_timeout shutdown;
        http_idle_timeout_positive = plus c.http_idle_timeout idle;
        max_request_body_bytes_positive = plus c.max_request_body_bytes body;
        max_header_bytes_positive = plus c.max_header_bytes header;
        max_delivery_attempts_positive = attempts-positive c.max_delivery_attempts attempts;
        retry_base_delay_positive = plus c.retry_base_delay base_pos;
        retry_max_delay_positive = plus c.retry_max_delay max_pos;
        recovery_interval_positive = plus c.recovery_interval recovery;
        worker_batch_size_positive = plus c.worker_batch_size batch;
        store_max_size_bytes_positive = plus c.store_max_size_bytes size;
        store_rotation_high_watermark_positive = plus c.store_rotation_high_watermark high_pos;
        store_rotation_low_watermark_positive = plus c.store_rotation_low_watermark low_pos;
        store_retention_delivered_positive = plus c.store_retention_delivered kept_pos;
        store_retention_dead_letter_positive = plus c.store_retention_dead_letter dead_pos;
        store_rotation_interval_positive = plus c.store_rotation_interval rotation;
      };
      port_at_most = at_most_port c.app_port port_max;
      token = token;
      chat = chat;
      delays_ordered =
          less-natural c.retry_max_delay c.retry_base_delay (plus c.retry_max_delay max_pos)
            (plus c.retry_base_delay base_pos) order;
      high_at_most =
          less-natural c.store_max_size_bytes c.store_rotation_high_watermark
            (plus c.store_max_size_bytes size) (plus c.store_rotation_high_watermark high_pos)
            high_max;
      low_below =
          below-natural c.store_rotation_low_watermark c.store_rotation_high_watermark
            (plus c.store_rotation_low_watermark low_pos)
            (plus c.store_rotation_high_watermark high_pos) low_high;
    }
