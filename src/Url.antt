-- ===== src/Url.antt =====
-- What the program reads of net/url: the parts of a parsed URL, `URL.String`, and `url.Parse`, which
-- is a parameter.
use webhook_telegram_proxy.Prelude.{true, false, Bool, Option, none, some, Text}
use webhook_telegram_proxy.Errors.{Result}

-- `user` is the text of the user information, where there is any.
pub record Url : Type 0 where
  pub scheme : Text
  pub host : Text
  pub user : Option Text
  pub path : Text
  pub raw_query : Text
  pub fragment : Text

abbrev pub has_user : Url → Bool
has_user url = elim url.user [ none ↦ false | some _ ↦ true ]

-- `parse` is `url.Parse`, `string` is `URL.String`, `quote` is `%q` of `fmt`.
pub record Urls : Type 0 where
  pub parse : Text → Result Url
  pub string : Url → Text
  pub quote : Text → Text
