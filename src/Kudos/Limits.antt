-- ===== src/Kudos/Limits.antt =====
-- The settings and the hashtags that they bound (contracts/kudos/src/settings.rs, types.rs).
use i_am_human.Base.{
  ℕ, ◌+◌, ◌*◌, Bool, false, not, ◌&&◌, ◌||◌, Option, none, some, unwrap_or, List, [], ◌∷◌, length,
  ltb, if◌then◌else◌, Result, ok, err, ◌==◌,
}
use i_am_human.Near.Words.{u64_mod}
use i_am_human.Near.Text.{Chars, is_ascii_alphanumeric}
use i_am_human.Kudos.{
  Settings, SettingsView, KudosError, too_many_hashtags, hashtag_too_long, bad_hashtag,
}

abbrev pub default_settings : Settings
default_settings = record {
  commentary_message_max_length = 1000;
  max_number_of_hashtags_per_kudos = 10;
  hashtag_text_max_length = 32;
  min_number_of_upvotes_to_exchange_kudos = 3;
  pok_sbt_ttl = 365 * 86400000;
}

-- Each `if let` of it.
unfoldable pub apply_changes : Settings → SettingsView → Settings
apply_changes s view = record {
  commentary_message_max_length =
      unwrap_or s.commentary_message_max_length view.commentary_message_max_length;
  max_number_of_hashtags_per_kudos =
      unwrap_or s.max_number_of_hashtags_per_kudos view.max_number_of_hashtags_per_kudos;
  hashtag_text_max_length = unwrap_or s.hashtag_text_max_length view.hashtag_text_max_length;
  min_number_of_upvotes_to_exchange_kudos =
      unwrap_or s.min_number_of_upvotes_to_exchange_kudos
        view.min_number_of_upvotes_to_exchange_kudos;
  pok_sbt_ttl = unwrap_or s.pok_sbt_ttl view.pok_sbt_ttl;
}

unfoldable pub settings_view : Settings → SettingsView
settings_view s = record {
  commentary_message_max_length = some s.commentary_message_max_length;
  max_number_of_hashtags_per_kudos = some s.max_number_of_hashtags_per_kudos;
  hashtag_text_max_length = some s.hashtag_text_max_length;
  min_number_of_upvotes_to_exchange_kudos = some s.min_number_of_upvotes_to_exchange_kudos;
  pok_sbt_ttl = some s.pok_sbt_ttl;
}

-- Some character is none of those allowed; 95 is '_' and 45 is '-'.
abbrev pub has_bad_char : Chars → Bool
has_bad_char [] = false
has_bad_char (c ∷ cs) = not (is_ascii_alphanumeric c) && not (c == 95 || c == 45) || has_bad_char cs

-- `Hashtag::new`. The text is its bytes, and a character that is not ASCII has bytes that are not.
unfoldable pub new_hashtag : Chars → ℕ → Result KudosError Chars
new_hashtag hashtag max_length =
    if ltb max_length (length hashtag)
    then err hashtag_too_long
    else if has_bad_char hashtag
    then err bad_hashtag
    else ok hashtag

unfoldable pub new_hashtags : List Chars → ℕ → Result KudosError (List Chars)
unfolding new_hashtag
new_hashtags [] max_length = ok []
new_hashtags (h ∷ hs) max_length =
    let rest = new_hashtags hs max_length in
    elim (new_hashtag h max_length) [
      | err e ↦ err e
      | ok x ↦ elim rest [ err e ↦ err e | ok xs ↦ ok (x ∷ xs) ]
    ]

unfoldable pub validate_hashtags :
    Settings → Option (List Chars) → Result KudosError (Option (List Chars))
unfolding new_hashtags
validate_hashtags s none = ok none
validate_hashtags s (some hashtags) =
    if ltb s.max_number_of_hashtags_per_kudos (length hashtags)
    then err too_many_hashtags
    else elim (new_hashtags hashtags s.hashtag_text_max_length) [
      | err e ↦ err e
      | ok xs ↦ ok (some xs)
    ]

-- `checked_add`
unfoldable pub acquire_pok_sbt_expire_at_ts : Settings → ℕ → Option ℕ
acquire_pok_sbt_expire_at_ts s issued_at =
    if ltb (issued_at + s.pok_sbt_ttl) u64_mod then some (issued_at + s.pok_sbt_ttl) else none
