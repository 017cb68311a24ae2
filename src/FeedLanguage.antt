-- ===== src/FeedLanguage.antt =====
-- FeedLanguageRepository (app/repositories/feed_language.py): the newest choice stays, in whatever
-- order the events arrive.
pub mod Order
use udesa_x_posts_api.Common.{
  ℕ, Option, none, some, Bool, true, false, ◌&&◌, ◌||◌, List, ◌∷◌, ◌==◌, ltb, if◌then◌else◌,
}
use udesa_x_posts_api.Common.Rows.{exists, find, update}
use udesa_x_posts_api.Common.Action.{Action, Result, ok}
use udesa_x_posts_api.Database.{Db, FeedLanguage, FeedPreferenceRow, PostRow, PostLanguage}

abbrev pub preference_of : ℕ → FeedPreferenceRow → Bool
preference_of u r = r.user_id == u

-- The condition of `ON CONFLICT … DO UPDATE … WHERE`.
abbrev pub older_than : ℕ → ℕ → FeedPreferenceRow → Bool
older_than u at r = preference_of u r && ltb r.changed_at at

abbrev pub chosen_at : FeedLanguage → ℕ → FeedPreferenceRow → FeedPreferenceRow
chosen_at language at r = record r { language = language; changed_at = at }

-- The table after the statement.
abbrev pub kept : ℕ → FeedLanguage → ℕ → List FeedPreferenceRow → List FeedPreferenceRow
kept u language at rows =
    if exists (preference_of u) rows
    then update (older_than u at) (chosen_at language at) rows
    else (record { user_id = u; language = language; changed_at = at }) ∷ rows

-- Whether the statement inserted or updated a row.
abbrev pub is_news : ℕ → ℕ → List FeedPreferenceRow → Bool
is_news u at rows = if exists (preference_of u) rows then exists (older_than u at) rows else true

-- `FeedLanguageRepository.apply`
unfoldable pub apply_language : ℕ → FeedLanguage → ℕ → Action Db Bool
apply_language u language at d = (
  ok (is_news u at d.feed_preferences),
  record d { feed_preferences = kept u language at d.feed_preferences },
)

abbrev pub reads_language : FeedLanguage → PostLanguage → Bool
reads_language FeedLanguage.all_languages language = true
reads_language FeedLanguage.es PostLanguage.es = true
reads_language FeedLanguage.es PostLanguage.en = false
reads_language FeedLanguage.en PostLanguage.en = true
reads_language FeedLanguage.en PostLanguage.es = false
reads_language chosen PostLanguage.other = true

abbrev pub reads_post : FeedLanguage → Option PostLanguage → Bool
reads_post chosen none = true
reads_post chosen (some language) = reads_language chosen language

abbrev pub chosen_language : Option FeedPreferenceRow → FeedLanguage
chosen_language none = FeedLanguage.all_languages
chosen_language (some r) = r.language

-- `in_feed_language_of`
unfoldable pub in_feed_language_of : ℕ → PostRow → Db → Bool
in_feed_language_of viewer p d =
    reads_post (chosen_language (find (preference_of viewer) d.feed_preferences)) p.language
