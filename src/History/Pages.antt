-- ===== src/History/Pages.antt =====
-- The pages of a history.
use titan_tyr.Prelude.{ℕ, suc, ◌≡◌, ◌≤◌, refl, some, none, List, map, length, sort_by}
use titan_tyr.Pagination.{Codec, newer, cut}
use titan_tyr.Pagination.Cursor.{ReadsBack, decode_cursor-encode_cursor}
use titan_tyr.Pagination.Descending.{DistinctKeys}
use titan_tyr.Pagination.Walk.{walk, Serves, walk-Serves}
use titan_tyr.History.{Entry, history_item, history_page}

-- Following the cursors reads every event once, in descending order.
pub walk-history_page :
    (codec : Codec) (limit : ℕ) (entries : List Entry)
    → ReadsBack codec
    → DistinctKeys (λ (e : Entry). e.at) (λ (e : Entry). e.row_id) entries
    → 1 ≤ limit
    → walk (λ after. history_page codec limit after entries) (suc (length entries)) none
      ≡ some (
          map history_item
            (sort_by (newer (λ (e : Entry). e.at) (λ (e : Entry). e.row_id)) entries))
unfolding history_page cut
walk-history_page codec limit entries b d l =
    walk-Serves (λ (e : Entry). e.at) (λ (e : Entry). e.row_id) codec history_item
      (λ after. history_page codec limit after entries) limit entries serves d l
  where
    serves :
        Serves
          (λ (e : Entry). e.at)
          (λ (e : Entry). e.row_id)
          codec
          history_item
          (λ after. history_page codec limit after entries)
          limit
          entries
    serves none here e = rw e refl
    serves (some key) here e = rw (decode_cursor-encode_cursor codec b key.0 key.1, e) refl
