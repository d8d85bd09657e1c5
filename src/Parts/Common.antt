-- ===== src/Parts/Common.antt =====
-- What the handlers of src/routers/parts.py share: the row that a name finds. The query reads deleted
-- rows too, and raises where the name has two rows.
use titan_tyr.Prelude.{
  ◌≡◌, ◌↔◌, not, none, [], ◌∷◌, String, Result, ok, ◌>>=◌, ◌>>◌, raise_if, arith,
}
use titan_tyr.Models.Rows.{Part, Db}
use titan_tyr.Session.Queries.{scalar_one_or_none, or_raise}
use titan_tyr.Session.Live.{is_live, parts_named}

unfoldable pub locked_part : Db → String → Result Part
locked_part db name = do
  found ← scalar_one_or_none (parts_named db name)
  part ← or_raise 404 found
  raise_if (not (is_live part.deleted_at)) 404
  ok part

-- The lock finds a part exactly where its row is the one row of the name, and it is live.
pub locked_part_lem :
    (db : Db) (name : String) (p : Part)
    → (locked_part db name ≡ ok p) ↔ ((parts_named db name ≡ p ∷ []) × (p.deleted_at ≡ none))
unfolding locked_part scalar_one_or_none
locked_part_lem db name p = (ground arith, ground arith)
