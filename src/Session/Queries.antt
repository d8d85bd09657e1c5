-- ===== src/Session/Queries.antt =====
-- Query results.
use titan_tyr.Prelude.{
  ℕ, Option, none, some, List, [], ◌∷◌, Result, ok, err, multiple_results_found, attribute_error,
  http,
}
use titan_tyr.Models.Rows.{Uuid, Timestamp, Actor}

-- What a request brings beside its payload: the actor of `current_actor`, the clocks of the process
-- and of the database, and the identifiers that `gen_random_uuid()` returns to its flushes.
pub record Call : Type 0 where
  pub x_actor : Actor
  pub now : Timestamp
  pub server_now : Timestamp
  pub new_id : Uuid
  pub new_version_id : Uuid

module _ {ℓ} {A : Type ℓ} where
  unfoldable pub scalar_one_or_none : List A → Result (Option A)
  scalar_one_or_none [] = ok none
  scalar_one_or_none (x ∷ []) = ok (some x)
  scalar_one_or_none (x ∷ y ∷ rest) = err multiple_results_found

  unfoldable pub first : List A → Option A
  first [] = none
  first (x ∷ xs) = some x

  -- `if row is None: raise HTTPException(status)`
  abbrev pub or_raise : ℕ → Option A → Result A
  or_raise status none = err (http status)
  or_raise status (some a) = ok a

  -- An attribute of the result of `session.get`, which is `None` where there is no such row.
  abbrev pub attribute : Option A → Result A
  attribute none = err attribute_error
  attribute (some a) = ok a
