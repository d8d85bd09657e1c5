-- ===== src/History.antt =====
-- What `get_contract_history` of src/routers/contracts.py and `get_part_history` of
-- src/routers/parts.py share: the events of a row and their pages.
pub mod Standing
pub mod Pages
use titan_tyr.Prelude.{
  ℕ, Bool, true, false, not, Option, none, some, List, [], ◌∷◌, Result, ok, ◌>>=◌, leb, ltb, map,
  sort_by, if◌then◌else◌,
}
use titan_tyr.Models.Rows.{Uuid, Timestamp, Actor}
use titan_tyr.Versioning.{Version}
use titan_tyr.Versioning.Text.{show}
use titan_tyr.Texts.{codes}
use titan_tyr.Pagination.{Codec, Page, newer, after_cursor, cut, decode_after, encode_next}

pub data HistoryKind : Type 0 where
  body_bump subtype_shift endpoint_shift name_shift : HistoryKind
  deletion_proposed deletion_accepted : HistoryKind

-- A body row: its time and its version.
pub record Body : Type 0 where
  pub at : Timestamp
  pub version : Version

-- A tuple of `entries`.
pub record Entry : Type 0 where
  pub at : Timestamp
  pub row_id : Uuid
  pub kind : HistoryKind
  pub version : List ℕ
  pub proposer_actor : Actor
  pub acceptor_actor : Actor
  pub single_operator_override : Bool

pub record VersionHistoryItem : Type 0 where
  pub version : List ℕ
  pub updated_at : Timestamp
  pub kind : HistoryKind
  pub proposer_actor : Actor
  pub acceptor_actor : Actor
  pub single_operator_override : Bool

abbrev pub history_item : Entry → VersionHistoryItem
history_item e = record {
  version = e.version;
  updated_at = e.at;
  kind = e.kind;
  proposer_actor = e.proposer_actor;
  acceptor_actor = e.acceptor_actor;
  single_operator_override = e.single_operator_override;
}

-- `sorted(body_rows, key=lambda r: …)`
unfoldable pub body_sorted : List Body → List Body
body_sorted = sort_by (λ (a b : Body). ltb a.at b.at)

-- The loop of `_version_at` with its `break`.
unfoldable pub last_until : Option Body → List Body → Timestamp → Option Body
last_until latest [] t = latest
last_until latest (r ∷ rs) t =
    let rest = last_until (some r) rs t in if leb r.at t then rest else latest

abbrev version_text : Option Body → List ℕ
version_text none = codes "0.0.0"
version_text (some r) = show r.version

-- `_version_at`
unfoldable pub version_at : List Body → Timestamp → List ℕ
version_at rows t = version_text (last_until none (body_sorted rows) t)

-- An event that a proposal records when it is accepted.
abbrev pub accepted_entry :
    List Body
    → Uuid
    → HistoryKind
    → Option Timestamp
    → Actor
    → Actor
    → Bool
    → List Entry
    → List Entry
accepted_entry body id kind none proposer acceptor override rest = rest
accepted_entry body id kind (some t) proposer acceptor override rest =
    record {
      at = t;
      row_id = id;
      kind = kind;
      version = version_at body t;
      proposer_actor = proposer;
      acceptor_actor = acceptor;
      single_operator_override = override;
    }
    ∷ rest

-- The event of a proposed deletion.
abbrev pub proposed_entry : List Body → Uuid → Timestamp → Actor → Entry
proposed_entry body id t proposer = record {
  at = t;
  row_id = id;
  kind = deletion_proposed;
  version = version_at body t;
  proposer_actor = proposer;
  acceptor_actor = none;
  single_operator_override = false;
}

-- `entries.sort(…, reverse=True)`, the entries behind the cursor, and the cut.
unfoldable pub history_page :
    Codec → ℕ → Option (List ℕ) → List Entry → Result (Page VersionHistoryItem)
history_page codec limit after entries = do
  key ← decode_after codec after
  let (here, next) =
      cut (λ (e : Entry). e.at) (λ (e : Entry). e.row_id) limit
        (after_cursor (λ (e : Entry). e.at) (λ (e : Entry). e.row_id) key
          (sort_by (newer (λ (e : Entry). e.at) (λ (e : Entry). e.row_id)) entries))
  ok (record { results = map history_item here; next = encode_next codec next })
