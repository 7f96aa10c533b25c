-- ===== src/Sync/Types.antt =====
-- What a push carries: ChangeInput of internal/syncengine/types.go, and the answers of one item.
use nubilo.Prelude.{ℕ, String, Bool, Option}
use nubilo.Prelude.Int.{ℤ}
use nubilo.Store.{Op, Object, PushResult, Status, coalesce}
use nubilo.Store.Tx.{Tx, pure}

-- `metadata` is none for the nil of a request without it.
pub record ChangeInput : Type 0 where
  pub object_id : String
  pub collection_id : String
  pub kind : String
  pub op : Op
  pub base_revision : ℕ
  pub content_hash : String
  pub metadata_hash : String
  pub metadata : Option String
  pub blob_id : String
  pub size : ℤ
  pub force : Bool

-- in.Metadata after `if in.Metadata == nil { in.Metadata = {} }`.
abbrev pub meta : ChangeInput → String
meta item = coalesce item.metadata "{}"

-- A check that passes with a value, or refuses the item with a message.
pub data Checked (A : Type 0) : Type 0 where
  refused : String → Checked A
  passed : A → Checked A

-- PushResult{ObjectID: in.ObjectID, Status: "error"}
abbrev pub base_result : ChangeInput → PushResult
base_result item = record {
  object_id = item.object_id;
  status = Status.error;
  revision = 0;
  seq = 0;
  server_revision = 0;
  server_content_hash = "";
  message = "";
}

abbrev pub refusal : ChangeInput → String → PushResult
refusal item msg = record (base_result item) { message = msg }

abbrev pub conflict_with : ChangeInput → Object → PushResult
conflict_with item o = record (base_result item) {
  status = Status.conflict;
  server_revision = o.revision;
  server_content_hash = o.content_hash;
}

abbrev pub success : ChangeInput → ℕ → ℕ → PushResult
success item rev seq = record (base_result item) { status = Status.ok; revision = rev; seq = seq }

abbrev pub is_ok : Status → Bool
is_ok Status.ok = Bool.true
is_ok _ = Bool.false

abbrev pub refuse : ChangeInput → String → Tx PushResult
refuse item msg = pure (refusal item msg)
