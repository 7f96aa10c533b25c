-- ===== src/Sync/Changes.antt =====
-- What devices read back from the journal: HeadSeq, Hello and GetChanges of
-- internal/syncengine/engine.go. A cursor is an int64 that a client sends, so it may be negative.
pub mod Order
pub mod Pages
pub mod Pull
pub mod Privacy
use nubilo.Prelude.{
  ℕ, suc, ◌+◌, String, Bool, true, false, not, ◌&&◌, ◌||◌, Option, none, some, List, [], ◌∷◌, ◌==◌,
  max, length, take, map, ltb, leb, select, order_by, if◌then◌else◌,
}
use nubilo.Prelude.Int.{ℤ, pos, negsuc, leb_ℤ, ltb_ℤ}
use nubilo.Authz.{Access, access_none, access_read}
use nubilo.Store.{Db, Op, Object, Entry, Collection, is_null}
use nubilo.Store.Tx.{Result, ok, err}
use nubilo.Sync.Access.{Scope, find_collection, scope_filter, access_q}
use nubilo.Sync.Push.{find_object}

-- SELECT MAX(seq) FROM journal, 0 for NULL
unfoldable pub max_seq : List Entry → ℕ
max_seq [] = 0
max_seq (e ∷ es) = max e.seq (max_seq es)

unfoldable pub head_seq : Db → ℕ
unfolding max_seq
head_seq db = max_seq db.journal

pub record HelloResult : Type 0 where
  pub head_seq : ℕ
  pub need_reconcile : Bool
  pub reason : String

-- Hello, without the protocol number, the server's time and the collections' revision.
unfoldable pub hello : Db → ℤ → Bool → HelloResult
hello db cursor restore_hint =
    let head = head_seq db in
    if ltb_ℤ cursor (pos 0)
    then record { head_seq = head; need_reconcile = true; reason = "negative cursor" }
    else if ltb_ℤ (pos head) cursor
    then record { head_seq = head; need_reconcile = true; reason = "cursor ahead of server" }
    else if restore_hint
    then record { head_seq = head; need_reconcile = true; reason = "client restore hint" }
    else record { head_seq = head; need_reconcile = false; reason = "" }

pub record Change : Type 0 where
  pub seq : ℕ
  pub object_id : String
  pub collection_id : String
  pub op : Op
  pub revision : ℕ
  pub content_hash : String
  pub metadata_hash : String
  pub metadata : Option String
  pub blob_id : String
  pub size : ℤ
  pub deleted : Bool
  pub kind : String

-- The joins with objects and collections, and the WHERE of the query.
unfoldable pub row_visible : Db → Scope → String → Entry → Bool
row_visible db sc collection_id e = elim (find_object db e.object_id) [
  | none ↦ false
  | some o ↦ elim (find_collection db e.collection_id) [
    | none ↦ false
    | some c ↦ scope_filter db sc c && (collection_id == "" || e.collection_id == collection_id)
  ]
]

unfoldable pub after_cursor : Db → Scope → ℤ → String → Entry → Bool
after_cursor db sc since collection_id e =
    ltb_ℤ since (pos e.seq) && row_visible db sc collection_id e

-- ORDER BY j.seq
unfoldable pub journal_rows : Db → Scope → ℤ → String → List Entry
journal_rows db sc since collection_id =
    order_by (λ (e : Entry). e.seq) (select (after_cursor db sc since collection_id) db.journal)

-- The journal row with the data that its object has now.
abbrev pub plain_change : Entry → Object → Change
plain_change e o = record {
  seq = e.seq;
  object_id = e.object_id;
  collection_id = e.collection_id;
  op = e.op;
  revision = e.revision;
  content_hash = e.content_hash;
  metadata_hash = e.metadata_hash;
  metadata = some o.metadata;
  blob_id = o.blob_id;
  size = o.size;
  deleted = not (is_null o.deleted_at);
  kind = o.kind;
}

abbrev pub redact : Change → Change
redact c = record c { op = Op.delete; deleted = true; metadata = none; blob_id = ""; size = pos 0 }

-- e.Access with a missing collection as no access.
unfoldable pub can_read : Db → String → String → Bool
can_read db user_id collection_id = elim (access_q db user_id collection_id) [
  | ok acc ↦ leb access_read acc
  | err e ↦ false
]

-- A row whose object has moved on to where the caller cannot read is shown as deleted.
unfoldable pub shown : Db → Scope → Entry → Object → Change
unfolding can_read
shown db sc e o =
    if not sc.all
      && (not (o.collection_id == e.collection_id) && not (can_read db sc.user_id o.collection_id))
    then redact (plain_change e o)
    else plain_change e o

-- The rows of the query as changes; the join has left only rows whose object is there.
unfoldable pub to_changes : Db → Scope → List Entry → List Change
unfolding shown
to_changes db sc [] = []
to_changes db sc (e ∷ es) =
    let rest = to_changes db sc es in
    elim (find_object db e.object_id) [ none ↦ rest | some o ↦ shown db sc e o ∷ rest ]

-- limit <= 0 is 200, and 500 is the most.
unfoldable pub page_size : ℤ → ℕ
page_size (negsuc n) = 200
page_size (pos n) = if leb n 0 then 200 else if ltb 500 n then 500 else n

-- changes[len(changes)-1].Seq, or `since` with no changes.
unfoldable pub last_seq_of : ℤ → List Change → ℤ
last_seq_of since [] = since
last_seq_of since (c ∷ cs) = last_seq_of (pos c.seq) cs

pub record ChangesResult : Type 0 where
  pub changes : List Change
  pub next_seq : ℤ
  pub has_more : Bool
  pub need_reconcile : Bool

unfoldable pub page_of : ℤ → ℕ → List Change → ChangesResult
unfolding last_seq_of
page_of since limit found =
    let changes = if ltb limit (length found) then take limit found else found in
    record {
      changes = changes;
      next_seq = last_seq_of since changes;
      has_more = ltb limit (length found);
      need_reconcile = false;
    }

unfoldable pub get_changes : Db → Scope → ℤ → ℤ → String → ChangesResult
get_changes db sc since limit collection_id =
    if ltb_ℤ (pos (head_seq db)) since
    then record {
      changes = [];
      next_seq = pos (head_seq db);
      has_more = false;
      need_reconcile = true;
    }
    else (let size = page_size limit in
        page_of since size
          (to_changes db sc (take (size + 1) (journal_rows db sc since collection_id))))
