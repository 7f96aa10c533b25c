-- ===== src/Sync/Push/Steps.antt =====
-- The steps that the cases of applyOne share: ensureBlob, ensureExtraBlobs, newExtraBlobs,
-- adjustExtraBlobRefs, getObjectTx, insertJournal and insertHistory of
-- internal/syncengine/engine.go. A step that only refuses the item keeps what it wrote before.
use nubilo.Prelude.{
  ℕ, ◌+◌, String, Bool, not, ◌&&◌, Option, none, some, List, [], ◌∷◌, ◌++◌, ◌==◌, nat_eq, any_row,
  find_row, select, if◌then◌else◌,
}
use nubilo.Identity.Device.{Device, system}
use nubilo.Store.{Db, Op, Object, History, Blob, BlobRef}
use nubilo.Store.Env.{Env}
use nubilo.Store.Tx.{Tx, ok, err, unique}
use nubilo.Store.Blobs.{
  Counting, continue, each, contains, metadata_blob_ids, add_blob_ref, inc_blob_ref, dec_blob_ref,
}

-- A step that may refuse: its message, and the state that it leaves either way.
abbrev pub Step : Type 0
Step = Db → Option String × Db

abbrev pub skip : Step
skip db = (none, db)

-- `if err := step; err != nil { res.Error = err.Error(); return res, nil }`, and then the rest.
abbrev pub attempt : {A : Type 0} → Step → (String → Tx A) → Tx A → Tx A
attempt step on_refusal rest db =
    let (r, after) = step db in elim r [ none ↦ rest after | some msg ↦ on_refusal msg after ]

abbrev pub blob_missing : String
blob_missing = "sync: blob missing or hash mismatch"

abbrev pub hash_mismatch : String
hash_mismatch = "sync: content_hash must equal blob_id for blob-backed objects"

-- The pusher holds a reference to the blob.
unfoldable pub holds_ref : Db → String → String → Bool
holds_ref db user_id blob_id =
    any_row (λ (r : BlobRef). r.hash == blob_id && r.user_id == user_id) db.blob_refs

unfoldable pub has_blob_row : Db → String → Bool
has_blob_row db blob_id = any_row (λ (b : Blob). b.id == blob_id) db.blobs

unfoldable pub ensure_blob : Env → Device → String → String → String → Step
unfolding holds_ref has_blob_row add_blob_ref system
ensure_blob env dev owner blob_id content_hash db =
    if not (has_blob_row db blob_id && env.blob_exists blob_id)
    then (some blob_missing, db)
    else if not (content_hash == "") && not (content_hash == blob_id)
    then (some hash_mismatch, db)
    else if not (system dev) && not (holds_ref db dev.user_id blob_id)
    then (some blob_missing, db)
    else (none, add_blob_ref env owner blob_id db)

unfoldable pub ensure_extra_blobs : Env → Device → String → List String → Step
ensure_extra_blobs env dev owner [] db = (none, db)
ensure_extra_blobs env dev owner (h ∷ rest) db =
    let (r, db') = ensure_blob env dev owner h "" db in
    elim r [ none ↦ ensure_extra_blobs env dev owner rest db' | some msg ↦ (some msg, db') ]

-- The hashes of `xs` that `old` lacks.
unfoldable pub missing_from : List String → List String → List String
unfolding contains
missing_from old xs = select (λ (h : String). not (contains old h)) xs

unfoldable pub new_extra_blobs : Env → String → String → List String
unfolding missing_from metadata_blob_ids
new_extra_blobs env old_meta new_meta =
    missing_from (metadata_blob_ids env old_meta) (metadata_blob_ids env new_meta)

-- The metadata of a missing side is the empty text, of which metadata_blob_ids finds nothing.
unfoldable pub adjust_extra_blob_refs : Env → String → String → Counting
unfolding each missing_from metadata_blob_ids inc_blob_ref dec_blob_ref
adjust_extra_blob_refs env old_meta new_meta blobs =
    let old = metadata_blob_ids env old_meta in
    let new = metadata_blob_ids env new_meta in
    continue (each inc_blob_ref (missing_from old new))
      (each dec_blob_ref (missing_from new old) blobs)

unfoldable pub find_object : Db → String → Option Object
find_object db id = find_row (λ (o : Object). o.id == id) db.objects

-- One journal row; its seq is the next value of the AUTOINCREMENT counter.
unfoldable pub insert_journal :
    String → String → Op → ℕ → String → String → String → ℕ → String → Tx ℕ
insert_journal object_id collection_id op rev ch mh device_id ts idem db =
    let seq = db.last_seq + 1 in
    ok (
      seq,
      record db {
        journal =
            db.journal
            ++ record {
              seq = seq;
              object_id = object_id;
              collection_id = collection_id;
              op = op;
              revision = rev;
              content_hash = ch;
              metadata_hash = mh;
              device_id = device_id;
              ts = ts;
              idempotency_key = idem;
            }
              ∷ [];
        last_seq = seq;
      },
    )

-- PRIMARY KEY (object_id, revision)
unfoldable pub insert_history : History → Tx (Unit {0})
insert_history h db =
    if any_row (λ (x : History). x.object_id == h.object_id && nat_eq x.revision h.revision)
      db.history
    then err unique
    else ok (tt, record db { history = db.history ++ h ∷ [] })
