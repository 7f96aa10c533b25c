-- ===== src/Store/Blobs.antt =====
-- Blob identifiers, the blobs that object metadata names, reference counts and ownership
-- references: internal/store/meta_blobs.go, and the database part of internal/store/blobs.go.
use Prim.Native.Char.{code}
use nubilo.Prelude.{
  ℕ, ◌+◌, ◌-◌, String, len, Bool, true, false, not, ◌&&◌, ◌||◌, Option, none, some, List, [], ◌∷◌,
  ◌++◌, ◌==◌, nat_eq, leb, any_row, update, select, if◌then◌else◌,
}
use nubilo.Prelude.Int.{ℤ}
use nubilo.Store.{Db, Blob, BlobRef}
use nubilo.Store.Env.{Env, Json, text, other}
use nubilo.Store.Tx.{Tx, Result, ok, err, unknown_blob}

-- (c < '0' || c > '9') && (c < 'a' || c > 'f') is the test for a character that is refused.
unfoldable pub hex_digit : ℕ → Bool
hex_digit c = leb b'0' c && leb c b'9' || leb b'a' c && leb c b'f'

unfoldable pub all_hex : String → Bool
unfolding hex_digit
all_hex String.[] = true
all_hex (String.◌∷◌ c s) = hex_digit (code c) && all_hex s

unfoldable pub is_blob_id : String → Bool
unfolding all_hex
is_blob_id s = if nat_eq (len s) 64 then all_hex s else false

unfoldable pub contains : List String → String → Bool
contains [] s = false
contains (x ∷ xs) s = x == s || contains xs s

module _ (env : Env) where
  unfoldable pub metadata_blob_key : String → Bool
  metadata_blob_key k =
      env.equal_fold k "preview_hash"
      || env.equal_fold k "thumb_hash"
      || env.equal_fold k "live_pair_hash"

  -- The hash that one field of the metadata names, if it names one.
  unfoldable pub field_hash : String → Json → Option String
  unfolding metadata_blob_key
  field_hash k other = none
  field_hash k (text v) =
      if metadata_blob_key k
      then (let s = env.to_lower (env.trim_space v) in if is_blob_id s then some s else none)
      else none

  -- The loop over the fields, with the hashes seen so far.
  unfoldable pub collect_hashes : List String → List (String × Json) → List String
  unfolding field_hash contains
  collect_hashes seen [] = []
  collect_hashes seen ((k, v) ∷ rest) = elim (field_hash k v) [
    | none ↦ collect_hashes seen rest
    | some h ↦
        let skipped = collect_hashes seen rest in
        let kept = collect_hashes (h ∷ seen) rest in if contains seen h then skipped else h ∷ kept
  ]

  -- A map has no order; the order here is that of the decoded fields.
  unfoldable pub metadata_blob_ids : String → List String
  unfolding collect_hashes
  metadata_blob_ids raw =
      if raw == ""
      then []
      else elim (env.unmarshal raw) [ none ↦ [] | some fields ↦ collect_hashes [] fields ]

  unfoldable pub add_blob_ref : String → String → Db → Db
  add_blob_ref user_id hash db =
      if user_id == "" || hash == ""
      then db
      else (let h = env.to_lower hash in
          if any_row (λ (r : BlobRef). r.user_id == user_id && r.hash == h) db.blob_refs
          then db
          else record db {
            blob_refs = db.blob_refs ++ record { user_id = user_id; hash = h } ∷ [];
          })

  unfoldable pub has_blob_ref : Db → String → String → Bool
  has_blob_ref db user_id hash =
      any_row (λ (r : BlobRef). r.user_id == user_id && r.hash == env.to_lower hash) db.blob_refs

  -- The rows that RemoveBlob deletes.
  unfoldable pub remove_blob : String → Db → Db
  remove_blob hash db =
      let h = env.to_lower hash in
      record db {
        blob_refs = select (λ (r : BlobRef). not (r.hash == h)) db.blob_refs;
        blobs = select (λ (b : Blob). not (b.id == h)) db.blobs;
      }

unfoldable pub count_up : Blob → Blob
count_up b = record b { refcount = b.refcount + 1 }

-- MAX(refcount - 1, 0) is the truncated subtraction.
unfoldable pub count_down : Blob → Blob
count_down b = record b { refcount = b.refcount - 1 }

-- What an UPDATE of the table blobs leaves of it, or its error.
abbrev pub Counting : Type 0
Counting = List Blob → Result (List Blob)

unfoldable pub inc_blob_ref : String → Counting
unfolding count_up
inc_blob_ref hash blobs =
    if hash == ""
    then ok blobs
    else if any_row (λ (b : Blob). b.id == hash) blobs
    then ok (update (λ (b : Blob). b.id == hash) count_up blobs)
    else err unknown_blob

unfoldable pub dec_blob_ref : String → Counting
unfolding count_down
dec_blob_ref hash blobs =
    if hash == "" then ok blobs else ok (update (λ (b : Blob). b.id == hash) count_down blobs)

-- One update after the other, as far as none fails.
abbrev pub continue : Counting → Result (List Blob) → Result (List Blob)
continue f (ok blobs) = f blobs
continue f (err e) = err e

unfoldable pub each : (String → Counting) → List String → Counting
each f [] blobs = ok blobs
each f (h ∷ rest) blobs = continue (each f rest) (f h blobs)

abbrev pub counted : Db → Result (List Blob) → Result (Unit {0} × Db)
counted db (ok blobs) = ok (tt, record db { blobs = blobs })
counted db (err e) = err e

-- The update inside the transaction.
abbrev pub on_blobs : Counting → Tx (Unit {0})
on_blobs f db = counted db (f db.blobs)

-- INSERT … ON CONFLICT(id) DO NOTHING.
unfoldable pub ensure_blob_row : String → ℤ → ℕ → Db → Db
ensure_blob_row hash size now db =
    if any_row (λ (x : Blob). x.id == hash) db.blobs then db else record db {
      blobs = db.blobs ++ record { id = hash; size = size; refcount = 0; created_at = now } ∷ [];
    }
