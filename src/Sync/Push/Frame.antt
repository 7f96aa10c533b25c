-- ===== src/Sync/Push/Frame.antt =====
-- Which tables the steps of a push write.
use nubilo.Prelude.{
  not, ◌&&◌, Bool, true, false, ◌==◌, ℕ, ◌≡◌, refl, ◌⊎◌, inl, inr, String, Option, none, some, List,
  [], ◌∷◌, arith, if◌then◌else◌,
}
use nubilo.Identity.Device.{Device}
use nubilo.Store.{Db, Object}
use nubilo.Store.Env.{Env}
use nubilo.Store.Tx.{Tx, ok}
use nubilo.Store.Blobs.{add_blob_ref}
use nubilo.Sync.Types.{ChangeInput}
use nubilo.Sync.Push.{
  Step, skip, hash_mismatch, attempt, ensure_blob, ensure_extra_blobs, update_blob,
}

-- At most the blob references differ.
pub record OnlyRefs (a b : Db) : Type 0 where
  pub same : b ≡ record a { blob_refs = b.blob_refs }

pub OnlyRefs-refl : (a : Db) → OnlyRefs a a
OnlyRefs-refl a = record { same = refl }

pub OnlyRefs-trans : {a b c : Db} → OnlyRefs a b → OnlyRefs b c → OnlyRefs a c
OnlyRefs-trans {a} {b} {c} p q = record { same = ground (arith, p.same, q.same) }

add_blob_ref-OnlyRefs : (env : Env) (u h : String) (db : Db) → OnlyRefs db (add_blob_ref env u h db)
unfolding add_blob_ref
add_blob_ref-OnlyRefs env u h db = record { same = ground arith }

pub ensure_blob-OnlyRefs :
    (env : Env) (dev : Device) (owner id ch : String) (db : Db)
    → OnlyRefs db (ensure_blob env dev owner id ch db).1
unfolding ensure_blob
ensure_blob-OnlyRefs env dev owner id ch db = record { same = ground arith }

pub ensure_extra_blobs-OnlyRefs :
    (env : Env) (dev : Device) (owner : String) (hs : List String) (db : Db)
    → OnlyRefs db (ensure_extra_blobs env dev owner hs db).1
unfolding ensure_extra_blobs
ensure_extra_blobs-OnlyRefs env dev owner [] db = OnlyRefs-refl db
ensure_extra_blobs-OnlyRefs env dev owner (h ∷ hs) db =
    go (ensure_blob env dev owner h "" db) (ensure_blob-OnlyRefs env dev owner h "" db)
      (λ after. ensure_extra_blobs-OnlyRefs env dev owner hs after)
  where
    go :
        (t : Option String × Db)
        → OnlyRefs db t.1
        → ((after : Db) → OnlyRefs after (ensure_extra_blobs env dev owner hs after).1)
        → let r : Option String × Db =
            let (r, after) = t in
            elim r [
              | none ↦ ensure_extra_blobs env dev owner hs after
              | some msg ↦ (some msg, after)
            ] in
          OnlyRefs db r.1
    go (none, after) p rest = OnlyRefs-trans p (rest after)
    go (some msg, after) p rest = p

if-OnlyRefs :
    (t : Bool) (a b : Step) (db : Db)
    → OnlyRefs db (a db).1
    → OnlyRefs db (b db).1
    → OnlyRefs db ((if t then a else b) db).1
if-OnlyRefs true a b db p q = p
if-OnlyRefs false a b db p q = q

pub create_blob-OnlyRefs :
    (env : Env) (dev : Device) (owner : String) (item : ChangeInput) (db : Db)
    → OnlyRefs db
        ((if item.blob_id == ""
            then skip
            else ensure_blob env dev owner item.blob_id item.content_hash)
          db).1
create_blob-OnlyRefs env dev owner item db =
    if-OnlyRefs _ skip (ensure_blob env dev owner item.blob_id item.content_hash) db
      (OnlyRefs-refl db) (ensure_blob-OnlyRefs env dev owner item.blob_id item.content_hash db)

pub update_blob-OnlyRefs :
    (env : Env) (dev : Device) (idem : String) (now : ℕ) (owner : String) (item : ChangeInput)
    (obj : Object) (db : Db)
    → OnlyRefs db (update_blob env dev idem now owner item obj db).1
unfolding update_blob
update_blob-OnlyRefs env dev idem now owner item obj db =
    let bad : Step = λ after. (some hash_mismatch, after) in
    let agree =
      not (item.blob_id == "")
      && not (item.content_hash == "")
      && not (item.content_hash == item.blob_id) in
    if-OnlyRefs (not (item.blob_id == "") && not (item.blob_id == obj.blob_id))
      (ensure_blob env dev owner item.blob_id item.content_hash) (if agree then bad else skip) db
      (ensure_blob-OnlyRefs env dev owner item.blob_id item.content_hash db)
      (if-OnlyRefs agree bad skip db (OnlyRefs-refl db) (OnlyRefs-refl db))

-- An attempted step either refuses, or the rest runs in the state that it left.
pub attempt_cases :
    {A : Type 0} (step : Step) (f : String → Tx A) (rest : Tx A) (db : Db) {r : A × Db}
    → attempt step f rest db ≡ ok r
    → ((msg : String) × (f msg (step db).1 ≡ ok r))
      ⊎ (((step db).0 ≡ none) × (rest (step db).1 ≡ ok r))
attempt_cases step f rest db {r} h = go (step db) h
  where
    go :
        (t : Option String × Db)
        → (let (r', after) = t in elim r' [ none ↦ rest after | some msg ↦ f msg after ]) ≡ ok r
        → ((msg : String) × (f msg t.1 ≡ ok r)) ⊎ ((t.0 ≡ none) × (rest t.1 ≡ ok r))
    go (none, after) e = inr (refl, e)
    go (some msg, after) e = inl (msg, e)
