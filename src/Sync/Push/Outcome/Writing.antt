-- ===== src/Sync/Push/Outcome/Writing.antt =====
-- Reading the outcome of a create and of an update off the code.
use nubilo.Prelude.{
  ℕ, ◌≡◌, refl, subst, inl, inr, String, true, false, none, some, ◌==◌, arith, Bool-cases,
  if◌then◌else◌,
}
use nubilo.Prelude.Int.{ℤ, ◌-ℤ◌, i64}
use nubilo.Identity.Device.{Device}
use nubilo.Store.{Db, Op, Object, PushResult, Collection, or_empty, is_null}
use nubilo.Store.Env.{Env}
use nubilo.Store.Tx.{Tx, ok}
use nubilo.Store.Blobs.{metadata_blob_ids}
use nubilo.Sync.Quota.{charge, quota_allows}
use nubilo.Sync.Types.{ChangeInput, Checked, refused, passed, meta, refuse}
use nubilo.Sync.Push.{
  Step, skip, attempt, ensure_blob, ensure_extra_blobs, new_extra_blobs, update_blob, stale,
  default_hash, find_object, check_target, check_move, create_at_cost, charged_create, create_new,
  update_at_cost, charged_update,
}
use nubilo.Sync.Push.Frame.{
  OnlyRefs, OnlyRefs-trans, create_blob-OnlyRefs, ensure_extra_blobs-OnlyRefs, update_blob-OnlyRefs,
  attempt_cases,
}
use nubilo.Sync.Push.Outcome.{Outcome, Resized, charge-Resized, refusing, creating, updating}

module _ (env : Env) (dev : Device) (idem : String) (now : ℕ) (item : ChangeInput) (db : Db)
    (res : PushResult) (db' : Db) where
  abbrev pub Out : Type 0
  Out = Outcome env dev idem now item db res db'

  pub refuse_out :
      (other : ChangeInput) (msg : String) (mid : Db)
      → other.object_id ≡ item.object_id
      → OnlyRefs db mid
      → refuse other msg mid ≡ ok (res, db')
      → Out
  refuse_out other msg mid same refs h =
      let moved : mid ≡ db' = ground arith in
      refusing msg (ground arith) (subst (λ d. OnlyRefs db d) moved refs)

  pub default_hash-Resized : Resized item (default_hash env dev idem now item)
  unfolding default_hash
  default_hash-Resized = ground arith

  pub Resized-trans : {a b c : ChangeInput} → Resized a b → Resized b c → Resized a c
  Resized-trans p q = ground arith

  module _ (c : Collection) (target : check_target env db dev item ≡ ok (passed c)) where
    abbrev pub owner : String
    owner = or_empty c.owner_user_id

    create_cost_out :
        (sized : ChangeInput) (mid : Db) (t : Checked (ChangeInput × ℤ))
        → item.op ≡ Op.create
        → find_object db item.object_id ≡ none
        → OnlyRefs db mid
        → Resized item sized
        → charge env mid sized ≡ t
        → create_at_cost env dev idem now owner sized t mid ≡ ok (res, db')
        → Out
    unfolding create_at_cost
    create_cost_out sized mid (refused msg) op absent refs same e h =
        refuse_out sized msg mid same.object_id refs h
    create_cost_out sized mid (passed (final, cost)) op absent refs same e h =
        elim (Bool-cases (quota_allows mid owner cost)) [
          | inl q ↦
              creating c final cost mid target op absent refs
                (Resized-trans same (charge-Resized env mid sized final cost e)) q (rw q at h)
          | inr q ↦ refuse_out sized "quota exceeded" mid same.object_id refs (rw q at h)
        ]

    pub create_out :
        item.op ≡ Op.create
        → find_object db item.object_id ≡ none
        → create_new env dev idem now owner item db ≡ ok (res, db')
        → Out
    unfolding create_new charged_create
    create_out op absent h = elim (attempt_cases blob (refuse item) extra db h) [
      | inl (msg, e) ↦ refuse_out item msg _ refl refs e
      | inr (_, k) ↦ elim (attempt_cases extras (refuse item) last mid k) [
        | inl (msg, e) ↦ refuse_out item msg _ refl (OnlyRefs-trans refs refs') e
        | inr (_, l) ↦
            create_cost_out (default_hash env dev idem now item) end
              (charge env end (default_hash env dev idem now item)) op absent
              (OnlyRefs-trans refs refs') default_hash-Resized refl l
      ]
    ]
      where
        blob : Step
        blob =
            if item.blob_id == ""
            then skip
            else ensure_blob env dev owner item.blob_id item.content_hash

        extras : Step
        extras = ensure_extra_blobs env dev owner (metadata_blob_ids env (meta item))

        last : Tx PushResult
        last = charged_create env dev idem now owner (default_hash env dev idem now item)

        extra : Tx PushResult
        extra = attempt extras (refuse item) last

        mid : Db
        mid = (blob db).1

        refs : OnlyRefs db mid
        refs = create_blob-OnlyRefs env dev owner item db

        end : Db
        end = (extras mid).1

        refs' : OnlyRefs mid end
        refs' = ensure_extra_blobs-OnlyRefs env dev owner (metadata_blob_ids env (meta item)) mid

    update_cost_out :
        (obj : Object) (mid : Db) (t : Checked (ChangeInput × ℤ))
        → item.op ≡ Op.update
        → find_object db item.object_id ≡ some obj
        → is_null obj.deleted_at ≡ true
        → stale env dev idem now item obj ≡ false
        → check_move env db dev item (some obj) owner ≡ ok (passed tt)
        → OnlyRefs db mid
        → charge env mid item ≡ t
        → update_at_cost env dev idem now owner item obj t mid ≡ ok (res, db')
        → Out
    unfolding update_at_cost
    update_cost_out obj mid (refused msg) op found live fresh moves refs e h =
        refuse_out item msg mid refl refs h
    update_cost_out obj mid (passed (final, cost)) op found live fresh moves refs e h =
        elim (Bool-cases (quota_allows mid owner (i64 (cost -ℤ obj.charged)))) [
          | inl q ↦
              updating c obj final cost mid target moves op found live fresh refs
                (charge-Resized env mid item final cost e) q (rw q at h)
          | inr q ↦ refuse_out item "quota exceeded" mid refl refs (rw q at h)
        ]

    pub update_out :
        (obj : Object)
        → item.op ≡ Op.update
        → find_object db item.object_id ≡ some obj
        → is_null obj.deleted_at ≡ true
        → stale env dev idem now item obj ≡ false
        → check_move env db dev item (some obj) owner ≡ ok (passed tt)
        → attempt
            (update_blob env dev idem now owner item obj)
            (refuse item)
            (attempt
              (ensure_extra_blobs env dev owner (new_extra_blobs env obj.metadata (meta item)))
              (refuse item)
              (charged_update env dev idem now owner item obj))
            db
          ≡ ok (res, db')
        → Out
    unfolding charged_update
    update_out obj op found live fresh moves h =
        elim (attempt_cases blob (refuse item) extra db h) [
          | inl (msg, e) ↦ refuse_out item msg _ refl refs e
          | inr (_, k) ↦ elim (attempt_cases extras (refuse item) last mid k) [
            | inl (msg, e) ↦ refuse_out item msg _ refl (OnlyRefs-trans refs refs') e
            | inr (_, l) ↦
                update_cost_out obj end (charge env end item) op found live fresh moves
                  (OnlyRefs-trans refs refs') refl l
          ]
        ]
      where
        blob : Step
        blob = update_blob env dev idem now owner item obj

        extras : Step
        extras = ensure_extra_blobs env dev owner (new_extra_blobs env obj.metadata (meta item))

        last : Tx PushResult
        last = charged_update env dev idem now owner item obj

        extra : Tx PushResult
        extra = attempt extras (refuse item) last

        mid : Db
        mid = (blob db).1

        refs : OnlyRefs db mid
        refs = update_blob-OnlyRefs env dev idem now owner item obj db

        end : Db
        end = (extras mid).1

        refs' : OnlyRefs mid end
        refs' =
            ensure_extra_blobs-OnlyRefs env dev owner (new_extra_blobs env obj.metadata (meta item))
              mid
