-- ===== src/Sync/Quota/Laws.antt =====
-- Sums of charges, and what the quota check lets through (internal/syncengine/quota.go).
use nubilo.Prelude.{
  find_row, ◌≡◌, ◌≢◌, ◌⊎◌, refl, ap, ◌∙◌, String, true, false, ◌&&◌, some, none, List, [], ◌∷◌,
  ◌++◌, ◌==◌, arith, eq_iff, inl, inr, Bool-cases, if◌then◌else◌,
}
use nubilo.Prelude.Int.{
  ℤ, pos, ◌+ℤ◌, ◌-ℤ◌, ◌≤ℤ◌, leb_ℤ, ltb_ℤ, i64, i64_exact, InInt64, +ℤ_parts, -ℤ_parts, eq_of_parts,
  max_int64,
}
use nubilo.Store.{Db, User, Object, Collection, sql_eq, is_null}
use nubilo.Sync.Access.{find_user, find_collection}
use nubilo.Sync.Quota.{counts_for, total_charged, owner_usage, quota_allows}

add_assoc : (a b c : ℤ) → a +ℤ (b +ℤ c) ≡ (a +ℤ b) +ℤ c
add_assoc a b c =
    eq_of_parts (a +ℤ (b +ℤ c)) ((a +ℤ b) +ℤ c)
      (ground (arith, +ℤ_parts a (b +ℤ c), +ℤ_parts b c, +ℤ_parts (a +ℤ b) c, +ℤ_parts a b))

add_comm : (a b : ℤ) → a +ℤ b ≡ b +ℤ a
add_comm a b = eq_of_parts (a +ℤ b) (b +ℤ a) (ground (arith, +ℤ_parts a b, +ℤ_parts b a))

pub total_charged-append :
    (db : Db) (owner : String) (xs : List Object) (o : Object)
    → counts_for db owner o ≡ true
    → total_charged db owner (xs ++ o ∷ []) ≡ total_charged db owner xs +ℤ o.charged
unfolding total_charged
total_charged-append db owner [] o h = ground (arith, h, add_comm o.charged (pos 0))
total_charged-append db owner (x ∷ xs) o h =
    let rest = total_charged db owner xs in
    let ih = total_charged-append db owner xs o h in
    elim (Bool-cases (counts_for db owner x)) [
      | inl is ↦ ground (arith, is, ih, add_assoc x.charged rest o.charged)
      | inr isnt ↦ ground (arith, isnt, ih)
    ]

headroom :
    (quota used delta : ℤ)
    → InInt64 quota
    → pos 0 ≤ℤ used
    → used ≤ℤ quota
    → delta ≤ℤ i64 (quota -ℤ used)
    → used +ℤ delta ≤ℤ quota
headroom quota used delta fits up under h =
    let room : InInt64 (quota -ℤ used) = record {
      above = ground (arith, fits.above, -ℤ_parts quota used);
      below = ground (arith, -ℤ_parts quota used);
    } in
    ground (arith, i64_exact (quota -ℤ used) room, -ℤ_parts quota used, +ℤ_parts used delta)

-- A growth that the quota check lets through fits in what is left.
pub quota_allows_lem :
    (db : Db) (owner : String) (delta : ℤ) (u : User)
    → quota_allows db owner delta ≡ true
    → find_user db owner ≡ some u
    → owner ≢ ""
    → ltb_ℤ (pos 0) u.quota_bytes ≡ true
    → InInt64 u.quota_bytes
    → pos 0 ≤ℤ owner_usage db owner
    → (delta ≤ℤ pos 0)
      ⊎ ((owner_usage db owner ≤ℤ u.quota_bytes) × (owner_usage db owner +ℤ delta ≤ℤ u.quota_bytes))
unfolding quota_allows
quota_allows_lem db owner delta u h f named some_quota fits up =
    let used = owner_usage db owner in
    elim (Bool-cases (leb_ℤ delta (pos 0))) [
      | inl shrinks ↦ inl (ground arith)
      | inr grows ↦
          let asked : (leb_ℤ used u.quota_bytes && leb_ℤ delta (i64 (u.quota_bytes -ℤ used)))
              ≡ true =
            ground (arith, f, grows, eq_iff owner "") in
          let under : used ≤ℤ u.quota_bytes = ground arith in
          let room : delta ≤ℤ i64 (u.quota_bytes -ℤ used) = ground arith in
          inr (under, headroom u.quota_bytes used delta fits up under room)
    ]

counts_for-collections :
    (a b : Db) (owner : String) (o : Object)
    → a.collections ≡ b.collections
    → counts_for a owner o ≡ counts_for b owner o
unfolding counts_for find_collection
counts_for-collections a b owner o same =
    ap
      (λ cs.
        is_null o.deleted_at && elim (find_row (λ (c : Collection). c.id == o.collection_id) cs) [
          | none ↦ false
          | some c ↦ sql_eq c.owner_user_id owner && is_null c.deleted_at
        ])
      same

total_charged-collections :
    (a b : Db) (owner : String) (xs : List Object)
    → a.collections ≡ b.collections
    → total_charged a owner xs ≡ total_charged b owner xs
unfolding total_charged
total_charged-collections a b owner [] same = refl
total_charged-collections a b owner (x ∷ xs) same =
    ground
      (arith, counts_for-collections a b owner x same, total_charged-collections a b owner xs same)

pub owner_usage-same :
    (a b : Db) (owner : String)
    → a.collections ≡ b.collections
    → a.objects ≡ b.objects
    → owner_usage a owner ≡ owner_usage b owner
unfolding owner_usage
owner_usage-same a b owner cols objs =
    ap (λ n. if leb_ℤ max_int64 n then max_int64 else n)
      (total_charged-collections a b owner a.objects cols ∙ ap (total_charged b owner) objs)

-- After an object is added that counts for the owner, and whose cost the quota check let through, the
-- usage is within the quota or has not grown.
pub added_within :
    (a b : Db) (owner : String) (o : Object) (u : User)
    → b.objects ≡ a.objects ++ o ∷ []
    → b.collections ≡ a.collections
    → counts_for a owner o ≡ true
    → quota_allows a owner o.charged ≡ true
    → find_user a owner ≡ some u
    → owner ≢ ""
    → ltb_ℤ (pos 0) u.quota_bytes ≡ true
    → InInt64 u.quota_bytes
    → pos 0 ≤ℤ owner_usage a owner
    → (owner_usage b owner ≤ℤ u.quota_bytes) ⊎ (owner_usage b owner ≤ℤ owner_usage a owner)
unfolding owner_usage
added_within a b owner o u objs cols counts allowed f named some_quota fits up =
    let before = total_charged a owner a.objects in
    let total : total_charged b owner b.objects ≡ before +ℤ o.charged =
      total_charged-collections b a owner b.objects cols
      ∙ ap (total_charged a owner) objs
      ∙ total_charged-append a owner a.objects o counts in
    let room = quota_allows_lem a owner o.charged u allowed f named some_quota fits up in
    ground (arith, total, room, +ℤ_parts before o.charged, +ℤ_parts (owner_usage a owner) o.charged)
