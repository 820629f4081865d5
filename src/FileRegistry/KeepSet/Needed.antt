-- ===== src/FileRegistry/KeepSet/Needed.antt =====
-- What `referencedHashes` of src/core/file-registry.ts keeps.
use mathlib.Core.Path.{subst}
use opsblobs_obsidian.Base.{
  ◌≡◌, ◌↔◌, ◌⊎◌, refl, inl, inr, JsString, Bool, true, false, ◌&&◌, ◌||◌, Option, none, some, List,
  [], ◌∷◌, arith, ◌===◌, if◌then◌else◌, contains, add, contains-add, lookup, HasUniqueKeys,
  Bool-cases,
}
use opsblobs_obsidian.Dag.{VersionDag, truthy, add_all, merge_base, base}
use opsblobs_obsidian.Dag.Walk.{IsIn}
use opsblobs_obsidian.Dag.Reach.{Ancestor, here, up, Ancestor-trans}
use opsblobs_obsidian.Dag.MergeBase.Spec.{merge_base_iff}
use opsblobs_obsidian.Dag.Content.{ReachableBounds, misses, reachable_content_hashes}
use opsblobs_obsidian.Dag.Content.Generation.{Kept, start, onward, hash_of}
use opsblobs_obsidian.Dag.Content.Kept.{reachable_content_hashes_iff}
use opsblobs_obsidian.Vault.{FileEntry}
use opsblobs_obsidian.FileRegistry.{FileRegistry}
use opsblobs_obsidian.FileRegistry.KeepSet.{keep_history, keep_entry, keep_loop, referenced_hashes}

contains-add_all :
    (seen ps : List JsString) (v : JsString)
    → contains (add_all seen ps) v ≡ (contains ps v || contains seen v)
unfolding add_all contains
contains-add_all seen [] v = refl
contains-add_all seen (p ∷ ps) v =
    ground (arith, contains-add_all (add seen p) ps v, contains-add seen p v)

module _ (dag : VersionDag) (has : Option (JsString → Bool)) where
  abbrev stored_bounds : ReachableBounds
  stored_bounds = record { has = has; max_depth = none }

  -- The entry is live, and the hash is its content's or that of a version which the walk from its head
  -- keeps.
  abbrev pub Needs : FileEntry → JsString → Type 0
  Needs e h =
      (e.deleted ≡ false)
      × (truthy h ≡ true)
      × ((e.content_hash ≡ h)
          ⊎ ((head a : JsString) × (e.head_version_id ≡ some head)
              × (truthy head ≡ true)
              × Kept dag head has a
              × (hash_of dag a ≡ h)))

  IsIn-keep_history :
      (head : Option JsString) (keep : List JsString) (h : JsString)
      → IsIn (keep_history (some dag) stored_bounds head keep) h ↔ (
          IsIn keep h
          ⊎ ((v : JsString) × (head ≡ some v)
              × (truthy v ≡ true)
              × IsIn (reachable_content_hashes dag v stored_bounds) h))
  unfolding keep_history
  IsIn-keep_history none keep h = (λ m. inl m, λ m. elim m [ inl k ↦ k | inr (v, e, t, k) ↦ cc ])
  IsIn-keep_history (some v) keep h = (
    λ m. elim (Bool-cases (truthy v && contains (reachable_content_hashes dag v stored_bounds) h)) [
      | inl t ↦ inr (v, refl, ground arith, ground arith)
      | inr t ↦
          inl
            (ground (arith, contains-add_all keep (reachable_content_hashes dag v stored_bounds) h))
    ],
    λ m. elim m [
      | inl k ↦
          ground (arith, contains-add_all keep (reachable_content_hashes dag v stored_bounds) h)
      | inr (w, e, t, k) ↦
          let same : w ≡ v = cc e in
          let k' : IsIn (reachable_content_hashes dag v stored_bounds) h =
            subst (λ (x : JsString). IsIn (reachable_content_hashes dag x stored_bounds) h) same
              k in
          ground
            (arith, same, t, contains-add_all keep (reachable_content_hashes dag v stored_bounds) h)
    ],
  )

  IsIn-keep_entry :
      (e : FileEntry) (keep : List JsString) (h : JsString)
      → IsIn (keep_entry (some dag) stored_bounds e keep) h ↔ (IsIn keep h ⊎ Needs e h)
  IsIn-keep_entry e keep h = deleted_case e.deleted refl
    where
      own : List JsString
      own = if truthy e.content_hash then add keep e.content_hash else keep

      in_own : IsIn own h ↔ (IsIn keep h ⊎ ((truthy h ≡ true) × (e.content_hash ≡ h)))
      in_own = (
        λ m. elim (Bool-cases (contains keep h)) [
          | inl k ↦ inl k
          | inr k ↦
              let same : e.content_hash ≡ h = ground (arith, contains-add keep e.content_hash h) in
              let t : truthy e.content_hash ≡ true =
                ground (arith, contains-add keep e.content_hash h) in
              inr (subst (λ (x : JsString). truthy x ≡ true) same t, same)
        ],
        λ m. ground (arith, contains-add keep e.content_hash h),
      )

      history : IsIn (keep_history (some dag) stored_bounds e.head_version_id own) h ↔ (
          IsIn own h
          ⊎ ((v : JsString) × (e.head_version_id ≡ some v)
              × (truthy v ≡ true)
              × IsIn (reachable_content_hashes dag v stored_bounds) h))
      history = IsIn-keep_history e.head_version_id own h

      live_to :
          e.deleted ≡ false
          → IsIn (keep_history (some dag) stored_bounds e.head_version_id own) h
          → IsIn keep h ⊎ Needs e h
      live_to d m = elim (history.0 m) [
        | inl k ↦ elim (in_own.0 k) [ inl q ↦ inl q | inr (t, q) ↦ inr (d, t, inl q) ]
        | inr (v, q, t, k) ↦
            let (a, kept, same, t') = (reachable_content_hashes_iff dag v has h).0 k in
            inr (d, t', inr (v, a, q, t, kept, same))
      ]

      live_from :
          IsIn keep h ⊎ Needs e h
          → IsIn (keep_history (some dag) stored_bounds e.head_version_id own) h
      live_from (inl k) = history.1 (inl (in_own.1 (inl k)))
      live_from (inr (d, t, inl q)) = history.1 (inl (in_own.1 (inr (t, q))))
      live_from (inr (d, t, inr (v, a, q, t', kept, same))) =
          history.1
            (inr (v, q, t', (reachable_content_hashes_iff dag v has h).1 (a, kept, same, t)))

      deleted_case :
          (b : Bool)
          → e.deleted ≡ b
          → IsIn (keep_entry (some dag) stored_bounds e keep) h ↔ (IsIn keep h ⊎ Needs e h)
      deleted_case true d = (
        λ m. inl (unfold keep_entry in (ground (arith, d, m))),
        λ m. elim m [ inl k ↦ unfold keep_entry in (ground (arith, d, k)) | inr (f, t, n) ↦ cc ],
      )
      deleted_case false d = (
        λ m. live_to d (unfold keep_entry in (ground (arith, d, m))),
        λ m. unfold keep_entry in (ground (arith, d, live_from m)),
      )

  abbrev Needed : List (JsString × FileEntry) → JsString → Type 0
  Needed entries h = (id : JsString) × (e : FileEntry) × (lookup id entries ≡ some e) × Needs e h

  IsIn-keep_loop :
      (entries : List (JsString × FileEntry)) (keep : List JsString) (h : JsString)
      → HasUniqueKeys entries
      → IsIn (keep_loop (some dag) stored_bounds entries keep) h ↔ (IsIn keep h ⊎ Needed entries h)
  unfolding keep_loop lookup
  IsIn-keep_loop [] keep h unique =
      (λ m. inl m, λ m. elim m [ inl k ↦ k | inr (id, e, found, n) ↦ cc ])
  IsIn-keep_loop ((k, f) ∷ entries) keep h unique =
      let rest = IsIn-keep_loop entries (keep_entry (some dag) stored_bounds f keep) h unique.1 in
      let one = IsIn-keep_entry f keep h in
      (
        λ m. elim (rest.0 m) [
          | inl q ↦ elim (one.0 q) [ inl old ↦ inl old | inr n ↦ inr (k, f, ground arith, n) ]
          | inr (id, e, found, n) ↦ inr (id, e, ground (arith, unique.0, found), n)
        ],
        λ m. elim m [
          | inl old ↦ rest.1 (inl (one.1 (inl old)))
          | inr (id, e, found, n) ↦ elim (Bool-cases (k === id)) [
            | inl t ↦
                let same : e ≡ f = ground (arith, found, t) in
                rest.1 (inl (one.1 (inr (subst (λ (x : FileEntry). Needs x h) same n))))
            | inr t ↦ rest.1 (inr (id, e, ground (arith, found, t), n))
          ]
        ],
      )

  -- A hash is in the keep-set exactly when it is not empty and some live entry needs it: as its own
  -- content, or as the content of a version that the walk from the entry's head reaches.
  pub referenced_hashes_iff :
      (r : FileRegistry) (h : JsString)
      → HasUniqueKeys r.entries
      → IsIn (referenced_hashes r (some dag) (record { has = has; max_depth = none })) h
        ↔ ((id : JsString) × (e : FileEntry) × (lookup id r.entries ≡ some e) × Needs e h)
  unfolding referenced_hashes contains
  referenced_hashes_iff r h unique =
      let lem = IsIn-keep_loop r.entries [] h unique in
      (λ m. elim (lem.0 m) [ inl k ↦ cc | inr n ↦ n ], λ n. lem.1 (inr n))

  kept_below :
      (head b : JsString)
      → ((u : JsString)
          → Ancestor dag u head
          → Ancestor dag b u
          → misses has (hash_of dag u) ≡ false)
      → {a : JsString} → Ancestor dag b a
      → Ancestor dag a head
      → Kept dag head has a
      → Kept dag head has b
  kept_below head b stored here g k = k
  kept_below head b stored (up {v = u} p m h) g k =
      kept_below head b stored h (Ancestor-trans dag p (up p m here) g)
        (onward p k (ground (arith, stored u g (up p m h))) m)

  -- For a live file and any peer head, the content of the merge base of the two heads is in the keep-set,
  -- as long as the bytes of the versions from the file's head down to the base are stored.
  pub referenced_hashes-merge_base :
      (r : FileRegistry) (id head peer b : JsString) (e : FileEntry)
      → HasUniqueKeys r.entries
      → lookup id r.entries ≡ some e
      → e.deleted ≡ false
      → e.head_version_id ≡ some head
      → truthy head ≡ true
      → merge_base dag head peer ≡ base b
      → truthy (hash_of dag b) ≡ true
      → ((u : JsString)
          → Ancestor dag u head
          → Ancestor dag b u
          → misses has (hash_of dag u) ≡ false)
      → IsIn
          (referenced_hashes r (some dag) (record { has = has; max_depth = none }))
          (hash_of dag b)
  referenced_hashes-merge_base r id head peer b e unique found live named t is_base t' stored =
      let common = (((merge_base_iff dag head peer b).0 is_base).0).0 in
      (referenced_hashes_iff r (hash_of dag b) unique).1 (
        id,
        e,
        found,
        (live, t', inr (head, b, named, t, kept_below head b stored common.0 here start, refl)),
      )
