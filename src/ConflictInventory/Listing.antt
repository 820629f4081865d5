-- ===== src/ConflictInventory/Listing.antt =====
-- What `listTwoHeadedConflicts` (src/core/conflict-inventory.ts) lists, and in which order.
use opsblobs_obsidian.Base.{
  ◌≡◌, ◌↔◌, ◌⊎◌, inl, inr, refl, JsString, Bool, true, false, Option, none, some, List, [], ◌∷◌,
  map, arith, str_lt, str_lt_asymm, str_lt_total, str_lt_irrefl, str_lt_trans, if◌then◌else◌,
  Bool-cases,
}
use opsblobs_obsidian.Hlc.Text.{hlc_from_string}
use opsblobs_obsidian.Vault.{FileEntry}
use opsblobs_obsidian.ConflictInventory.{
  ConflictHead, ConflictListItem, conflict_head, item_of, two_headed_item, two_headed_items,
  insert_item, sort_items, list_two_headed_conflicts,
}

-- No item's path is below that of the item in front of it.
abbrev pub AtLeast : JsString → List ConflictListItem → Type 0
AtLeast path [] = Unit
AtLeast path (item ∷ items) = (str_lt item.path path ≡ false) × AtLeast path items

abbrev pub PathSorted : List ConflictListItem → Type 0
PathSorted [] = Unit
PathSorted (item ∷ items) = AtLeast item.path items × PathSorted items

abbrev pub Listed : ConflictListItem → List ConflictListItem → Type 0
Listed x [] = ⊥
Listed x (item ∷ items) = (x ≡ item) ⊎ Listed x items

abbrev pub AreHeads : List JsString → List ConflictHead → Type 0
AreHeads [] [] = Unit
AreHeads [] (h ∷ hs) = ⊥
AreHeads (v ∷ vs) [] = ⊥
AreHeads (v ∷ vs) (h ∷ hs) = ((h.version_id ≡ v) × (h.hlc ≡ hlc_from_string v)) × AreHeads vs hs

-- The entry has two open heads or more, and the item has its id, its path and those heads, each with
-- what its id parses to.
abbrev pub IsItemOf : ConflictListItem → FileEntry → Type 0
IsItemOf x entry =
    (a b : JsString) × (more : List JsString) × (entry.conflict_parents ≡ some (a ∷ b ∷ more))
    × (x.file_id ≡ entry.id)
    × (x.path ≡ entry.path)
    × AreHeads (a ∷ b ∷ more) x.heads

-- Some entry yields the item.
abbrev pub Yields : List FileEntry → ConflictListItem → Type 0
Yields [] x = ⊥
Yields (entry ∷ entries) x = IsItemOf x entry ⊎ Yields entries x

map-AreHeads : (vs : List JsString) → AreHeads vs (map conflict_head vs)
unfolding conflict_head
map-AreHeads [] = tt
map-AreHeads (v ∷ vs) = ((refl, refl), map-AreHeads vs)

AreHeads-map :
    (vs : List JsString) (hs : List ConflictHead) → AreHeads vs hs → hs ≡ map conflict_head vs
unfolding conflict_head
AreHeads-map [] [] h = refl
AreHeads-map [] (x ∷ hs) h = absurd h
AreHeads-map (v ∷ vs) [] h = absurd h
AreHeads-map (v ∷ vs) (x ∷ hs) ((i, t), h) = cc (i, t, AreHeads-map vs hs h)

two_headed_item-IsItemOf :
    (entry : FileEntry) (x : ConflictListItem) → two_headed_item entry ≡ some x → IsItemOf x entry
unfolding two_headed_item item_of
two_headed_item-IsItemOf entry x h = heads_case entry.conflict_parents refl
  where
    item_eq : (a b : ConflictListItem) → ◌≡◌ {A = Option ConflictListItem} (some a) (some b) → b ≡ a
    item_eq a b e = cc

    heads_case : (o : Option (List JsString)) → entry.conflict_parents ≡ o → IsItemOf x entry
    heads_case none e = absurd (ground arith)
    heads_case (some []) e = absurd (ground arith)
    heads_case (some (a ∷ [])) e = absurd (ground arith)
    heads_case (some (a ∷ b ∷ more)) e =
        let item : ConflictListItem = record {
          file_id = entry.id;
          path = entry.path;
          heads = map conflict_head (a ∷ b ∷ more);
        } in
        let same : x ≡ item = item_eq item x (ground arith) in
        (a, b, more, e, cc same, cc same, rw same (map-AreHeads (a ∷ b ∷ more)))

IsItemOf-two_headed_item :
    (entry : FileEntry) (x : ConflictListItem) → IsItemOf x entry → two_headed_item entry ≡ some x
unfolding two_headed_item item_of
IsItemOf-two_headed_item entry x (a, b, more, e, i, p, h) =
    ground (arith, e, i, p, AreHeads-map (a ∷ b ∷ more) x.heads h)

not_below_trans : (a b c : JsString) → str_lt b a ≡ false → str_lt c b ≡ false → str_lt c a ≡ false
not_below_trans a b c h k = ground (
  arith,
  str_lt_total a b,
  str_lt_total b c,
  str_lt_trans c a b,
  str_lt_trans a b c,
  str_lt_asymm c a,
  str_lt_irrefl a,
)

AtLeast-weaken :
    (a b : JsString) (items : List ConflictListItem)
    → str_lt b a ≡ false
    → AtLeast b items
    → AtLeast a items
AtLeast-weaken a b [] h k = tt
AtLeast-weaken a b (item ∷ items) h k =
    (not_below_trans a b item.path h k.0, AtLeast-weaken a b items h k.1)

insert-AtLeast :
    (p : JsString) (x : ConflictListItem) (items : List ConflictListItem)
    → str_lt x.path p ≡ false
    → AtLeast p items
    → AtLeast p (insert_item x items)
unfolding insert_item
insert-AtLeast p x [] h k = (h, tt)
insert-AtLeast p x (item ∷ items) h k = elim (Bool-cases (str_lt item.path x.path)) [
  | inl e ↦ rw e (k.0, insert-AtLeast p x items h k.1)
  | inr e ↦ rw e (h, k)
]

insert-PathSorted :
    (x : ConflictListItem) (items : List ConflictListItem)
    → PathSorted items
    → PathSorted (insert_item x items)
unfolding insert_item
insert-PathSorted x [] h = (tt, tt)
insert-PathSorted x (item ∷ items) h = elim (Bool-cases (str_lt item.path x.path)) [
  | inl e ↦ rw e (
    insert-AtLeast item.path x items (str_lt_asymm item.path x.path e) h.0,
    insert-PathSorted x items h.1,
  )
  | inr e ↦ rw e ((e, AtLeast-weaken x.path item.path items e h.0), h)
]

sort-PathSorted : (items : List ConflictListItem) → PathSorted (sort_items items)
unfolding sort_items
sort-PathSorted [] = tt
sort-PathSorted (x ∷ items) = insert-PathSorted x (sort_items items) (sort-PathSorted items)

insert-Listed_to :
    (x y : ConflictListItem) (items : List ConflictListItem)
    → Listed y (insert_item x items)
    → (y ≡ x) ⊎ Listed y items
unfolding insert_item
insert-Listed_to x y [] h = h
insert-Listed_to x y (item ∷ items) h =
    if_listed_to x y item items (insert-Listed_to x y items) (str_lt item.path x.path) h
  where
    if_listed_to :
        (x y item : ConflictListItem) (items : List ConflictListItem)
        → (Listed y (insert_item x items) → (y ≡ x) ⊎ Listed y items)
        → (b : Bool) → Listed y (if b then item ∷ insert_item x items else x ∷ item ∷ items)
        → (y ≡ x) ⊎ (y ≡ item) ⊎ Listed y items
    if_listed_to x y item items ih false h = h
    if_listed_to x y item items ih true (inl e) = inr (inl e)
    if_listed_to x y item items ih true (inr m) = elim (ih m) [
      | inl e ↦ inl e
      | inr k ↦ inr (inr k)
    ]

insert-Listed_from :
    (x y : ConflictListItem) (items : List ConflictListItem)
    → (y ≡ x) ⊎ Listed y items
    → Listed y (insert_item x items)
unfolding insert_item
insert-Listed_from x y [] h = h
insert-Listed_from x y (item ∷ items) h = elim (Bool-cases (str_lt item.path x.path)) [
  | inr e ↦ rw e h
  | inl e ↦ rw e (elim h [
    | inl q ↦ inr (insert-Listed_from x y items (inl q))
    | inr (inl q) ↦ inl q
    | inr (inr m) ↦ inr (insert-Listed_from x y items (inr m))
  ])
]

sort-Listed_to :
    (y : ConflictListItem) (items : List ConflictListItem)
    → Listed y (sort_items items)
    → Listed y items
unfolding sort_items
sort-Listed_to y [] h = h
sort-Listed_to y (x ∷ items) h = elim (insert-Listed_to x y (sort_items items) h) [
  | inl e ↦ inl e
  | inr m ↦ inr (sort-Listed_to y items m)
]

sort-Listed_from :
    (y : ConflictListItem) (items : List ConflictListItem)
    → Listed y items
    → Listed y (sort_items items)
unfolding sort_items
sort-Listed_from y [] h = h
sort-Listed_from y (x ∷ items) (inl e) = insert-Listed_from x y (sort_items items) (inl e)
sort-Listed_from y (x ∷ items) (inr m) =
    insert-Listed_from x y (sort_items items) (inr (sort-Listed_from y items m))

some_item : {a b : ConflictListItem} → ◌≡◌ {A = Option ConflictListItem} (some a) (some b) → b ≡ a
some_item e = cc

items-Yields_to :
    (y : ConflictListItem) (entries : List FileEntry)
    → Listed y (two_headed_items entries)
    → Yields entries y
unfolding two_headed_items
items-Yields_to y [] h = h
items-Yields_to y (entry ∷ entries) h =
    elim (option_listed_to (two_headed_item entry) (items-Yields_to y entries) h) [
      | inl e ↦ inl (two_headed_item-IsItemOf entry y e)
      | inr m ↦ inr m
    ]
  where
    option_listed_to :
        (o : Option ConflictListItem)
        → (Listed y (two_headed_items entries) → Yields entries y)
        → Listed y (elim o [
          | none ↦ two_headed_items entries
          | some item ↦ item ∷ two_headed_items entries
        ])
        → (o ≡ some y) ⊎ Yields entries y
    option_listed_to none ih h = inr (ih h)
    option_listed_to (some item) ih (inl e) = inl (rw e refl)
    option_listed_to (some item) ih (inr m) = inr (ih m)

items-Yields_from :
    (y : ConflictListItem) (entries : List FileEntry)
    → Yields entries y
    → Listed y (two_headed_items entries)
unfolding two_headed_items
items-Yields_from y [] h = h
items-Yields_from y (entry ∷ entries) h =
    option_listed_from (two_headed_item entry) (items-Yields_from y entries)
      (elim h [ inl e ↦ inl (IsItemOf-two_headed_item entry y e) | inr m ↦ inr m ])
  where
    option_listed_from :
        (o : Option ConflictListItem)
        → (Yields entries y → Listed y (two_headed_items entries))
        → (o ≡ some y) ⊎ Yields entries y
        → Listed y (elim o [
          | none ↦ two_headed_items entries
          | some item ↦ item ∷ two_headed_items entries
        ])
    option_listed_from none ih (inl e) = cc
    option_listed_from none ih (inr m) = ih m
    option_listed_from (some item) ih (inl e) = inl (some_item e)
    option_listed_from (some item) ih (inr m) = inr (ih m)

-- The inventory is in the order of the paths and lists exactly the items of the entries with at least
-- two open heads: the id, the path and the heads in their order, each with the timestamp that its id
-- parses to, if any.
pub list_two_headed_conflicts_iff :
    (entries : List FileEntry)
    → PathSorted (list_two_headed_conflicts entries)
      × ((item : ConflictListItem)
          → Listed item (list_two_headed_conflicts entries) ↔ Yields entries item)
unfolding list_two_headed_conflicts
list_two_headed_conflicts_iff entries = (
  sort-PathSorted (two_headed_items entries),
  λ y. (
    (λ h. items-Yields_to y entries (sort-Listed_to y (two_headed_items entries) h)),
    (λ h. sort-Listed_from y (two_headed_items entries) (items-Yields_from y entries h)),
  ),
)
