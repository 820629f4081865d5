-- ===== src/ConflictInventory.antt =====
-- src/core/conflict-inventory.ts: the files with two open heads, in the order of their paths.
pub mod Listing
mod Tests
use opsblobs_obsidian.Base.{
  JsString, Bool, true, false, Option, none, some, List, [], ◌∷◌, map, leb, length, str_lt,
  if◌then◌else◌,
}
use opsblobs_obsidian.Hlc.{Hlc}
use opsblobs_obsidian.Hlc.Text.{hlc_from_string}
use opsblobs_obsidian.Vault.{FileEntry}

pub record ConflictHead : Type 0 where
  pub version_id : JsString
  pub hlc : Option Hlc

pub record ConflictListItem : Type 0 where
  pub file_id : JsString
  pub path : JsString
  pub heads : List ConflictHead

-- `headProvenance`: `none` where the id does not parse.
unfoldable pub conflict_head : JsString → ConflictHead
conflict_head version_id = record { version_id = version_id; hlc = hlc_from_string version_id }

unfoldable pub item_of : FileEntry → List JsString → ConflictListItem
unfolding conflict_head
item_of entry parents = record {
  file_id = entry.id;
  path = entry.path;
  heads = map conflict_head parents;
}

-- The item of an entry, if at least two heads are open.
unfoldable pub two_headed_item : FileEntry → Option ConflictListItem
unfolding item_of
two_headed_item entry = elim entry.conflict_parents [
  | none ↦ none
  | some parents ↦ if leb 2 (length parents) then some (item_of entry parents) else none
]

unfoldable pub two_headed_items : List FileEntry → List ConflictListItem
unfolding two_headed_item
two_headed_items [] = []
two_headed_items (entry ∷ entries) =
    let rest = two_headed_items entries in
    elim (two_headed_item entry) [ none ↦ rest | some item ↦ item ∷ rest ]

-- `items.sort(…)` by path, stable.
unfoldable pub insert_item : ConflictListItem → List ConflictListItem → List ConflictListItem
insert_item item [] = item ∷ []
insert_item item (next ∷ items) =
    if str_lt next.path item.path then next ∷ insert_item item items else item ∷ next ∷ items

unfoldable pub sort_items : List ConflictListItem → List ConflictListItem
unfolding insert_item
sort_items [] = []
sort_items (item ∷ items) = insert_item item (sort_items items)

unfoldable pub list_two_headed_conflicts : List FileEntry → List ConflictListItem
unfolding two_headed_items sort_items
list_two_headed_conflicts entries = sort_items (two_headed_items entries)
