-- ===== src/Metadata.antt =====
-- The `MetadataStore` port (src/ports/metadata-store.ts), which the registry and the stores of
-- `.opsblobs` write to, as the in-memory store of the tests implements it: a map from paths to texts,
-- in which directories are implicit.
use opsblobs_obsidian.Base.{
  ◌≡◌, JsString, Bool, true, false, Option, none, some, List, [], ◌++◌, arith, ◌===◌, if◌then◌else◌,
  lookup, insert, erase, lookup-insert, lookup-erase,
}

abbrev pub MetadataStore : Type 0
MetadataStore = List (JsString × JsString)

unfoldable pub read : MetadataStore → JsString → Option JsString
read store path = lookup path store

unfoldable pub write : MetadataStore → JsString → JsString → MetadataStore
write store path text = insert path text store

-- `this.files.get(path) ?? ''`
abbrev pub text_or_empty : Option JsString → JsString
text_or_empty none = []
text_or_empty (some text) = text

unfoldable pub append : MetadataStore → JsString → JsString → MetadataStore
append store path text = insert path (text_or_empty (lookup path store) ++ text) store

abbrev pub is_some {ℓ} : {A : Type ℓ} → Option A → Bool
is_some none = false
is_some (some a) = true

unfoldable pub exists : MetadataStore → JsString → Bool
exists store path = is_some (lookup path store)

unfoldable pub remove : MetadataStore → JsString → MetadataStore
remove store path = erase path store

-- `if (await metadata.exists(path)) await metadata.remove(path)`
unfoldable pub remove_existing : MetadataStore → JsString → MetadataStore
unfolding exists remove
remove_existing store path = if exists store path then remove store path else store

pub read-write :
    (store : MetadataStore) (p q text : JsString)
    → read (write store p text) q ≡ (if p === q then some text else read store q)
unfolding read write
read-write store p q text = lookup-insert p q text store

pub read-append :
    (store : MetadataStore) (p q text : JsString)
    → read (append store p text) q
      ≡ (if p === q then some (text_or_empty (read store p) ++ text) else read store q)
unfolding read append
read-append store p q text = lookup-insert p q (text_or_empty (lookup p store) ++ text) store

pub read-remove :
    (store : MetadataStore) (p q : JsString)
    → read (remove_existing store p) q ≡ (if p === q then none else read store q)
unfolding read remove_existing exists remove
read-remove store p q = ground (arith, lookup-erase p q store)
