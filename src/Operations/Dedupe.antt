-- ===== src/Operations/Dedupe.antt =====
-- What `dedupeOpsById` (src/core/operations.ts) keeps.
use opsblobs_obsidian.Base.{
  ◌≡◌, JsString, List, [], ◌∷◌, arith, if◌then◌else◌, contains, add, contains-add, ◌===◌, Option,
  none, some, Bool-cases, inl, inr,
}
use opsblobs_obsidian.Vault.{Operation}
use opsblobs_obsidian.Operations.{unseen_ops, dedupe_ops_by_id}

-- The first operation with an id.
abbrev pub find_op : JsString → List Operation → Option Operation
find_op id [] = none
find_op id (op ∷ ops) = if op.id === id then some op else find_op id ops

-- No id occurs twice.
abbrev pub Once : List Operation → Type 0
Once [] = Unit
Once (op ∷ ops) = (find_op op.id ops ≡ none) × Once ops

find-unseen :
    (ops : List Operation) (seen : List JsString) (id : JsString)
    → find_op id (unseen_ops ops seen) ≡ (if contains seen id then none else find_op id ops)
unfolding unseen_ops
find-unseen [] seen id = ground arith
find-unseen (op ∷ ops) seen id = ground (
  arith,
  find-unseen ops seen id,
  find-unseen ops (add seen op.id) id,
  contains-add seen op.id id,
)

unseen-Once : (ops : List Operation) (seen : List JsString) → Once (unseen_ops ops seen)
unfolding unseen_ops
unseen-Once [] seen = tt
unseen-Once (op ∷ ops) seen = elim (Bool-cases (contains seen op.id)) [
  | inl e ↦ rw e (unseen-Once ops seen)
  | inr e ↦ rw e (
    ground (arith, find-unseen ops (add seen op.id) op.id, contains-add seen op.id op.id),
    unseen-Once ops (add seen op.id),
  )
]

-- The filter keeps, for every id, the first operation that has it and no other.
pub dedupe_ops_by_id_first :
    (ops : List Operation)
    → Once (dedupe_ops_by_id ops)
      × ((id : JsString) → find_op id (dedupe_ops_by_id ops) ≡ find_op id ops)
unfolding dedupe_ops_by_id contains
dedupe_ops_by_id_first ops = (unseen-Once ops [], λ id. find-unseen ops [] id)
