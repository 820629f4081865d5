-- ===== src/Dag/Reach.antt =====
-- The causal order that src/core/version-dag.ts computes: reachability along recorded parent links.
use opsblobs_obsidian.Base.{JsString}
use opsblobs_obsidian.Dag.{VersionDag, parents_of}
use opsblobs_obsidian.Dag.Walk.{IsIn}

-- `a` is `v`, or an ancestor of a parent of `v`.
pub data Ancestor (dag : VersionDag) (a : JsString) : JsString → Type 0 where
  here : Ancestor dag a a
  up :
      {v : JsString} (p : JsString)
      → IsIn (parents_of dag v) p
      → Ancestor dag a p
      → Ancestor dag a v

pub Ancestor-trans :
    (dag : VersionDag) (a : JsString) {b c : JsString}
    → Ancestor dag a b
    → Ancestor dag b c
    → Ancestor dag a c
Ancestor-trans dag a h here = h
Ancestor-trans dag a h (up p m k) = up p m (Ancestor-trans dag a h k)

-- A parent of an ancestor is an ancestor.
pub Ancestor-parent :
    (dag : VersionDag) (a p : JsString) {v : JsString}
    → IsIn (parents_of dag a) p
    → Ancestor dag a v
    → Ancestor dag p v
Ancestor-parent dag a p m h = Ancestor-trans dag p (up p m here) h

-- A set that is closed under parents holds the ancestors of its members.
pub Ancestor-closed {ℓ} :
    (dag : VersionDag) (P : JsString → Type ℓ)
    → ((v p : JsString) → P v → IsIn (parents_of dag v) p → P p)
    → (a : JsString) {v : JsString} → Ancestor dag a v
    → P v
    → P a
Ancestor-closed dag P closed a here h = h
Ancestor-closed dag P closed a (up {v} p m k) h = Ancestor-closed dag P closed a k (closed v p h m)
