-- ===== src/StateMerge/Collisions.antt =====
-- One path under two ids: what the two devices make of it (src/merge/state-merge.ts).
use opsblobs_obsidian.Base.{
  ◌≡◌, ◌≢◌, refl, sym, JsString, Bool, ◌===◌, true, false, not, Option, none, some, ◌⊎◌, inl, inr,
  if◌then◌else◌, arith, Bool-cases, str_lt_total, str_lt_asymm,
}
use opsblobs_obsidian.Hlc.{hlc_compare}
use opsblobs_obsidian.Dag.{VersionDag, is_ancestor}
use opsblobs_obsidian.Dag.Reach.{Ancestor}
use opsblobs_obsidian.Dag.Ancestor.{is_ancestor_iff}
use opsblobs_obsidian.Vault.{
  Bytes, FileEntry, VaultState, MergeAction, write_local, write_merge, send_remote, delete_local,
  delete_remote, move_local, conflict, delete_conflict, binary_conflict, no_op, stored,
}
use opsblobs_obsidian.StateMerge.{TextCodec}
use opsblobs_obsidian.StateMerge.Heads.{Linked, linked, local_wins_collision, pick_collision_winner}
use opsblobs_obsidian.StateMerge.Collision.{
  settled_collision, raise_collision, resolve_create_collision,
}
use opsblobs_obsidian.StateMerge.Deletion.Grounds.{Heads, linked-Heads}

-- Of two entries with different ids, one wins, on whichever side it stands.
local_wins_swap :
    (le re : FileEntry)
    → le.id ≢ re.id
    → local_wins_collision re le ≡ not (local_wins_collision le re)
unfolding local_wins_collision hlc_compare
local_wins_swap le re n = ground (
  arith,
  str_lt_total le.id re.id,
  str_lt_asymm le.id re.id,
  str_lt_asymm re.id le.id,
  str_lt_total le.hlc_timestamp.device_id re.hlc_timestamp.device_id,
  str_lt_asymm le.hlc_timestamp.device_id re.hlc_timestamp.device_id,
  str_lt_asymm re.hlc_timestamp.device_id le.hlc_timestamp.device_id,
)

winner_swap :
    (le re : FileEntry)
    → le.id ≢ re.id
    → (if local_wins_collision le re then le.id else re.id)
      ≡ (if local_wins_collision re le then re.id else le.id)
winner_swap le re n = ground (arith, local_wins_swap le re n)

-- The id under which an action asks the user.
abbrev pub asked_id : MergeAction → Option JsString
asked_id (conflict id _ _ _ _ _ _) = some id
asked_id (write_local _ _ _ _ _) = none
asked_id (write_merge _ _ _ _) = none
asked_id (delete_conflict _ _ _ _ _) = none
asked_id (binary_conflict _ _ _ _ _ _ _ _) = none
asked_id (send_remote _ _ _) = none
asked_id (delete_local _ _) = none
asked_id (delete_remote _ _) = none
asked_id (move_local _ _ _) = none
asked_id (no_op _) = none

-- Of the two branches of a collision, exactly one asks, under the id.
abbrev pub AsksOnce : MergeAction → MergeAction → JsString → Type 0
AsksOnce a b id =
    ((asked_id a ≡ some id) × (asked_id b ≡ none)) ⊎ ((asked_id a ≡ none) × (asked_id b ≡ some id))

raise-AsksOnce :
    (codec : TextCodec) (le re : FileEntry) (lc rc : Bytes)
    → AsksOnce
        (raise_collision codec true le re (some lc) (some rc))
        (raise_collision codec false le re (some lc) (some rc))
        (if local_wins_collision le re then le.id else re.id)
unfolding raise_collision pick_collision_winner
raise-AsksOnce codec le re lc rc = ground arith

-- Neither head, where a graph and both heads are known, descends from the other.
abbrev pub Unsettled : Option VersionDag → FileEntry → FileEntry → Type 0
Unsettled dag le re =
    (graph : VersionDag) (a b : JsString)
    → Heads dag le re graph a b
    → ¬ (Ancestor graph a b) × ¬ (Ancestor graph b a)

Unsettled-swap :
    (dag : Option VersionDag) (le re : FileEntry) → Unsettled dag le re → Unsettled dag re le
Unsettled-swap dag le re u graph a b (g, x, y) = let (p, q) = u graph b a (g, y, x) in (q, p)

unreached :
    (graph : VersionDag) (a b : JsString) → ¬ (Ancestor graph a b) → is_ancestor graph a b ≡ false
unreached graph a b n = elim (Bool-cases (is_ancestor graph a b)) [
  | inl e ↦ absurd (n ((is_ancestor_iff graph a b).0 e))
  | inr e ↦ e
]

unsettled_lem :
    (dag : Option VersionDag) (le re : FileEntry) (self_is_remote : Bool) (lc rc : Option Bytes)
    → Unsettled dag le re
    → settled_collision (linked dag le re) self_is_remote le re lc rc ≡ none
unsettled_lem dag le re self_is_remote lc rc u = link_case (linked dag le re) refl
  where
    link_case :
        (o : Option Linked)
        → linked dag le re ≡ o
        → settled_collision o self_is_remote le re lc rc ≡ none
    link_case none e = unfold settled_collision in refl
    link_case (some k) e =
        let (p, q) = u k.graph k.local_head k.remote_head (linked-Heads dag le re k e) in
        unfold settled_collision in
        (ground (
          arith,
          unreached k.graph k.local_head k.remote_head p,
          unreached k.graph k.remote_head k.local_head q,
        ))

apart : (s t : JsString) → s ≢ t → (s === t) ≡ false
apart s t n = elim (Bool-cases (s === t)) [ inl e ↦ absurd (n (ground arith)) | inr e ↦ e ]

collision_raised :
    (codec : TextCodec) (le re : FileEntry) (local remote : VaultState) (dag : Option VersionDag)
    (self_is_remote : Bool) (lc rc : Bytes)
    → Unsettled dag le re
    → (le.content_hash === re.content_hash) ≡ false
    → stored local le.content_hash ≡ some lc
    → stored remote re.content_hash ≡ some rc
    → resolve_create_collision codec le re local remote self_is_remote dag
      ≡ raise_collision codec self_is_remote le re (some lc) (some rc)
unfolding resolve_create_collision
collision_raised codec le re local remote dag self_is_remote lc rc u n l r =
    let settled : settled_collision (linked dag le re) self_is_remote le re
          (stored local le.content_hash) (stored remote re.content_hash)
        ≡ none =
      unsettled_lem dag le re self_is_remote (stored local le.content_hash)
        (stored remote re.content_hash) u in
    rw (settled, resolve_create_collision) (rw n (rw (l, r) refl))

-- Two entries with different ids and content hashes collide on a path, neither head descends from the
-- other in the version graph, and the bytes of both are at hand. Then each of the two devices, of which
-- one has as its local entry what the other has as its remote one, raises exactly one conflict from its
-- two branches, and both raise it under the same id.
pub resolve_create_collision-AsksOnce :
    (codec : TextCodec) (le re : FileEntry) (here_local here_remote : VaultState)
    (there_local there_remote : VaultState) (dag : Option VersionDag) (lc rc : Bytes)
    → le.id ≢ re.id
    → le.content_hash ≢ re.content_hash
    → Unsettled dag le re
    → stored here_local le.content_hash ≡ some lc
    → stored here_remote re.content_hash ≡ some rc
    → stored there_local re.content_hash ≡ some rc
    → stored there_remote le.content_hash ≡ some lc
    → (winner : JsString) × AsksOnce
        (resolve_create_collision codec le re here_local here_remote true dag)
        (resolve_create_collision codec le re here_local here_remote false dag)
        winner
      × AsksOnce
          (resolve_create_collision codec re le there_local there_remote true dag)
          (resolve_create_collision codec re le there_local there_remote false dag)
          winner
resolve_create_collision-AsksOnce codec le re here_local here_remote there_local there_remote dag lc
      rc n d u l r l' r' =
    (
      if local_wins_collision le re then le.id else re.id,
      rw (here true, here false) (raise-AsksOnce codec le re lc rc),
      rw (there true, there false) (rw (winner_swap le re n) (raise-AsksOnce codec re le rc lc)),
    )
  where
    here :
        (b : Bool)
        → resolve_create_collision codec le re here_local here_remote b dag
          ≡ raise_collision codec b le re (some lc) (some rc)
    here b =
        collision_raised codec le re here_local here_remote dag b lc rc u
          (apart le.content_hash re.content_hash d) l r

    there :
        (b : Bool)
        → resolve_create_collision codec re le there_local there_remote b dag
          ≡ raise_collision codec b re le (some rc) (some lc)
    there b =
        collision_raised codec re le there_local there_remote dag b rc lc
          (Unsettled-swap dag le re u) (apart re.content_hash le.content_hash (λ e. d (sym e))) l'
          r'
