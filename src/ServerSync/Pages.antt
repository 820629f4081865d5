-- ===== src/ServerSync/Pages.antt =====
-- The log of src/network/fake-server.ts cut into pages, as `pullAll` of src/network/server-sync.ts pulls
-- it.
use opsblobs_obsidian.Base.{
  ℕ, zero, suc, ◌≤◌, ◌<◌, ◌≡◌, ◌≢◌, refl, sym, inl, inr, true, false, not, ◌||◌, List, [], ◌∷◌,
  arith, ltb, length, take, drop, Bool-cases,
}
use opsblobs_obsidian.FakeServer.{OpRecord, after_seq, last_seq}
use opsblobs_obsidian.FakeServer.Log.{NumberedFrom}
use opsblobs_obsidian.ServerSync.{no_ops}

-- Each sequence number is above the one before it, and above the given one.
abbrev pub IsAscending : ℕ → List OpRecord → Type 0
IsAscending n [] = Unit
IsAscending n (o ∷ log) = (n < o.seq) × IsAscending o.seq log

pub NumberedFrom-IsAscending :
    (n : ℕ) (log : List OpRecord) → NumberedFrom n log → IsAscending n log
NumberedFrom-IsAscending n [] h = tt
NumberedFrom-IsAscending n (o ∷ log) h =
    (omega (arith, h.0), (rw (sym (h.0)) at (NumberedFrom-IsAscending (suc n) log h.1)))

IsAscending-mono : (m n : ℕ) (log : List OpRecord) → m ≤ n → IsAscending n log → IsAscending m log
IsAscending-mono m n [] le h = tt
IsAscending-mono m n (o ∷ log) le h = (omega (arith, h.0), h.1)

-- Above every number nothing is left out.
after_seq_all : (c : ℕ) (log : List OpRecord) → IsAscending c log → after_seq c log ≡ log
unfolding after_seq
after_seq_all c [] h = refl
after_seq_all c (o ∷ log) h =
    ground (arith, after_seq_all c log (IsAscending-mono c o.seq log (omega (arith, h.0)) h.1))

pub after_seq-IsAscending :
    (since n : ℕ) (log : List OpRecord)
    → IsAscending n log
    → IsAscending since (after_seq since log)
unfolding after_seq
after_seq-IsAscending since n [] h = tt
after_seq-IsAscending since n (o ∷ log) h = elim (Bool-cases (ltb since o.seq)) [
  | inl t ↦
      rw (t, after_seq_all since log (IsAscending-mono since o.seq log (ground arith) h.1))
        (ground arith, h.1)
  | inr t ↦ rw t (after_seq-IsAscending since o.seq log h.1)
]

pub after_seq-after_seq :
    (since c : ℕ) (log : List OpRecord)
    → since ≤ c
    → after_seq c (after_seq since log) ≡ after_seq c log
unfolding after_seq
after_seq-after_seq since c [] le = refl
after_seq-after_seq since c (o ∷ log) le = ground (arith, after_seq-after_seq since c log le)

pub last_seq-ge : (k n : ℕ) (log : List OpRecord) → IsAscending k log → k ≤ last_seq k (take n log)
unfolding last_seq
last_seq-ge k zero log h = omega arith
last_seq-ge k (suc n) [] h = omega arith
last_seq-ge k (suc n) (o ∷ log) h = omega (arith, h.0, last_seq-ge o.seq n log h.1)

-- The cursor of a page leads to what the page leaves.
pub after_page :
    (k n : ℕ) (log : List OpRecord)
    → IsAscending k log
    → after_seq (last_seq k (take n log)) log ≡ drop n log
unfolding after_seq last_seq
after_page k zero log h = after_seq_all k log h
after_page k (suc n) [] h = refl
after_page k (suc n) (o ∷ log) h =
    ground (arith, after_page o.seq n log h.1, last_seq-ge o.seq n log h.1)

pub last_seq-last_seq :
    (k n : ℕ) (log : List OpRecord)
    → last_seq (last_seq k (take n log)) (drop n log) ≡ last_seq k log
unfolding last_seq
last_seq-last_seq k zero log = refl
last_seq-last_seq k (suc n) [] = refl
last_seq-last_seq k (suc n) (o ∷ log) = last_seq-last_seq o.seq n log

pub take_or_all :
    (n : ℕ) (log : List OpRecord)
    → n ≢ 0
    → (not (ltb (length (take n log)) (length log)) || no_ops (take n log)) ≡ true
    → (take n log ≡ log) × (drop n log ≡ [])
take_or_all zero log h e = absurd (h refl)
take_or_all (suc n) [] h e = (refl, refl)
take_or_all (suc n) (o ∷ log) h e = rest n log (ground arith)
  where
    rest :
        (n : ℕ) (log : List OpRecord)
        → length log ≤ length (take n log)
        → (o ∷ take n log ≡ o ∷ log) × (drop n log ≡ [])
    rest zero [] le = (refl, refl)
    rest zero (x ∷ log) le = absurd (omega arith)
    rest (suc n) [] le = (refl, refl)
    rest (suc n) (x ∷ log) le = let (t, d) = rest n log (omega arith) in (cc t, d)

pub length-drop_less :
    (n : ℕ) (log : List OpRecord)
    → n ≢ 0
    → (not (ltb (length (take n log)) (length log)) || no_ops (take n log)) ≡ false
    → length (drop n log) < length log
length-drop_less zero log h e = absurd (h refl)
length-drop_less (suc n) [] h e = cc
length-drop_less (suc n) (o ∷ log) h e = omega (arith, length-drop-le n log)
  where
    length-drop-le : (n : ℕ) (log : List OpRecord) → length (drop n log) ≤ length log
    length-drop-le zero log = omega arith
    length-drop-le (suc n) [] = omega arith
    length-drop-le (suc n) (o ∷ log) = omega (arith, length-drop-le n log)

pub IsAscending-drop :
    (k n : ℕ) (log : List OpRecord)
    → IsAscending k log
    → IsAscending (last_seq k (take n log)) (drop n log)
unfolding last_seq
IsAscending-drop k zero log h = h
IsAscending-drop k (suc n) [] h = tt
IsAscending-drop k (suc n) (o ∷ log) h = IsAscending-drop o.seq n log h.1
