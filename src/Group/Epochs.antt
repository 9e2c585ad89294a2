-- ===== src/Group/Epochs.antt =====
-- `_EpochManager` of gfc/group.py.
use group_free_collectives.Base.{
  ℕ, zero, suc, ◌+◌, ◌≡◌, arith, none, some, List, [], ◌∷◌, ◌==◌, if◌then◌else◌, lookup, insert, ap,
  ◌∙◌, false, ==_refl,
}

abbrev pub Epochs : Type 0
Epochs = List (ℕ × ℕ)

-- `peek`, and `self._epochs.get(gid, 0)` of the other methods.
unfoldable pub peek : ℕ → Epochs → ℕ
peek gid epochs = elim (lookup gid epochs) [ none ↦ 0 | some e ↦ e ]

-- `next_for_barrier`: the epoch issued, and the counters after.
unfoldable pub next_for_barrier : ℕ → Epochs → ℕ × Epochs
unfolding peek
next_for_barrier gid epochs = let e = peek gid epochs in (e, insert gid (e + 1) epochs)

-- `next_pair_for_collective`.
unfoldable pub next_pair_for_collective : ℕ → Epochs → (ℕ × ℕ) × Epochs
unfolding peek
next_pair_for_collective gid epochs =
    let e = peek gid epochs in ((e, e + 1), insert gid (e + 2) epochs)

-- `next_for_barrier`, `count` times.
unfoldable pub next_many : ℕ → ℕ → Epochs → List ℕ × Epochs
unfolding next_for_barrier
next_many zero gid epochs = ([], epochs)
next_many (suc count) gid epochs =
    let (e, after) = next_for_barrier gid epochs in
    let (es, last) = next_many count gid after in (e ∷ es, last)

pub peek-insert :
    (gid other e : ℕ) (epochs : Epochs)
    → peek other (insert gid e epochs) ≡ (if gid == other then e else peek other epochs)
unfolding peek lookup insert
peek-insert gid other e epochs = ground arith

pub peek-insert_same : (gid e : ℕ) (epochs : Epochs) → peek gid (insert gid e epochs) ≡ e
peek-insert_same gid e epochs =
    peek-insert gid gid e epochs ∙ ap (λ b. if b then e else peek gid epochs) (==_refl gid)

pub peek-insert_other :
    (gid other e : ℕ) (epochs : Epochs)
    → (gid == other) ≡ false
    → peek other (insert gid e epochs) ≡ peek other epochs
peek-insert_other gid other e epochs h =
    peek-insert gid other e epochs ∙ ap (λ b. if b then e else peek other epochs) h
