-- ===== src/Group.antt =====
-- gfc/group.py: group descriptors and the epoch counters. `ranks_dev`, the device rank list, is
-- the list that it was filled with, `none` where there is none; a local index of -1 is `none`.
pub mod Epochs
use group_free_collectives.Base.{
  ℕ, Bool, true, false, ◌&&◌, Option, none, some, List, length, ltb, ◌==◌, Outcome, require, ◌>>◌,
}

pub record GroupDescriptor : Type 0 where
  pub group_id : ℕ
  pub ranks : List ℕ
  pub local_index : Option ℕ
  pub size : ℕ
  pub ranks_dev : Option (List ℕ)

-- `-1 <= self.local_index < self.size`.
abbrev pub index_in_range : Option ℕ → ℕ → Bool
index_in_range none size = true
index_in_range (some i) size = ltb i size

-- `__post_init__`.
unfoldable pub descriptor_check : GroupDescriptor → Outcome (Unit {0})
descriptor_check d = do
  require (d.size == length d.ranks)
  require (index_in_range d.local_index d.size)
  require (index_in_range d.local_index (length d.ranks))

abbrev pub is_member : GroupDescriptor → Bool
is_member d = elim d.local_index [ none ↦ false | some i ↦ true ]

-- The local index of a member.
abbrev pub index_of_self : GroupDescriptor → ℕ
index_of_self d = elim d.local_index [ none ↦ 0 | some i ↦ i ]
