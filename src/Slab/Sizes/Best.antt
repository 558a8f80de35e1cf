-- ===== src/Slab/Sizes/Best.antt =====
-- `_calc_slab_size` of kernel/mm/slab.c finds the order that wastes least.
use avengers.Prelude.{ℕ, ◌+◌, ◌-◌, ◌%◌}
use avengers.Slab.Sizes.{block_bytes}

-- The bytes of a block that no object takes
abbrev pub left_over : ℕ → ℕ → ℕ
left_over objsize order = (block_bytes order - 16) % (objsize + 8)
