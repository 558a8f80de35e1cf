-- ===== src/Syscalls/Tests.antt =====
-- Runs of the system calls of kernel/fs/vfs_syscall.c, and the theorems at concrete inputs.
use avengers.Prelude.{
  ℕ, zero, suc, ◌+◌, ◌≡◌, refl, Option, none, some, List, [], ◌∷◌, ◌==◌, if◌then◌else◌, ok, arith,
  get_elem?, set, ◌<◌,
}
use avengers.Files.{Vnode, Table, Slab, get_empty_fd, empty_from}
use avengers.Files.Valid.{IsValid, recounted}
use avengers.Syscalls.{VnodeOps, do_read, do_close, do_dup}
use avengers.Syscalls.Refs.{do_close-IsValid, do_dup-IsValid}
use avengers.Syscalls.Leaks.{do_read_leaks_at_end}

abbrev copies : Option ℕ → ℕ → List (Option ℕ)
copies o zero = []
copies o (suc n) = o ∷ copies o n

abbrev no_slab : Slab
no_slab n = none

-- no references from elsewhere
abbrev nobody : ℕ → ℕ
nobody f = 0

-- Vnode 7 is a regular file of 5 bytes, vnode 8 a directory.
abbrev vnodes : ℕ → Vnode
vnodes w =
    if w == 8
    then record { vn_mode = 0x200; vn_len = 0 }
    else record { vn_mode = 0x800; vn_len = 5 }

abbrev ops : VnodeOps
ops = record { read = λ w pos n. if pos == 5 then 0 else n; write = λ w pos n. (n, pos + n) }

-- One file, 100, at an offset, open for reading and writing on a vnode, that `n` descriptors share.
abbrev table : ℕ → ℕ → ℕ → List (Option ℕ) → Table
table w n pos fds = record {
  file = λ f.
      if f == 100
      then record { pos = pos; mode = 3; refcount = n; vnode = some w }
      else record { pos = 0; mode = 0; refcount = 0; vnode = none };
  fds = fds;
  vnode = vnodes;
  allocs = 0;
  vputs = [];
  freed = [];
}

abbrev one : ℕ → ℕ → Table
one w pos = table w 1 pos (some 100 ∷ copies none 31)

one-IsValid : (w pos : ℕ) → pos < 0x1000 → IsValid nobody (one w pos)
one-IsValid w pos b = record {
  sized = refl;
  counted = λ f. ground arith;
  bounded = λ f. omega arith;
  in_use = λ f p. record {
    mode_lt = ground arith;
    pos_fits = ground (arith, b);
    node = w;
    has_vnode = ground arith;
  };
}

abbrev full : Table
full = table 7 32 0 (copies (some 100) 32)

full-IsValid : IsValid nobody full
full-IsValid = record {
  sized = refl;
  counted = λ f. ground arith;
  bounded = λ f. omega arith;
  in_use = λ f p. record {
    mode_lt = ground arith;
    pos_fits = ground arith;
    node = 7;
    has_vnode = ground arith;
  };
}

do_close-IsValid_example :
    (t' : Table) × (do_close no_slab (one 7 0) 0 ≡ ok (t', 0))
    × IsValid nobody t'
    × (t'.fds ≡ copies none 32)
    × (t'.freed ≡ 100 ∷ [])
do_close-IsValid_example =
    do_close-IsValid no_slab nobody (one 7 0) 0 100 (one-IsValid 7 0 (omega arith)) refl

do_dup-IsValid_example :
    (t' : Table) × (do_dup no_slab (one 7 0) 0 ≡ ok (t', get_empty_fd (one 7 0)))
    × IsValid nobody t'
    × (get_elem? (one 7 0).fds (get_empty_fd (one 7 0)) ≡ some none)
    × ((j : ℕ) → j < get_empty_fd (one 7 0) → (g : ℕ) × (get_elem? (one 7 0).fds j ≡ some (some g)))
    × (t'.fds ≡ set (one 7 0).fds (get_empty_fd (one 7 0)) (some 100))
unfolding get_empty_fd empty_from
do_dup-IsValid_example =
    do_dup-IsValid no_slab nobody (one 7 0) 0 100 (one-IsValid 7 0 (omega arith)) refl refl
      (λ e. omega (arith, e))

do_read_leaks_at_end_example :
    do_read ops no_slab (one 7 5) 0 10 ≡ ok (recounted (one 7 5) 100 2, 0)
do_read_leaks_at_end_example =
    do_read_leaks_at_end ops no_slab nobody (one 7 5) 0 100 7 10 (one-IsValid 7 5 (omega arith))
      refl refl refl refl refl
