-- ===== src/Paths/Tests.antt =====
-- Runs of the system calls on paths on small file systems.
use avengers.Prelude.{
  ℕ, ◌+◌, ◌≡◌, refl, ◌⊎◌, true, false, Option, none, some, List, [], ◌∷◌, set, ok, given, arith,
}
use avengers.Namev.{neg, enotdir, no_parent, dir_namev, open_namev}
use avengers.Namev.OnRamfs.{ramfs_ops, ramfs_counts, open_steps, dir_namev-missing}
use avengers.Paths.{do_chdir, chdir_to}
use avengers.Paths.Kept.{do_chdir-refs}
use avengers.Paths.OnRamfs.{ramfs_dir_ops}
use avengers.Ramfs.{Ramfs, Memory, set_refcount}
use avengers.Ramfs.Names.{find_named}
use avengers.Ramfs.Names.Creates.{created}
use avengers.Ramfs.Names.Found.{lookup-hit, lookup-none}
use avengers.Ramfs.Names.Mounted.{mounted, root_entries}
use avengers.Ramfs.Refs.{vget-used, vput-used}

abbrev plenty : Memory
plenty = record { for_inode = true; for_page = true }

abbrev file_name : List ℕ
file_name = 97 ∷ []

abbrev with_file : Ramfs
with_file = created mounted 0 2 1 file_name root_entries

abbrev entered : Ramfs
entered = set_refcount with_file 0 2

abbrev looked : Ramfs
looked = set_refcount entered 1 2

abbrev left : Ramfs
left = set_refcount looked 0 1

opened_file :
    open_namev (ramfs_ops plenty) false 0 (some 0) none with_file (47 ∷ file_name)
    ≡ ok (left, 0, some 1)
unfolding find_named
opened_file =
    open_steps plenty false with_file entered looked left (some 0) none 1 file_name refl refl
      (vget-used with_file 0 (omega arith)) refl
      (lookup-hit entered 0 2 1 (set root_entries 2 (record { ino = 1; name = file_name }))
        file_name refl refl (omega arith))
      (vput-used looked 0 (omega arith))

refused :
    do_chdir (ramfs_dir_ops plenty) 0 (some 0) with_file (47 ∷ file_name)
    ≡ ok (set_refcount left 1 1, neg enotdir, some 0)
unfolding do_chdir chdir_to ramfs_ops
refused = ground (arith, opened_file, vput-used left 1 (omega arith))

do_chdir-refs_example :
    (leak : Option ℕ) × ((j : ℕ)
      → ((set_refcount left 1 1).vnode j).refcount + given (some 0) j
        ≡ (with_file.vnode j).refcount + given (some 0) j + given leak j)
    × ((leak ≡ none) ⊎ (neg enotdir ≡ neg enotdir))
unfolding ramfs_counts
do_chdir-refs_example =
    do_chdir-refs (ramfs_dir_ops plenty) (ramfs_counts plenty) 0 (neg enotdir) (some 0) (some 0)
      with_file (set_refcount left 1 1) (47 ∷ file_name) refused

-- "a/b", of which there is no "a"
abbrev missing : List ℕ
missing = 97 ∷ 47 ∷ 98 ∷ []

no_such_dir :
    dir_namev (ramfs_ops plenty) 0 (some 0) none mounted (47 ∷ missing)
    ≡ ok (set_refcount (set_refcount mounted 0 2) 0 1, neg 2, no_parent)
unfolding find_named
no_such_dir =
    dir_namev-missing plenty mounted (set_refcount mounted 0 2)
      (set_refcount (set_refcount mounted 0 2) 0 1) (some 0) none missing (47 ∷ 98 ∷ []) [] 98 refl
      refl (vget-used mounted 0 (omega arith)) refl
      (lookup-none (set_refcount mounted 0 2) 0 root_entries file_name refl refl)
      (vput-used (set_refcount mounted 0 2) 0 (omega arith))
