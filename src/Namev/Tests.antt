-- ===== src/Namev/Tests.antt =====
-- Runs of the path walk on small file systems.
use avengers.Prelude.{
  ℕ, ◌+◌, ◌≡◌, refl, ◌⊎◌, true, false, Option, none, some, List, [], ◌∷◌, set, ok, ◌>>=◌, given,
  arith,
}
use avengers.Namev.{neg, enotdir, failed, start_of, vget_dir, dir_namev, open_namev}
use avengers.Namev.Parts.{parts, named, resolve, dir_namev-resolve}
use avengers.Namev.Refs.{open_namev-refs}
use avengers.Namev.OnRamfs.{ramfs_ops, ramfs_counts, open_steps, open_namev-create}
use avengers.Ramfs.{Entry, Ramfs, Memory, Content, set_refcount, set_inode, free_inode}
use avengers.Ramfs.Names
use avengers.Ramfs.Names.{find_named, find_free}
use avengers.Ramfs.Names.Creates.{created}
use avengers.Ramfs.Names.Found.{lookup-hit}
use avengers.Ramfs.Names.Mounted.{mounted, root_entries, mount-IsLinked}
use avengers.Ramfs.Refs.{vget-used, vput-used}

abbrev plenty : Memory
plenty = record { for_inode = true; for_page = true }

abbrev file_name : List ℕ
file_name = 97 ∷ []

abbrev path : List ℕ
path = 47 ∷ 97 ∷ []

-- "//a/b"
abbrev long_path : List ℕ
long_path = 47 ∷ 47 ∷ 97 ∷ 47 ∷ 98 ∷ []

dir_namev-resolve_example :
    (dir_namev (ramfs_ops plenty) 0 none none mounted long_path >>= named (ramfs_ops plenty)) ≡ (
      vget_dir (ramfs_ops plenty) mounted (start_of (ramfs_ops plenty) 0 none none long_path).0
      >>= λ s'.
          resolve
            (ramfs_ops plenty)
            s'
            (start_of (ramfs_ops plenty) 0 none none long_path).0
            (parts false (start_of (ramfs_ops plenty) 0 none none long_path).1))
dir_namev-resolve_example = dir_namev-resolve (ramfs_ops plenty) 0 none none mounted long_path

open_namev-create_example :
    (s' s'' : Ramfs) × (Names.create plenty mounted 0 file_name ≡ ok (s', 0, some 1))
    × (open_namev (ramfs_ops plenty) false 0 none none s' path ≡ ok (s'', 0, some 1))
unfolding find_named find_free free_inode
open_namev-create_example =
    open_namev-create plenty mounted false none none 2 1 file_name root_entries
      (mount-IsLinked plenty refl refl).1
      (record { node = _; at = refl; holds = refl; attached = omega arith }) refl refl refl refl
      (omega arith) refl refl refl (omega arith)

abbrev with_file : Ramfs
with_file = created mounted 0 2 1 file_name root_entries

abbrev entered : Ramfs
entered = set_refcount with_file 0 2

abbrev looked : Ramfs
looked = set_refcount entered 1 2

abbrev left : Ramfs
left = set_refcount looked 0 1

opened_file : open_namev (ramfs_ops plenty) false 0 none none with_file path ≡ ok (left, 0, some 1)
unfolding find_named
opened_file =
    open_steps plenty false with_file entered looked left none none 1 file_name refl refl
      (vget-used with_file 0 (omega arith)) refl
      (lookup-hit entered 0 2 1 (set root_entries 2 (record { ino = 1; name = file_name }))
        file_name refl refl (omega arith))
      (vput-used looked 0 (omega arith))

open_namev-refs_example :
    (leak : Option ℕ) × ((j : ℕ)
      → (left.vnode j).refcount ≡ (with_file.vnode j).refcount + given (some 1) j + given leak j)
    × ((leak ≡ none) ⊎ (0 ≡ neg enotdir))
    × (failed 0 ≡ true → ◌≡◌ {A = Option ℕ} (some 1) none)
unfolding ramfs_counts
open_namev-refs_example =
    open_namev-refs (ramfs_ops plenty) (ramfs_counts plenty) false 0 0 none none with_file left path
      (some 1) opened_file

-- the entry of a removed file
abbrev stale_entries : List Entry
stale_entries = set root_entries 2 (record { ino = 1; name = [] })

abbrev stale : Ramfs
stale =
    set_inode mounted 0
      (some (record { size = 64; ino = 0; content = Content.entries stale_entries; linkcount = 2 }))
