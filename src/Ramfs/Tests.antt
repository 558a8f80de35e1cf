-- ===== src/Ramfs/Tests.antt =====
-- Runs of the RAM file system on small states.
use avengers.Prelude.{
  ℕ, ◌≡◌, ◌<◌, refl, ◌⊎◌, true, false, some, List, [], ◌∷◌, min, set, length, ok, arith, replicate,
  ◌≤◌, ◌-◌, ◌+◌,
}
use avengers.Ramfs.{
  Entry, Content, Inode, dirent_size, inode_at, free_inode, Ramfs, Memory, page_size, no_bytes, dot,
  dot_dot, free_entry,
}
use avengers.Ramfs.Names.{create, lookup, unlink, find_named, find_free, dir_entries, name_match}
use avengers.Ramfs.Names.Links.{IsLinked}
use avengers.Ramfs.Names.Runs.{IsDir}
use avengers.Ramfs.Names.Mounted.{mounted, root_entries, mount-IsLinked}
use avengers.Ramfs.Names.Creates.{created, made, create-IsLinked, mkdir-IsLinked}
use avengers.Ramfs.Names.Removes.{unlink-IsLinked}
use avengers.Ramfs.Names.Found.{is_name, create-lookup}
use avengers.Ramfs.Data.{read, write, bytes_at}
use avengers.Ramfs.Data.Bytes.{IsFile, write-read}
use avengers.Ramfs.Data.Listing.{list_from, used_entries, list_from-used}

abbrev plenty : Memory
plenty = record { for_inode = true; for_page = true }

abbrev file_name : List ℕ
file_name = 97 ∷ []

abbrev other_name : List ℕ
other_name = 98 ∷ []

abbrev long_name : List ℕ
long_name = replicate 28 97

mounted-IsLinked : IsLinked mounted
mounted-IsLinked = (mount-IsLinked plenty refl refl).1

mounted-IsDir : IsDir mounted 0 root_entries
mounted-IsDir = record { node = _; at = refl; holds = refl; attached = omega arith }

abbrev with_file : Ramfs
with_file = created mounted 0 2 1 file_name root_entries

abbrev file_entries : List Entry
file_entries = set root_entries 2 (record { ino = 1; name = file_name })

create-IsLinked_example :
    (create plenty mounted 0 file_name ≡ ok (with_file, 0, some 1)) × IsLinked with_file
unfolding find_named find_free free_inode
create-IsLinked_example =
    create-IsLinked plenty mounted 0 2 1 file_name root_entries mounted-IsLinked mounted-IsDir refl
      refl refl refl refl

create-lookup_example :
    (s' s'' : Ramfs) × (es' : List Entry) × (create plenty mounted 0 file_name ≡ ok (s', 0, some 1))
    × (lookup s' 0 file_name ≡ ok (s'', 0, some 1))
    × (dir_entries s' 0 ≡ ok es')
    × ((other : List ℕ)
        → is_name other ≡ true
        → name_match file_name other ≡ false
        → find_named es' other ≡ find_named root_entries other)
unfolding find_named find_free free_inode
create-lookup_example =
    create-lookup plenty mounted 0 2 1 file_name root_entries mounted-IsLinked mounted-IsDir refl
      refl refl refl refl (omega arith)

with_file-IsLinked : IsLinked with_file
unfolding find_named find_free free_inode
with_file-IsLinked =
    (create-IsLinked plenty mounted 0 2 1 file_name root_entries mounted-IsLinked mounted-IsDir refl
      refl refl refl refl).1

with_file-IsDir : IsDir with_file 0 file_entries
with_file-IsDir = record { node = _; at = refl; holds = refl; attached = omega arith }

unlink-IsLinked_example :
    (s' : Ramfs) × (unlink with_file 0 file_name ≡ ok (s', 0))
    × IsLinked s'
    × (x : Inode) × (inode_at s' 0 ≡ some x)
    × (x.content ≡ Content.entries (set file_entries 2 (record { ino = 1; name = [] })))
    × (x.size ≡ with_file-IsDir.node.size - dirent_size)
    × ((s'.vnode 1).refcount ≡ (with_file.vnode 1).refcount)
unfolding find_named
unlink-IsLinked_example =
    unlink-IsLinked with_file 0 2 1 file_name file_entries
      (record { size = 0; ino = 1; content = no_bytes; linkcount = 2 }) with_file-IsLinked
      with_file-IsDir refl refl refl refl (λ h. refl)

abbrev with_dir : Ramfs
with_dir = made mounted 0 2 1 other_name root_entries

abbrev with_dir_entries : List Entry
with_dir_entries = set root_entries 2 (record { ino = 1; name = other_name })

abbrev children : List Entry
children =
    record { ino = 1; name = dot } ∷ record { ino = 0; name = dot_dot } ∷ replicate 126 free_entry

with_dir-IsLinked : IsLinked with_dir
unfolding find_named find_free free_inode
with_dir-IsLinked =
    (mkdir-IsLinked plenty mounted 0 2 1 other_name root_entries mounted-IsLinked mounted-IsDir refl
      refl refl refl refl).1

abbrev text : ℕ → ℕ
text j = 97 + j

write-read_example :
    (s' : Ramfs) × (b' : ℕ → ℕ) × (write with_file 1 4090 text 10
      ≡ ok (s', min 10 (page_size - 4090)))
    × (read s' 1 4090 10 ≡ ok (bytes_at text 0 (min 10 (page_size - 4090))))
    × ((j : ℕ) → (j < 4090) ⊎ (4090 + 10 ≤ j) → b' j ≡ 0)
    × IsFile s' 1 b'
write-read_example =
    write-read with_file 1 4090 10 (λ j. 0) text
      (record { node = _; at = refl; holds = refl; mode = refl; len = refl; small = omega arith })
      (omega arith) (omega arith)

list_from-used_example :
    list_from (length file_entries + 1) with_file 0 0 ≡ ok (used_entries file_entries)
list_from-used_example = list_from-used with_file 0 file_entries refl refl
