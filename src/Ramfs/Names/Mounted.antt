-- ===== src/Ramfs/Names/Mounted.antt =====
-- The state that ramfs_mount of kernel/fs/ramfs/ramfs.c leaves.
use avengers.Prelude.{
  ℕ, zero, suc, ◌+◌, ◌<◌, ◌≡◌, refl, ap, true, Option, none, some, List, [], ◌∷◌, ◌==◌,
  if◌then◌else◌, get_elem?, replicate, ok, arith,
}
use avengers.Ramfs.{
  Entry, Content, Inode, Ramfs, Memory, max_files, inode_at, set_inode, set_vnode, vget,
  alloc_inode, dot, dot_dot, free_entry, mount, mount_root, no_inodes, read_vnode, fresh_inode,
}
use avengers.Ramfs.Names.Links.{
  links, links_of, linkcount_of, IsEmptied, IsCounted, nothing, IsLinked, links_changed,
  inode_at_changed, set_inode-IsCounted,
}
use avengers.Ramfs.Names.Runs.{one, IsDir}
use avengers.Ramfs.Refs.{vget-IsCounted}

-- what a place of the table holds
entry_of : Option (Option Inode) → Option Inode
entry_of none = none
entry_of (some o) = o

none-replicate : (n j : ℕ) → entry_of (get_elem? (replicate n none) j) ≡ none
unfolding entry_of
none-replicate zero j = refl
none-replicate (suc n) zero = refl
none-replicate (suc n) (suc j) = none-replicate n j

links-replicate : (n j : ℕ) → links j (replicate n none) ≡ 0
links-replicate zero j = refl
links-replicate (suc n) j = omega (arith, links-replicate n j)

inode_at-no_inodes : (j : ℕ) → inode_at no_inodes j ≡ none
unfolding entry_of
inode_at-no_inodes j = ground (arith, none-replicate 64 j)

-- The count of the root is owed one link, from the start.
no_inodes-IsCounted : IsCounted (one 0) nothing no_inodes
no_inodes-IsCounted = record {
  sized = refl;
  counted = λ j. ground (arith, links-replicate 64 j, ap linkcount_of (inode_at-no_inodes j));
  alive = λ j y h. absurd (ground (arith, inode_at-no_inodes j));
  numbered = λ j y h. absurd (ground (arith, inode_at-no_inodes j));
  emptied = λ j k y h z p. absurd (ground (arith, inode_at-no_inodes j));
}

-- The root may change to an inode that gives no links.
root-IsCounted :
    (owed : ℕ → ℕ) (s : Ramfs) (x : Inode)
    → IsCounted owed nothing s
    → ((k : ℕ) → links_of k (inode_at s 0) ≡ 0)
    → ((k : ℕ) → links_of k (some x) ≡ 0)
    → x.linkcount ≡ 1
    → x.ino ≡ 0
    → ((j : ℕ)
        → (if 0 == j then 1 else linkcount_of (inode_at s j))
          ≡ linkcount_of (inode_at s j) + owed j)
    → IsLinked (set_inode s 0 (some x))
root-IsCounted owed s x v was bare l n shift =
    set_inode-IsCounted s s' 0 (some x) v small refl nothing nothing emptied
      (λ j. ground (arith, bare j, was j, shift j)) (λ y h. ground arith)
  where
    s' : Ramfs
    s' = set_inode s 0 (some x)

    small : 0 < max_files
    small = omega arith

    emptied : IsEmptied s'
    emptied j k y h z p =
        v.emptied j k y (ground (arith, inode_at_changed s s' 0 (some x) v small refl j))
          (omega (arith, links_changed s s' 0 (some x) v small refl j, bare j, was j)) p

abbrev pub root_entries : List Entry
root_entries =
    record { ino = 0; name = dot } ∷ record { ino = 0; name = dot_dot } ∷ replicate 126 free_entry

abbrev pub root : Inode
root = record { size = 64; ino = 0; content = Content.entries root_entries; linkcount = 1 }

abbrev rooted : Ramfs
rooted = set_inode (set_inode no_inodes 0 (some (fresh_inode 0 (Content.entries [])))) 0 (some root)

-- an empty root directory whose vnode is in use
abbrev pub mounted : Ramfs
mounted =
    set_vnode (set_inode rooted 0 (some (record root { linkcount = 2 }))) 0
      (record { refcount = 1; mode = 0x200; len = 64; devid = 0 })

-- ramfs_mount, when there is memory, returns 0 with the file system of an empty root directory, in
-- which the link counts are right.
pub mount-IsLinked :
    (m : Memory)
    → m.for_inode ≡ true
    → m.for_page ≡ true
    → (mount true m ≡ ok (0, some mounted)) × IsLinked mounted × IsDir mounted 0 root_entries
unfolding mount mount_root alloc_inode vget read_vnode
mount-IsLinked m room page = (
  ground arith,
  vget-IsCounted rooted mounted 0 v2 refl,
  record { node = record root { linkcount = 2 }; at = refl; holds = refl; attached = ground arith },
)
  where
    s1 : Ramfs
    s1 = set_inode no_inodes 0 (some (fresh_inode 0 (Content.entries [])))

    v1 : IsLinked s1
    v1 =
        root-IsCounted (one 0) no_inodes (fresh_inode 0 (Content.entries [])) no_inodes-IsCounted
          (λ k. refl) (λ k. refl) refl refl
          (λ j. ground (arith, ap linkcount_of (inode_at-no_inodes j)))

    v2 : IsLinked rooted
    v2 = root-IsCounted nothing s1 root v1 (λ k. refl) (λ k. refl) refl refl (λ j. ground arith)
