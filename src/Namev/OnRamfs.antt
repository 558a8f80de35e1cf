-- ===== src/Namev/OnRamfs.antt =====
-- The path walk of kernel/fs/namev.c on the RAM file system of kernel/fs/ramfs/ramfs.c.
use avengers.Prelude.{
  ℕ, ◌+◌, ◌-◌, ◌<◌, ◌≤◌, ◌≡◌, ap, ◌∙◌, Bool, true, false, Option, none, some, List, [], ◌∷◌, ◌==◌,
  length, set, ok, panic, arith,
}
use avengers.Namev.{
  VnodeOps, no_parent, at_slash, before_slash, skip_slashes, after_lookup, found_dir, walk, enter,
  lookup, start_of, vget_dir, dir_namev, open_namev, open_parent, open_in, opened,
}
use avengers.Namev.Refs.{Counts}
use avengers.Namev.Parts.{take-whole, take-before}
use avengers.Ramfs.{
  Entry, Content, Inode, Vnode, Ramfs, Memory, has_room, free_inode, s_ifdir, neg, inode_at,
  no_bytes, set_refcount,
}
use avengers.Ramfs
use avengers.Ramfs.Names
use avengers.Ramfs.Names.{find_named, find_free, is_absent, dir_entries}
use avengers.Ramfs.Names.Links.{IsLinked}
use avengers.Ramfs.Names.Runs.{IsDir}
use avengers.Ramfs.Names.Creates.{created, create-runs}
use avengers.Ramfs.Names.Found.{is_name, lookup-hit, lookup-missing, created-found, created-dir}
use avengers.Ramfs.Names.Counted.{
  refs_of, vref-refs, vget-refs, vput-refs, lookup-refs, create-refs,
}
use avengers.Ramfs.Refs.{vget-used, vput-used, vget-missing}

-- The operations of the RAM file system.
unfoldable pub ramfs_ops : Memory → VnodeOps Ramfs
ramfs_ops m = record {
  is_dir = λ s i. (s.vnode i).mode == s_ifdir;
  vref = Ramfs.vref;
  vget = Ramfs.vget;
  vput = Ramfs.vput;
  find = Names.lookup;
  create = Names.create m;
}

-- They count the references of vnodes as the walk relies on.
unfoldable pub ramfs_counts : (m : Memory) → Counts (ramfs_ops m)
unfolding ramfs_ops
ramfs_counts m = record {
  refs = refs_of;
  vref-refs = vref-refs;
  vget-refs = vget-refs;
  vput-refs = vput-refs;
  find-refs = λ s s' d ret j name r e. (lookup-refs s s' d ret j name r e).0;
  find-failed = λ s s' d ret name r e. (lookup-refs s s' d ret 0 name r e).1;
  create-refs = λ s s' d ret j name r e. (create-refs m s s' d ret j name r e).0;
  create-failed = λ s s' d ret name r e. (create-refs m s s' d ret 0 name r e).1;
}

pub open_steps :
    (m : Memory) (creat : Bool) (s s1 s2 s3 : Ramfs) (cwd base : Option ℕ) (ino : ℕ) (name : List ℕ)
    → at_slash name ≡ none
    → is_name name ≡ true
    → Ramfs.vget s 0 ≡ ok s1
    → (s1.vnode 0).mode ≡ s_ifdir
    → Names.lookup s1 0 name ≡ ok (s2, 0, some ino)
    → Ramfs.vput s2 0 ≡ ok s3
    → open_namev (ramfs_ops m) creat 0 cwd base s (47 ∷ name) ≡ ok (s3, 0, some ino)
unfolding ramfs_ops open_namev open_parent open_in opened dir_namev walk enter lookup start_of
    vget_dir
open_steps m creat s s1 s2 s3 cwd base ino [] one n e1 dir e2 e3 = cc
open_steps m creat s s1 s2 s3 cwd base ino (c ∷ cs) one n e1 dir e2 e3 =
    ground (arith, take-whole (c ∷ cs))

-- One name below the root that leads to a vnode in use.
open_one :
    (m : Memory) (creat : Bool) (s : Ramfs) (cwd base : Option ℕ) (i ino : ℕ) (name : List ℕ)
    (es : List Entry)
    → 0 < (s.vnode 0).refcount
    → (s.vnode 0).mode ≡ s_ifdir
    → dir_entries s 0 ≡ ok es
    → find_named es name ≡ some (i, ino)
    → 0 < (s.vnode ino).refcount
    → at_slash name ≡ none
    → is_name name ≡ true
    → (s' : Ramfs) × (open_namev (ramfs_ops m) creat 0 cwd base s (47 ∷ name)
        ≡ ok (s', 0, some ino))
open_one m creat s cwd base i ino name es held dir d found used one n =
    (s3, open_steps m creat s s1 s2 s3 cwd base ino name one n enter_root (ground arith) look leave)
  where
    s1 : Ramfs
    s1 = set_refcount s 0 ((s.vnode 0).refcount + 1)

    s2 : Ramfs
    s2 = set_refcount s1 ino ((s1.vnode ino).refcount + 1)

    s3 : Ramfs
    s3 = set_refcount s2 0 ((s2.vnode 0).refcount - 1)

    enter_root : Ramfs.vget s 0 ≡ ok s1
    enter_root = vget-used s 0 held

    look : Names.lookup s1 0 name ≡ ok (s2, 0, some ino)
    look = lookup-hit s1 0 i ino es name d found (ground arith)

    leave : Ramfs.vput s2 0 ≡ ok s3
    leave = vput-used s2 0 (ground arith)

-- After ramfs_create in the root directory, whose vnode is in use, of a name of 1 to 27 characters
-- without a slash that it did not have, with a free place, a free inode and memory, open_namev of "/"
-- and that name returns 0 and stores the new vnode.
pub open_namev-create :
    (m : Memory) (s : Ramfs) (creat : Bool) (cwd base : Option ℕ) (i ino : ℕ) (name : List ℕ)
    (es : List Entry)
    → IsLinked s
    → IsDir s 0 es
    → is_absent es name ≡ true
    → find_free es ≡ some i
    → free_inode s.inodes ≡ some ino
    → has_room m no_bytes ≡ true
    → 0 < (s.vnode 0).refcount
    → (s.vnode 0).mode ≡ s_ifdir
    → at_slash name ≡ none
    → is_name name ≡ true
    → length name ≤ 27
    → (s' s'' : Ramfs) × (Names.create m s 0 name ≡ ok (s', 0, some ino))
      × (open_namev (ramfs_ops m) creat 0 cwd base s' (47 ∷ name) ≡ ok (s'', 0, some ino))
open_namev-create m s creat cwd base i ino name es v d absent free empty room held dir one n short =
    let s' = created s 0 i ino name es in
    let (used, now, found) = created-found s 0 i ino name es v d absent free empty n short in
    let root = created-dir s 0 i ino name es v d empty in
    let (s'', run) =
      open_one m creat s' cwd base i ino name (set es i (record { ino = ino; name = name }))
        (ground (arith, held, ap (λ w. w.refcount) root)) (ap (λ w. w.mode) root ∙ dir) now found
        used one n in
    (s', s'', create-runs m s 0 i ino name es v d absent free empty room, run)

-- A path below the root whose first name, followed by another, is not there.
pub dir_namev-missing :
    (m : Memory) (s s1 s2 : Ramfs) (cwd base : Option ℕ) (start slashes cs : List ℕ) (c : ℕ)
    → at_slash start ≡ some slashes
    → skip_slashes slashes ≡ c ∷ cs
    → Ramfs.vget s 0 ≡ ok s1
    → (s1.vnode 0).mode ≡ s_ifdir
    → Names.lookup s1 0 (before_slash start) ≡ ok (s1, neg 2, none)
    → Ramfs.vput s1 0 ≡ ok s2
    → dir_namev (ramfs_ops m) 0 cwd base s (47 ∷ start) ≡ ok (s2, neg 2, no_parent)
unfolding ramfs_ops dir_namev walk enter lookup start_of vget_dir after_lookup found_dir
dir_namev-missing m s s1 s2 cwd base [] slashes cs c a k e1 dir e2 e3 = cc
dir_namev-missing m s s1 s2 cwd base (x ∷ xs) slashes cs c a k e1 dir e2 e3 =
    ground (arith, take-before (x ∷ xs))

-- A path that starts with two slashes has an empty first name, which an entry without a name matches:
-- when the first such entry of the root directory, whose vnode is in use, still has the number of an
-- inode that is gone and has no vnode, dir_namev fails an assertion.
pub dir_namev_double_slash :
    (m : Memory) (s : Ramfs) (cwd base : Option ℕ) (i ino c : ℕ) (rest : List ℕ) (es : List Entry)
    → 0 < (s.vnode 0).refcount
    → (s.vnode 0).mode ≡ s_ifdir
    → dir_entries s 0 ≡ ok es
    → find_named es [] ≡ some (i, ino)
    → inode_at s ino ≡ none
    → (s.vnode ino).refcount ≡ 0
    → c == 47 ≡ false
    → dir_namev (ramfs_ops m) 0 cwd base s (47 ∷ 47 ∷ c ∷ rest) ≡ panic
unfolding ramfs_ops dir_namev walk enter lookup start_of vget_dir
dir_namev_double_slash m s cwd base i ino c rest es held dir d found gone unused n =
    ground (arith, vget-used s 0 held, miss)
  where
    s1 : Ramfs
    s1 = set_refcount s 0 ((s.vnode 0).refcount + 1)

    miss : Names.lookup s1 0 [] ≡ panic
    miss = lookup-missing s1 0 i ino es [] d found (vget-missing s1 ino (ground arith) gone)
