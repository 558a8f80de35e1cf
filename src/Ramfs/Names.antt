-- ===== src/Ramfs/Names.antt =====
-- The operations on directories of kernel/fs/ramfs/ramfs.c. They return the new state, the result
-- and, for those with one, the number of the vnode that they store.
pub mod Entries
pub mod Links
pub mod Runs
pub mod Creates
pub mod Removes
pub mod Mounted
pub mod Counted
pub mod Found
use avengers.Prelude.{
  ℕ, suc, ◌+◌, ◌-◌, ◌*◌, ◌^◌, Bool, true, false, not, ◌&&◌, ◌||◌, Option, none, some, List, [], ◌∷◌,
  ◌==◌, if◌then◌else◌, set, take, Outcome, ok, panic, ◌>>=◌, ◌>>◌, kassert,
}
use avengers.Ramfs.{
  Entry, Content, Inode, Vnode, Ramfs, Memory, neg, enoent, enotdir, enospc, enotempty, s_ifchr,
  s_ifdir, s_ifblk, dirent_size, no_bytes, dot, dot_dot, new_dir, inode_at, set_inode, alloc_inode,
  vget, vput,
}

-- name_match: the characters are the same, and so are the lengths.
abbrev pub name_match : List ℕ → List ℕ → Bool
name_match [] [] = true
name_match [] (d ∷ ds) = false
name_match (c ∷ cs) [] = false
name_match (c ∷ cs) (d ∷ ds) = c == d && name_match cs ds

abbrev pub one_later : Option (ℕ × ℕ) → Option (ℕ × ℕ)
one_later none = none
one_later (some (i, ino)) = some (suc i, ino)

abbrev pub next_index : Option ℕ → Option ℕ
next_index none = none
next_index (some i) = some (suc i)

-- the index and the inode number of the first entry with a name
unfoldable pub find_named : List Entry → List ℕ → Option (ℕ × ℕ)
find_named [] name = none
find_named (e ∷ es) name =
    let rest = one_later (find_named es name) in
    if name_match e.name name then some (0, e.ino) else rest

abbrev pub is_free : Entry → Bool
is_free e = elim e.name [ [] ↦ true | c ∷ cs ↦ false ]

-- the search for space in a directory
unfoldable pub find_free : List Entry → Option ℕ
find_free [] = none
find_free (e ∷ es) = let rest = next_index (find_free es) in if is_free e then some 0 else rest

-- The entries that a vnode's inode holds; for anything but a directory the code reads its memory as
-- if it held entries.
abbrev pub entries_of : Option Inode → Outcome (List Entry)
entries_of none = panic
entries_of (some x) = elim x.content [
  | Content.bytes b ↦ panic
  | Content.entries es ↦ ok es
  | Content.chr d ↦ panic
  | Content.blk d ↦ panic
]

abbrev pub dir_entries : Ramfs → ℕ → Outcome (List Entry)
dir_entries s dir = entries_of (inode_at s dir)

looked_up : Ramfs → Option (ℕ × ℕ) → Outcome (Ramfs × ℕ × Option ℕ)
looked_up s none = ok (s, neg enoent, none)
looked_up s (some (i, ino)) = vget s ino >>= λ s'. ok (s', 0, some ino)

pub lookup : Ramfs → ℕ → List ℕ → Outcome (Ramfs × ℕ × Option ℕ)
unfolding looked_up find_named
lookup s dir name = dir_entries s dir >>= λ es. looked_up s (find_named es name)

-- strncpy of at most NAME_LEN - 1 characters, and the null byte after them
abbrev pub stored_name : List ℕ → List ℕ
stored_name name = take 27 name

-- An entry is set, and the size of its directory raised or lowered by one entry.
abbrev pub put_entry : Ramfs → ℕ → List Entry → ℕ → Entry → (ℕ → ℕ) → Ramfs
put_entry s dir es i e resize = elim (inode_at s dir) [
  | none ↦ s
  | some x ↦
      set_inode s dir
        (some (record x { content = Content.entries (set es i e); size = resize x.size }))
]

abbrev pub add_entry : Ramfs → ℕ → List Entry → ℕ → ℕ → List ℕ → Ramfs
add_entry s dir es i ino name =
    put_entry s dir es i (record { ino = ino; name = stored_name name }) (λ n. n + dirent_size)

-- The null byte at the start of a name frees its entry.
abbrev pub clear_entry : Ramfs → ℕ → List Entry → ℕ → ℕ → Ramfs
clear_entry s dir es i ino =
    put_entry s dir es i (record { ino = ino; name = [] }) (λ n. n - dirent_size)

abbrev pub change_links : Ramfs → ℕ → (ℕ → ℕ) → Ramfs
change_links s i f = elim (inode_at s i) [
  | none ↦ s
  | some x ↦ set_inode s i (some (record x { linkcount = f x.linkcount }))
]

-- What create, mknod, link and mkdir start with: no entry has the name, and the index of a free one.
abbrev pub is_absent : List Entry → List ℕ → Bool
is_absent es name = elim (find_named es name) [ none ↦ true | some p ↦ false ]

create_at : Memory → Ramfs → ℕ → List Entry → List ℕ → Option ℕ → Outcome (Ramfs × ℕ × Option ℕ)
create_at m s dir es name none = ok (s, neg enospc, none)
create_at m s dir es name (some i) = elim (alloc_inode m s no_bytes) [
  | none ↦ ok (s, neg enospc, none)
  | some (ino, s') ↦ vget s' ino >>= λ s''. ok (add_entry s'' dir es i ino name, 0, some ino)
]

pub create : Memory → Ramfs → ℕ → List ℕ → Outcome (Ramfs × ℕ × Option ℕ)
unfolding create_at find_free
create m s dir name = do
  es ← dir_entries s dir
  kassert (is_absent es name)
  create_at m s dir es name (find_free es)

-- the content of a special file: S_ISCHR and S_ISBLK of the mode
abbrev pub special : ℕ → ℕ → Option Content
special mode devid =
    if mode == s_ifchr
    then some (Content.chr devid)
    else if mode == s_ifblk
    then some (Content.blk devid)
    else none

-- A new inode enters its directory; mkdir has its entries set up at once.
abbrev pub enter_new :
    Ramfs → ℕ → List Entry → List ℕ → ℕ → Option (ℕ × Ramfs) → Outcome (Ramfs × ℕ)
enter_new s dir es name i none = ok (s, neg enospc)
enter_new s dir es name i (some (ino, s')) = ok (add_entry s' dir es i ino name, 0)

mknod_at :
    Memory → Ramfs → ℕ → List Entry → List ℕ → Option Content → Option ℕ → Outcome (Ramfs × ℕ)
mknod_at m s dir es name c none = ok (s, neg enospc)
mknod_at m s dir es name none (some i) = panic
mknod_at m s dir es name (some c) (some i) = enter_new s dir es name i (alloc_inode m s c)

pub mknod : Memory → Ramfs → ℕ → List ℕ → ℕ → ℕ → Outcome (Ramfs × ℕ)
unfolding mknod_at find_free
mknod m s dir name mode devid = do
  es ← dir_entries s dir
  kassert (is_absent es name)
  mknod_at m s dir es name (special mode devid) (find_free es)

link_at : Ramfs → ℕ → ℕ → List Entry → List ℕ → Option ℕ → Outcome (Ramfs × ℕ)
link_at s old dir es name none = ok (s, neg enospc)
link_at s old dir es name (some i) =
    ok (change_links (add_entry s dir es i old name) old (λ n. n + 1), 0)

pub link : Ramfs → ℕ → ℕ → List ℕ → Outcome (Ramfs × ℕ)
unfolding link_at find_free
link s old dir name = do
  es ← dir_entries s dir
  kassert (is_absent es name)
  link_at s old dir es name (find_free es)

-- The entry goes, and with it a link and the reference that the lookup has taken.
abbrev pub removed : Ramfs → ℕ → List Entry → ℕ → ℕ → Ramfs
removed s dir es i ino = change_links (clear_entry s dir es i ino) ino (λ n. n - 1)

unlink_at : Ramfs → ℕ → List Entry → Option (ℕ × ℕ) → Outcome (Ramfs × ℕ)
unlink_at s dir es none = panic
unlink_at s dir es (some (i, ino)) = do
  s' ← vget s ino
  kassert (not ((s'.vnode ino).mode == s_ifdir))
  s'' ← vput (removed s' dir es i ino) ino
  ok (s'', 0)

pub unlink : Ramfs → ℕ → List ℕ → Outcome (Ramfs × ℕ)
unfolding unlink_at
unlink s dir name = do es ← dir_entries s dir; unlink_at s dir es (find_named es name)

mkdir_at : Memory → Ramfs → ℕ → List Entry → List ℕ → Option ℕ → Outcome (Ramfs × ℕ)
mkdir_at m s dir es name none = ok (s, neg enospc)
mkdir_at m s dir es name (some i) = elim (alloc_inode m s (Content.entries [])) [
  | none ↦ ok (s, neg enospc)
  | some (ino, s') ↦ ok (
    set_inode (add_entry s' dir es i ino name) ino (
        some
          (record { size = 2 * dirent_size; ino = ino; content = new_dir ino dir; linkcount = 1 })),
    0,
  )
]

pub mkdir : Memory → Ramfs → ℕ → List ℕ → Outcome (Ramfs × ℕ)
unfolding mkdir_at find_free
mkdir m s dir name = do
  es ← dir_entries s dir
  kassert (is_absent es name)
  mkdir_at m s dir es name (find_free es)

-- a directory with no entries but "." and ".."
abbrev pub is_empty_dir : List Entry → Bool
is_empty_dir [] = true
is_empty_dir (e ∷ es) =
    (is_free e || (name_match e.name dot || name_match e.name dot_dot)) && is_empty_dir es

rmdir_child : Ramfs → ℕ → List Entry → ℕ → ℕ → List Entry → Outcome (Ramfs × ℕ)
rmdir_child s dir es i ino children =
    if is_empty_dir children
    then (vput (removed s dir es i ino) ino >>= λ s'. ok (s', 0))
    else vput s ino >>= λ s'. ok (s', neg enotempty)

rmdir_at : Ramfs → ℕ → List Entry → Option (ℕ × ℕ) → Outcome (Ramfs × ℕ)
unfolding rmdir_child
rmdir_at s dir es none = ok (s, neg enoent)
rmdir_at s dir es (some (i, ino)) = vget s ino >>= λ s'.
    if (s'.vnode ino).mode == s_ifdir
    then (dir_entries s' ino >>= λ children. rmdir_child s' dir es i ino children)
    else vput s' ino >>= λ s''. ok (s'', neg enotdir)

pub rmdir : Ramfs → ℕ → List ℕ → Outcome (Ramfs × ℕ)
unfolding rmdir_at
rmdir s dir name = do
  kassert (not (name_match dot name) && not (name_match dot_dot name))
  es ← dir_entries s dir
  rmdir_at s dir es (find_named es name)
