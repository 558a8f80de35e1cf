-- ===== src/Ramfs/Data.antt =====
-- The bytes of a file, the listing of a directory and the status of an inode: ramfs_read,
-- ramfs_write, ramfs_readdir, ramfs_stat and ramfs_query_vnode of kernel/fs/ramfs/ramfs.c.
pub mod Bytes
pub mod Listing
use avengers.Prelude.{
  ℕ, zero, suc, ◌+◌, ◌-◌, ◌*◌, ◌/◌, ◌%◌, ◌^◌, min, Bool, true, false, not, ◌&&◌, ◌||◌, Option, none,
  some, List, [], ◌∷◌, ◌==◌, ltb, if◌then◌else◌, Outcome, ok, panic, ◌>>=◌, ◌>>◌, kassert,
}
use avengers.Ramfs.{
  Entry, Content, Inode, Vnode, Ramfs, s_ifdir, s_ifchr, s_ifblk, page_size, dirent_size, devid_of,
  inode_at, set_inode, set_vnode,
}
use avengers.Ramfs.Names.{is_free, dir_entries, stored_name}

-- what a file's vnode leads to; the operations on files are never called for another vnode
abbrev pub bytes_of : Option Inode → Outcome (Inode × (ℕ → ℕ))
bytes_of none = panic
bytes_of (some x) = elim x.content [
  | Content.bytes b ↦ ok (x, b)
  | Content.entries es ↦ panic
  | Content.chr d ↦ panic
  | Content.blk d ↦ panic
]

-- the bytes that memcpy copies out of a page
abbrev pub bytes_at : (ℕ → ℕ) → ℕ → ℕ → List ℕ
bytes_at b offset zero = []
bytes_at b offset (suc n) = b offset ∷ bytes_at b (offset + 1) n

-- MAX(0, MIN((off_t) count, rf_size - offset))
abbrev pub readable_at : ℕ → ℕ → ℕ → ℕ
readable_at size offset count = if ltb count (2 ^ 31) then min count (size - offset) else 0

-- The bytes that `ramfs_read` stores; its result is their number.
pub read : Ramfs → ℕ → ℕ → ℕ → Outcome (List ℕ)
read s i offset count = do
  kassert (not ((s.vnode i).mode == s_ifdir))
  (x, b) ← bytes_of (inode_at s i)
  ok (bytes_at b offset (readable_at x.size offset count))

abbrev pub overwrite : (ℕ → ℕ) → ℕ → List ℕ → ℕ → ℕ
overwrite b offset [] = b
overwrite b offset (c ∷ cs) = λ j. if j == offset then c else overwrite b (offset + 1) cs j

abbrev pub max : ℕ → ℕ → ℕ
max a b = if ltb a b then b else a

written : Ramfs → ℕ → ℕ → (ℕ → ℕ) → ℕ → Inode × (ℕ → ℕ) → Outcome (Ramfs × ℕ)
written s i offset buf n (x, b) =
    let len' = max (s.vnode i).len (offset + n) in
    kassert ((s.vnode i).len == x.size)
    >> ok (
      set_vnode
          (set_inode s i (
            some (record x {
              content = Content.bytes (overwrite b offset (bytes_at buf 0 n));
              size = len';
            })))
          i (record (s.vnode i) { len = len' }),
      n,
    )

write_at : Ramfs → ℕ → ℕ → (ℕ → ℕ) → ℕ → Inode × (ℕ → ℕ) → Outcome (Ramfs × ℕ)
unfolding written
write_at s i offset buf count f =
    if ltb count (2 ^ 31) && not (ltb page_size offset)
    then written s i offset buf (min count (page_size - offset)) f
    else panic

-- `ramfs_write`; with a negative MIN((off_t) count, PAGE_SIZE - offset), memcpy runs over the memory.
pub write : Ramfs → ℕ → ℕ → (ℕ → ℕ) → ℕ → Outcome (Ramfs × ℕ)
unfolding write_at
write s i offset buf count = do
  kassert (not ((s.vnode i).mode == s_ifdir))
  f ← bytes_of (inode_at s i)
  write_at s i offset buf count f

abbrev pub one_more : Option (ℕ × Entry) → Option (ℕ × Entry)
one_more none = none
one_more (some (k, e)) = some (suc k, e)

-- the first used entry, and how many free ones stand before it
abbrev pub next_used : List Entry → Option (ℕ × Entry)
next_used [] = none
next_used (e ∷ es) = let rest = one_more (next_used es) in if is_free e then rest else some (0, e)

abbrev pub drop_entries : ℕ → List Entry → List Entry
drop_entries zero es = es
drop_entries (suc n) [] = []
drop_entries (suc n) (e ∷ es) = drop_entries n es

-- `ramfs_readdir`: the entry that it stores, if any, and the result
abbrev pub listed : Option (ℕ × Entry) → Option Entry × ℕ
listed none = (none, 0)
listed (some (k, e)) =
    (some (record e { name = stored_name e.name }), dirent_size + k * dirent_size)

pub readdir : Ramfs → ℕ → ℕ → Outcome (Option Entry × ℕ)
readdir s dir offset = do
  kassert ((s.vnode dir).mode == s_ifdir)
  kassert (offset % dirent_size == 0)
  es ← dir_entries s dir
  ok (listed (next_used (drop_entries (offset / dirent_size) es)))

-- The fields of `struct stat` that `ramfs_stat` sets.
pub record Stat : Type 0 where
  pub mode : ℕ
  pub ino : ℕ
  pub rdev : ℕ
  pub nlink : ℕ
  pub size : ℕ
  pub blksize : ℕ
  pub blocks : ℕ

stat_of : Vnode → ℕ → Option Inode → Outcome Stat
stat_of v i none = panic
stat_of v i (some x) = ok (record {
  mode = v.mode;
  ino = i;
  rdev = if v.mode == s_ifchr || v.mode == s_ifblk then devid_of x.content else 0;
  nlink = (x.linkcount + 2 ^ 32 - 1) % 2 ^ 32;
  size = x.size;
  blksize = page_size;
  blocks = 1;
})

pub stat : Ramfs → ℕ → Outcome Stat
unfolding stat_of
stat s i = stat_of (s.vnode i) i (inode_at s i)

-- `ramfs_query_vnode`
pub query_vnode : Ramfs → ℕ → Outcome Bool
query_vnode s i = elim (inode_at s i) [ none ↦ panic | some x ↦ ok (ltb 1 x.linkcount) ]
