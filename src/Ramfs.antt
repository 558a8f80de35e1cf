-- ===== src/Ramfs.antt =====
-- The RAM file system (kernel/fs/ramfs/ramfs.c) and the references to its vnodes (vref, vget and vput
-- of kernel/fs/vnode.c). A vnode and its inode have the same number; a name is the list of its
-- characters, without a null byte. Results are the bit patterns of 32-bit words.
pub mod Names
pub mod Data
pub mod Refs
mod Tests
use avengers.Prelude.{
  ℕ, zero, suc, ◌+◌, ◌-◌, ◌*◌, ◌^◌, Bool, true, false, not, ◌&&◌, ◌||◌, Option, none, some, List,
  [], ◌∷◌, ◌==◌, ltb, if◌then◌else◌, get_elem?, set, replicate, Outcome, ok, panic, ◌>>=◌, ◌>>◌,
  kassert,
}

-- `ramfs_dirent_t`; an entry with an empty name is free.
pub record Entry : Type 0 where
  pub ino : ℕ
  pub name : List ℕ

-- `rf_mode` and what `rf_mem` then holds: the bytes of a file, the entries of a directory, or the
-- number of a device
pub data Content : Type 0 where
  bytes : (ℕ → ℕ) → Content
  entries : List Entry → Content
  chr : ℕ → Content
  blk : ℕ → Content

-- `ramfs_inode_t`
pub record Inode : Type 0 where
  pub size : ℕ
  pub ino : ℕ
  pub content : Content
  pub linkcount : ℕ

-- The fields of `vnode_t` in use; a vnode of no reference is not on `vnode_inuse_list`.
pub record Vnode : Type 0 where
  pub refcount : ℕ
  pub mode : ℕ
  pub len : ℕ
  pub devid : ℕ

-- `rfs_inodes` and the vnodes by number
pub record Ramfs : Type 0 where
  pub inodes : List (Option Inode)
  pub vnode : ℕ → Vnode

-- RAMFS_MAX_FILES and RAMFS_MAX_DIRENT
abbrev pub max_files : ℕ
max_files = 64

abbrev pub max_dirent : ℕ
max_dirent = 128

abbrev pub page_size : ℕ
page_size = 4096

-- sizeof(ramfs_dirent_t)
abbrev pub dirent_size : ℕ
dirent_size = 32

abbrev pub neg : ℕ → ℕ
neg e = 2 ^ 32 - e

abbrev pub enoent : ℕ
enoent = 2

abbrev pub enotdir : ℕ
enotdir = 20

abbrev pub enospc : ℕ
enospc = 28

abbrev pub enotempty : ℕ
enotempty = 39

abbrev pub s_ifchr : ℕ
s_ifchr = 0x100

abbrev pub s_ifdir : ℕ
s_ifdir = 0x200

abbrev pub s_ifblk : ℕ
s_ifblk = 0x400

abbrev pub s_ifreg : ℕ
s_ifreg = 0x800

abbrev pub inode_at : Ramfs → ℕ → Option Inode
inode_at s i = elim (get_elem? s.inodes i) [ none ↦ none | some o ↦ o ]

abbrev pub set_inode : Ramfs → ℕ → Option Inode → Ramfs
set_inode s i o = record s { inodes = set s.inodes i o }

abbrev pub vnode_at : (ℕ → Vnode) → ℕ → Vnode → ℕ → Vnode
vnode_at vnodes i v j = if i == j then v else vnodes j

abbrev pub set_vnode : Ramfs → ℕ → Vnode → Ramfs
set_vnode s i v = record s { vnode = vnode_at s.vnode i v }

abbrev pub set_refcount : Ramfs → ℕ → ℕ → Ramfs
set_refcount s i n = set_vnode s i (record (s.vnode i) { refcount = n })

-- `vn_mode` and `vn_devid` that `ramfs_read_vnode` sets
abbrev pub mode_of : Content → ℕ
mode_of (bytes b) = s_ifreg
mode_of (entries es) = s_ifdir
mode_of (chr d) = s_ifchr
mode_of (blk d) = s_ifblk

abbrev pub devid_of : Content → ℕ
devid_of (bytes b) = 0
devid_of (entries es) = 0
devid_of (chr d) = d
devid_of (blk d) = d

-- A new vnode has one reference once `vget` has read it.
pub read_vnode : Ramfs → ℕ → Option Inode → Outcome Ramfs
read_vnode s i none = panic
read_vnode s i (some x) = do
  kassert (x.ino == i)
  let v : Vnode = record {
    refcount = 1;
    mode = mode_of x.content;
    len = x.size;
    devid = devid_of x.content;
  }
  ok (set_vnode (set_inode s i (some (record x { linkcount = x.linkcount + 1 }))) i v)

pub vref : Ramfs → ℕ → Outcome Ramfs
vref s i = kassert (ltb 0 (s.vnode i).refcount) >> ok (set_refcount s i ((s.vnode i).refcount + 1))

pub vget : Ramfs → ℕ → Outcome Ramfs
unfolding read_vnode vref
vget s i = if ltb 0 (s.vnode i).refcount then vref s i else read_vnode s i (inode_at s i)

-- `ramfs_delete_vnode`
pub delete_vnode : Ramfs → ℕ → Option Inode → Outcome Ramfs
delete_vnode s i none = panic
delete_vnode s i (some x) = ok (
    set_inode s i
      (if x.linkcount == 1 then none else some (record x { linkcount = x.linkcount - 1 })))

-- No file of this system has resident pages.
pub vput : Ramfs → ℕ → Outcome Ramfs
unfolding delete_vnode
vput s i = do
  kassert (ltb 0 (s.vnode i).refcount)
  let s' = set_refcount s i ((s.vnode i).refcount - 1)
  if (s.vnode i).refcount == 1 then delete_vnode s' i (inode_at s' i) else ok s'

-- Do kmalloc and page_alloc return memory?
pub record Memory : Type 0 where
  pub for_inode : Bool
  pub for_page : Bool

abbrev pub has_room : Memory → Content → Bool
has_room m (bytes b) = m.for_inode && m.for_page
has_room m (entries es) = m.for_inode && m.for_page
has_room m (chr d) = m.for_inode
has_room m (blk d) = m.for_inode

-- the search for a free inode
unfoldable pub free_inode : List (Option Inode) → Option ℕ
free_inode [] = none
free_inode (none ∷ is) = some 0
free_inode (some x ∷ is) = elim (free_inode is) [ none ↦ none | some i ↦ some (suc i) ]

abbrev pub fresh_inode : ℕ → Content → Inode
fresh_inode i c = record { size = 0; ino = i; content = c; linkcount = 1 }

-- `ramfs_alloc_inode` with the memory of the new inode: its number, or nothing for -ENOSPC
unfoldable pub alloc_inode : Memory → Ramfs → Content → Option (ℕ × Ramfs)
unfolding free_inode
alloc_inode m s c = elim (free_inode s.inodes) [
  | none ↦ none
  | some i ↦ if has_room m c then some (i, set_inode s i (some (fresh_inode i c))) else none
]

-- the memory that `memset` has cleared
abbrev pub no_bytes : Content
no_bytes = bytes (λ i. 0)

abbrev pub free_entry : Entry
free_entry = record { ino = 0; name = [] }

abbrev pub dot : List ℕ
dot = 46 ∷ []

abbrev pub dot_dot : List ℕ
dot_dot = 46 ∷ 46 ∷ []

-- the entries of a new directory with its own number and that of its parent
abbrev pub new_dir : ℕ → ℕ → Content
new_dir i parent = entries (
    record { ino = i; name = dot }
    ∷ record { ino = parent; name = dot_dot }
    ∷ replicate 126 free_entry)

abbrev pub enomem : ℕ
enomem = 12

abbrev pub no_vnode : Vnode
no_vnode = record { refcount = 0; mode = 0; len = 0; devid = 0 }

-- the cleared table of a new file system
abbrev pub no_inodes : Ramfs
no_inodes = record { inodes = replicate 64 none; vnode = λ i. no_vnode }

mount_root : Option (ℕ × Ramfs) → Outcome (ℕ × Option Ramfs)
mount_root none = ok (neg enospc, none)
mount_root (some (root, s)) = do
  kassert (root == 0)
  let x : Inode = record {
    size = 2 * dirent_size;
    ino = root;
    content = new_dir 0 0;
    linkcount = 1;
  }
  s' ← vget (set_inode s 0 (some x)) 0
  ok (0, some s')

-- `ramfs_mount`, given whether kmalloc returns memory for the table
pub mount : Bool → Memory → Outcome (ℕ × Option Ramfs)
unfolding mount_root
mount for_table m =
    if for_table then mount_root (alloc_inode m no_inodes (entries [])) else ok (neg enomem, none)
