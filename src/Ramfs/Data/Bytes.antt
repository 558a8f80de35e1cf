-- ===== src/Ramfs/Data/Bytes.antt =====
-- What ramfs_write of kernel/fs/ramfs/ramfs.c stores and ramfs_read finds.
use avengers.Prelude.{
  ℕ, zero, suc, ◌+◌, ◌-◌, ◌^◌, ◌<◌, ◌≤◌, ◌≡◌, refl, ap, ◌∙◌, min, false, Bool-cases, some, ◌==◌,
  ltb, if◌then◌else◌, ok, ◌⊎◌, inl, inr, arith,
}
use avengers.Ramfs.{Content, Inode, Ramfs, s_ifdir, page_size, inode_at, set_inode, set_vnode}
use avengers.Ramfs.Data.{read, write, written, write_at, bytes_at, overwrite, max}
use avengers.Ramfs.Names.Links.{inode_at-set_inode, inode_at-lt}

-- A regular file that is cached, its recorded length the same in the vnode and the inode.
pub record IsFile (s : Ramfs) (i : ℕ) (b : ℕ → ℕ) : Type 0 where
  pub node : Inode
  pub at : inode_at s i ≡ some node
  pub holds : node.content ≡ Content.bytes b
  pub mode : (s.vnode i).mode == s_ifdir ≡ false
  pub len : (s.vnode i).len ≡ node.size
  pub small : node.size ≤ page_size

overwrite-value :
    (b buf : ℕ → ℕ) (n k offset j : ℕ)
    → overwrite b offset (bytes_at buf k n) j
      ≡ (if ltb j offset then b j else if ltb j (offset + n) then buf (k + (j - offset)) else b j)
overwrite-value b buf zero k offset j = ground arith
overwrite-value b buf (suc n) k offset j = elim (Bool-cases (j == offset)) [
  | inl y ↦ let same : k ≡ k + (j - offset) = ground arith in ground (arith, ap buf same)
  | inr y ↦ elim (Bool-cases (ltb j offset)) [
    | inl l ↦ ground (arith, overwrite-value b buf n (k + 1) (offset + 1) j)
    | inr l ↦
        let same : k + 1 + (j - (offset + 1)) ≡ k + (j - offset) = ground arith in
        ground (arith, overwrite-value b buf n (k + 1) (offset + 1) j, ap buf same)
  ]
]

bytes_at-ext :
    (f g : ℕ → ℕ) (n k l : ℕ)
    → ((j : ℕ) → j < n → f (k + j) ≡ g (l + j))
    → bytes_at f k n ≡ bytes_at g l n
bytes_at-ext f g zero k l h = refl
bytes_at-ext f g (suc n) k l h =
    let first : f k ≡ g l = ap f (omega arith) ∙ (h 0 (omega arith) ∙ ap g (omega arith)) in
    let rest =
      bytes_at-ext f g n (k + 1) (l + 1)
        (λ j m. ap f (omega arith) ∙ (h (j + 1) (omega arith) ∙ ap g (omega arith))) in
    cc

bytes_at-overwrite :
    (b buf : ℕ → ℕ) (n offset : ℕ)
    → bytes_at (overwrite b offset (bytes_at buf 0 n)) offset n ≡ bytes_at buf 0 n
bytes_at-overwrite b buf n offset =
    bytes_at-ext (overwrite b offset (bytes_at buf 0 n)) buf n offset 0
      (λ j m. ground (arith, overwrite-value b buf n 0 offset (offset + j), ap buf (back j)))
  where
    back : (j : ℕ) → 0 + (offset + j - offset) ≡ 0 + j
    back j = omega arith

-- ramfs_read reads up to the end of the file.
read-runs :
    (s : Ramfs) (i offset count : ℕ) (b : ℕ → ℕ) (w : IsFile s i b)
    → count < 2 ^ 31
    → read s i offset count ≡ ok (bytes_at b offset (min count (w.node.size - offset)))
unfolding read
read-runs s i offset count b w short = ground (arith, w.at, w.holds, w.mode)

-- ramfs_write of fewer than 2 ^ 31 bytes to a regular file in use, at an offset of at most one page,
-- writes as many as the page has room for and returns their number; ramfs_read then gives them back,
-- the bytes elsewhere are as before, and the length stays within the page and agrees between the
-- vnode and the inode.
pub write-read :
    (s : Ramfs) (i offset count : ℕ) (b buf : ℕ → ℕ)
    → IsFile s i b
    → count < 2 ^ 31
    → offset ≤ page_size
    → (s' : Ramfs) × (b' : ℕ → ℕ) × (write s i offset buf count
        ≡ ok (s', min count (page_size - offset)))
      × (read s' i offset count ≡ ok (bytes_at buf 0 (min count (page_size - offset))))
      × ((j : ℕ) → (j < offset) ⊎ (offset + count ≤ j) → b' j ≡ b j)
      × IsFile s' i b'
unfolding write write_at written
write-read s i offset count b buf w short inside = (
  s',
  b',
  ground (arith, w.at, w.holds, w.mode, w.len),
  read-runs s' i offset count b' file short
      ∙ ap (λ k. ok (bytes_at b' offset k)) all_of
      ∙ ap ok (bytes_at-overwrite b buf n offset),
  λ j o. ground (arith, overwrite-value b buf n 0 offset j),
  file,
)
  where
    n : ℕ
    n = min count (page_size - offset)

    b' : ℕ → ℕ
    b' = overwrite b offset (bytes_at buf 0 n)

    len' : ℕ
    len' = max (s.vnode i).len (offset + n)

    y : Inode
    y = record w.node { content = Content.bytes b'; size = len' }

    s' : Ramfs
    s' = set_vnode (set_inode s i (some y)) i (record (s.vnode i) { len = len' })

    file : IsFile s' i b'
    file = record {
      node = y;
      at = ground (arith, inode_at-set_inode s i (some y) (inode_at-lt s i w.node w.at) i);
      holds = refl;
      mode = ground (arith, w.mode);
      len = ground arith;
      small = ground (arith, w.small, w.len);
    }

    all_of : min count (len' - offset) ≡ n
    all_of = ground (arith, w.small, w.len)
