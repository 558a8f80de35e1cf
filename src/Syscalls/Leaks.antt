-- ===== src/Syscalls/Leaks.antt =====
-- Early returns of kernel/fs/vfs_syscall.c that keep the reference that fget took.
use avengers.Prelude.{ℕ, ◌+◌, ◌≡◌, ◌≢◌, true, false, some, lt_length, ok, arith}
use avengers.Files.{Table, Slab, neg, emfile, opened, get_empty_fd}
use avengers.Files.Valid.{
  opened_elem, IsValid, recounted, recounted-Recount, fget-Recount, get_empty_fd-recounted,
}
use avengers.Syscalls.{
  VnodeOps, readable, writable, is_dir, eisdir, einval, seek_set, seek_cur, seek_end, do_read,
  do_write, do_dup, do_lseek, dup_file, read_file, read_vnode, write_file, seek_file,
}

-- When the vnode of a readable file, not a directory, reads 0 bytes, do_read returns 0 and leaves
-- one more reference of the file than before, if the counts were right.
pub do_read_leaks_at_end :
    (ops : VnodeOps) (slab : Slab) (others : ℕ → ℕ) (t : Table) (fd f w nbytes : ℕ)
    → IsValid others t
    → opened t fd ≡ some f
    → readable (t.file f) ≡ true
    → (t.file f).vnode ≡ some w
    → is_dir t (some w) ≡ false
    → ops.read w (t.file f).pos nbytes ≡ 0
    → do_read ops slab t fd nbytes ≡ ok (recounted t f ((t.file f).refcount + 1), 0)
unfolding do_read read_file read_vnode
do_read_leaks_at_end ops slab others t fd f w nbytes v e r h d z =
    let c = recounted-Recount t f ((t.file f).refcount + 1) in
    ground (arith, fget-Recount slab others t fd f v e, c.mode_same, c.vnode_same, c.pos_same)

-- do_write to a directory keeps the reference that it took.
do_write_leaks_on_directory :
    (ops : VnodeOps) (slab : Slab) (others : ℕ → ℕ) (t : Table) (fd f nbytes : ℕ)
    → IsValid others t
    → opened t fd ≡ some f
    → writable (t.file f) ≡ true
    → is_dir t (t.file f).vnode ≡ true
    → do_write ops slab t fd nbytes ≡ ok (recounted t f ((t.file f).refcount + 1), neg eisdir)
unfolding do_write write_file
do_write_leaks_on_directory ops slab others t fd f nbytes v e r d =
    let c = recounted-Recount t f ((t.file f).refcount + 1) in
    ground (arith, fget-Recount slab others t fd f v e, c.mode_same, c.vnode_same)

-- do_dup with no free descriptor keeps the reference that it took.
do_dup_leaks_when_full :
    (slab : Slab) (others : ℕ → ℕ) (t : Table) (fd f : ℕ)
    → IsValid others t
    → opened t fd ≡ some f
    → is_dir t (t.file f).vnode ≡ false
    → get_empty_fd t ≡ neg emfile
    → do_dup slab t fd ≡ ok (recounted t f ((t.file f).refcount + 1), neg emfile)
unfolding do_dup dup_file
do_dup_leaks_when_full slab others t fd f v e d full =
    let c = recounted-Recount t f ((t.file f).refcount + 1) in
    ground (
      arith,
      fget-Recount slab others t fd f v e,
      c.vnode_same,
      lt_length fd t.fds (some f) (opened_elem t fd f e),
      v.sized,
      get_empty_fd-recounted t f ((t.file f).refcount + 1),
    )

-- do_lseek with an unknown `whence` keeps the reference that it took.
do_lseek_leaks_on_whence :
    (slab : Slab) (others : ℕ → ℕ) (t : Table) (fd f offset whence : ℕ)
    → IsValid others t
    → opened t fd ≡ some f
    → whence ≢ seek_set
    → whence ≢ seek_cur
    → whence ≢ seek_end
    → do_lseek slab t fd offset whence ≡ ok (recounted t f ((t.file f).refcount + 1), neg einval)
unfolding do_lseek seek_file
do_lseek_leaks_on_whence slab others t fd f offset whence v e a b c = ground (
  arith,
  fget-Recount slab others t fd f v e,
  lt_length fd t.fds (some f) (opened_elem t fd f e),
  v.sized,
)
