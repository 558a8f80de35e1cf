-- ===== src/Syscalls/Offsets.antt =====
-- The file offsets that do_read and do_lseek of kernel/fs/vfs_syscall.c leave behind.
use avengers.Prelude.{lt_length, ℕ, ◌+◌, ◌%◌, ◌<◌, ◌≡◌, true, false, some, ok, arith}
use avengers.Files.{Table, Slab, sign, word_mod, opened, fput}
use avengers.Files.Valid.{
  opened_elem, refs_pos, refs_le_length, IsValid, Recount, recounted, recounted-Recount,
  fget-Recount, fput-Recount,
}
use avengers.Syscalls.{
  VnodeOps, readable, is_dir, seek_set, move_pos, do_read, do_lseek, read_file, read_vnode,
  seek_file,
}

-- fput after the offset has been set gives back the reference that fget took.
fput_after_move :
    (others : ℕ → ℕ) (t : Table) (fd f pos : ℕ)
    → IsValid others t
    → opened t fd ≡ some f
    → pos < sign
    → (t' : Table) × (fput (move_pos (recounted t f ((t.file f).refcount + 1)) f pos) f ≡ ok t')
      × Recount f (t.file f).refcount (move_pos t f pos) t'
fput_after_move others t fd f pos v e b =
    let o = v.in_use f (refs_pos f fd t.fds (opened_elem t fd f e)) in
    let t1 = move_pos (recounted t f ((t.file f).refcount + 1)) f pos in
    let q =
      fput-Recount t1 f (t.file f).refcount
        (record {
          mode_lt = ground (arith, o.mode_lt);
          pos_fits = ground (arith, b);
          node = o.node;
          has_vnode = ground (arith, o.has_vnode);
        })
        (ground arith) (omega (arith, v.counted f, v.bounded f, refs_le_length f t.fds, v.sized)) in
    (
      q.0,
      q.1,
      record {
        fds_same = q.2.fds_same;
        vnodes_same = q.2.vnodes_same;
        counts = q.2.counts;
        others_same = λ g n. ground (arith, q.2.others_same g n);
        pos_same = ground (arith, q.2.pos_same);
        mode_same = ground (arith, q.2.mode_same);
        vnode_same = ground (arith, q.2.vnode_same);
      },
    )

-- A call of do_read on a readable file, not a directory, that the vnode answers with some bytes,
-- such that the offset does not overflow, returns their number, moves the offset by it and keeps
-- the reference counts.
pub do_read-moves :
    (ops : VnodeOps) (slab : Slab) (others : ℕ → ℕ) (t : Table) (fd f w nbytes bytes : ℕ)
    → IsValid others t
    → opened t fd ≡ some f
    → readable (t.file f) ≡ true
    → (t.file f).vnode ≡ some w
    → is_dir t (some w) ≡ false
    → ops.read w (t.file f).pos nbytes ≡ bytes
    → 0 < bytes
    → (t.file f).pos + bytes < sign
    → (t' : Table) × (do_read ops slab t fd nbytes ≡ ok (t', bytes))
      × Recount f (t.file f).refcount (move_pos t f ((t.file f).pos + bytes)) t'
unfolding do_read read_file read_vnode
do_read-moves ops slab others t fd f w nbytes bytes v e r h d z p b =
    let small : ((t.file f).pos + bytes) % word_mod ≡ (t.file f).pos + bytes = omega (arith, b) in
    let c = recounted-Recount t f ((t.file f).refcount + 1) in
    let q = fput_after_move others t fd f ((t.file f).pos + bytes) v e b in
    (
      q.0,
      ground (
        arith,
        fget-Recount slab others t fd f v e,
        c.mode_same,
        c.vnode_same,
        c.pos_same,
        q.1,
        small,
      ),
      q.2,
    )

-- do_lseek to an offset that is not negative sets and returns it, and keeps the reference counts.
do_lseek-sets :
    (slab : Slab) (others : ℕ → ℕ) (t : Table) (fd f offset : ℕ)
    → IsValid others t
    → opened t fd ≡ some f
    → offset < sign
    → (t' : Table) × (do_lseek slab t fd offset seek_set ≡ ok (t', offset))
      × Recount f (t.file f).refcount (move_pos t f offset) t'
unfolding do_lseek seek_file
do_lseek-sets slab others t fd f offset v e b =
    let q = fput_after_move others t fd f offset v e b in
    let c = recounted-Recount t f ((t.file f).refcount + 1) in
    (
      q.0,
      ground (
        arith,
        fget-Recount slab others t fd f v e,
        q.1,
        lt_length fd t.fds (some f) (opened_elem t fd f e),
        v.sized,
      ),
      q.2,
    )
