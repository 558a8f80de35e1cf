-- ===== src/Syscalls/Refs.antt =====
-- The descriptor operations of kernel/fs/vfs_syscall.c keep the reference counts right.
use avengers.Prelude.{
  length-set, lt_length, ℕ, ◌+◌, ◌-◌, ◌<◌, ◌≡◌, refl, ap, ◌∙◌, ◌≢◌, false, Option, none, some, ◌∷◌,
  ◌==◌, if◌then◌else◌, get_elem?, set, length, ok, arith,
}
use avengers.Files.{Table, Slab, neg, emfile, opened, get_empty_fd}
use avengers.Files.Valid.{
  points, refs, refs_le_length, refs-set, opened_elem, refs_pos, IsOpen, IsValid, recounted,
  recounted-Recount, Recount-IsOpen, fput-Recount, fget-Recount, get_empty_fd-free,
  get_empty_fd-taken_below, get_empty_fd-recounted,
}
use avengers.Syscalls.{set_fd, is_dir, do_close, do_dup, close_file, dup_file}

-- A change of one descriptor with the counts that go with it.
set_fd-IsValid :
    {others : ℕ → ℕ} (t t' : Table) (fd : ℕ) (old new : Option ℕ)
    → IsValid others t
    → get_elem? t.fds fd ≡ some old
    → t'.fds ≡ set t.fds fd new
    → ((g : ℕ) → (t'.file g).refcount + points g old ≡ (t.file g).refcount + points g new)
    → ((g : ℕ) → IsOpen (t.file g) → IsOpen (t'.file g))
    → ((g : ℕ) → 0 < points g new → 0 < refs g t.fds)
    → IsValid others t'
set_fd-IsValid t t' fd old new v e s counts kept known = record {
  sized = ap length s ∙ (length-set fd t.fds new ∙ v.sized);
  counted = λ g. omega (arith, counts g, v.counted g, moved g);
  bounded = v.bounded;
  in_use = λ g p. kept g (v.in_use g (used g p));
}
  where
    moved : (g : ℕ) → refs g t'.fds + points g old ≡ refs g t.fds + points g new
    moved g = ap (λ fds. refs g fds + points g old) s ∙ refs-set g fd t.fds old new e

    used : (g : ℕ) → 0 < refs g t'.fds → 0 < refs g t.fds
    used g p = ground (arith, moved g, known g)

in_use_at :
    {others : ℕ → ℕ} (t : Table) (fd f : ℕ)
    → IsValid others t
    → opened t fd ≡ some f
    → IsOpen (t.file f)
in_use_at t fd f v e = v.in_use f (refs_pos f fd t.fds (opened_elem t fd f e))

count_bound :
    {others : ℕ → ℕ} (t : Table) (f : ℕ) → IsValid others t → (t.file f).refcount < 0x7ffffff0
count_bound t f v = omega (arith, v.counted f, v.bounded f, refs_le_length f t.fds, v.sized)

count_pos :
    {others : ℕ → ℕ} (t : Table) (fd f : ℕ)
    → IsValid others t
    → opened t fd ≡ some f
    → (n : ℕ) × ((t.file f).refcount ≡ n + 1)
count_pos t fd f v e = (
  (t.file f).refcount - 1,
  omega (arith, v.counted f, refs_pos f fd t.fds (opened_elem t fd f e)),
)

-- When the counts are right, do_close of an open descriptor clears it and drops its reference; the
-- last reference frees the file.
pub do_close-IsValid :
    (slab : Slab) (others : ℕ → ℕ) (t : Table) (fd f : ℕ)
    → IsValid others t
    → opened t fd ≡ some f
    → (t' : Table) × (do_close slab t fd ≡ ok (t', 0))
      × IsValid others t'
      × (t'.fds ≡ set t.fds fd none)
      × (t'.freed ≡ (if (t.file f).refcount == 1 then f ∷ t.freed else t.freed))
unfolding do_close close_file
do_close-IsValid slab others t fd f v e =
    let n = (count_pos t fd f v e).0 in
    let c = (count_pos t fd f v e).1 in
    let t1 = recounted t f ((t.file f).refcount + 1) in
    let r1 = recounted-Recount t f ((t.file f).refcount + 1) in
    let p1 =
      fput-Recount (set_fd t1 fd none) f (n + 1) (Recount-IsOpen r1 f (in_use_at t fd f v e))
        (omega (arith, c, r1.counts)) (omega (arith, c, count_bound t f v)) in
    let p2 =
      fput-Recount p1.0 f n (Recount-IsOpen p1.2 f (Recount-IsOpen r1 f (in_use_at t fd f v e)))
        (p1.2.counts) (omega (arith, c, count_bound t f v)) in
    (
      p2.0,
      ground (
        arith,
        fget-Recount slab others t fd f v e,
        p1.1,
        p2.1,
        opened_elem t fd f e,
        lt_length fd t.fds (some f) (opened_elem t fd f e),
        v.sized,
      ),
      set_fd-IsValid t p2.0 fd (some f) none v (opened_elem t fd f e)
          (p2.2.fds_same ∙ p1.2.fds_same)
          (λ g. ground (arith, p2.2.counts, p2.2.others_same g, p1.2.others_same g, c))
          (λ g o. Recount-IsOpen p2.2 g (Recount-IsOpen p1.2 g (Recount-IsOpen r1 g o)))
          (λ g h. absurd (omega arith)),
      p2.2.fds_same ∙ p1.2.fds_same,
      ground (arith, p2.3, p1.3, c),
    )

-- When the counts are right and a descriptor is free, do_dup of a file that is not a directory
-- points the lowest free descriptor at it (all below it are in use), returns it, leaves the other
-- descriptors and keeps the counts right.
pub do_dup-IsValid :
    (slab : Slab) (others : ℕ → ℕ) (t : Table) (fd f : ℕ)
    → IsValid others t
    → opened t fd ≡ some f
    → is_dir t (t.file f).vnode ≡ false
    → get_empty_fd t ≢ neg emfile
    → (t' : Table) × (do_dup slab t fd ≡ ok (t', get_empty_fd t))
      × IsValid others t'
      × (get_elem? t.fds (get_empty_fd t) ≡ some none)
      × ((j : ℕ) → j < get_empty_fd t → (g : ℕ) × (get_elem? t.fds j ≡ some (some g)))
      × (t'.fds ≡ set t.fds (get_empty_fd t) (some f))
unfolding do_dup dup_file
do_dup-IsValid slab others t fd f v e d full =
    let free = get_empty_fd-free t v.sized full in
    let r1 = recounted-Recount t f ((t.file f).refcount + 1) in
    let t' = set_fd (recounted t f ((t.file f).refcount + 1)) (get_empty_fd t) (some f) in
    (
      t',
      ground (
        arith,
        fget-Recount slab others t fd f v e,
        opened_elem t fd f e,
        lt_length fd t.fds (some f) (opened_elem t fd f e),
        v.sized,
        d,
        full,
        r1.vnode_same,
        get_empty_fd-recounted t f ((t.file f).refcount + 1),
      ),
      set_fd-IsValid t t' (get_empty_fd t) none (some f) v free refl
          (λ g. ground (arith, r1.counts, r1.others_same g)) (λ g o. Recount-IsOpen r1 g o)
          (λ g h. ground (arith, refs_pos f fd t.fds (opened_elem t fd f e))),
      free,
      get_empty_fd-taken_below t v.sized full,
      refl,
    )
