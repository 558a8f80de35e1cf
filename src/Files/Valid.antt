-- ===== src/Files/Valid.antt =====
-- The reference counts of kernel/fs/file.c against the descriptors that point at a file.
use avengers.Prelude.{
  ℕ, zero, suc, ◌+◌, ◌-◌, ◌≤◌, ◌<◌, ◌≡◌, refl, ap, ◌⊎◌, inl, inr, true, Option, none, some, List,
  [], ◌∷◌, ◌==◌, Bool-cases, ◌≢◌, ◌∙◌, if◌then◌else◌, get_elem?, set, length, lt_length, ok, arith,
}
use avengers.Files.{
  File, Table, Slab, nfiles, neg, emfile, is_pos, set_file, opened, dropped, fref, fget, fput,
  fref_found, empty_from, get_empty_fd,
}

-- one if the descriptor points at the file
abbrev pub points : ℕ → Option ℕ → ℕ
points f none = 0
points f (some g) = if g == f then 1 else 0

-- how many descriptors point at a file
abbrev pub refs : ℕ → List (Option ℕ) → ℕ
refs f [] = 0
refs f (o ∷ os) = points f o + refs f os

pub refs_le_length : (f : ℕ) (fds : List (Option ℕ)) → refs f fds ≤ length fds
refs_le_length f [] = omega arith
refs_le_length f (none ∷ os) = ground (arith, refs_le_length f os)
refs_le_length f (some g ∷ os) = ground (arith, refs_le_length f os)

pub refs-set :
    (f fd : ℕ) (fds : List (Option ℕ)) (o new : Option ℕ)
    → get_elem? fds fd ≡ some o
    → refs f (set fds fd new) + points f o ≡ refs f fds + points f new
refs-set f fd [] o new e = cc
refs-set f zero (x ∷ fds) o new e = ground arith
refs-set f (suc fd) (x ∷ fds) o new e = omega (arith, refs-set f fd fds o new e)

pub opened_elem : (t : Table) (fd f : ℕ) → opened t fd ≡ some f → get_elem? t.fds fd ≡ some (some f)
opened_elem t fd f e = ground arith

pub refs_pos :
    (f fd : ℕ) (fds : List (Option ℕ)) → get_elem? fds fd ≡ some (some f) → 0 < refs f fds
refs_pos f fd [] e = cc
refs_pos f zero (x ∷ fds) e = ground arith
refs_pos f (suc fd) (x ∷ fds) e = omega (arith, refs_pos f fd fds e)

-- what the assertions of fref and fput want of a file in use
pub record IsOpen (file : File) : Type 0 where
  pub mode_lt : file.mode < 8
  pub pos_fits : is_pos file.pos ≡ true
  pub node : ℕ
  pub has_vnode : file.vnode ≡ some node

-- Each file counts the descriptors that point at it, and the references from elsewhere; a file that
-- a descriptor points at is open.
pub record IsValid (others : ℕ → ℕ) (t : Table) : Type 0 where
  pub sized : length t.fds ≡ nfiles
  pub counted : (f : ℕ) → (t.file f).refcount ≡ refs f t.fds + others f
  pub bounded : (f : ℕ) → others f < 0x40000000
  pub in_use : (f : ℕ) → 0 < refs f t.fds → IsOpen (t.file f)

-- What changes when the reference count of one file becomes `n`.
pub record Recount (f n : ℕ) (t t' : Table) : Type 0 where
  pub fds_same : t'.fds ≡ t.fds
  pub vnodes_same : t'.vnode ≡ t.vnode
  pub counts : (t'.file f).refcount ≡ n
  pub others_same : (g : ℕ) → g ≢ f → t'.file g ≡ t.file g
  pub pos_same : (t'.file f).pos ≡ (t.file f).pos
  pub mode_same : (t'.file f).mode ≡ (t.file f).mode
  pub vnode_same : (t'.file f).vnode ≡ (t.file f).vnode

abbrev pub recounted : Table → ℕ → ℕ → Table
recounted t f n = set_file t f (record (t.file f) { refcount = n })

pub recounted-Recount : (t : Table) (f n : ℕ) → Recount f n t (recounted t f n)
recounted-Recount t f n = record {
  fds_same = refl;
  vnodes_same = refl;
  counts = ground arith;
  others_same = λ g h. ground arith;
  pos_same = ground arith;
  mode_same = ground arith;
  vnode_same = ground arith;
}

-- Files stay open, the recounted one too.
pub Recount-IsOpen :
    {f n : ℕ} {t t' : Table} → Recount f n t t' → (g : ℕ) → IsOpen (t.file g) → IsOpen (t'.file g)
Recount-IsOpen c g o = record {
  mode_lt = ground (arith, c.mode_same, c.others_same g, o.mode_lt);
  pos_fits = ground (arith, c.pos_same, c.others_same g, o.pos_fits);
  node = o.node;
  has_vnode = ground (arith, c.vnode_same, c.others_same g, o.has_vnode);
}

fref-ok :
    (t : Table) (f : ℕ)
    → IsOpen (t.file f)
    → (t.file f).refcount < 0x7fffffff
    → fref t f ≡ ok (recounted t f ((t.file f).refcount + 1))
unfolding fref
fref-ok t f o b = ground (arith, o.mode_lt, o.pos_fits, o.has_vnode)

-- fput takes one reference, and frees the file with the last one.
pub fput-Recount :
    (t : Table) (f n : ℕ)
    → IsOpen (t.file f)
    → (t.file f).refcount ≡ n + 1
    → n < 0x7fffffff
    → (t' : Table) × (fput t f ≡ ok t')
      × Recount f n t t'
      × (t'.freed ≡ (if n == 0 then f ∷ t.freed else t.freed))
unfolding fput
fput-Recount t f n o e b = elim (Bool-cases (n == 0)) [
  | inl z ↦ (
    dropped (recounted t f n) f,
    ground (arith, o.mode_lt, o.pos_fits, o.has_vnode, minus_suc),
    record {
      fds_same = refl;
      vnodes_same = refl;
      counts = c.counts;
      others_same = c.others_same;
      pos_same = c.pos_same;
      mode_same = c.mode_same;
      vnode_same = c.vnode_same;
    },
    ground arith,
  )
  | inr z ↦ (
    recounted t f n,
    ground (arith, o.mode_lt, o.pos_fits, o.has_vnode, minus_suc),
    c,
    ground arith,
  )
]
  where
    c : Recount f n t (recounted t f n)
    c = recounted-Recount t f n

    minus_suc : (t.file f).refcount - 1 ≡ n
    minus_suc = omega (arith, e)

-- fget of a descriptor that is open takes one more reference of its file.
pub fget-Recount :
    (slab : Slab) (others : ℕ → ℕ) (t : Table) (fd f : ℕ)
    → IsValid others t
    → opened t fd ≡ some f
    → fget slab t fd ≡ ok (recounted t f ((t.file f).refcount + 1), some f)
unfolding fget fref_found
fget-Recount slab others t fd f v e = ground (
  arith,
  lt_length fd t.fds (some f) (opened_elem t fd f e),
  v.sized,
  fref-ok t f (v.in_use f (refs_pos f fd t.fds (opened_elem t fd f e)))
      (omega (arith, v.counted f, v.bounded f, refs_le_length f t.fds, v.sized)),
)

taken_below :
    (f i j : ℕ) (fds : List (Option ℕ))
    → j < suc i
    → ((k : ℕ) → k < i → (g : ℕ) × (get_elem? fds k ≡ some (some g)))
    → (g : ℕ) × (get_elem? (some f ∷ fds) j ≡ some (some g))
taken_below f i zero fds h below = (f, refl)
taken_below f i (suc j) fds h below = below j (omega arith)

empty_from-lowest :
    (fd : ℕ) (fds : List (Option ℕ))
    → fd + length fds ≤ 32
    → (empty_from fd fds ≡ neg emfile)
      ⊎ ((i : ℕ) × (empty_from fd fds ≡ fd + i)
          × (get_elem? fds i ≡ some none)
          × ((j : ℕ) → j < i → (f : ℕ) × (get_elem? fds j ≡ some (some f))))
unfolding empty_from
empty_from-lowest fd [] b = inl refl
empty_from-lowest fd (none ∷ fds) b = inr (0, omega arith, refl, λ j h. absurd (omega arith))
empty_from-lowest fd (some f ∷ fds) b = elim (empty_from-lowest (suc fd) fds (omega arith)) [
  | inl e ↦ inl e
  | inr (i, e, free, below) ↦
      inr (suc i, omega (arith, e), free, λ j h. taken_below f i j fds h below)
]

-- get_empty_fd returns the lowest descriptor that is free, or -EMFILE.
get_empty_fd-lowest :
    (t : Table)
    → length t.fds ≡ nfiles
    → (get_empty_fd t ≡ neg emfile)
      ⊎ ((i : ℕ) × (get_empty_fd t ≡ i)
          × (get_elem? t.fds i ≡ some none)
          × ((j : ℕ) → j < i → (f : ℕ) × (get_elem? t.fds j ≡ some (some f))))
unfolding get_empty_fd
get_empty_fd-lowest t e = elim (empty_from-lowest 0 t.fds (omega (arith, e))) [
  | inl e ↦ inl e
  | inr (i, e, free, below) ↦ inr (i, omega (arith, e), free, below)
]

pub get_empty_fd-taken_below :
    (t : Table)
    → length t.fds ≡ nfiles
    → get_empty_fd t ≢ neg emfile
    → (j : ℕ) → j < get_empty_fd t
    → (f : ℕ) × (get_elem? t.fds j ≡ some (some f))
get_empty_fd-taken_below t s full j h = elim (get_empty_fd-lowest t s) [
  | inl e ↦ absurd (full e)
  | inr (i, e, free, below) ↦ below j (omega (arith, h, e))
]

pub get_empty_fd-free :
    (t : Table)
    → length t.fds ≡ nfiles
    → get_empty_fd t ≢ neg emfile
    → get_elem? t.fds (get_empty_fd t) ≡ some none
get_empty_fd-free t s full = elim (get_empty_fd-lowest t s) [
  | inl e ↦ absurd (full e)
  | inr (i, e, free, below) ↦ ap (λ j. get_elem? t.fds j) e ∙ free
]

pub get_empty_fd-recounted : (t : Table) (f n : ℕ) → get_empty_fd (recounted t f n) ≡ get_empty_fd t
unfolding get_empty_fd
get_empty_fd-recounted t f n = refl
