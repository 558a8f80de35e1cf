-- ===== src/Ramfs/Names/Links.antt =====
-- The link counts of kernel/fs/ramfs/ramfs.c: an inode counts the entries that name it and its vnode.
use avengers.Prelude.{
  ℕ, zero, suc, ◌+◌, ◌<◌, ◌≡◌, refl, sym, ap, ◌∙◌, inl, inr, Bool-cases, Option-cases, Option, none,
  some, List, [], ◌∷◌, ◌==◌, ltb, if◌then◌else◌, get_elem?, set, length, length-set, lt_length,
  get_elem?-set, arith,
}
use avengers.Ramfs.{Content, Inode, Ramfs, max_files, inode_at, set_inode}
use avengers.Ramfs.Names.Entries.{links_in}

-- the links that an inode gives to another
abbrev pub links_of : ℕ → Option Inode → ℕ
links_of x none = 0
links_of x (some y) = elim y.content [
  | Content.bytes b ↦ 0
  | Content.entries es ↦ links_in x es
  | Content.chr d ↦ 0
  | Content.blk d ↦ 0
]

abbrev pub links : ℕ → List (Option Inode) → ℕ
links x [] = 0
links x (o ∷ is) = links_of x o + links x is

abbrev pub linkcount_of : Option Inode → ℕ
linkcount_of none = 0
linkcount_of (some y) = y.linkcount

links-set :
    (x i : ℕ) (is : List (Option Inode)) (old new : Option Inode)
    → get_elem? is i ≡ some old
    → links x (set is i new) + links_of x old ≡ links x is + links_of x new
links-set x i [] old new g = cc
links-set x zero (o ∷ is) old new g = let same : o ≡ old = cc in omega (arith, ap (links_of x) same)
links-set x (suc i) (o ∷ is) old new g = omega (arith, links-set x i is old new g)

get_lt :
    (is : List (Option Inode)) (i : ℕ)
    → i < length is
    → (o : Option Inode) × (get_elem? is i ≡ some o)
get_lt [] i h = absurd (omega arith)
get_lt (o ∷ is) zero h = (o, refl)
get_lt (o ∷ is) (suc i) h = get_lt is i (omega arith)

-- A directory that no entry names holds no links.
abbrev pub IsEmptied : Ramfs → Type 0
IsEmptied s =
    (i k : ℕ) (y : Inode)
    → inode_at s i ≡ some y
    → links i s.inodes ≡ 0
    → 0 < i
    → links_of k (some y) ≡ 0

-- The count of a live inode: the entries that name it, one for its vnode, and one for the root; in
-- the course of an operation, counts may be owed or too high.
pub record IsCounted (owed spare : ℕ → ℕ) (s : Ramfs) : Type 0 where
  pub sized : length s.inodes ≡ max_files
  pub counted :
      (i : ℕ)
      → linkcount_of (inode_at s i) + owed i
        ≡ links i s.inodes
          + (if ltb 0 (s.vnode i).refcount then 1 else 0)
          + (if i == 0 then 1 else 0)
          + spare i
  pub alive : (i : ℕ) (y : Inode) → inode_at s i ≡ some y → 0 < y.linkcount
  pub numbered : (i : ℕ) (y : Inode) → inode_at s i ≡ some y → y.ino ≡ i
  pub emptied : IsEmptied s

abbrev pub nothing : ℕ → ℕ
nothing i = 0

abbrev pub IsLinked : Ramfs → Type 0
IsLinked s = IsCounted nothing nothing s

module _ (s : Ramfs) (i : ℕ) (o : Option Inode) (small : i < length s.inodes) where
  pub inode_at-set_inode :
      (j : ℕ) → inode_at (set_inode s i o) j ≡ (if i == j then o else inode_at s j)
  inode_at-set_inode j = ground (arith, get_elem?-set i j s.inodes o)

  pub links-set_inode :
      (x : ℕ)
      → links x (set_inode s i o).inodes + links_of x (inode_at s i)
        ≡ links x s.inodes + links_of x o
  links-set_inode x =
      let (old, g) = get_lt s.inodes i small in
      omega (arith, links-set x i s.inodes old o g, ap (links_of x) (here old g))
    where
      here : (old : Option Inode) → get_elem? s.inodes i ≡ some old → inode_at s i ≡ old
      here old g = ground arith

pub inode_at-lt : (s : Ramfs) (i : ℕ) (y : Inode) → inode_at s i ≡ some y → i < length s.inodes
inode_at-lt s i y e = elim (Option-cases (get_elem? s.inodes i)) [
  | inl z ↦ absurd (ground arith)
  | inr (o, z) ↦ lt_length i s.inodes o z
]

abbrev pub cached : Ramfs → ℕ → ℕ
cached s j = if ltb 0 (s.vnode j).refcount then 1 else 0

module _ {owed spare : ℕ → ℕ} (s s' : Ramfs) (i : ℕ) (o : Option Inode) (v : IsCounted owed spare s)
    (small : i < max_files) (e : s'.inodes ≡ set s.inodes i o) where
  pub inode_at_changed : (j : ℕ) → inode_at s' j ≡ (if i == j then o else inode_at s j)
  inode_at_changed j =
      ap (λ is. inode_at (record s { inodes = is }) j) e
      ∙ inode_at-set_inode s i o (omega (arith, v.sized)) j

  pub links_changed :
      (j : ℕ) → links j s'.inodes + links_of j (inode_at s i) ≡ links j s.inodes + links_of j o
  links_changed j =
      ap (λ is. links j is + links_of j (inode_at s i)) e
      ∙ links-set_inode s i o (omega (arith, v.sized)) j

  -- The change of one inode, with the references that go with it.
  pub set_inode-IsCounted :
      (owed' spare' : ℕ → ℕ)
      → IsEmptied s'
      → ((j : ℕ)
          → (if i == j then linkcount_of o else linkcount_of (inode_at s j))
              + links_of j (inode_at s i)
              + cached s j
              + owed' j
              + spare j
            ≡ linkcount_of (inode_at s j) + links_of j o + cached s' j + owed j + spare' j)
      → ((y : Inode) → o ≡ some y → (0 < y.linkcount) × (y.ino ≡ i))
      → IsCounted owed' spare' s'
  set_inode-IsCounted owed' spare' emptied balance fine = record {
    sized = ap length e ∙ (length-set i s.inodes o ∙ v.sized);
    counted = λ j. omega (
      arith,
      ap linkcount_of (inode_at_changed j),
      count_at j,
      v.counted j,
      balance j,
      links_changed j,
    );
    alive = λ j y h. ground (arith, inode_at_changed j, v.alive j y, fine y);
    numbered = λ j y h. ground (arith, inode_at_changed j, v.numbered j y, fine y);
    emptied = emptied;
  }
    where
      count_at :
          (j : ℕ)
          → linkcount_of (if i == j then o else inode_at s j)
            ≡ (if i == j then linkcount_of o else linkcount_of (inode_at s j))
      count_at j = ground arith

  -- The same, for a change of the count alone.
  pub recount-IsCounted :
      (owed' spare' : ℕ → ℕ)
      → ((k : ℕ) → links_of k o ≡ links_of k (inode_at s i))
      → ((y : Inode) → o ≡ some y → (x : Inode) × (inode_at s i ≡ some x))
      → ((j : ℕ)
          → (if i == j then linkcount_of o else linkcount_of (inode_at s j))
              + cached s j
              + owed' j
              + spare j
            ≡ linkcount_of (inode_at s j) + cached s' j + owed j + spare' j)
      → ((y : Inode) → o ≡ some y → (0 < y.linkcount) × (y.ino ≡ i))
      → IsCounted owed' spare' s'
  recount-IsCounted owed' spare' same known balance fine =
      set_inode-IsCounted owed' spare' emptied' (λ j. omega (arith, same j, balance j)) fine
    where
      still : (j : ℕ) → links j s'.inodes ≡ links j s.inodes
      still j = omega (arith, links_changed j, same j)

      emptied' : IsEmptied s'
      emptied' j k y h none_left pos = elim (Bool-cases (i == j)) [
        | inr n ↦ v.emptied j k y (ground (arith, inode_at_changed j)) (omega (arith, still j)) pos
        | inl q ↦
            let here : o ≡ some y = ground (arith, inode_at_changed j) in
            let (x, old) = known y here in
            ap (links_of k) (sym here)
            ∙ (same k
                ∙ (ap (links_of k) old
                    ∙ v.emptied i k x old (ground (arith, still j)) (ground arith)))
      ]

-- References alone, while a vnode stays cached or not.
pub refs-IsCounted :
    {owed spare : ℕ → ℕ} (s s' : Ramfs)
    → IsCounted owed spare s
    → s'.inodes ≡ s.inodes
    → ((j : ℕ) → cached s' j ≡ cached s j)
    → IsCounted owed spare s'
refs-IsCounted s s' v e same = record {
  sized = ap length e ∙ v.sized;
  counted = λ j. omega (arith, v.counted j, same j, ap linkcount_of (at j), ap (links j) e);
  alive = λ j y h. v.alive j y (sym (at j) ∙ h);
  numbered = λ j y h. v.numbered j y (sym (at j) ∙ h);
  emptied = λ j k y h n p. v.emptied j k y (sym (at j) ∙ h) (omega (arith, n, ap (links j) e)) p;
}
  where
    at : (j : ℕ) → inode_at s' j ≡ inode_at s j
    at j = ap (λ is. inode_at (record s { inodes = is }) j) e
