-- ===== src/Ramfs/Refs.antt =====
-- vget and vput keep the link counts of kernel/fs/ramfs/ramfs.c.
use avengers.Prelude.{
  ℕ, ◌+◌, ◌-◌, ◌<◌, ◌≡◌, refl, sym, ap, inl, inr, Bool-cases, Option-cases, none, some, ◌==◌,
  eq_of_==, ltb, if◌then◌else◌, ok, panic, arith,
}
use avengers.Ramfs.{
  Inode, Ramfs, inode_at, set_refcount, vref, vget, vput, read_vnode, delete_vnode,
}
use avengers.Ramfs.Names.Links.{
  links_of, linkcount_of, IsCounted, IsLinked, inode_at-lt, links, nothing, recount-IsCounted,
  refs-IsCounted,
}

read_vnode-IsCounted :
    {owed spare : ℕ → ℕ} (s s' : Ramfs) (i : ℕ) (y : Inode)
    → IsCounted owed spare s
    → inode_at s i ≡ some y
    → (s.vnode i).refcount ≡ 0
    → read_vnode s i (some y) ≡ ok s'
    → IsCounted owed spare s'
unfolding read_vnode
read_vnode-IsCounted {owed} {spare} s s' i y v h z e =
    recount-IsCounted s s' i (some (record y { linkcount = y.linkcount + 1 })) v
      (omega (arith, v.sized, inode_at-lt s i y h)) (ground arith) owed spare
      (λ k. ap (links_of k) (sym h)) (λ x q. (y, h)) (λ j. ground (arith, ap linkcount_of h))
      (λ x q. ground (arith, v.numbered i y h))

read_none : (s : Ramfs) (i : ℕ) → read_vnode s i none ≡ panic
unfolding read_vnode
read_none s i = refl

delete_none : (s : Ramfs) (i : ℕ) → delete_vnode s i none ≡ panic
unfolding delete_vnode
delete_none s i = refl

pub vget-IsCounted :
    {owed spare : ℕ → ℕ} (s s' : Ramfs) (i : ℕ)
    → IsCounted owed spare s
    → vget s i ≡ ok s'
    → IsCounted owed spare s'
unfolding vget vref
vget-IsCounted s s' i v e = elim (Bool-cases (ltb 0 (s.vnode i).refcount)) [
  | inl y ↦ refs-IsCounted s s' v (ground arith) (λ j. ground arith)
  | inr n ↦ elim (Option-cases (inode_at s i)) [
    | inl z ↦ absurd (ground (arith, read_none s i))
    | inr (y, z) ↦ read_vnode-IsCounted s s' i y v z (ground arith) (ground arith)
  ]
]

-- The inode goes with its last link, once its vnode goes.
delete_vnode-IsLinked :
    (s s' : Ramfs) (i : ℕ) (y : Inode)
    → IsLinked s
    → inode_at s i ≡ some y
    → (s.vnode i).refcount ≡ 1
    → delete_vnode (set_refcount s i 0) i (some y) ≡ ok s'
    → IsLinked s'
unfolding delete_vnode
delete_vnode-IsLinked s s' i y v h z e =
    recount-IsCounted s s' i
      (if y.linkcount == 1 then none else some (record y { linkcount = y.linkcount - 1 })) v
      (omega (arith, v.sized, inode_at-lt s i y h)) (ground arith) nothing nothing same
      (λ x q. (y, h)) (λ j. ground (arith, ap linkcount_of h, v.alive i y h))
      (λ x q. ground (arith, v.numbered i y h, v.alive i y h))
  where
    last : y.linkcount ≡ 1 → (links i s.inodes ≡ 0) × (0 < i)
    last q = ground (arith, v.counted i, ap linkcount_of h)

    same :
        (k : ℕ)
        → links_of k
            (if y.linkcount == 1 then none else some (record y { linkcount = y.linkcount - 1 }))
          ≡ links_of k (inode_at s i)
    same k = elim (Bool-cases (y.linkcount == 1)) [
      | inl q ↦
          let (gone, pos) = last (eq_of_== y.linkcount 1 q) in
          ground (arith, ap (links_of k) h, v.emptied i k y h gone pos)
      | inr q ↦ ground (arith, ap (links_of k) h)
    ]

pub vput-IsLinked : (s s' : Ramfs) (i : ℕ) → IsLinked s → vput s i ≡ ok s' → IsLinked s'
unfolding vput
vput-IsLinked s s' i v e = elim (Bool-cases ((s.vnode i).refcount == 1)) [
  | inr n ↦ refs-IsCounted s s' v (ground arith) (λ j. ground arith)
  | inl last ↦ elim (Option-cases (inode_at s i)) [
    | inl z ↦ absurd (ground (arith, delete_none (set_refcount s i 0) i))
    | inr (y, z) ↦ delete_vnode-IsLinked s s' i y v z (ground arith) (ground arith)
  ]
]

-- A vnode in use only counts.
pub vget-used :
    (s : Ramfs) (i : ℕ)
    → 0 < (s.vnode i).refcount
    → vget s i ≡ ok (set_refcount s i ((s.vnode i).refcount + 1))
unfolding vget vref
vget-used s i h = ground arith

pub vput-used :
    (s : Ramfs) (i : ℕ)
    → 1 < (s.vnode i).refcount
    → vput s i ≡ ok (set_refcount s i ((s.vnode i).refcount - 1))
unfolding vput
vput-used s i h = ground arith

pub vget-missing :
    (s : Ramfs) (i : ℕ) → (s.vnode i).refcount ≡ 0 → inode_at s i ≡ none → vget s i ≡ panic
unfolding vget
vget-missing s i z h = ground (arith, read_none s i)
