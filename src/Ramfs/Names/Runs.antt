-- ===== src/Ramfs/Names/Runs.antt =====
-- The operations on directories of kernel/fs/ramfs/ramfs.c keep the link counts right.
use avengers.Prelude.{
  ℕ, ◌+◌, ◌-◌, ◌<◌, ◌≡◌, refl, sym, ap, ◌∙◌, inl, inr, Bool, true, false, Bool-cases, some, List,
  [], ◌∷◌, ◌==◌, eq_of_==, if◌then◌else◌, get_elem?, set, ok, arith,
}
use avengers.Ramfs.{Entry, Content, Inode, Ramfs, max_files, inode_at, set_inode}
use avengers.Ramfs.Names.{
  is_free, find_free, put_entry, add_entry, stored_name, change_links, link, link_at, is_absent,
}
use avengers.Ramfs.Names.Entries.{is_link, one_link, links_in, links_in-set, find_free-get}
use avengers.Ramfs.Names.Links.{
  links, links_of, linkcount_of, IsEmptied, IsCounted, nothing, IsLinked, inode_at-lt,
  inode_at-set_inode, links_changed, inode_at_changed, set_inode-IsCounted, recount-IsCounted,
}

abbrev pub one : ℕ → ℕ → ℕ
one i j = if i == j then 1 else 0

-- A directory with its entries, that an entry names or that is the root.
pub record IsDir (s : Ramfs) (dir : ℕ) (es : List Entry) : Type 0 where
  pub node : Inode
  pub at : inode_at s dir ≡ some node
  pub holds : node.content ≡ Content.entries es
  pub attached : 0 < links dir s.inodes + one 0 dir

pub links_of-entries :
    (k : ℕ) (x : Inode) (es : List Entry)
    → x.content ≡ Content.entries es
    → links_of k (some x) ≡ links_in k es
links_of-entries k x es h = ground arith

not_link :
    (name : List ℕ)
    → elim name as (λ n. Bool) [ [] ↦ true | c ∷ cs ↦ false ] ≡ true
    → is_link name ≡ false
not_link [] h = refl
not_link (c ∷ cs) h = cc

-- A new entry in a free place is a link that is owed or was spare.
pub add-IsCounted :
    {owed spare : ℕ → ℕ} (owed' spare' : ℕ → ℕ) (s : Ramfs) (dir i target : ℕ) (es : List Entry)
    (e : Entry) (name : List ℕ)
    → IsCounted owed spare s
    → IsDir s dir es
    → get_elem? es i ≡ some e
    → is_free e ≡ true
    → is_link name ≡ true
    → ((j : ℕ) → owed' j + spare j ≡ owed j + one target j + spare' j)
    → IsCounted owed' spare'
        (put_entry s dir es i (record { ino = target; name = name }) (λ n. n + 32))
add-IsCounted owed' spare' s dir i target es e name v d g f l shift =
    set_inode-IsCounted s s' dir (some y) v small inodes owed' spare' emptied
      (λ j. ground (arith, balance j, ap linkcount_of d.at, shift j))
      (λ q h. ground (arith, v.alive dir d.node d.at, v.numbered dir d.node d.at))
  where
    new : Entry
    new = record { ino = target; name = name }

    s' : Ramfs
    s' = put_entry s dir es i new (λ n. n + 32)

    y : Inode
    y = record d.node { content = Content.entries (set es i new); size = d.node.size + 32 }

    small : dir < max_files
    small = omega (arith, v.sized, inode_at-lt s dir d.node d.at)

    inodes : s'.inodes ≡ set s.inodes dir (some y)
    inodes = ground (arith, d.at)

    no_link : (j : ℕ) → one_link j e ≡ 0
    no_link j = ground (arith, not_link e.name f)

    one_new : (j : ℕ) → one_link j new ≡ one target j
    one_new j = ground (arith, l)

    balance : (j : ℕ) → links_of j (some y) ≡ links_of j (inode_at s dir) + one target j
    balance j = omega (
      arith,
      links_in-set j i es e new g,
      no_link j,
      ap (links_of j) d.at,
      links_of-entries j d.node es d.holds,
      one_new j,
    )

    grown : (j : ℕ) → links j s'.inodes ≡ links j s.inodes + one target j
    grown j = omega (arith, links_changed s s' dir (some y) v small inodes j, balance j)

    emptied : IsEmptied s'
    emptied j k x h z p = elim (Bool-cases (dir == j)) [
      | inl q ↦ absurd (ground (arith, grown j, d.attached))
      | inr q ↦
          v.emptied j k x
            (sym (ground (arith, inode_at_changed s s' dir (some y) v small inodes j)) ∙ h)
            (omega (arith, z, grown j)) p
    ]

module _ {owed spare : ℕ → ℕ} (owed' spare' : ℕ → ℕ) (s : Ramfs) (i : ℕ) (y : Inode)
    (v : IsCounted owed spare s) (at : inode_at s i ≡ some y) where
  raise-IsCounted :
      ((j : ℕ) → one i j + owed' j + spare j ≡ owed j + spare' j)
      → IsCounted owed' spare' (change_links s i (λ n. n + 1))
  raise-IsCounted shift =
      recount-IsCounted s (change_links s i (λ n. n + 1)) i
        (some (record y { linkcount = y.linkcount + 1 })) v
        (omega (arith, v.sized, inode_at-lt s i y at)) (ground arith) owed' spare'
        (λ k. ap (links_of k) (sym at)) (λ x h. (y, at))
        (λ j. ground (arith, ap linkcount_of at, shift j))
        (λ x h. ground (arith, v.numbered i y at))

  pub lower-IsCounted :
      1 < y.linkcount
      → ((j : ℕ) → owed' j + spare j ≡ one i j + owed j + spare' j)
      → IsCounted owed' spare' (change_links s i (λ n. n - 1))
  lower-IsCounted many shift =
      recount-IsCounted s (change_links s i (λ n. n - 1)) i
        (some (record y { linkcount = y.linkcount - 1 })) v
        (omega (arith, v.sized, inode_at-lt s i y at)) (ground arith) owed' spare'
        (λ k. ap (links_of k) (sym at)) (λ x h. (y, at))
        (λ j. ground (arith, ap linkcount_of at, shift j))
        (λ x h. ground (arith, v.numbered i y at))

-- Where the inodes are, after an entry of a directory has changed.
pub put_entry-at :
    (s : Ramfs) (dir i j : ℕ) (es : List Entry) (new : Entry) (f : ℕ → ℕ) (x : Inode)
    → inode_at s dir ≡ some x
    → inode_at (put_entry s dir es i new f) j ≡ (
        if dir == j
        then some (record x { content = Content.entries (set es i new); size = f x.size })
        else inode_at s j)
put_entry-at s dir i j es new f x d =
    ap (λ t. inode_at t j) same ∙ inode_at-set_inode s dir (some y) (inode_at-lt s dir x d) j
  where
    y : Inode
    y = record x { content = Content.entries (set es i new); size = f x.size }

    same : put_entry s dir es i new f ≡ set_inode s dir (some y)
    same = ground arith

pub put_entry-vnode :
    (s : Ramfs) (dir i : ℕ) (es : List Entry) (new : Entry) (f : ℕ → ℕ) (x : Inode)
    → inode_at s dir ≡ some x
    → (put_entry s dir es i new f).vnode ≡ s.vnode
put_entry-vnode s dir i es new f x d = ground arith

-- Every inode stays, with its link count.
pub known_after :
    (s : Ramfs) (dir i j : ℕ) (es : List Entry) (new : Entry) (f : ℕ → ℕ) (x y : Inode)
    → inode_at s dir ≡ some x
    → inode_at s j ≡ some y
    → (z : Inode) × (inode_at (put_entry s dir es i new f) j ≡ some z) × (z.linkcount ≡ y.linkcount)
known_after s dir i j es new f x y d h = elim (Bool-cases (dir == j)) [
  | inl q ↦
      let same : dir ≡ j = eq_of_== dir j q in
      let one_inode : some x ≡ some y = sym d ∙ (ap (inode_at s) same ∙ h) in
      (
        record x { content = Content.entries (set es i new); size = f x.size },
        ground (arith, put_entry-at s dir i j es new f x d),
        cc,
      )
  | inr q ↦ (y, ground (arith, put_entry-at s dir i j es new f x d), refl)
]

-- ramfs_link of a live inode into a directory with a free place returns 0 and keeps the link counts
-- right.
link-IsLinked :
    (s : Ramfs) (old dir i : ℕ) (name : List ℕ) (es : List Entry) (y : Inode)
    → IsLinked s
    → IsDir s dir es
    → inode_at s old ≡ some y
    → is_absent es name ≡ true
    → is_link (stored_name name) ≡ true
    → find_free es ≡ some i
    → (s' : Ramfs) × (link s old dir name ≡ ok (s', 0)) × IsLinked s'
unfolding link link_at
link-IsLinked s old dir i name es y v d at absent l free =
    let (e, g, f) = find_free-get es i free in
    let v1 =
      add-IsCounted (one old) nothing s dir i old es e (stored_name name) v d g f l
        (λ j. omega arith) in
    let (z, at', count) =
      known_after s dir i old es (record { ino = old; name = stored_name name }) (λ n. n + 32)
        d.node y d.at at in
    (
      change_links (add_entry s dir es i old name) old (λ n. n + 1),
      ground (arith, d.at, d.holds, absent, free),
      raise-IsCounted nothing nothing (add_entry s dir es i old name) old z v1 at'
          (λ j. omega arith),
    )
