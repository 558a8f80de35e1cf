-- ===== src/Ramfs/Names/Creates.antt =====
-- New inodes in kernel/fs/ramfs/ramfs.c: ramfs_create and ramfs_mkdir keep the link counts right.
use avengers.Prelude.{
  ℕ, ◌+◌, ◌<◌, ◌≡◌, refl, sym, ap, ◌∙◌, inl, inr, true, false, Bool-cases, Option-cases, Option,
  none, some, List, [], ◌∷◌, ◌==◌, eq_of_==, lt_length, get_elem?, set, length, ok, arith,
}
use avengers.Ramfs.{
  Entry, Content, Inode, Ramfs, Memory, has_room, fresh_inode, new_dir, no_bytes, max_files,
  inode_at, set_inode, set_vnode, vget, alloc_inode, free_inode, mode_of, devid_of, read_vnode,
}
use avengers.Ramfs.Names.{
  find_free, add_entry, stored_name, is_absent, create, create_at, mkdir, mkdir_at,
}
use avengers.Ramfs.Names.Entries.{is_link, find_free-get}
use avengers.Ramfs.Names.Links.{
  links, links_of, linkcount_of, IsEmptied, IsCounted, nothing, IsLinked, inode_at-set_inode,
  links_changed, inode_at_changed, set_inode-IsCounted, recount-IsCounted,
}
use avengers.Ramfs.Names.Runs.{one, IsDir, add-IsCounted, put_entry-at}
use avengers.Ramfs.Refs.{vget-IsCounted}

-- A free inode that is found is at its number.
free_inode-get :
    (is : List (Option Inode)) (i : ℕ) → free_inode is ≡ some i → get_elem? is i ≡ some none
unfolding free_inode
free_inode-get [] i h = cc
free_inode-get (none ∷ is) i h = ground arith
free_inode-get (some x ∷ is) i h = elim (Option-cases (free_inode is)) [
  | inl z ↦ absurd (ground arith)
  | inr (k, z) ↦ ground (arith, free_inode-get is k z)
]

-- A new inode that gives no links counts one link too many, until an entry names it.
fresh-IsCounted :
    (s : Ramfs) (i : ℕ) (x : Inode)
    → IsLinked s
    → i < max_files
    → inode_at s i ≡ none
    → x.linkcount ≡ 1
    → x.ino ≡ i
    → ((k : ℕ) → links_of k (some x) ≡ 0)
    → IsCounted nothing (one i) (set_inode s i (some x))
fresh-IsCounted s i x v small h l n bare =
    set_inode-IsCounted s s' i (some x) v small refl nothing (one i) emptied
      (λ j. ground (arith, bare j, ap (links_of j) h, ap linkcount_of h)) (λ y q. ground arith)
  where
    s' : Ramfs
    s' = set_inode s i (some x)

    still : (j : ℕ) → links j s'.inodes ≡ links j s.inodes
    still j = omega (arith, links_changed s s' i (some x) v small refl j, bare j, ap (links_of j) h)

    emptied : IsEmptied s'
    emptied j k y a z p = elim (Bool-cases (i == j)) [
      | inl q ↦
          let same : some x ≡ some y =
            ground (arith, inode_at_changed s s' i (some x) v small refl j) in
          ap (links_of k) (sym same) ∙ bare k
      | inr q ↦
          v.emptied j k y (ground (arith, inode_at_changed s s' i (some x) v small refl j))
            (omega (arith, still j, z)) p
    ]

-- A directory stays one while another inode changes that keeps its links.
IsDir-set_inode :
    {owed spare : ℕ → ℕ} (s s' : Ramfs) (i dir : ℕ) (o : Option Inode) (es : List Entry)
    → IsCounted owed spare s
    → IsDir s dir es
    → i < max_files
    → s'.inodes ≡ set s.inodes i o
    → i == dir ≡ false
    → links_of dir o ≡ links_of dir (inode_at s i)
    → IsDir s' dir es
IsDir-set_inode s s' i dir o es v d small e n same = record {
  node = d.node;
  at = ground (arith, inode_at_changed s s' i o v small e dir, d.at);
  holds = d.holds;
  attached = omega (arith, d.attached, links_changed s s' i o v small e dir);
}

-- The inodes and vnodes once the vnode of a new file is read.
abbrev pub with_vnode : Ramfs → ℕ → Content → Ramfs
with_vnode s i c =
    set_vnode
      (set_inode (set_inode s i (some (fresh_inode i c))) i
        (some (record (fresh_inode i c) { linkcount = 2 })))
      i (record { refcount = 1; mode = mode_of c; len = 0; devid = devid_of c })

-- vget of a new inode reads its vnode.
vget-fresh :
    (s : Ramfs) (i : ℕ) (c : Content)
    → i < length s.inodes
    → (s.vnode i).refcount ≡ 0
    → vget (set_inode s i (some (fresh_inode i c))) i ≡ ok (with_vnode s i c)
unfolding vget read_vnode
vget-fresh s i c small z = ground (arith, inode_at-set_inode s i (some (fresh_inode i c)) small i)

module _ (s : Ramfs) (ino : ℕ) (v : IsLinked s) (free : free_inode s.inodes ≡ some ino) where
  free_at : get_elem? s.inodes ino ≡ some none
  free_at = free_inode-get s.inodes ino free

  free-lt : ino < length s.inodes
  free-lt = lt_length ino s.inodes none free_at

  free-none : inode_at s ino ≡ none
  free-none = ground (arith, free_at)

  free-uncached : (s.vnode ino).refcount ≡ 0
  free-uncached = ground (arith, v.counted ino, ap linkcount_of free-none)

  pub free-IsDir_ne : (dir : ℕ) (es : List Entry) → IsDir s dir es → ino == dir ≡ false
  free-IsDir_ne dir es d = elim (Bool-cases (ino == dir)) [
    | inr n ↦ n
    | inl y ↦
        let same : ino ≡ dir = eq_of_== ino dir y in
        let gone : some d.node ≡ none = sym d.at ∙ (sym (ap (inode_at s) same) ∙ free-none) in
        absurd cc
  ]

-- The new file in its directory.
abbrev pub created : Ramfs → ℕ → ℕ → ℕ → List ℕ → List Entry → Ramfs
created s dir i ino name es = add_entry (with_vnode s ino no_bytes) dir es i ino name

module _ (s : Ramfs) (dir ino : ℕ) (es : List Entry) (v : IsLinked s) (d : IsDir s dir es)
    (empty : free_inode s.inodes ≡ some ino) where
  small : ino < max_files
  small = omega (arith, v.sized, free-lt s ino v empty)

  got_vnode :
      vget (set_inode s ino (some (fresh_inode ino no_bytes))) ino ≡ ok (with_vnode s ino no_bytes)
  got_vnode = vget-fresh s ino no_bytes (free-lt s ino v empty) (free-uncached s ino v empty)

  placed-IsCounted : IsCounted nothing (one ino) (set_inode s ino (some (fresh_inode ino no_bytes)))
  placed-IsCounted =
      fresh-IsCounted s ino (fresh_inode ino no_bytes) v small (free-none s ino v empty) refl refl
        (λ k. refl)

  placed-IsDir : IsDir (set_inode s ino (some (fresh_inode ino no_bytes))) dir es
  placed-IsDir =
      IsDir-set_inode s (set_inode s ino (some (fresh_inode ino no_bytes))) ino dir
        (some (fresh_inode ino no_bytes)) es v d small refl (free-IsDir_ne s ino v empty dir es d)
        (ground (arith, ap (links_of dir) (free-none s ino v empty)))

  with_vnode-IsCounted : IsCounted nothing (one ino) (with_vnode s ino no_bytes)
  with_vnode-IsCounted =
      vget-IsCounted (set_inode s ino (some (fresh_inode ino no_bytes))) (with_vnode s ino no_bytes)
        ino placed-IsCounted got_vnode

  pub with_vnode-IsDir : IsDir (with_vnode s ino no_bytes) dir es
  with_vnode-IsDir =
      IsDir-set_inode (set_inode s ino (some (fresh_inode ino no_bytes)))
        (with_vnode s ino no_bytes) ino dir
        (some (record (fresh_inode ino no_bytes) { linkcount = 2 })) es placed-IsCounted
        placed-IsDir small refl (free-IsDir_ne s ino v empty dir es d)
        (ground (arith, ap (links_of dir) here))
    where
      here :
          inode_at (set_inode s ino (some (fresh_inode ino no_bytes))) ino
          ≡ some (fresh_inode ino no_bytes)
      here = ground (
        arith,
        inode_at-set_inode s ino (some (fresh_inode ino no_bytes)) (free-lt s ino v empty) ino,
      )

-- ramfs_create in a directory with a free place, when an inode and memory are free, stores the new
-- vnode and returns 0.
pub create-runs :
    (m : Memory) (s : Ramfs) (dir i ino : ℕ) (name : List ℕ) (es : List Entry)
    → IsLinked s
    → IsDir s dir es
    → is_absent es name ≡ true
    → find_free es ≡ some i
    → free_inode s.inodes ≡ some ino
    → has_room m no_bytes ≡ true
    → create m s dir name ≡ ok (created s dir i ino name es, 0, some ino)
unfolding create create_at alloc_inode
create-runs m s dir i ino name es v d absent free empty room =
    ground (arith, d.at, d.holds, absent, free, empty, room, got_vnode s dir ino es v d empty)

-- ramfs_create of a name that is not "." or "..", in a directory with a free place that does not have
-- it, when an inode and memory are free, stores the new vnode, returns 0 and keeps the link counts
-- right.
pub create-IsLinked :
    (m : Memory) (s : Ramfs) (dir i ino : ℕ) (name : List ℕ) (es : List Entry)
    → IsLinked s
    → IsDir s dir es
    → is_absent es name ≡ true
    → is_link (stored_name name) ≡ true
    → find_free es ≡ some i
    → free_inode s.inodes ≡ some ino
    → has_room m no_bytes ≡ true
    → (create m s dir name ≡ ok (created s dir i ino name es, 0, some ino))
      × IsLinked (created s dir i ino name es)
create-IsLinked m s dir i ino name es v d absent l free empty room =
    let (e, g, f) = find_free-get es i free in
    (
      create-runs m s dir i ino name es v d absent free empty room,
      add-IsCounted nothing nothing (with_vnode s ino no_bytes) dir i ino es e (stored_name name)
          (with_vnode-IsCounted s dir ino es v d empty) (with_vnode-IsDir s dir ino es v d empty) g
          f l (λ j. omega arith),
    )

-- The new directory in its parent.
abbrev pub made_dir : ℕ → ℕ → Inode
made_dir ino dir = record { size = 64; ino = ino; content = new_dir ino dir; linkcount = 1 }

abbrev pub made : Ramfs → ℕ → ℕ → ℕ → List ℕ → List Entry → Ramfs
made s dir i ino name es =
    set_inode
      (add_entry (set_inode s ino (some (fresh_inode ino (Content.entries [])))) dir es i ino name)
      ino (some (made_dir ino dir))

-- ramfs_mkdir of a name that is not "." or "..", in a directory with a free place that does not have
-- it, when an inode and memory are free, returns 0 and keeps the link counts right.
pub mkdir-IsLinked :
    (m : Memory) (s : Ramfs) (dir i ino : ℕ) (name : List ℕ) (es : List Entry)
    → IsLinked s
    → IsDir s dir es
    → is_absent es name ≡ true
    → is_link (stored_name name) ≡ true
    → find_free es ≡ some i
    → free_inode s.inodes ≡ some ino
    → has_room m (Content.entries []) ≡ true
    → (mkdir m s dir name ≡ ok (made s dir i ino name es, 0)) × IsLinked (made s dir i ino name es)
unfolding mkdir mkdir_at alloc_inode
mkdir-IsLinked m s dir i ino name es v d absent l free empty room =
    let (e, g, f) = find_free-get es i free in
    let v2 =
      add-IsCounted nothing nothing s1 dir i ino es e (stored_name name) v1 d1 g f l
        (λ j. omega arith) in
    (
      ground (arith, d.at, d.holds, absent, free, empty, room),
      recount-IsCounted s2 (made s dir i ino name es) ino (some (made_dir ino dir)) v2 small refl
          nothing nothing (λ k. ground (arith, ap (links_of k) at)) (λ x q. (fresh, at))
          (λ j. ground (arith, ap linkcount_of at)) (λ x q. ground arith),
    )
  where
    fresh : Inode
    fresh = fresh_inode ino (Content.entries [])

    s1 : Ramfs
    s1 = set_inode s ino (some (fresh_inode ino (Content.entries [])))

    s2 : Ramfs
    s2 = add_entry s1 dir es i ino name

    small : ino < max_files
    small = omega (arith, v.sized, free-lt s ino v empty)

    v1 : IsCounted nothing (one ino) s1
    v1 = fresh-IsCounted s ino fresh v small (free-none s ino v empty) refl refl (λ k. refl)

    other : ino == dir ≡ false
    other = free-IsDir_ne s ino v empty dir es d

    d1 : IsDir s1 dir es
    d1 =
        IsDir-set_inode s s1 ino dir (some fresh) es v d small refl other
          (ground (arith, ap (links_of dir) (free-none s ino v empty)))

    at : inode_at s2 ino ≡ some fresh
    at = ground (
      arith,
      put_entry-at s1 dir i ino es (record { ino = ino; name = stored_name name }) (λ k. k + 32)
          d1.node d1.at,
      inode_at-set_inode s ino (some fresh) (free-lt s ino v empty) ino,
      other,
    )
