-- ===== src/Ramfs/Names/Removes.antt =====
-- Entries that leave their directory in kernel/fs/ramfs/ramfs.c: ramfs_unlink and ramfs_rmdir keep
-- the link counts right.
use avengers.Prelude.{
  ℕ, Option, ◌+◌, ◌-◌, ◌<◌, ◌≡◌, refl, sym, ap, ◌∙◌, inl, inr, Bool, true, false, Bool-cases, ◌||◌,
  none, some, List, [], ◌∷◌, ◌==◌, ==-refl, eq_of_==, ltb, if◌then◌else◌, get_elem?, set, length,
  ok, arith,
}
use avengers.Ramfs.{
  Entry, Content, Inode, Ramfs, max_files, inode_at, set_inode, set_vnode, set_refcount, vget, vput,
  vref, mode_of, devid_of, s_ifdir, read_vnode, delete_vnode, neg, enotempty, dot, dot_dot,
  dirent_size,
}
use avengers.Ramfs.Names.{
  find_named, clear_entry, change_links, removed, unlink, unlink_at, rmdir, rmdir_at, rmdir_child,
  is_empty_dir, name_match,
}
use avengers.Ramfs.Names.Entries.{
  is_link, one_link, links_in, links_in-set, find_named-get, eq_of_name_match,
}
use avengers.Ramfs.Names.Links.{
  links, links_of, linkcount_of, IsEmptied, IsCounted, nothing, IsLinked, inode_at-lt,
  inode_at-set_inode, links-set_inode, links_changed, inode_at_changed, set_inode-IsCounted,
}
use avengers.Ramfs.Names.Runs.{
  one, IsDir, known_after, put_entry-at, put_entry-vnode, lower-IsCounted, links_of-entries,
}
use avengers.Ramfs.Refs.{vget-IsCounted, vput-IsLinked}

-- What vget of a live inode does.
record Got (s s' : Ramfs) (i : ℕ) (y : Inode) : Type 0 where
  run : vget s i ≡ ok s'
  counted : IsLinked s'
  referenced : 0 < (s'.vnode i).refcount
  mode : (s'.vnode i).mode ≡ mode_of y.content
  node : Inode
  at : inode_at s' i ≡ some node
  kept : node.content ≡ y.content
  others : (j : ℕ) → i == j ≡ false → inode_at s' j ≡ inode_at s j
  same_links : (j : ℕ) → links j s'.inodes ≡ links j s.inodes
  count : (s'.vnode i).refcount ≡ (s.vnode i).refcount + 1

got :
    (s : Ramfs) (i : ℕ) (y : Inode)
    → IsLinked s
    → inode_at s i ≡ some y
    → (0 < (s.vnode i).refcount → (s.vnode i).mode ≡ mode_of y.content)
    → (s' : Ramfs) × Got s s' i y
unfolding vget vref read_vnode
got s i y v h m = elim (Bool-cases (ltb 0 (s.vnode i).refcount)) [
  | inl c ↦
      let s' : Ramfs = set_refcount s i ((s.vnode i).refcount + 1) in
      let run : vget s i ≡ ok s' = ground arith in
      (
        s',
        record {
          run = run;
          counted = vget-IsCounted s s' i v run;
          referenced = ground arith;
          mode = ground (arith, m);
          node = y;
          at = h;
          kept = refl;
          others = λ j n. refl;
          same_links = λ j. refl;
          count = ground arith;
        },
      )
  | inr c ↦
      let y' : Inode = record y { linkcount = y.linkcount + 1 } in
      let s' : Ramfs = set_vnode (set_inode s i (some y')) i (record {
        refcount = 1;
        mode = mode_of y.content;
        len = y.size;
        devid = devid_of y.content;
      }) in
      let small : i < length s.inodes = inode_at-lt s i y h in
      let run : vget s i ≡ ok s' = ground (arith, v.numbered i y h) in
      (
        s',
        record {
          run = run;
          counted = vget-IsCounted s s' i v run;
          referenced = ground arith;
          mode = ground arith;
          node = y';
          at = ground (arith, inode_at-set_inode s i (some y') small i);
          kept = refl;
          others = λ j n. ground (arith, inode_at-set_inode s i (some y') small j);
          same_links = λ j. omega (arith, links-set_inode s i (some y') small j, ap (links_of j) h);
          count = ground arith;
        },
      )
]

Got-IsDir :
    (s s' : Ramfs) (i dir : ℕ) (y : Inode) (es : List Entry)
    → Got s s' i y
    → IsDir s dir es
    → i == dir ≡ false
    → IsDir s' dir es
Got-IsDir s s' i dir y es w d n = record {
  node = d.node;
  at = w.others dir n ∙ d.at;
  holds = d.holds;
  attached = omega (arith, d.attached, w.same_links dir);
}

-- What vput of a live inode does.
record Given (s s' : Ramfs) (i : ℕ) : Type 0 where
  run : vput s i ≡ ok s'
  counted : IsLinked s'
  others : (j : ℕ) → i == j ≡ false → inode_at s' j ≡ inode_at s j
  count : (s'.vnode i).refcount + 1 ≡ (s.vnode i).refcount

vput-runs :
    (s : Ramfs) (i : ℕ) (y : Inode)
    → IsLinked s
    → inode_at s i ≡ some y
    → 0 < (s.vnode i).refcount
    → (s' : Ramfs) × Given s s' i
unfolding vput delete_vnode
vput-runs s i y v h p = elim (Bool-cases ((s.vnode i).refcount == 1)) [
  | inl q ↦
      let o : Option Inode =
        if y.linkcount == 1 then none else some (record y { linkcount = y.linkcount - 1 }) in
      let s' : Ramfs = set_inode (set_refcount s i 0) i o in
      let run : vput s i ≡ ok s' = ground arith in
      let small : i < length s.inodes = inode_at-lt s i y h in
      (
        s',
        record {
          run = run;
          counted = vput-IsLinked s s' i v run;
          others = λ j n. inode_at-set_inode s i o small j ∙ rw n refl;
          count = ground arith;
        },
      )
  | inr q ↦
      let s' : Ramfs = set_refcount s i ((s.vnode i).refcount - 1) in
      let run : vput s i ≡ ok s' = ground arith in
      (
        s',
        record {
          run = run;
          counted = vput-IsLinked s s' i v run;
          others = λ j n. refl;
          count = ground arith;
        },
      )
]

is_link-match : (a b : List ℕ) → name_match a b ≡ true → is_link b ≡ true → is_link a ≡ true
is_link-match a b m l = ap is_link (eq_of_name_match a b m) ∙ l

-- An entry that goes leaves the count of its inode one too high.
drop-IsCounted :
    (s : Ramfs) (dir i target : ℕ) (es : List Entry) (e : Entry)
    → IsLinked s
    → IsDir s dir es
    → get_elem? es i ≡ some e
    → e.ino ≡ target
    → is_link e.name ≡ true
    → target == dir ≡ false
    → ((k : ℕ) → links_of k (inode_at s target) ≡ 0)
    → IsCounted nothing (one target) (clear_entry s dir es i target)
drop-IsCounted s dir i target es e v d g t l n bare =
    set_inode-IsCounted s s' dir (some y) v small inodes nothing (one target) emptied
      (λ j. ground (arith, balance j, ap linkcount_of d.at))
      (λ q h. ground (arith, v.alive dir d.node d.at, v.numbered dir d.node d.at))
  where
    new : Entry
    new = record { ino = target; name = [] }

    s' : Ramfs
    s' = clear_entry s dir es i target

    y : Inode
    y = record d.node { content = Content.entries (set es i new); size = d.node.size - 32 }

    small : dir < max_files
    small = omega (arith, v.sized, inode_at-lt s dir d.node d.at)

    inodes : s'.inodes ≡ set s.inodes dir (some y)
    inodes = ground (arith, d.at)

    one_old : (j : ℕ) → one_link j e ≡ one target j
    one_old j = ground (arith, l, t)

    balance : (j : ℕ) → links_of j (some y) + one target j ≡ links_of j (inode_at s dir)
    balance j = omega (
      arith,
      links_in-set j i es e new g,
      ap (links_of j) d.at,
      links_of-entries j d.node es d.holds,
      one_old j,
    )

    shrunk : (j : ℕ) → links j s'.inodes + one target j ≡ links j s.inodes
    shrunk j = omega (arith, links_changed s s' dir (some y) v small inodes j, balance j)

    emptied : IsEmptied s'
    emptied j k x h z p = elim (Bool-cases (dir == j)) [
      | inl q ↦ absurd (ground (arith, shrunk j, d.attached))
      | inr q ↦
          let was : inode_at s j ≡ some x =
            sym (ground (arith, inode_at_changed s s' dir (some y) v small inodes j)) ∙ h in
          elim (Bool-cases (target == j)) [
            | inl r ↦
                let here : target ≡ j = eq_of_== target j r in
                ap (links_of k) (sym was ∙ ap (inode_at s) (sym here)) ∙ bare k
            | inr r ↦ v.emptied j k x was (ground (arith, shrunk j)) p
          ]
    ]

-- A count that changes, with the vnodes as they are.
change_links-at :
    (s : Ramfs) (i : ℕ) (f : ℕ → ℕ) (z : Inode)
    → inode_at s i ≡ some z
    → (inode_at (change_links s i f) i ≡ some (record z { linkcount = f z.linkcount }))
      × ((change_links s i f).vnode ≡ s.vnode)
change_links-at s i f z h = (
  ap (λ t. inode_at t i) same
      ∙ ground (arith, inode_at-set_inode s i (some z') (inode_at-lt s i z h) i),
  ap (λ t. t.vnode) same,
)
  where
    z' : Inode
    z' = record z { linkcount = f z.linkcount }

    same : change_links s i f ≡ set_inode s i (some z')
    same = ground arith

change_links-others :
    (s : Ramfs) (i : ℕ) (f : ℕ → ℕ) (z : Inode)
    → inode_at s i ≡ some z
    → (j : ℕ) → i == j ≡ false
    → inode_at (change_links s i f) j ≡ inode_at s j
change_links-others s i f z h j n =
    let z' : Inode = record z { linkcount = f z.linkcount } in
    let same : change_links s i f ≡ set_inode s i (some z') = ground arith in
    ap (λ t. inode_at t j) same
    ∙ (inode_at-set_inode s i (some z') (inode_at-lt s i z h) j ∙ rw n refl)

-- A live inode that gives no links loses an entry, and its vnode a reference.
removed-IsLinked :
    (s : Ramfs) (dir i ino : ℕ) (name : List ℕ) (es : List Entry) (y : Inode)
    → IsLinked s
    → (d : IsDir s dir es) → find_named es name ≡ some (i, ino)
    → is_link name ≡ true
    → ino == dir ≡ false
    → inode_at s ino ≡ some y
    → ((k : ℕ) → links_of k (some y) ≡ 0)
    → 0 < (s.vnode ino).refcount
    → (s' : Ramfs) × Given (removed s dir es i ino) s' ino
      × (inode_at s' dir
          ≡ some (record d.node {
            content = Content.entries (set es i (record { ino = ino; name = [] }));
            size = d.node.size - dirent_size;
          }))
      × ((s'.vnode ino).refcount + 1 ≡ (s.vnode ino).refcount)
removed-IsLinked s dir i ino name es y v d found l n at bare held =
    let (e, g, t, m) = find_named-get es name i ino found in
    let new : Entry = record { ino = ino; name = [] } in
    let v1 =
      drop-IsCounted s dir i ino es e v d g t (is_link-match e.name name m l) n
        (λ k. ap (links_of k) at ∙ bare k) in
    let (z, at1, count) = known_after s dir i ino es new (λ k. k - 32) d.node y d.at at in
    let s1 : Ramfs = clear_entry s dir es i ino in
    let counts : (s1.vnode ino).refcount ≡ (s.vnode ino).refcount =
      ap (λ w. (w ino).refcount) (put_entry-vnode s dir i es new (λ k. k - 32) d.node d.at) in
    let many : 1 < z.linkcount = ground (arith, v1.counted ino, ap linkcount_of at1, counts) in
    let (at2, vnodes) = change_links-at s1 ino (λ k. k - 1) z at1 in
    let v2 = lower-IsCounted nothing nothing s1 ino z v1 at1 many (λ j. omega arith) in
    let (s', w) =
      vput-runs (removed s dir es i ino) ino (record z { linkcount = z.linkcount - 1 }) v2 at2
        (omega (arith, held, counts, ap (λ w. (w ino).refcount) vnodes)) in
    (
      s',
      w,
      w.others dir n
          ∙ change_links-others s1 ino (λ k. k - 1) z at1 dir n
          ∙ put_entry-at s dir i dir es new (λ k. k - 32) d.node d.at
          ∙ rw (==-refl dir) refl,
      omega (arith, w.count, counts, ap (λ w. (w ino).refcount) vnodes),
    )

not_counted :
    (name : List ℕ)
    → ((elim name as (λ n. Bool) [ [] ↦ true | c ∷ cs ↦ false ])
        || (name_match name dot || name_match name dot_dot))
      ≡ true
    → is_link name ≡ false
not_counted [] h = refl
not_counted (c ∷ cs) h = ground arith

-- Only "." and ".." are in an empty directory.
links_in-is_empty_dir : (k : ℕ) (es : List Entry) → is_empty_dir es ≡ true → links_in k es ≡ 0
links_in-is_empty_dir k [] h = refl
links_in-is_empty_dir k (e ∷ es) h = ground (arith, not_counted e.name, links_in-is_empty_dir k es)

bare_file : (x : Inode) → mode_of x.content == s_ifdir ≡ false → (k : ℕ) → links_of k (some x) ≡ 0
bare_file x h k = ground arith

-- ramfs_unlink of an entry that is not "." or "..", of a live inode that is not a directory and whose
-- vnode, if it has one, has its mode, returns 0, empties the name of that entry and lowers the size
-- of the directory by one entry, leaves the vnode of the inode with as many references as before,
-- and keeps the link counts right: the count of each inode is the number of its links, plus one for
-- a vnode in use, and an inode that is there has a positive count.
pub unlink-IsLinked :
    (s : Ramfs) (dir i ino : ℕ) (name : List ℕ) (es : List Entry) (y : Inode)
    → IsLinked s
    → (d : IsDir s dir es) → find_named es name ≡ some (i, ino)
    → is_link name ≡ true
    → inode_at s ino ≡ some y
    → mode_of y.content == s_ifdir ≡ false
    → (0 < (s.vnode ino).refcount → (s.vnode ino).mode ≡ mode_of y.content)
    → (s' : Ramfs) × (unlink s dir name ≡ ok (s', 0))
      × IsLinked s'
      × (x : Inode) × (inode_at s' dir ≡ some x)
      × (x.content ≡ Content.entries (set es i (record { ino = ino; name = [] })))
      × (x.size ≡ d.node.size - dirent_size)
      × ((s'.vnode ino).refcount ≡ (s.vnode ino).refcount)
unfolding unlink unlink_at
unlink-IsLinked s dir i ino name es y v d found l at file m =
    let (s1, w) = got s ino y v at m in
    let d1 : IsDir s1 dir es = record {
      node = d.node;
      at = w.others dir not_dir ∙ d.at;
      holds = d.holds;
      attached = omega (arith, d.attached, w.same_links dir);
    } in
    let (s2, g, cleared, count) =
      removed-IsLinked s1 dir i ino name es w.node w.counted d1 found l not_dir w.at
        (bare_file w.node (ground (arith, w.kept))) w.referenced in
    (
      s2,
      ground (arith, d.at, d.holds, found, w.run, w.mode, file, g.run),
      g.counted,
      _,
      cleared,
      refl,
      refl,
      omega (arith, count, w.count),
    )
  where
    not_dir : ino == dir ≡ false
    not_dir = elim (Bool-cases (ino == dir)) [
      | inr r ↦ r
      | inl r ↦
          let here : ino ≡ dir = eq_of_== ino dir r in
          let same : some d.node ≡ some y = sym d.at ∙ (sym (ap (inode_at s) here) ∙ at) in
          absurd (ground (arith, d.holds, same))
    ]

-- ramfs_rmdir of an entry of another live directory, whose vnode, if it has one, has its mode, keeps
-- the link counts right; it returns 0 when that directory has no entries but "." and "..", and
-- -ENOTEMPTY otherwise.
pub rmdir-IsLinked :
    (s : Ramfs) (dir i ino : ℕ) (name : List ℕ) (es children : List Entry) (y : Inode)
    → IsLinked s
    → IsDir s dir es
    → find_named es name ≡ some (i, ino)
    → is_link name ≡ true
    → name_match dot name ≡ false
    → name_match dot_dot name ≡ false
    → ino == dir ≡ false
    → inode_at s ino ≡ some y
    → y.content ≡ Content.entries children
    → (0 < (s.vnode ino).refcount → (s.vnode ino).mode ≡ mode_of y.content)
    → (s' : Ramfs) × (rmdir s dir name
        ≡ ok (s', if is_empty_dir children then 0 else neg enotempty))
      × IsLinked s'
unfolding rmdir rmdir_at rmdir_child
rmdir-IsLinked s dir i ino name es children y v d found l no_dot no_dots n at holds m =
    let (s1, w) = got s ino y v at m in
    let d1 : IsDir s1 dir es = Got-IsDir s s1 ino dir y es w d n in
    elim (Bool-cases (is_empty_dir children)) [
      | inl e ↦
          let (s2, g, _, _) =
            removed-IsLinked s1 dir i ino name es w.node w.counted d1 found l n w.at
              (bare w.node (w.kept ∙ holds) e) w.referenced in
          (s2, ground (arith, d.at, d.holds, found, w.run, w.mode, w.at, w.kept, g.run), g.counted)
      | inr e ↦
          let (s2, g) = vput-runs s1 ino w.node w.counted w.at w.referenced in
          (s2, ground (arith, d.at, d.holds, found, w.run, w.mode, w.at, w.kept, g.run), g.counted)
    ]
  where
    bare :
        (x : Inode)
        → x.content ≡ Content.entries children
        → is_empty_dir children ≡ true
        → (k : ℕ) → links_of k (some x) ≡ 0
    bare x h e k = links_of-entries k x children h ∙ links_in-is_empty_dir k children e
