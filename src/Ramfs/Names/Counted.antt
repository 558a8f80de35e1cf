-- ===== src/Ramfs/Names/Counted.antt =====
-- The references that the routines of kernel/fs/ramfs/ramfs.c and kernel/fs/vnode.c take and drop.
use avengers.Prelude.{
  ℕ, ◌+◌, ◌-◌, ◌^◌, ◌≡◌, ◌≢◌, ap, true, Bool-cases, Option-cases, Option, none, some, List, ◌==◌,
  eq_of_==, ltb, leb, Outcome, ok, ◌>>=◌, bind_parts, kassert, given, inl, inr, arith,
}
use avengers.Ramfs.{
  Entry, Inode, Ramfs, set_refcount, Memory, vref, vget, vput, read_vnode, delete_vnode, inode_at,
  alloc_inode, no_bytes, free_inode,
}
use avengers.Ramfs.Names.{
  find_named, find_free, lookup, looked_up, create, create_at, add_entry, stored_name, put_entry,
  is_absent, dir_entries,
}
use avengers.Ramfs.Names.Runs.{put_entry-vnode}

abbrev pub refs_of : Ramfs → ℕ → ℕ
refs_of s i = (s.vnode i).refcount

pub vref-refs :
    (s s' : Ramfs) (i j : ℕ) → vref s i ≡ ok s' → refs_of s' j ≡ refs_of s j + given (some i) j
unfolding vref
vref-refs s s' i j e = ground arith

read_vnode-refs :
    (s s' : Ramfs) (i j : ℕ) (x : Inode)
    → (s.vnode i).refcount ≡ 0
    → read_vnode s i (some x) ≡ ok s'
    → refs_of s' j ≡ refs_of s j + given (some i) j
unfolding read_vnode
read_vnode-refs s s' i j x z e = ground arith

read_nothing : (s s' : Ramfs) (i : ℕ) → read_vnode s i none ≢ ok s'
unfolding read_vnode
read_nothing s s' i e = cc

pub vget-refs :
    (s s' : Ramfs) (i j : ℕ) → vget s i ≡ ok s' → refs_of s' j ≡ refs_of s j + given (some i) j
unfolding vget
vget-refs s s' i j e = elim (Bool-cases (ltb 0 (s.vnode i).refcount)) [
  | inl y ↦ vref-refs s s' i j (ground arith)
  | inr n ↦ elim (Option-cases (inode_at s i)) [
    | inl z ↦ absurd (read_nothing s s' i (ground arith))
    | inr (x, z) ↦ read_vnode-refs s s' i j x (ground arith) (ground arith)
  ]
]

delete_vnode-vnode :
    (s s' : Ramfs) (i : ℕ) (o : Option Inode) → delete_vnode s i o ≡ ok s' → s'.vnode ≡ s.vnode
unfolding delete_vnode
delete_vnode-vnode s s' i none e = cc
delete_vnode-vnode s s' i (some x) e = ground arith

pub vput-refs :
    (s s' : Ramfs) (i j : ℕ) → vput s i ≡ ok s' → refs_of s' j + given (some i) j ≡ refs_of s j
unfolding vput
vput-refs s s' i j e = elim (Bool-cases ((s.vnode i).refcount == 1)) [
  | inl y ↦
      let s1 : Ramfs = set_refcount s i ((s.vnode i).refcount - 1) in
      let same = delete_vnode-vnode s1 s' i (inode_at s1 i) (ground arith) in
      ground (arith, ap (λ w. (w j).refcount) same, eq_of_== i j)
  | inr n ↦ ground arith
]

looked_up-refs :
    (s s' : Ramfs) (o : Option (ℕ × ℕ)) (ret j : ℕ) (r : Option ℕ)
    → looked_up s o ≡ ok (s', ret, r)
    → (refs_of s' j ≡ refs_of s j + given r j) × (leb (2 ^ 31) ret ≡ true → r ≡ none)
unfolding looked_up
looked_up-refs s s' none ret j r e = (ground arith, λ f. ground arith)
looked_up-refs s s' (some (i, ino)) ret j r e =
    let (s1, v, k) = bind_parts {s = (s', ret, r)} (vget s ino) (λ t. ok (t, 0, some ino)) e in
    (ground (arith, vget-refs s s1 ino j v), λ f. ground arith)

pub lookup-refs :
    (s s' : Ramfs) (d ret j : ℕ) (name : List ℕ) (r : Option ℕ)
    → lookup s d name ≡ ok (s', ret, r)
    → (refs_of s' j ≡ refs_of s j + given r j) × (leb (2 ^ 31) ret ≡ true → r ≡ none)
unfolding lookup
lookup-refs s s' d ret j name r e =
    let (es, h, k) =
      bind_parts {s = (s', ret, r)} (dir_entries s d) (λ es. looked_up s (find_named es name)) e in
    looked_up-refs s s' (find_named es name) ret j r k

put_entry-vnodes :
    (s : Ramfs) (dir i : ℕ) (es : List Entry) (new : Entry) (f : ℕ → ℕ)
    → (put_entry s dir es i new f).vnode ≡ s.vnode
put_entry-vnodes s dir i es new f = elim (Option-cases (inode_at s dir)) [
  | inl z ↦ ground arith
  | inr (x, z) ↦ put_entry-vnode s dir i es new f x z
]

alloc_inode-vnode :
    (m : Memory) (s s' : Ramfs) (ino : ℕ)
    → alloc_inode m s no_bytes ≡ some (ino, s')
    → s'.vnode ≡ s.vnode
unfolding alloc_inode
alloc_inode-vnode m s s' ino e = elim (Option-cases (free_inode s.inodes)) [
  | inl z ↦ absurd (ground arith)
  | inr (i, z) ↦ ground arith
]

create_at-refs :
    (m : Memory) (s s' : Ramfs) (d ret j : ℕ) (es : List Entry) (name : List ℕ) (o r : Option ℕ)
    → create_at m s d es name o ≡ ok (s', ret, r)
    → (refs_of s' j ≡ refs_of s j + given r j) × (leb (2 ^ 31) ret ≡ true → r ≡ none)
unfolding create_at
create_at-refs m s s' d ret j es name none r e = (ground arith, λ f. ground arith)
create_at-refs m s s' d ret j es name (some i) r e =
    elim (Option-cases (alloc_inode m s no_bytes)) [
      | inl z ↦ (ground arith, λ f. ground arith)
      | inr ((ino, s1), z) ↦
          let (s2, v, k) =
            bind_parts {s = (s', ret, r)} (vget s1 ino) (entered ino i) (ground arith) in
          let same : add_entry s2 d es i ino name ≡ s' = ground arith in
          (
            ground (
              arith,
              vget-refs s1 s2 ino j v,
              ap (λ w. (w j).refcount) (alloc_inode-vnode m s s1 ino z),
              ap (λ t. (t.vnode j).refcount) same,
              ap (λ w. (w j).refcount)
                  (put_entry-vnodes s2 d i es (record { ino = ino; name = stored_name name })
                    (λ n. n + 32)),
            ),
            λ f. ground arith,
          )
    ]
  where
    entered : ℕ → ℕ → Ramfs → Outcome (Ramfs × ℕ × Option ℕ)
    entered ino i t = ok (add_entry t d es i ino name, 0, some ino)

pub create-refs :
    (m : Memory) (s s' : Ramfs) (d ret j : ℕ) (name : List ℕ) (r : Option ℕ)
    → create m s d name ≡ ok (s', ret, r)
    → (refs_of s' j ≡ refs_of s j + given r j) × (leb (2 ^ 31) ret ≡ true → r ≡ none)
unfolding create
create-refs m s s' d ret j name r e =
    let (es, h, k) = bind_parts {s = (s', ret, r)} (dir_entries s d) (checked) e in
    elim (Bool-cases (is_absent es name)) [
      | inl y ↦ create_at-refs m s s' d ret j es name (find_free es) r (ground arith)
      | inr n ↦ absurd (ground arith)
    ]
  where
    checked : List Entry → Outcome (Ramfs × ℕ × Option ℕ)
    checked es = kassert (is_absent es name) >>= λ u. create_at m s d es name (find_free es)
