-- ===== src/Ramfs/Names/Found.antt =====
-- Names that come back: what ramfs_lookup of kernel/fs/ramfs/ramfs.c finds after ramfs_create.
use avengers.Prelude.{
  ℕ, zero, suc, ◌+◌, ◌<◌, ◌≤◌, ◌≡◌, refl, ap, ◌∙◌, Bool, true, false, Bool-cases, none, some, List,
  [], ◌∷◌, set, length, take, ok, panic, inl, inr, arith,
}
use avengers.Ramfs.{
  Entry, Ramfs, Memory, has_room, no_bytes, set_refcount, vget, vref, free_inode, neg, enoent,
}
use avengers.Ramfs.Names.{
  lookup, looked_up, find_named, find_free, is_absent, name_match, create, stored_name, is_free,
  dir_entries,
}
use avengers.Ramfs.Names.Entries.{
  find_free-get, find_named-set, find_named-set_ne, eq_of_name_match,
}
use avengers.Ramfs.Names.Links.{IsLinked}
use avengers.Ramfs.Names.Runs.{IsDir, put_entry-at, put_entry-vnode}
use avengers.Ramfs.Names.Creates.{created, create-runs, with_vnode, with_vnode-IsDir, free-IsDir_ne}

take-all : (n : ℕ) (xs : List ℕ) → length xs ≤ n → take n xs ≡ xs
take-all n [] h = ground arith
take-all zero (x ∷ xs) h = absurd (omega arith)
take-all (suc n) (x ∷ xs) h = ap (λ ys. x ∷ ys) (take-all n xs (omega arith))

length-take : (n : ℕ) (xs : List ℕ) → length (take n xs) ≤ n
length-take n [] = ground arith
length-take zero (x ∷ xs) = omega arith
length-take (suc n) (x ∷ xs) = omega (arith, length-take n xs)

-- a name with characters
abbrev pub is_name : List ℕ → Bool
is_name [] = false
is_name (c ∷ cs) = true

free_ne :
    (e : Entry) (name : List ℕ)
    → is_free e ≡ true
    → is_name name ≡ true
    → name_match e.name name ≡ false
free_ne e [] f n = cc
free_ne e (c ∷ cs) f n = ground arith

pub used :
    (ino : ℕ) (name : List ℕ)
    → is_name name ≡ true
    → is_free (record { ino = ino; name = name }) ≡ false
used ino [] n = cc
used ino (c ∷ cs) n = refl

none_of : (es : List Entry) (name : List ℕ) → is_absent es name ≡ true → find_named es name ≡ none
none_of es name a = ground arith

-- A lookup that finds the number of a vnode in use.
pub lookup-hit :
    (t : Ramfs) (dir j ino : ℕ) (es : List Entry) (name : List ℕ)
    → dir_entries t dir ≡ ok es
    → find_named es name ≡ some (j, ino)
    → 0 < (t.vnode ino).refcount
    → lookup t dir name ≡ ok (set_refcount t ino ((t.vnode ino).refcount + 1), 0, some ino)
unfolding lookup looked_up vget vref
lookup-hit t dir j ino es name d f p = ground arith

pub lookup-none :
    (t : Ramfs) (dir : ℕ) (es : List Entry) (name : List ℕ)
    → dir_entries t dir ≡ ok es
    → find_named es name ≡ none
    → lookup t dir name ≡ ok (t, neg enoent, none)
unfolding lookup looked_up
lookup-none t dir es name d f = ground arith

pub lookup-missing :
    (t : Ramfs) (dir j ino : ℕ) (es : List Entry) (name : List ℕ)
    → dir_entries t dir ≡ ok es
    → find_named es name ≡ some (j, ino)
    → vget t ino ≡ panic
    → lookup t dir name ≡ panic
unfolding lookup looked_up
lookup-missing t dir j ino es name d f p = ground arith

created-entries :
    (s : Ramfs) (dir i ino : ℕ) (name : List ℕ) (es : List Entry)
    → IsLinked s
    → IsDir s dir es
    → free_inode s.inodes ≡ some ino
    → dir_entries (created s dir i ino name es) dir
      ≡ ok (set es i (record { ino = ino; name = stored_name name }))
created-entries s dir i ino name es v d empty =
    let d' : IsDir (with_vnode s ino no_bytes) dir es = with_vnode-IsDir s dir ino es v d empty in
    ground (
      arith,
      put_entry-at (with_vnode s ino no_bytes) dir i dir es
          (record { ino = ino; name = stored_name name }) (λ n. n + 32) d'.node d'.at,
    )

created-vnode :
    (s : Ramfs) (dir i ino j : ℕ) (name : List ℕ) (es : List Entry)
    → IsLinked s
    → IsDir s dir es
    → free_inode s.inodes ≡ some ino
    → (created s dir i ino name es).vnode j ≡ (with_vnode s ino no_bytes).vnode j
created-vnode s dir i ino j name es v d empty =
    let d' : IsDir (with_vnode s ino no_bytes) dir es = with_vnode-IsDir s dir ino es v d empty in
    ap (λ w. w j)
      (put_entry-vnode (with_vnode s ino no_bytes) dir i es
        (record { ino = ino; name = stored_name name }) (λ k. k + 32) d'.node d'.at)

-- The vnode of the directory stays.
pub created-dir :
    (s : Ramfs) (dir i ino : ℕ) (name : List ℕ) (es : List Entry)
    → IsLinked s
    → IsDir s dir es
    → free_inode s.inodes ≡ some ino
    → (created s dir i ino name es).vnode dir ≡ s.vnode dir
created-dir s dir i ino name es v d empty =
    created-vnode s dir i ino dir name es v d empty
    ∙ ground (arith, free-IsDir_ne s ino v empty dir es d)

-- What a new file of a short name is found by.
pub created-found :
    (s : Ramfs) (dir i ino : ℕ) (name : List ℕ) (es : List Entry)
    → IsLinked s
    → IsDir s dir es
    → is_absent es name ≡ true
    → find_free es ≡ some i
    → free_inode s.inodes ≡ some ino
    → is_name name ≡ true
    → length name ≤ 27
    → (0 < ((created s dir i ino name es).vnode ino).refcount)
      × (dir_entries (created s dir i ino name es) dir
          ≡ ok (set es i (record { ino = ino; name = name })))
      × (find_named (set es i (record { ino = ino; name = name })) name ≡ some (i, ino))
created-found s dir i ino name es v d absent free empty n short =
    let (e, g, f) = find_free-get es i free in
    let whole : stored_name name ≡ name = take-all 27 name short in
    (
      ground (arith, ap (λ w. w.refcount) (created-vnode s dir i ino ino name es v d empty)),
      created-entries s dir i ino name es v d empty
          ∙ ap (λ w. ok (set es i (record { ino = ino; name = w }))) whole,
      find_named-set es name i ino e g f (none_of es name absent) (used ino name n),
    )

module _ (m : Memory) (s : Ramfs) (dir i ino : ℕ) (name : List ℕ) (es : List Entry) (v : IsLinked s)
    (d : IsDir s dir es) (absent : is_absent es name ≡ true) (free : find_free es ≡ some i)
    (empty : free_inode s.inodes ≡ some ino) (room : has_room m no_bytes ≡ true) where
  -- ramfs_create of a name of 1 to 27 characters that a directory with a free place does not have,
  -- when an inode and memory are free, returns 0; then ramfs_lookup returns 0 and finds the new
  -- inode by that name, and every other name leads where it did.
  pub create-lookup :
      is_name name ≡ true
      → length name ≤ 27
      → (s' s'' : Ramfs) × (es' : List Entry) × (create m s dir name ≡ ok (s', 0, some ino))
        × (lookup s' dir name ≡ ok (s'', 0, some ino))
        × (dir_entries s' dir ≡ ok es')
        × ((other : List ℕ)
            → is_name other ≡ true
            → name_match name other ≡ false
            → find_named es' other ≡ find_named es other)
  create-lookup n short =
      let (e, g, f) = find_free-get es i free in
      let (held, now, found) = created-found s dir i ino name es v d absent free empty n short in
      let s' = created s dir i ino name es in
      (
        s',
        set_refcount s' ino ((s'.vnode ino).refcount + 1),
        set es i (record { ino = ino; name = name }),
        create-runs m s dir i ino name es v d absent free empty room,
        lookup-hit s' dir i ino (set es i (record { ino = ino; name = name })) name now found held,
        now,
        λ other c ne.
            find_named-set_ne es other i e (record { ino = ino; name = name }) g
              (free_ne e other f c) ne,
      )

  -- ramfs_create of a name of more than 27 characters in a directory with a free place, when an inode
  -- and memory are free, returns 0, but ramfs_lookup of that name then returns -ENOENT.
  pub create_loses_long_name :
      27 < length name
      → (s' : Ramfs) × (create m s dir name ≡ ok (s', 0, some ino))
        × (lookup s' dir name ≡ ok (s', neg enoent, none))
  unfolding lookup looked_up
  create_loses_long_name long =
      let (e, g, f) = find_free-get es i free in
      let gone : find_named (set es i (record { ino = ino; name = stored_name name })) name ≡ none =
        find_named-set_ne es name i e (record { ino = ino; name = stored_name name }) g
          (free_ne e name f (a_name name (omega arith))) cut
        ∙ none_of es name absent in
      (
        created s dir i ino name es,
        create-runs m s dir i ino name es v d absent free empty room,
        ground (arith, created-entries s dir i ino name es v d empty, gone),
      )
    where
      a_name : (w : List ℕ) → 0 < length w → is_name w ≡ true
      a_name [] h = absurd (omega arith)
      a_name (c ∷ cs) h = refl

      cut : name_match (stored_name name) name ≡ false
      cut = elim (Bool-cases (name_match (stored_name name) name)) [
        | inr r ↦ r
        | inl r ↦ absurd (
            omega (
              arith,
              length-take 27 name,
              ap length (eq_of_name_match (stored_name name) name r),
              long,
            ))
      ]
