-- ===== src/Namev/Refs.antt =====
-- The references that the path walk of kernel/fs/namev.c takes and gives back.
use avengers.Prelude.{
  ℕ, zero, suc, ◌+◌, ◌≡◌, refl, ap, Bool, true, Bool-cases, Option-cases, Option, none, some, List,
  ◌∷◌, length, take, Outcome, ok, bind_parts, given, ◌⊎◌, inl, inr, arith,
}
use avengers.Namev.Parts.{List-cases}
use avengers.Namev.{
  VnodeOps, Parent, no_parent, at_slash, before_slash, skip_slashes, is_empty, failed, walk, enter,
  lookup, neg, enotdir, after_lookup, found_dir, start_of, vget_dir, dir_namev, open_namev,
  open_parent, open_in, opened, after_create, put_return,
}

-- How the operations count the references of vnodes: `find` and `create` give one with the vnode that
-- they store, and store one when they do not fail.
pub record Counts {S : Type 0} (ops : VnodeOps S) : Type 0 where
  pub refs : S → ℕ → ℕ
  pub vref-refs :
      (s s' : S) (i j : ℕ) → ops.vref s i ≡ ok s' → refs s' j ≡ refs s j + given (some i) j
  pub vget-refs :
      (s s' : S) (i j : ℕ) → ops.vget s i ≡ ok s' → refs s' j ≡ refs s j + given (some i) j
  pub vput-refs :
      (s s' : S) (i j : ℕ) → ops.vput s i ≡ ok s' → refs s' j + given (some i) j ≡ refs s j
  pub find-refs :
      (s s' : S) (d ret j : ℕ) (name : List ℕ) (r : Option ℕ)
      → ops.find s d name ≡ ok (s', ret, r)
      → refs s' j ≡ refs s j + given r j
  pub find-failed :
      (s s' : S) (d ret : ℕ) (name : List ℕ) (r : Option ℕ)
      → ops.find s d name ≡ ok (s', ret, r)
      → failed ret ≡ true
      → r ≡ none
  pub create-refs :
      (s s' : S) (d ret j : ℕ) (name : List ℕ) (r : Option ℕ)
      → ops.create s d name ≡ ok (s', ret, r)
      → refs s' j ≡ refs s j + given r j
  pub create-failed :
      (s s' : S) (d ret : ℕ) (name : List ℕ) (r : Option ℕ)
      → ops.create s d name ≡ ok (s', ret, r)
      → failed ret ≡ true
      → r ≡ none

module _ {S : Type 0} (ops : VnodeOps S) (c : Counts ops) where
  again : ℕ → S → Outcome (S × ℕ × Option ℕ)
  again d t = ok (t, 0, some d)

  lookup-refs :
      (s s' : S) (d len ret : ℕ) (name : List ℕ) (r : Option ℕ)
      → lookup ops s d name len ≡ ok (s', ret, r)
      → ((j : ℕ) → c.refs s' j ≡ c.refs s j + given r j) × (failed ret ≡ true → r ≡ none)
  unfolding lookup again
  lookup-refs s s' d len ret name r e = elim (Bool-cases (ops.is_dir s d)) [
    | inr n ↦ (λ j. ground arith, λ f. ground arith)
    | inl y ↦ elim (Bool-cases (is_empty name)) [
      | inl m ↦
          let (s1, v, k) = bind_parts {s = (s', ret, r)} (ops.vref s d) (again d) (ground arith) in
          (λ j. ground (arith, c.vref-refs s s1 d j v), λ f. ground arith)
      | inr m ↦
          let run : ops.find s d (take len name) ≡ ok (s', ret, r) = ground arith in
          (
            λ j. c.find-refs s s' d ret j (take len name) r run,
            c.find-failed s s' d ret (take len name) r run,
          )
    ]
  ]

  -- A vnode that is no directory is leaked.
  found_dir-leaks :
      (s s' : S) (ret ret' : ℕ) (r d : Option ℕ)
      → (failed ret ≡ true → r ≡ none)
      → found_dir ops s ret r ≡ ok (s', ret', d)
      → (leak : Option ℕ) × (s' ≡ s)
        × ((j : ℕ) → given r j ≡ given d j + given leak j)
        × ((leak ≡ none) ⊎ ((d ≡ none) × (ret' ≡ neg enotdir)))
  unfolding found_dir
  found_dir-leaks s s' ret ret' none d f e = (none, ground arith, λ j. ground arith, inl refl)
  found_dir-leaks s s' ret ret' (some r) d f e = elim (Bool-cases (failed ret)) [
    | inl y ↦ absurd (ground arith)
    | inr n ↦ elim (Bool-cases (ops.is_dir s r)) [
      | inl y ↦ (none, ground arith, λ j. ground arith, inl refl)
      | inr o ↦ (some r, ground arith, λ j. ground arith, inr (ground arith, ground arith))
    ]
  ]

  stopped : S → Outcome (S × ℕ × Option ℕ)
  stopped t = ok (t, neg enotdir, none)

  enter-refs :
      (s s' : S) (dir d : Option ℕ) (start : List ℕ) (len ret : ℕ)
      → enter ops s dir start len ≡ ok (s', ret, d)
      → (leak : Option ℕ) × ((j : ℕ)
          → c.refs s' j + given dir j ≡ c.refs s j + given d j + given leak j)
        × ((leak ≡ none) ⊎ ((d ≡ none) × (ret ≡ neg enotdir)))
  unfolding enter after_lookup stopped
  enter-refs s s' none d start len ret e = cc
  enter-refs s s' (some i) d start len ret e = elim (Bool-cases (ops.is_dir s i)) [
    | inl y ↦
        let ((s1, ret1, r), l, m) =
          bind_parts {s = (s', ret, d)} (lookup ops s i start len) (λ r. after_lookup ops i r)
            (ground arith) in
        let (s2, v, k) =
          bind_parts {s = (s', ret, d)} (ops.vput s1 i) (λ t. found_dir ops t ret1 r) m in
        let (counts, fails) = lookup-refs s s1 i len ret1 start r l in
        let (leak, same, split, how) = found_dir-leaks s2 s' ret1 ret r d fails k in
        (
          leak,
          λ j.
              ground (arith, ap (λ t. c.refs t j) same, c.vput-refs s1 s2 i j v, counts j, split j),
          how,
        )
    | inr n ↦
        let (s2, v, k) = bind_parts {s = (s', ret, d)} (ops.vput s i) stopped (ground arith) in
        (none, λ j. ground (arith, c.vput-refs s s2 i j v), inl refl)
  ]

  abbrev went : ℕ → List ℕ → S × ℕ × Option ℕ → Outcome (S × ℕ × Parent)
  went fuel rest (s, ret, d) = elim d [
    | none ↦ ok (s, ret, no_parent)
    | some r ↦ walk ops fuel s (some r) rest
  ]

  -- what walk-refs states of the rest of a walk
  abbrev Kept : S → S → Option ℕ → ℕ → Parent → Type 0
  Kept s s' dir ret p =
      (leak : Option ℕ) × ((j : ℕ)
        → c.refs s' j + given dir j ≡ c.refs s j + given p.dir j + given leak j)
      × ((leak ≡ none) ⊎ (ret ≡ neg enotdir))
      × (failed ret ≡ true → p.dir ≡ none)

  went-refs :
      (fuel : ℕ) (s s1 s' : S) (dir d leak : Option ℕ) (rest : List ℕ) (ret1 ret : ℕ) (p : Parent)
      → ((j : ℕ) → c.refs s1 j + given dir j ≡ c.refs s j + given d j + given leak j)
      → ((leak ≡ none) ⊎ ((d ≡ none) × (ret1 ≡ neg enotdir)))
      → ((r : ℕ) → walk ops fuel s1 (some r) rest ≡ ok (s', ret, p) → Kept s1 s' (some r) ret p)
      → went fuel rest (s1, ret1, d) ≡ ok (s', ret, p)
      → Kept s s' dir ret p
  went-refs fuel s s1 s' dir none leak rest ret1 ret p counts how ih e =
      let same : s1 ≡ s' = ground arith in
      (
        leak,
        λ j. ground (arith, counts j, ap (λ t. c.refs t j) same),
        ground arith,
        λ f. ground arith,
      )
  went-refs fuel s s1 s' dir (some r) leak rest ret1 ret p counts how ih e =
      let (leak2, counts2, how2, no_dir) = ih r e in
      (leak2, λ j. ground (arith, counts j, counts2 j), how2, no_dir)

  walk-refs :
      (fuel : ℕ) (s s' : S) (dir : Option ℕ) (start : List ℕ) (ret : ℕ) (p : Parent)
      → walk ops fuel s dir start ≡ ok (s', ret, p)
      → Kept s s' dir ret p
  unfolding walk
  walk-refs zero s s' dir start ret p e = cc
  walk-refs (suc fuel) s s' dir start ret p e = elim (Option-cases (at_slash start)) [
    | inl z ↦ (none, λ j. ground arith, inl refl, λ f. ground arith)
    | inr (slashes, z) ↦ elim (List-cases (skip_slashes slashes)) [
      | inl w ↦ (none, λ j. ground arith, inl refl, λ f. ground arith)
      | inr (a, as', w) ↦
          let ((s1, ret1, d), l, m) =
            bind_parts {s = (s', ret, p)} (enter ops s dir start (length (before_slash start)))
              (went fuel (a ∷ as')) (ground arith) in
          let (leak, counts, how) =
            enter-refs s s1 dir d start (length (before_slash start)) ret1 l in
          went-refs fuel s s1 s' dir d leak (a ∷ as') ret1 ret p counts how
            (λ r q. walk-refs fuel s1 s' (some r) (a ∷ as') ret p q) m
    ]
  ]

  vget_dir-refs :
      (s s' : S) (dir : Option ℕ) (j : ℕ)
      → vget_dir ops s dir ≡ ok s'
      → c.refs s' j ≡ c.refs s j + given dir j
  unfolding vget_dir
  vget_dir-refs s s' none j e = ground arith
  vget_dir-refs s s' (some d) j e = c.vget-refs s s' d j e

  -- When dir_namev returns, the counts are those before it with one reference more of the directory
  -- that it stores, if it stores one, and of no other vnode; only with -ENOTDIR may one vnode more
  -- have kept a reference. When it fails it stores none.
  dir_namev-refs :
      (root ret : ℕ) (cwd base : Option ℕ) (s s' : S) (path : List ℕ) (p : Parent)
      → dir_namev ops root cwd base s path ≡ ok (s', ret, p)
      → (leak : Option ℕ) × ((j : ℕ) → c.refs s' j ≡ c.refs s j + given p.dir j + given leak j)
        × ((leak ≡ none) ⊎ (ret ≡ neg enotdir))
        × (failed ret ≡ true → p.dir ≡ none)
  unfolding dir_namev
  dir_namev-refs root ret cwd base s s' path p e =
      let (dir, start) = start_of ops root cwd base path in
      let (s1, v, w) =
        bind_parts {s = (s', ret, p)} (vget_dir ops s dir)
          (λ t. walk ops (length path + 1) t dir start) e in
      let (leak, counts, how, no_dir) = walk-refs (length path + 1) s1 s' dir start ret p w in
      (leak, λ j. omega (arith, counts j, vget_dir-refs s s1 dir j v), how, no_dir)

  put_return-refs :
      (s s' : S) (d ret ret' : ℕ) (r r' : Option ℕ)
      → put_return ops s d ret r ≡ ok (s', ret', r')
      → ((j : ℕ) → c.refs s' j + given (some d) j ≡ c.refs s j) × (ret' ≡ ret) × (r' ≡ r)
  put_return-refs s s' d ret ret' r r' e =
      let (s1, v, k) = bind_parts {s = (s', ret', r')} (ops.vput s d) (returned ret r) e in
      (λ j. ground (arith, c.vput-refs s s1 d j v), ground arith, ground arith)
    where
      returned : ℕ → Option ℕ → S → Outcome (S × ℕ × Option ℕ)
      returned ret r t = ok (t, ret, r)

  after_create-refs :
      (s s' : S) (d ret ret' : ℕ) (r r' : Option ℕ)
      → (failed ret ≡ true → r ≡ none)
      → after_create ops d (s, ret, r) ≡ ok (s', ret', r')
      → ((j : ℕ) → c.refs s' j + given (some d) j + given r j ≡ c.refs s j + given r' j)
        × (failed ret' ≡ true → r' ≡ none)
  unfolding after_create
  after_create-refs s s' d ret ret' r r' f e = elim (Bool-cases (failed ret)) [
    | inl y ↦
        let (counts, a, b) = put_return-refs s s' d ret ret' none r' (ground arith) in
        (λ j. omega (arith, counts j, ap (λ t. given t j) b, ap (λ t. given t j) (f y)), λ q. b)
    | inr n ↦
        let (counts, a, b) = put_return-refs s s' d 0 ret' r r' (ground arith) in
        (λ j. omega (arith, counts j, ap (λ t. given t j) b), λ q. ground arith)
  ]

  opened-refs :
      (creat : Bool) (s s' : S) (d ret ret' : ℕ) (name : List ℕ) (r r' : Option ℕ)
      → (failed ret ≡ true → r ≡ none)
      → opened ops creat d name (s, ret, r) ≡ ok (s', ret', r')
      → ((j : ℕ) → c.refs s' j + given (some d) j + given r j ≡ c.refs s j + given r' j)
        × (failed ret' ≡ true → r' ≡ none)
  unfolding opened
  opened-refs creat s s' d ret ret' name r r' f e = elim (Bool-cases (failed ret)) [
    | inr n ↦
        let (counts, a, b) = put_return-refs s s' d 0 ret' r r' (ground arith) in
        (λ j. omega (arith, counts j, ap (λ t. given t j) b), λ q. ground arith)
    | inl y ↦ elim (Bool-cases creat) [
      | inl m ↦
          let ((s1, ret1, r1), q, k) =
            bind_parts {s = (s', ret', r')} (ops.create s d name) (λ t. after_create ops d t)
              (ground arith) in
          let (rest, fails) =
            after_create-refs s1 s' d ret1 ret' r1 r' (c.create-failed s s1 d ret1 name r1 q) k in
          (
            λ j.
                omega
                  (arith, rest j, c.create-refs s s1 d ret1 j name r1 q, ap (λ t. given t j) (f y)),
            fails,
          )
      | inr m ↦
          let (counts, a, b) = put_return-refs s s' d ret ret' none r' (ground arith) in
          (λ j. omega (arith, counts j, ap (λ t. given t j) b, ap (λ t. given t j) (f y)), λ q. b)
    ]
  ]

  open_in-refs :
      (creat : Bool) (s s' : S) (dir : Option ℕ) (len ret : ℕ) (name : List ℕ) (r : Option ℕ)
      → open_in ops creat s dir name len ≡ ok (s', ret, r)
      → ((j : ℕ) → c.refs s' j + given dir j ≡ c.refs s j + given r j)
        × (failed ret ≡ true → r ≡ none)
  unfolding open_in
  open_in-refs creat s s' none len ret name r e = cc
  open_in-refs creat s s' (some d) len ret name r e = elim (Bool-cases (ops.is_dir s d)) [
    | inl y ↦
        let ((s1, ret1, r1), l, m) =
          bind_parts {s = (s', ret, r)} (lookup ops s d name len)
            (λ t. opened ops creat d (take len name) t) (ground arith) in
        let (counts, fails) = lookup-refs s s1 d len ret1 name r1 l in
        let (after, none_left) = opened-refs creat s1 s' d ret1 ret (take len name) r1 r fails m in
        (λ j. omega (arith, counts j, after j), none_left)
    | inr n ↦
        let (counts, a, b) = put_return-refs s s' d (neg enotdir) ret none r (ground arith) in
        (λ j. omega (arith, counts j, ap (λ t. given t j) b), λ q. ground arith)
  ]

  -- When open_namev returns, the counts are those before it with one reference more of the vnode that
  -- it stores, if it stores one, and of no other vnode; only with -ENOTDIR may one vnode more have
  -- kept a reference. When it fails it stores none.
  pub open_namev-refs :
      (creat : Bool) (root ret : ℕ) (cwd base : Option ℕ) (s s' : S) (path : List ℕ) (r : Option ℕ)
      → open_namev ops creat root cwd base s path ≡ ok (s', ret, r)
      → (leak : Option ℕ) × ((j : ℕ) → c.refs s' j ≡ c.refs s j + given r j + given leak j)
        × ((leak ≡ none) ⊎ (ret ≡ neg enotdir))
        × (failed ret ≡ true → r ≡ none)
  unfolding open_namev open_parent
  open_namev-refs creat root ret cwd base s s' path r e =
      let ((s1, ret1, p), w, k) =
        bind_parts {s = (s', ret, r)} (dir_namev ops root cwd base s path)
          (λ t. open_parent ops creat t) e in
      let (leak, counts, how, no_dir) = dir_namev-refs root ret1 cwd base s s1 path p w in
      elim (Bool-cases (failed ret1)) [
        | inl y ↦
            let same : s1 ≡ s' = ground arith in
            (
              leak,
              λ j.
                  ground
                    (arith, counts j, ap (λ t. given t j) (no_dir y), ap (λ t. c.refs t j) same),
              ground arith,
              λ q. ground arith,
            )
        | inr n ↦
            let gone : leak ≡ none = ground arith in
            let run : open_in ops creat s1 p.dir p.name p.namelen ≡ ok (s', ret, r) =
              ground arith in
            let (after, none_left) = open_in-refs creat s1 s' p.dir p.namelen ret p.name r run in
            (
              none,
              λ j. omega (arith, counts j, ap (λ t. given t j) gone, after j),
              inl refl,
              none_left,
            )
      ]
