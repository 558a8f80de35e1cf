-- ===== src/Paths/Kept.antt =====
-- The references that the system calls on paths of kernel/fs/vfs_syscall.c keep.
use avengers.Prelude.{
  ℕ, ◌+◌, ◌≤◌, ◌≡◌, refl, ◌∙◌, true, false, Bool-cases, Option, none, some, List, ltb, length,
  Outcome, ok, panic, bind_parts, given, ◌⊎◌, inl, inr, arith,
}
use avengers.Namev.{Parent, neg, enotdir, failed, dir_namev, open_namev}
use avengers.Namev.Refs.{Counts, open_namev-refs}
use avengers.Paths.{DirOps, max_path_len, do_chdir, chdir_to, moved, do_unlink, unlink_at}

module _ {S : Type 0} (ops : DirOps S) (c : Counts ops.nodes) where
  moved-refs :
      (s s' : S) (cwd cwd' : Option ℕ) (r ret : ℕ)
      → moved ops s cwd r ≡ ok (s', ret, cwd')
      → (j : ℕ) → c.refs s' j + given cwd j + given (some r) j ≡ c.refs s j + given cwd' j
  moved-refs s s' none cwd' r ret e j = cc
  moved-refs s s' (some old) cwd' r ret e j =
      let (s1, v, k) = bind_parts {s = (s', ret, cwd')} (ops.nodes.vput s old) (done r) e in
      ground (arith, c.vput-refs s s1 old j v)
    where
      done : ℕ → S → Outcome (S × ℕ × Option ℕ)
      done r t = ok (t, 0, some r)

  chdir_to-refs :
      (s s' : S) (cwd cwd' r : Option ℕ) (ret ret' : ℕ)
      → (failed ret ≡ true → r ≡ none)
      → chdir_to ops cwd (s, ret, r) ≡ ok (s', ret', cwd')
      → (j : ℕ) → c.refs s' j + given cwd j + given r j ≡ c.refs s j + given cwd' j
  unfolding chdir_to
  chdir_to-refs s s' cwd cwd' none ret ret' f e j = ground arith
  chdir_to-refs s s' cwd cwd' (some r) ret ret' f e j = elim (Bool-cases (failed ret)) [
    | inl y ↦ absurd (ground arith)
    | inr n ↦ elim (Bool-cases (ops.nodes.is_dir s r)) [
      | inl y ↦ moved-refs s s' cwd cwd' r ret' (ground arith) j
      | inr o ↦
          let (s1, v, k) =
            bind_parts {s = (s', ret', cwd')} (ops.nodes.vput s r) (stays cwd) (ground arith) in
          ground (arith, c.vput-refs s s1 r j v)
    ]
  ]
    where
      stays : Option ℕ → S → Outcome (S × ℕ × Option ℕ)
      stays cwd t = ok (t, neg enotdir, cwd)

  chdir_to-ret :
      (s s' : S) (cwd cwd' r : Option ℕ) (ret ret' : ℕ)
      → failed ret ≡ true
      → chdir_to ops cwd (s, ret, r) ≡ ok (s', ret', cwd')
      → ret' ≡ ret
  unfolding chdir_to
  chdir_to-ret s s' cwd cwd' none ret ret' f e = ground arith
  chdir_to-ret s s' cwd cwd' (some r) ret ret' f e = ground arith

  still :
      (leak : Option ℕ) (ret ret' : ℕ)
      → ((leak ≡ none) ⊎ (ret ≡ neg enotdir))
      → (failed ret ≡ true → ret' ≡ ret)
      → (leak ≡ none) ⊎ (ret' ≡ neg enotdir)
  still leak ret ret' (inl h) f = inl h
  still leak ret ret' (inr h) f = inr (f (ground arith) ∙ h)

  -- When do_chdir returns, the reference of the old current directory has moved to the new one, and
  -- the other counts are as before; only with -ENOTDIR may one vnode more have kept a reference.
  pub do_chdir-refs :
      (root ret : ℕ) (cwd cwd' : Option ℕ) (s s' : S) (path : List ℕ)
      → do_chdir ops root cwd s path ≡ ok (s', ret, cwd')
      → (leak : Option ℕ) × ((j : ℕ)
          → c.refs s' j + given cwd j ≡ c.refs s j + given cwd' j + given leak j)
        × ((leak ≡ none) ⊎ (ret ≡ neg enotdir))
  unfolding do_chdir
  do_chdir-refs root ret cwd cwd' s s' path e = elim (Bool-cases (ltb (length path) 1)) [
    | inl y ↦ (none, λ j. ground arith, inl refl)
    | inr n ↦
        let ((s1, ret1, r), w, k) =
          bind_parts {s = (s', ret, cwd')} (open_namev ops.nodes false root cwd none s path)
            (λ t. chdir_to ops cwd t) (ground arith) in
        let (leak, counts, how, fails) =
          open_namev-refs ops.nodes c false root ret1 cwd none s s1 path r w in
        (
          leak,
          λ j. omega (arith, counts j, chdir_to-refs s1 s' cwd cwd' r ret1 ret fails k j),
          still leak ret1 ret how (λ f. chdir_to-ret s1 s' cwd cwd' r ret1 ret f k),
        )
  ]

  -- Whenever dir_namev fails on a path of at most MAXPATHLEN characters, do_unlink fails an assertion
  -- instead of returning its error.
  pub do_unlink_panics :
      (root ret : ℕ) (cwd : Option ℕ) (s s' : S) (path : List ℕ) (p : Parent)
      → length path ≤ max_path_len
      → dir_namev ops.nodes root cwd none s path ≡ ok (s', ret, p)
      → failed ret ≡ true
      → do_unlink ops root cwd s path ≡ panic
  unfolding do_unlink unlink_at
  do_unlink_panics root ret cwd s s' path p short e f = ground arith
