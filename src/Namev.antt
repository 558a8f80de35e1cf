-- ===== src/Namev.antt =====
-- The path walk of kernel/fs/namev.c, over the operations of a file system on its vnodes. A vnode is
-- its number, a path the list of its characters without the null byte, and a pointer into the path
-- what stands from there on. Results are the bit patterns of 32-bit words.
pub mod Refs
pub mod Parts
pub mod OnRamfs
mod Tests
use avengers.Prelude.{
  ℕ, zero, suc, ◌+◌, ◌-◌, ◌^◌, Bool, true, false, Option, none, some, List, [], ◌∷◌, ◌==◌, leb,
  if◌then◌else◌, take, length, Outcome, ok, panic, ◌>>=◌,
}

-- The operations on vnodes that the walk calls: S_ISDIR of `vn_mode`, vref, vget and vput of
-- kernel/fs/vnode.c, and `lookup` and `create` of the `vn_ops` of a directory.
pub record VnodeOps (S : Type 0) : Type 0 where
  pub is_dir : S → ℕ → Bool
  pub vref : S → ℕ → Outcome S
  pub vget : S → ℕ → Outcome S
  pub vput : S → ℕ → Outcome S
  pub find : S → ℕ → List ℕ → Outcome (S × ℕ × Option ℕ)
  pub create : S → ℕ → List ℕ → Outcome (S × ℕ × Option ℕ)

abbrev pub neg : ℕ → ℕ
neg e = 2 ^ 32 - e

abbrev pub enotdir : ℕ
enotdir = 20

-- 0 > ret
abbrev pub failed : ℕ → Bool
failed ret = leb (2 ^ 31) ret

-- What `dir_namev` stores besides its result: the directory, the last part of the path and its length.
pub record Parent : Type 0 where
  pub dir : Option ℕ
  pub name : List ℕ
  pub namelen : ℕ

abbrev pub no_parent : Parent
no_parent = record { dir = none; name = []; namelen = 0 }

-- strchr (start, '/')
abbrev pub at_slash : List ℕ → Option (List ℕ)
at_slash [] = none
at_slash (c ∷ cs) = let rest = at_slash cs in if c == 47 then some (c ∷ cs) else rest

-- the characters before the first slash
abbrev pub before_slash : List ℕ → List ℕ
before_slash [] = []
before_slash (c ∷ cs) = let rest = before_slash cs in if c == 47 then [] else c ∷ rest

abbrev pub skip_slashes : List ℕ → List ℕ
skip_slashes [] = []
skip_slashes (c ∷ cs) = let rest = skip_slashes cs in if c == 47 then rest else c ∷ cs

abbrev pub is_empty : List ℕ → Bool
is_empty [] = true
is_empty (c ∷ cs) = false

module _ {S : Type 0} (ops : VnodeOps S) where
  -- `lookup`; strlen looks at all that is left of the path, not at the first `len` characters.
  pub lookup : S → ℕ → List ℕ → ℕ → Outcome (S × ℕ × Option ℕ)
  lookup s dir name len =
      if ops.is_dir s dir
      then (if is_empty name
          then (ops.vref s dir >>= λ s'. ok (s', 0, some dir))
          else ops.find s dir (take len name))
      else ok (s, neg enotdir, none)

  -- The directory found for a part of the path, or the result to return; the reference of a vnode
  -- that is no directory is kept.
  pub found_dir : S → ℕ → Option ℕ → Outcome (S × ℕ × Option ℕ)
  found_dir s ret none = if failed ret then ok (s, ret, none) else panic
  found_dir s ret (some r) =
      if failed ret
      then ok (s, ret, none)
      else if ops.is_dir s r
      then ok (s, 0, some r)
      else ok (s, neg enotdir, none)

  pub after_lookup : ℕ → S × ℕ × Option ℕ → Outcome (S × ℕ × Option ℕ)
  unfolding found_dir
  after_lookup d (s, ret, r) = ops.vput s d >>= λ s'. found_dir s' ret r

  -- one pass of the loop, up to the next directory
  pub enter : S → Option ℕ → List ℕ → ℕ → Outcome (S × ℕ × Option ℕ)
  unfolding lookup after_lookup
  enter s none start len = panic
  enter s (some d) start len =
      if ops.is_dir s d
      then (lookup s d start len >>= λ r. after_lookup d r)
      else ops.vput s d >>= λ s'. ok (s', neg enotdir, none)

  -- What the loop has found when it ends.
  abbrev pub last_part : S → Option ℕ → List ℕ → ℕ → Outcome (S × ℕ × Parent)
  last_part s dir start len = ok (s, 0, record { dir = dir; name = start; namelen = len })

  -- the loop of `dir_namev`, from a part of the path on
  pub walk : ℕ → S → Option ℕ → List ℕ → Outcome (S × ℕ × Parent)
  unfolding enter
  walk zero s dir start = panic
  walk (suc fuel) s dir start = elim (at_slash start) [
    | none ↦ last_part s dir start (length start)
    | some slashes ↦ elim (skip_slashes slashes) [
      | [] ↦ last_part s dir start (length (before_slash start))
      | c ∷ cs ↦ enter s dir start (length (before_slash start)) >>= λ (s', ret, d). elim d [
        | none ↦ ok (s', ret, no_parent)
        | some r ↦ walk fuel s' (some r) (c ∷ cs)
      ]
    ]
  ]

  pub vget_dir : S → Option ℕ → Outcome S
  vget_dir s none = ok s
  vget_dir s (some d) = ops.vget s d

  abbrev from : Option ℕ → Option ℕ → Option ℕ
  from none cwd = cwd
  from (some d) cwd = some d

  -- the vnode and the part of the path that `dir_namev` starts from
  pub start_of : ℕ → Option ℕ → Option ℕ → List ℕ → Option ℕ × List ℕ
  start_of root cwd base [] = (from base cwd, [])
  start_of root cwd base (c ∷ cs) = if c == 47 then (some root, cs) else (from base cwd, c ∷ cs)

  -- `dir_namev`, with `vfs_root_vn` and `p_cwd`
  pub dir_namev : ℕ → Option ℕ → Option ℕ → S → List ℕ → Outcome (S × ℕ × Parent)
  unfolding walk vget_dir start_of
  dir_namev root cwd base s path = do
    let (dir, start) = start_of root cwd base path
    s' ← vget_dir s dir
    walk (length path + 1) s' dir start

  -- vput of the directory, and the return of `open_namev`
  abbrev pub put_return : S → ℕ → ℕ → Option ℕ → Outcome (S × ℕ × Option ℕ)
  put_return s d ret r = ops.vput s d >>= λ s'. ok (s', ret, r)

  pub after_create : ℕ → S × ℕ × Option ℕ → Outcome (S × ℕ × Option ℕ)
  after_create d (s, ret, r) = if failed ret then put_return s d ret none else put_return s d 0 r

  -- `open_namev` once the last part is looked up; does the flag have O_CREAT?
  pub opened : Bool → ℕ → List ℕ → S × ℕ × Option ℕ → Outcome (S × ℕ × Option ℕ)
  unfolding after_create
  opened creat d name (s, ret, r) =
      if failed ret
      then (if creat
          then (ops.create s d name >>= λ r'. after_create d r')
          else put_return s d ret none)
      else put_return s d 0 r

  pub open_in : Bool → S → Option ℕ → List ℕ → ℕ → Outcome (S × ℕ × Option ℕ)
  unfolding opened
  open_in creat s none name len = panic
  open_in creat s (some d) name len =
      if ops.is_dir s d
      then (lookup s d name len >>= λ r. opened creat d (take len name) r)
      else put_return s d (neg enotdir) none

  pub open_parent : Bool → S × ℕ × Parent → Outcome (S × ℕ × Option ℕ)
  unfolding open_in
  open_parent creat (s, ret, p) =
      if failed ret then ok (s, ret, none) else open_in creat s p.dir p.name p.namelen

  -- `open_namev`: the result, and the vnode if the result is 0
  pub open_namev : Bool → ℕ → Option ℕ → Option ℕ → S → List ℕ → Outcome (S × ℕ × Option ℕ)
  unfolding open_parent
  open_namev creat root cwd base s path =
      dir_namev root cwd base s path >>= λ r. open_parent creat r
