-- ===== src/Paths.antt =====
-- The system calls on paths of kernel/fs/vfs_syscall.c, over the operations of a file system. They
-- start at the root or at the current directory of the process, and return the new state and the
-- result, as the bit pattern of a 32-bit word.
pub mod Kept
pub mod OnRamfs
mod Tests
use avengers.Prelude.{
  ℕ, ◌-◌, ◌^◌, Bool, true, false, not, Option, none, some, List, [], ◌∷◌, ◌==◌, ltb, if◌then◌else◌,
  take, length, Outcome, ok, panic, ◌>>=◌,
}
use avengers.Namev.{VnodeOps, Parent, neg, enotdir, failed, lookup, dir_namev, open_namev}

-- What the calls use of a file system besides the path walk: the other operations of a directory.
pub record DirOps (S : Type 0) : Type 0 where
  pub nodes : VnodeOps S
  pub mknod : S → ℕ → List ℕ → ℕ → ℕ → Outcome (S × ℕ)
  pub mkdir : S → ℕ → List ℕ → Outcome (S × ℕ)
  pub rmdir : S → ℕ → List ℕ → Outcome (S × ℕ)
  pub unlink : S → ℕ → List ℕ → Outcome (S × ℕ)
  pub link : S → ℕ → ℕ → List ℕ → Outcome (S × ℕ)

abbrev pub enoent : ℕ
enoent = 2

abbrev pub eexist : ℕ
eexist = 17

abbrev pub eisdir : ℕ
eisdir = 21

abbrev pub einval : ℕ
einval = 22

abbrev pub enametoolong : ℕ
enametoolong = 36

abbrev pub enotempty : ℕ
enotempty = 39

abbrev pub max_path_len : ℕ
max_path_len = 1024

abbrev pub name_len : ℕ
name_len = 28

abbrev pub s_ifchr : ℕ
s_ifchr = 0x100

-- strcmp with "." or ".."
abbrev pub is_dots : List ℕ → List ℕ → Bool
is_dots [] [] = true
is_dots [] (d ∷ ds) = false
is_dots (c ∷ cs) [] = false
is_dots (c ∷ cs) (d ∷ ds) = let rest = is_dots cs ds in if c == d then rest else false

module _ {S : Type 0} (ops : DirOps S) where
  -- vput of a vnode pointer, and a return; vput of NULL fails an assertion
  abbrev pub put : S → Option ℕ → ℕ → Outcome (S × ℕ)
  put s none ret = panic
  put s (some d) ret = ops.nodes.vput s d >>= λ s'. ok (s', ret)

  -- vput of two vnodes
  abbrev pub put_both : S → Option ℕ → Option ℕ → ℕ → Outcome (S × ℕ)
  put_both s a b ret = put s a ret >>= λ (s', r). put s' b ret

  -- an operation on a directory, and its vput
  abbrev pub then_put : Outcome (S × ℕ) → ℕ → Outcome (S × ℕ)
  then_put o d = o >>= λ (s, ret). put s (some d) ret

  mkdir_found : ℕ → List ℕ → S × ℕ × Option ℕ → Outcome (S × ℕ)
  mkdir_found d name (s, ret, r) =
      if ret == 0
      then put_both s (some d) r (neg eexist)
      else if ret == neg enoent
      then then_put (ops.mkdir s d name) d
      else ok (s, ret)

  mkdir_in : S → Option ℕ → List ℕ → ℕ → Outcome (S × ℕ)
  unfolding mkdir_found
  mkdir_in s none name len = ok (s, neg enotdir)
  mkdir_in s (some d) name len =
      lookup ops.nodes s d name len >>= λ r. mkdir_found d (take len name) r

  mkdir_at : S × ℕ × Parent → Outcome (S × ℕ)
  unfolding mkdir_in
  mkdir_at (s, ret, p) =
      if failed ret
      then ok (s, ret)
      else if ltb name_len p.namelen
      then put s p.dir (neg enametoolong)
      else mkdir_in s p.dir p.name p.namelen

  -- `do_mkdir`, with `vfs_root_vn` and `p_cwd`
  pub do_mkdir : ℕ → Option ℕ → S → List ℕ → Outcome (S × ℕ)
  unfolding mkdir_at
  do_mkdir root cwd s path =
      if ltb max_path_len (length path)
      then ok (s, neg enametoolong)
      else dir_namev ops.nodes root cwd none s path >>= λ r. mkdir_at r

  -- In `do_mknod` lookup stores over the parent: what is put, and what mknod is called on, is the
  -- vnode found, or else the parent, whose reference is the one that stays when an entry is found.
  mknod_found : ℕ → List ℕ → ℕ → ℕ → S × ℕ × Option ℕ → Outcome (S × ℕ)
  mknod_found d name mode devid (s, ret, r) =
      if ret == 0
      then put s r (neg eexist)
      else if ret == neg enoent
      then then_put (ops.mknod s d name mode devid) d
      else ok (s, ret)

  mknod_in : S → Option ℕ → List ℕ → ℕ → ℕ → ℕ → Outcome (S × ℕ)
  unfolding mknod_found
  mknod_in s none name len mode devid = panic
  mknod_in s (some d) name len mode devid =
      lookup ops.nodes s d name len >>= λ r. mknod_found d (take len name) mode devid r

  mknod_at : ℕ → ℕ → S × ℕ × Parent → Outcome (S × ℕ)
  unfolding mknod_in
  mknod_at mode devid (s, ret, p) =
      if failed ret then ok (s, ret) else mknod_in s p.dir p.name p.namelen mode devid

  pub do_mknod : ℕ → Option ℕ → S → List ℕ → ℕ → ℕ → Outcome (S × ℕ)
  unfolding mknod_at
  do_mknod root cwd s path mode devid =
      if not (mode == s_ifchr)
      then ok (s, neg einval)
      else if ltb (length path) 1
      then ok (s, neg einval)
      else if ltb max_path_len (length path)
      then ok (s, neg enametoolong)
      else dir_namev ops.nodes root cwd none s path >>= λ r. mknod_at mode devid r

  rmdir_found : ℕ → List ℕ → S × ℕ × Option ℕ → Outcome (S × ℕ)
  rmdir_found d name (s, ret, r) =
      if ret == 0 then then_put (ops.rmdir s d name) d else put s (some d) ret

  rmdir_in : S → Option ℕ → List ℕ → ℕ → Outcome (S × ℕ)
  unfolding rmdir_found
  rmdir_in s none name len = ok (s, neg enotdir)
  rmdir_in s (some d) name len =
      if ltb name_len len
      then put s (some d) (neg enametoolong)
      else lookup ops.nodes s d name len >>= λ r. rmdir_found d (take len name) r

  rmdir_at : S × ℕ × Parent → Outcome (S × ℕ)
  unfolding rmdir_in
  rmdir_at (s, ret, p) =
      if failed ret
      then ok (s, ret)
      else if is_dots p.name (46 ∷ [])
      then put s p.dir (neg einval)
      else if is_dots p.name (46 ∷ 46 ∷ [])
      then put s p.dir (neg enotempty)
      else rmdir_in s p.dir p.name p.namelen

  -- `do_rmdir`; what lookup has stored is not put.
  pub do_rmdir : ℕ → Option ℕ → S → List ℕ → Outcome (S × ℕ)
  unfolding rmdir_at
  do_rmdir root cwd s path = dir_namev ops.nodes root cwd none s path >>= λ r. rmdir_at r

  unlink_file : ℕ → ℕ → List ℕ → S → Outcome (S × ℕ)
  unlink_file d child name s =
      if ops.nodes.is_dir s child
      then put_both s (some d) (some child) (neg eisdir)
      else ops.unlink s d name >>= λ (s', ret). put_both s' (some child) (some d) ret

  unlink_found : ℕ → List ℕ → S × ℕ × Option ℕ → Outcome (S × ℕ)
  unfolding unlink_file
  unlink_found d name (s, ret, none) = if failed ret then put s (some d) ret else panic
  unlink_found d name (s, ret, some child) =
      if failed ret then put s (some d) ret else unlink_file d child name s

  unlink_in : S → Option ℕ → List ℕ → ℕ → Outcome (S × ℕ)
  unfolding unlink_found
  unlink_in s none name len = panic
  unlink_in s (some d) name len =
      lookup ops.nodes s d name len >>= λ r. unlink_found d (take len name) r

  -- When `dir_namev` fails, the pointer to the parent is still NULL.
  unlink_at : S × ℕ × Parent → Outcome (S × ℕ)
  unfolding unlink_in
  unlink_at (s, ret, p) = if failed ret then put s none ret else unlink_in s p.dir p.name p.namelen

  pub do_unlink : ℕ → Option ℕ → S → List ℕ → Outcome (S × ℕ)
  unfolding unlink_at
  do_unlink root cwd s path =
      if ltb max_path_len (length path)
      then ok (s, neg enametoolong)
      else dir_namev ops.nodes root cwd none s path >>= λ r. unlink_at r

  -- The new state, the result and the new current directory.
  abbrev pub moved : S → Option ℕ → ℕ → Outcome (S × ℕ × Option ℕ)
  moved s none r = panic
  moved s (some old) r = ops.nodes.vput s old >>= λ s'. ok (s', 0, some r)

  chdir_to : Option ℕ → S × ℕ × Option ℕ → Outcome (S × ℕ × Option ℕ)
  chdir_to cwd (s, ret, none) = if failed ret then ok (s, ret, cwd) else panic
  chdir_to cwd (s, ret, some r) =
      if failed ret
      then ok (s, ret, cwd)
      else if ops.nodes.is_dir s r
      then moved s cwd r
      else ops.nodes.vput s r >>= λ s'. ok (s', neg enotdir, cwd)

  pub do_chdir : ℕ → Option ℕ → S → List ℕ → Outcome (S × ℕ × Option ℕ)
  unfolding chdir_to
  do_chdir root cwd s path =
      if ltb (length path) 1
      then ok (s, neg einval, cwd)
      else open_namev ops.nodes false root cwd none s path >>= λ r. chdir_to cwd r
