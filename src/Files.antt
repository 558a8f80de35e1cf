-- ===== src/Files.antt =====
-- Open files (kernel/fs/file.c, kernel/fs/open.c, kernel/include/fs/file.h): the files, the
-- descriptor table of the current process and the vnodes. All fields are the bit patterns of
-- 32-bit words.
pub mod Valid
use avengers.Prelude.{
  ℕ, suc, ◌+◌, ◌-◌, ◌%◌, ◌^◌, Bool, true, false, not, ◌&&◌, ◌||◌, Option, none, some, List, [], ◌∷◌,
  ◌++◌, ◌==◌, ltb, if◌then◌else◌, is_none, get_elem?, Outcome, ok, panic, ◌>>=◌, ◌>>◌, kassert,
}

-- `file_t`; `vnode` is the vnode that `f_vnode` points to.
pub record File : Type 0 where
  pub pos : ℕ
  pub mode : ℕ
  pub refcount : ℕ
  pub vnode : Option ℕ

-- the fields of `struct vnode` that these files read
pub record Vnode : Type 0 where
  pub vn_mode : ℕ
  pub vn_len : ℕ

-- The files by address, `p_files` of the current process, the vnodes by address, the requests made
-- to the slab allocator, the calls of vput and the files that have been freed.
pub record Table : Type 0 where
  pub file : ℕ → File
  pub fds : List (Option ℕ)
  pub vnode : ℕ → Vnode
  pub allocs : ℕ
  pub vputs : List ℕ
  pub freed : List ℕ

abbrev pub word_mod : ℕ
word_mod = 2 ^ 32

abbrev pub sign : ℕ
sign = 0x80000000

abbrev pub minus_one : ℕ
minus_one = 0xffffffff

abbrev pub neg : ℕ → ℕ
neg e = word_mod - e

abbrev pub nfiles : ℕ
nfiles = 32

abbrev pub emfile : ℕ
emfile = 24

abbrev pub file_at : (ℕ → File) → ℕ → File → ℕ → File
file_at files f x g = if f == g then x else files g

abbrev pub set_file : Table → ℕ → File → Table
set_file t f x = record t { file = file_at t.file f x }

-- f_pos >= -1
abbrev pub is_pos : ℕ → Bool
is_pos p = ltb p sign || p == minus_one

pub fref : Table → ℕ → Outcome Table
fref t f = do
  kassert (ltb (t.file f).mode 8)
  kassert (is_pos (t.file f).pos)
  kassert (ltb (t.file f).refcount sign)
  kassert ((t.file f).refcount == 0 || not (is_none (t.file f).vnode))
  ok (set_file t f (record (t.file f) { refcount = ((t.file f).refcount + 1) % word_mod }))

-- what the slab allocator hands out: nothing, or the address of the new file
abbrev pub Slab : Type 0
Slab = ℕ → Option ℕ

fref_found : Table → Option ℕ → Outcome (Table × Option ℕ)
unfolding fref
fref_found t none = ok (t, none)
fref_found t (some f) = fref t f >>= λ t'. ok (t', some f)

fget_fresh : Table → Option ℕ → Outcome (Table × Option ℕ)
unfolding fref_found
fget_fresh t none = ok (record t { allocs = suc t.allocs }, none)
fget_fresh t (some f) =
    let zeroed : File = record { pos = 0; mode = 0; refcount = 0; vnode = none } in
    fref_found (record t { allocs = suc t.allocs; file = file_at t.file f zeroed }) (some f)

-- A descriptor beyond the table, negative ones too, finds nothing.
abbrev pub opened : Table → ℕ → Option ℕ
opened t fd = elim (get_elem? t.fds fd) [ none ↦ none | some o ↦ o ]

pub fget : Slab → Table → ℕ → Outcome (Table × Option ℕ)
unfolding fref_found fget_fresh
fget slab t fd =
    let fresh = fget_fresh t (slab t.allocs) in
    let found = fref_found t (opened t fd) in
    if fd == minus_one then fresh else if ltb fd nfiles then found else ok (t, none)

abbrev pub vput_file : List ℕ → Option ℕ → List ℕ
vput_file puts none = puts
vput_file puts (some v) = v ∷ puts

abbrev pub dropped : Table → ℕ → Table
dropped t f = record t { vputs = vput_file t.vputs (t.file f).vnode; freed = f ∷ t.freed }

pub fput : Table → ℕ → Outcome Table
fput t f = do
  kassert (ltb (t.file f).mode 8)
  kassert (is_pos (t.file f).pos)
  kassert (ltb 0 (t.file f).refcount && ltb (t.file f).refcount sign)
  kassert ((t.file f).refcount == 1 || not (is_none (t.file f).vnode))
  let t' = set_file t f (record (t.file f) { refcount = (t.file f).refcount - 1 })
  ok (if (t.file f).refcount == 1 then dropped t' f else t')

unfoldable pub empty_from : ℕ → List (Option ℕ) → ℕ
empty_from fd [] = neg emfile
empty_from fd (none ∷ fds) = fd
empty_from fd (some f ∷ fds) = empty_from (suc fd) fds

unfoldable pub get_empty_fd : Table → ℕ
unfolding empty_from
get_empty_fd t = empty_from 0 t.fds
