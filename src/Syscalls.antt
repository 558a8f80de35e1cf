-- ===== src/Syscalls.antt =====
-- System calls on open files (kernel/fs/vfs_syscall.c). The vnode operations read and write are
-- parameters: of them only the result and the new length of the vnode matter.
pub mod Refs
pub mod Leaks
pub mod Offsets
mod Tests
use avengers.Prelude.{
  ℕ, ◌+◌, ◌-◌, ◌/◌, ◌*◌, ◌%◌, ◌^◌, ◌≤◌, Bool, true, false, not, ◌&&◌, ◌||◌, Option, none, some,
  List, ◌==◌, ltb, leb, if◌then◌else◌, is_none, set, Outcome, ok, panic, ◌>>=◌, ◌>>◌, kassert,
}
use avengers.Files.{
  File, Vnode, Table, Slab, word_mod, sign, minus_one, neg, nfiles, emfile, set_file, opened, fget,
  fput, get_empty_fd,
}

abbrev pub ebadf : ℕ
ebadf = 9

abbrev pub eisdir : ℕ
eisdir = 21

abbrev pub einval : ℕ
einval = 22

abbrev pub seek_set : ℕ
seek_set = 0

abbrev pub seek_cur : ℕ
seek_cur = 1

abbrev pub seek_end : ℕ
seek_end = 2

-- _S_TYPE and the tests on it
abbrev pub s_type : ℕ → ℕ
s_type m = m / 0x100 % 0x100 * 0x100

abbrev pub s_ischr : ℕ → Bool
s_ischr m = s_type m == 0x100

abbrev pub s_isdir : ℕ → Bool
s_isdir m = s_type m == 0x200

abbrev pub s_isblk : ℕ → Bool
s_isblk m = s_type m == 0x400

abbrev pub s_isreg : ℕ → Bool
s_isreg m = s_type m == 0x800

-- f_mode & FMODE_READ, f_mode & FMODE_WRITE and f_mode & FMODE_APPEND
abbrev pub readable : File → Bool
readable f = f.mode % 2 == 1

abbrev pub writable : File → Bool
writable f = f.mode / 2 % 2 == 1

abbrev pub appending : File → Bool
appending f = f.mode / 4 % 2 == 1

-- `vn_ops`: read and write of a vnode at a position, of a number of bytes
pub record VnodeOps : Type 0 where
  pub read : ℕ → ℕ → ℕ → ℕ
  pub write : ℕ → ℕ → ℕ → ℕ × ℕ

abbrev pub is_dir : Table → Option ℕ → Bool
is_dir t none = false
is_dir t (some v) = s_isdir (t.vnode v).vn_mode

-- fput and return
abbrev pub put_return : Table → ℕ → ℕ → Outcome (Table × ℕ)
put_return t f result = fput t f >>= λ t'. ok (t', result)

abbrev pub move_pos : Table → ℕ → ℕ → Table
move_pos t f pos = set_file t f (record (t.file f) { pos = pos })

-- do_read from the call of the vnode's read on
read_vnode : VnodeOps → Table → ℕ → Option ℕ → ℕ → Outcome (Table × ℕ)
read_vnode ops t f none nbytes = panic
read_vnode ops t f (some v) nbytes =
    let bytes = ops.read v (t.file f).pos nbytes in
    if bytes == 0
    then ok (t, 0)
    else put_return (move_pos t f (((t.file f).pos + bytes) % word_mod)) f bytes

read_file : VnodeOps → Table → Option ℕ → ℕ → Outcome (Table × ℕ)
unfolding read_vnode
read_file ops t none nbytes = ok (t, neg ebadf)
read_file ops t (some f) nbytes =
    if not (readable (t.file f))
    then put_return t f (neg ebadf)
    else if is_dir t (t.file f).vnode
    then put_return t f (neg eisdir)
    else read_vnode ops t f (t.file f).vnode nbytes

pub do_read : VnodeOps → Slab → Table → ℕ → ℕ → Outcome (Table × ℕ)
do_read ops slab t fd nbytes = fget slab t fd >>= λ r. read_file ops r.0 r.1 nbytes

-- the end of do_lseek, once f_pos is set
abbrev pub seek_finish : Table → ℕ → Outcome (Table × ℕ)
seek_finish t f =
    if leb sign (t.file f).pos
    then put_return (move_pos t f 0) f (neg einval)
    else put_return t f (t.file f).pos

abbrev pub seek_from_end : Table → ℕ → Option ℕ → ℕ → Outcome (Table × ℕ)
seek_from_end t f none offset = panic
seek_from_end t f (some v) offset =
    seek_finish (move_pos t f (((t.vnode v).vn_len + offset) % word_mod)) f

seek_file : Table → Option ℕ → ℕ → ℕ → Outcome (Table × ℕ)
seek_file t none offset whence = ok (t, neg ebadf)
seek_file t (some f) offset whence =
    if whence == seek_set
    then seek_finish (move_pos t f offset) f
    else if whence == seek_end
    then seek_from_end t f (t.file f).vnode offset
    else if whence == seek_cur
    then seek_finish (move_pos t f (((t.file f).pos + offset) % word_mod)) f
    else ok (t, neg einval)

pub do_lseek : Slab → Table → ℕ → ℕ → ℕ → Outcome (Table × ℕ)
unfolding seek_file
do_lseek slab t fd offset whence =
    if leb sign fd
    then ok (t, neg ebadf)
    else fget slab t fd >>= λ r. seek_file r.0 r.1 offset whence

-- do_write from the call of the vnode's write on
abbrev pub grown : Table → ℕ → ℕ → Table
grown t v len = record t {
  vnode = λ w. if w == v then record (t.vnode v) { vn_len = len } else t.vnode w;
}

abbrev pub advanced : Table → ℕ → ℕ → Table
advanced t f bytes =
    if ltb 0 bytes && ltb bytes sign then move_pos t f (((t.file f).pos + bytes) % word_mod) else t

-- signed f_pos <= vn_len, for a length that is not negative
abbrev pub within : ℕ → ℕ → Bool
within pos len = leb sign pos || leb pos len

abbrev pub write_allowed : ℕ → Vnode → Bool
write_allowed pos v =
    s_ischr v.vn_mode || (s_isblk v.vn_mode || (s_isreg v.vn_mode && within pos v.vn_len))

write_vnode : VnodeOps → Table → ℕ → Option ℕ → ℕ → Outcome (Table × ℕ)
write_vnode ops t f none nbytes = panic
write_vnode ops t f (some v) nbytes =
    let r = ops.write v (t.file f).pos nbytes in
    let t' = advanced (grown t v r.1) f r.0 in
    kassert (write_allowed (t'.file f).pos (t'.vnode v)) >> put_return t' f r.0

write_file : VnodeOps → Slab → Table → ℕ → Option ℕ → ℕ → Outcome (Table × ℕ)
unfolding write_vnode
write_file ops slab t fd none nbytes = ok (t, neg ebadf)
write_file ops slab t fd (some f) nbytes =
    let at_end = do_lseek slab t fd 0 seek_end >>= λ r. ok (move_pos r.0 f r.1) in
    if not (writable (t.file f))
    then put_return t f (neg ebadf)
    else if is_dir t (t.file f).vnode
    then ok (t, neg eisdir)
    else (if appending (t.file f) then at_end else ok t) >>= λ t'.
        write_vnode ops t' f (t'.file f).vnode nbytes

pub do_write : VnodeOps → Slab → Table → ℕ → ℕ → Outcome (Table × ℕ)
do_write ops slab t fd nbytes = fget slab t fd >>= λ r. write_file ops slab r.0 fd r.1 nbytes

-- p_files[fd] = o
abbrev pub set_fd : Table → ℕ → Option ℕ → Table
set_fd t fd o = record t { fds = set t.fds fd o }

close_file : Table → ℕ → Option ℕ → Outcome (Table × ℕ)
close_file t fd none = ok (t, neg ebadf)
close_file t fd (some f) =
    if is_none (opened t fd)
    then ok (t, neg ebadf)
    else fput (set_fd t fd none) f >>= λ t'. put_return t' f 0

pub do_close : Slab → Table → ℕ → Outcome (Table × ℕ)
do_close slab t fd =
    if leb sign fd then ok (t, neg ebadf) else fget slab t fd >>= λ r. close_file r.0 fd r.1

dup_file : Table → ℕ → Option ℕ → Outcome (Table × ℕ)
dup_file t fd none = ok (t, neg ebadf)
dup_file t fd (some f) =
    let new = get_empty_fd t in
    if is_dir t (t.file f).vnode
    then ok (t, neg eisdir)
    else if new == neg emfile
    then ok (t, neg emfile)
    else ok (set_fd t new (opened t fd), new)

pub do_dup : Slab → Table → ℕ → Outcome (Table × ℕ)
do_dup slab t fd =
    if leb sign fd then ok (t, neg ebadf) else fget slab t fd >>= λ r. dup_file r.0 fd r.1

-- the end of do_dup2, after do_close of the new descriptor has returned, with its result
abbrev pub dup2_closed : ℕ → ℕ → ℕ → Table × ℕ → Outcome (Table × ℕ)
dup2_closed ofd nfd f r =
    if leb sign r.1
    then put_return r.0 f r.1
    else if nfd == neg emfile
    then ok (r.0, emfile)
    else ok (set_fd r.0 nfd (opened r.0 ofd), nfd)

dup2_file : Slab → Table → ℕ → ℕ → Option ℕ → Outcome (Table × ℕ)
dup2_file slab t ofd nfd none = ok (t, neg ebadf)
dup2_file slab t ofd nfd (some f) =
    let closed = do_close slab t nfd in
    if nfd == ofd
    then put_return t f nfd
    else if is_dir t (t.file f).vnode
    then ok (t, neg eisdir)
    else (if is_none (opened t nfd) then ok (t, 0) else closed) >>= dup2_closed ofd nfd f

pub do_dup2 : Slab → Table → ℕ → ℕ → Outcome (Table × ℕ)
do_dup2 slab t ofd nfd =
    if leb sign ofd || (leb sign nfd || (leb nfiles ofd || leb nfiles nfd))
    then ok (t, neg ebadf)
    else fget slab t ofd >>= λ r. dup2_file slab r.0 ofd nfd r.1
