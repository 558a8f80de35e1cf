-- ===== src/Pframe.antt =====
-- Page frames (kernel/mm/pframe.c, kernel/include/mm/pframe.h): the frames and objects by address,
-- the lists of frames, and a log of the calls of other parts. Counters are the bit patterns of
-- 32-bit words.
pub mod Pinning
pub mod Resident
mod Tests
use avengers.Prelude.{
  ℕ, zero, suc, ◌+◌, ◌-◌, ◌%◌, ◌^◌, Bool, true, false, not, ◌&&◌, ◌||◌, Option, none, some, List,
  [], ◌∷◌, ◌++◌, ◌==◌, ltb, leb, if◌then◌else◌, is_none, erase, Outcome, ok, panic, ◌>>=◌, ◌>>◌,
  kassert,
}

-- `pframe_t`; `busy` and `dirty` are PF_BUSY and PF_DIRTY of `pf_flags`.
pub record Pframe : Type 0 where
  pub obj : Option ℕ
  pub pagenum : ℕ
  pub addr : ℕ
  pub busy : Bool
  pub dirty : Bool
  pub pincount : ℕ

-- `ref` and `put` of an object, the waking of `pf_waitq`, the removal of a frame from the TLB and
-- the page tables, page_free and slab_obj_free
pub data Call : Type 0 where
  obj_ref : ℕ → Call
  obj_put : ℕ → Call
  wake_waiters : ℕ → Call
  unmap : ℕ → Call
  page_freed : ℕ → Call
  slab_freed : ℕ → Call

-- `chain` is `pframe_hash`; `respages` and `nrespages` are `mmo_respages` and `mmo_nrespages`.
pub record Frames : Type 0 where
  pub frame : ℕ → Pframe
  pub pinned_list : List ℕ
  pub npinned : ℕ
  pub alloc_list : List ℕ
  pub nallocated : ℕ
  pub chain : ℕ → List ℕ
  pub respages : ℕ → List ℕ
  pub nrespages : ℕ → ℕ
  pub requests : ℕ
  pub log : List Call

abbrev pub int_mod : ℕ
int_mod = 2 ^ 32

abbrev pub incr : ℕ → ℕ
incr n = (n + 1) % int_mod

abbrev pub decr : ℕ → ℕ
decr n = (n + int_mod - 1) % int_mod

abbrev pub put_at {ℓ} : {A : Type ℓ} → (ℕ → A) → ℕ → A → ℕ → A
put_at m k x j = if k == j then x else m j

abbrev pub set_frame : Frames → ℕ → Pframe → Frames
set_frame fr f p = record fr { frame = put_at fr.frame f p }

abbrev pub note : Frames → Call → Frames
note fr c = record fr { log = fr.log ++ (c ∷ []) }

-- hash_page, with PF_HASH_SIZE = 17
abbrev pub hash_page : ℕ → ℕ → ℕ
hash_page o pagenum = (o + pagenum) % int_mod % 17

abbrev pub is_page : Pframe → ℕ → ℕ → Bool
is_page p o pagenum = elim p.obj [ none ↦ false | some q ↦ q == o && p.pagenum == pagenum ]

-- the walk of `pframe_get_resident` along a hash chain
resident_in : (ℕ → Pframe) → List ℕ → ℕ → ℕ → Option ℕ
resident_in frames [] o pagenum = none
resident_in frames (f ∷ fs) o pagenum =
    let rest = resident_in frames fs o pagenum in
    if is_page (frames f) o pagenum then some f else rest

-- A page that is not pinned goes to the back of `alloc_list`.
abbrev pub requested : Frames → ℕ → Frames
requested fr f =
    if (fr.frame f).pincount == 0
    then record fr { alloc_list = erase f fr.alloc_list ++ (f ∷ []) }
    else fr

found : Frames → Option ℕ → Frames × Option ℕ
found fr none = (fr, none)
found fr (some f) = (requested fr f, some f)

pub get_resident : Frames → ℕ → ℕ → Frames × Option ℕ
unfolding resident_in found
get_resident fr o pagenum =
    found fr (resident_in fr.frame (fr.chain (hash_page o pagenum)) o pagenum)

-- What slab_obj_alloc and page_alloc return at each request: nothing, or an address.
pub record Memory : Type 0 where
  pub slab : ℕ → Option ℕ
  pub page : ℕ → Option ℕ

enter : Frames → ℕ → ℕ → ℕ → ℕ → Frames
enter fr f addr o pagenum =
    let h = hash_page o pagenum in
    record fr {
      frame = put_at fr.frame f (record {
        obj = some o;
        pagenum = pagenum;
        addr = addr;
        busy = false;
        dirty = false;
        pincount = 0;
      });
      nallocated = incr fr.nallocated;
      alloc_list = fr.alloc_list ++ (f ∷ []);
      chain = put_at fr.chain h (f ∷ fr.chain h);
      nrespages = put_at fr.nrespages o (incr (fr.nrespages o));
      respages = put_at fr.respages o (f ∷ fr.respages o);
      requests = suc fr.requests;
      log = fr.log ++ (Call.obj_ref o ∷ []);
    }

alloc_page : Frames → ℕ → Option ℕ → ℕ → ℕ → Frames × Option ℕ
unfolding enter
alloc_page fr f none o pagenum =
    (note (record fr { requests = suc fr.requests }) (Call.slab_freed f), none)
alloc_page fr f (some addr) o pagenum = (enter fr f addr o pagenum, some f)

alloc_slab : Memory → Frames → Option ℕ → ℕ → ℕ → Frames × Option ℕ
unfolding alloc_page
alloc_slab memory fr none o pagenum = (record fr { requests = suc fr.requests }, none)
alloc_slab memory fr (some f) o pagenum = alloc_page fr f (memory.page fr.requests) o pagenum

pub pframe_alloc : Memory → Frames → ℕ → ℕ → Frames × Option ℕ
unfolding alloc_slab
pframe_alloc memory fr o pagenum = alloc_slab memory fr (memory.slab fr.requests) o pagenum

abbrev pub sign : ℕ
sign = 0x80000000

-- the changes that pframe_pin makes
abbrev pub pinned_once : Frames → ℕ → Frames
pinned_once fr f =
    let p = record (fr.frame f) { pincount = incr (fr.frame f).pincount } in
    let fr' : Frames = record fr { frame = put_at fr.frame f p } in
    if (fr.frame f).pincount == 0
    then record fr' {
      alloc_list = erase f fr.alloc_list;
      nallocated = decr fr.nallocated;
      pinned_list = fr.pinned_list ++ (f ∷ []);
      npinned = incr fr.npinned;
    }
    else fr'

pub pframe_pin : Frames → ℕ → Outcome Frames
pframe_pin fr f = do
  kassert (not (is_none (fr.frame f).obj))
  kassert (ltb (fr.frame f).pincount sign)
  ok (pinned_once fr f)

-- the changes that pframe_unpin makes
abbrev pub unpinned_once : Frames → ℕ → Frames
unpinned_once fr f =
    let p = record (fr.frame f) { pincount = (fr.frame f).pincount - 1 } in
    let fr' : Frames = record fr { frame = put_at fr.frame f p; npinned = decr fr.npinned } in
    if (fr.frame f).pincount == 1
    then record fr' {
      pinned_list = erase f fr.pinned_list;
      alloc_list = fr.alloc_list ++ (f ∷ []);
      nallocated = incr fr.nallocated;
    }
    else fr'

pub pframe_unpin : Frames → ℕ → Outcome Frames
pframe_unpin fr f = do
  kassert (not (is_none (fr.frame f).obj))
  kassert (ltb 0 (fr.frame f).pincount && ltb (fr.frame f).pincount sign)
  ok (unpinned_once fr f)

-- the end of `pframe_free`, of a frame of the object `o`
abbrev pub forgotten : Frames → ℕ → ℕ → Frames
forgotten fr f o =
    let h = hash_page o (fr.frame f).pagenum in
    record fr {
      frame = put_at fr.frame f (record (fr.frame f) { obj = none });
      chain = put_at fr.chain h (erase f (fr.chain h));
      nallocated = decr fr.nallocated;
      alloc_list = erase f fr.alloc_list;
      nrespages = put_at fr.nrespages o (decr (fr.nrespages o));
      respages = put_at fr.respages o (erase f (fr.respages o));
      log =
          fr.log
          ++ (Call.unmap f
              ∷ Call.page_freed (fr.frame f).addr
              ∷ Call.slab_freed f
              ∷ Call.obj_put o
              ∷ []);
    }

free_of : Frames → ℕ → Option ℕ → Outcome Frames
free_of fr f none = panic
free_of fr f (some o) = kassert (not (fr.frame f).busy) >> ok (forgotten fr f o)

pub pframe_free : Frames → ℕ → Outcome Frames
unfolding free_of
pframe_free fr f = kassert ((fr.frame f).pincount == 0) >> free_of fr f (fr.frame f).obj

-- the mmobj operations dirtypage and cleanpage, by the object and the frame: their result
abbrev pub PageOp : Type 0
PageOp = ℕ → ℕ → ℕ

dirty_of : PageOp → Frames → ℕ → Option ℕ → Outcome (Frames × ℕ)
dirty_of dirtypage fr f none = panic
dirty_of dirtypage fr f (some o) =
    let r = dirtypage o f in
    let p = record (fr.frame f) {
      dirty = if r == 0 then true else (fr.frame f).dirty;
      busy = false;
    } in
    ok (note (set_frame fr f p) (Call.wake_waiters f), r)

pub pframe_dirty : PageOp → Frames → ℕ → Outcome (Frames × ℕ)
unfolding dirty_of
pframe_dirty dirtypage fr f =
    kassert (not (fr.frame f).busy) >> dirty_of dirtypage fr f (fr.frame f).obj

clean_of : PageOp → Frames → ℕ → Option ℕ → Outcome (Frames × ℕ)
clean_of cleanpage fr f none = panic
clean_of cleanpage fr f (some o) =
    let r = cleanpage o f in
    let p = record (fr.frame f) { dirty = leb sign r; busy = false } in
    ok (note (note (set_frame fr f p) (Call.unmap f)) (Call.wake_waiters f), r)

pub pframe_clean : PageOp → Frames → ℕ → Outcome (Frames × ℕ)
unfolding clean_of
pframe_clean cleanpage fr f = do
  kassert (fr.frame f).dirty
  kassert ((fr.frame f).pincount == 0)
  clean_of cleanpage fr f (fr.frame f).obj

-- The move of a frame to an object on whose resident list it is not, in `pframe_migrate`.
abbrev pub moved_to : Frames → ℕ → ℕ → ℕ → Frames
moved_to fr f src dest =
    let pagenum = (fr.frame f).pagenum in
    let chains =
      put_at fr.chain (hash_page src pagenum) (erase f (fr.chain (hash_page src pagenum))) in
    let nres = put_at fr.nrespages src (decr (fr.nrespages src)) in
    let res = put_at fr.respages src (erase f (fr.respages src)) in
    record fr {
      frame = put_at fr.frame f (record (fr.frame f) { obj = some dest });
      chain = put_at chains (hash_page dest pagenum) (f ∷ chains (hash_page dest pagenum));
      nrespages = put_at nres dest (incr (nres dest));
      respages = put_at res dest (f ∷ res dest);
      log = fr.log ++ (Call.obj_put src ∷ Call.obj_ref dest ∷ []);
    }

migrate_of : Frames → ℕ → Option ℕ → ℕ → Outcome Frames
migrate_of fr f none dest = panic
migrate_of fr f (some src) dest = ok (moved_to fr f src dest)

-- A newer page of `dest` wins: the migrating one is unpinned, cleaned and freed.
migrate_onto : PageOp → Frames × Option ℕ → ℕ → ℕ → Outcome Frames
unfolding migrate_of
migrate_onto cleanpage (fr, none) f dest = migrate_of fr f (fr.frame f).obj dest
migrate_onto cleanpage (fr, some g) f dest = pframe_unpin fr f >>= λ unpinned.
    pframe_clean cleanpage unpinned f >>= λ cleaned. pframe_free cleaned.0 f

pub pframe_migrate : PageOp → Frames → ℕ → ℕ → Outcome Frames
unfolding migrate_onto
pframe_migrate cleanpage fr f dest =
    kassert (not (fr.frame f).busy)
    >> migrate_onto cleanpage (get_resident fr dest (fr.frame f).pagenum) f dest
