-- ===== src/Pframe/Pinning.antt =====
-- The lists of pinned and of allocated page frames of kernel/mm/pframe.c.
use avengers.Prelude.{
  ℕ, ◌+◌, ◌<◌, ◌≡◌, false, some, [], ◌∷◌, ◌==◌, if◌then◌else◌, is_none, count, count-append,
  count-erase, ok, ◌>>=◌, arith,
}
use avengers.Pframe.{
  Pframe, Frames, decr, incr, pframe_pin, pframe_unpin, pinned_once, unpinned_once, forgotten,
  pframe_free, free_of,
}

abbrev pub is_pinned : Pframe → ℕ
is_pinned p = if is_none p.obj then 0 else if p.pincount == 0 then 0 else 1

abbrev pub is_allocated : Pframe → ℕ
is_allocated p = if is_none p.obj then 0 else if p.pincount == 0 then 1 else 0

-- Each frame in use is on one list, once: the pinned one if it is pinned, else the allocated one.
pub record IsListed (fr : Frames) : Type 0 where
  pub pinned : (f : ℕ) → count f fr.pinned_list ≡ is_pinned (fr.frame f)
  pub allocated : (f : ℕ) → count f fr.alloc_list ≡ is_allocated (fr.frame f)

-- On valid lists, pframe_pin of a frame in use raises its pin count, keeps it on the right list,
-- and counts it as pinned and no longer as allocated if it was not pinned before.
pub pframe_pin-IsListed :
    (fr : Frames) (f : ℕ)
    → IsListed fr
    → is_none (fr.frame f).obj ≡ false
    → (fr.frame f).pincount < 0x7fffffff
    → (fr' : Frames) × (pframe_pin fr f ≡ ok fr')
      × IsListed fr'
      × ((fr'.frame f).pincount ≡ (fr.frame f).pincount + 1)
      × (fr'.npinned ≡ (if (fr.frame f).pincount == 0 then incr fr.npinned else fr.npinned))
      × (fr'.nallocated
          ≡ (if (fr.frame f).pincount == 0 then decr fr.nallocated else fr.nallocated))
unfolding pframe_pin
pframe_pin-IsListed fr f v u b = (
  pinned_once fr f,
  ground arith,
  record {
    pinned = λ g. ground (arith, v.pinned g, count-append g fr.pinned_list (f ∷ []));
    allocated = λ g. ground (arith, v.allocated f, v.allocated g, count-erase g f fr.alloc_list);
  },
  ground arith,
  ground arith,
  ground arith,
)

-- On valid lists, pframe_unpin of a pinned frame lowers its pin count and keeps it on the right
-- list, but it counts one pinned frame less even if the frame stays pinned.
pframe_unpin-IsListed :
    (fr : Frames) (f : ℕ)
    → IsListed fr
    → is_none (fr.frame f).obj ≡ false
    → 0 < (fr.frame f).pincount
    → (fr.frame f).pincount < 0x80000000
    → (fr' : Frames) × (pframe_unpin fr f ≡ ok fr')
      × IsListed fr'
      × ((fr'.frame f).pincount + 1 ≡ (fr.frame f).pincount)
      × (fr'.npinned ≡ decr fr.npinned)
unfolding pframe_unpin
pframe_unpin-IsListed fr f v u p b = (
  unpinned_once fr f,
  ground arith,
  record {
    pinned = λ g. ground (arith, v.pinned f, v.pinned g, count-erase g f fr.pinned_list);
    allocated = λ g. ground (arith, v.allocated g, count-append g fr.alloc_list (f ∷ []));
  },
  ground arith,
  ground arith,
)

-- On valid lists, pframe_free of a frame in use that is neither pinned nor busy takes it off the
-- allocated list, and keeps all other frames on theirs.
pframe_free-IsListed :
    (fr : Frames) (f o : ℕ)
    → IsListed fr
    → (fr.frame f).obj ≡ some o
    → (fr.frame f).pincount ≡ 0
    → (fr.frame f).busy ≡ false
    → (fr' : Frames) × (pframe_free fr f ≡ ok fr') × IsListed fr' × (count f fr'.alloc_list ≡ 0)
unfolding pframe_free free_of
pframe_free-IsListed fr f o v u p b = (
  forgotten fr f o,
  ground arith,
  record {
    pinned = λ g. ground (arith, v.pinned g);
    allocated = λ g. ground (arith, v.allocated f, v.allocated g, count-erase g f fr.alloc_list);
  },
  ground (arith, v.allocated f, count-erase f f fr.alloc_list),
)

-- On valid lists, pframe_pin of a frame that is pinned already and the pframe_unpin that takes it
-- back leave the list of pinned frames as it was and count one pinned frame less.
unpin_after_second_pin_miscounts :
    (fr : Frames) (f : ℕ)
    → IsListed fr
    → is_none (fr.frame f).obj ≡ false
    → 0 < (fr.frame f).pincount
    → (fr.frame f).pincount < 0x7fffffff
    → (fr' : Frames) × ((pframe_pin fr f >>= λ x. pframe_unpin x f) ≡ ok fr')
      × (fr'.pinned_list ≡ fr.pinned_list)
      × (fr'.npinned ≡ decr fr.npinned)
unfolding pframe_pin pframe_unpin
unpin_after_second_pin_miscounts fr f v u p b =
    (unpinned_once (pinned_once fr f) f, ground arith, ground arith, ground arith)
