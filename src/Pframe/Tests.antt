-- ===== src/Pframe/Tests.antt =====
-- Runs of kernel/mm/pframe.c, and the theorems at concrete inputs.
use avengers.Prelude.{◌+◌, ◌≡◌, refl, false, none, some, [], ◌∷◌, ◌==◌, if◌then◌else◌, ok, arith}
use avengers.Pframe.{Frames, Memory, pframe_pin}
use avengers.Pframe.Pinning.{IsListed, pframe_pin-IsListed}
use avengers.Pframe.Resident.{IsHashed}

-- Frame 1 holds page 4 of the object 10 and is pinned once, frame 2 its page 5 and is not pinned.
abbrev frames : Frames
frames = record {
  frame = λ f.
      if f == 1
      then record {
        obj = some 10;
        pagenum = 4;
        addr = 0x1000;
        busy = false;
        dirty = false;
        pincount = 1;
      }
      else if f == 2
      then record {
        obj = some 10;
        pagenum = 5;
        addr = 0x2000;
        busy = false;
        dirty = false;
        pincount = 0;
      }
      else record { obj = none; pagenum = 0; addr = 0; busy = false; dirty = false; pincount = 0 };
  pinned_list = 1 ∷ [];
  npinned = 1;
  alloc_list = 2 ∷ [];
  nallocated = 1;
  chain = λ h. if h == 14 then 1 ∷ [] else if h == 15 then 2 ∷ [] else [];
  respages = λ o. if o == 10 then 2 ∷ 1 ∷ [] else [];
  nrespages = λ o. if o == 10 then 2 else 0;
  requests = 0;
  log = [];
}

frames-IsListed : IsListed frames
frames-IsListed = record { pinned = λ f. ground arith; allocated = λ f. ground arith }

frames-IsHashed : IsHashed frames
frames-IsHashed f o pagenum h = ground arith

abbrev memory : Memory
memory = record { slab = λ n. some (n + 7); page = λ n. some 0x7000 }

pframe_pin-IsListed_example :
    (fr' : Frames) × (pframe_pin frames 2 ≡ ok fr')
    × IsListed fr'
    × ((fr'.frame 2).pincount ≡ 1)
    × (fr'.npinned ≡ 2)
    × (fr'.nallocated ≡ 0)
pframe_pin-IsListed_example = pframe_pin-IsListed frames 2 frames-IsListed refl (omega arith)
