-- ===== src/Pages/Joined.antt =====
-- No two free blocks that are buddies of each other stay apart: what the joins of
-- `_page_free_order` and `__page_join` of kernel/mm/page.c are for.
use avengers.Prelude.{ℕ, suc, ◌-◌, ◌/◌, ◌<◌, ◌≡◌, true, false, ◌==◌, ◌&&◌, List, count}
use avengers.Pages.{Group, Pages, pages, top, buddy_of}
use avengers.Pages.Valid.{IsBuddy}
use avengers.Pages.Join.{ys}

-- the pair of a block, which has one bit
abbrev pair : Group → ℕ → ℕ → ℕ
pair g o a = (a - g.base) / pages (suc o)

-- Below the last order, of the two halves of a block at most one is on the free list of its order.
abbrev pub NoneApart : Group → Type 0
NoneApart g =
    (k x y : ℕ)
    → k < top
    → 0 < count x (g.freelist k)
    → 0 < count y (g.freelist k)
    → (x - g.base) / pages (suc k) ≡ (y - g.base) / pages (suc k)
    → x ≡ y

-- The bit of each free block below the last order is set: just one block of its pair is free.
abbrev IsJoined : Group → Type 0
IsJoined g = (k x : ℕ) → k < top → 0 < count x (g.freelist k) → g.map (suc k) (pair g k x) ≡ true

-- The same but for one pair.
abbrev IsJoinedBut : Group → ℕ → ℕ → Type 0
IsJoinedBut g o i =
    (k x : ℕ)
    → k < top
    → 0 < count x (g.freelist k)
    → (k == o && pair g k x == i) ≡ false
    → g.map (suc k) (pair g k x) ≡ true

module _ (g : Group) (v : IsBuddy g) (o a : ℕ) (h : o < top) (c : 0 < count a (g.freelist o))
    (clear : g.map (suc o) (pair g o a) ≡ false) (w : IsJoinedBut g o (pair g o a)) where
  abbrev b : ℕ
  b = buddy_of g o a

  abbrev left : List ℕ
  left = ys g v o a h c clear
