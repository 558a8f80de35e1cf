-- ===== src/Links/Tests.antt =====
-- Lists of one and of two links.
use avengers.Prelude.{◌≡◌, refl, none, some, [], ◌∷◌, ok}
use avengers.Links.{Heap, insert_tail, list_remove, store}
use avengers.Links.Ring.{Chain, IsRing, insert_tail-IsRing}
use avengers.Links.Gone.{list_remove-IsRing}

-- The head of the list is 0.
abbrev with_one : Heap
with_one = record {
  next = store (store (λ a. none) 0 (some 1)) 1 (some 0);
  prev = store (store (λ a. none) 0 (some 1)) 1 (some 0);
}

with_one-IsRing : IsRing with_one 0 (1 ∷ [])
unfolding Chain
with_one-IsRing = record { chain = (refl, refl, (refl, refl)); apart = refl }

insert_tail-IsRing_example :
    (h' : Heap) × (insert_tail with_one 0 2 ≡ ok h') × IsRing h' 0 (1 ∷ 2 ∷ [])
insert_tail-IsRing_example = insert_tail-IsRing with_one 0 2 (1 ∷ []) with_one-IsRing refl

abbrev with_two : Heap
with_two = record {
  next = store (store (store (λ a. none) 0 (some 1)) 1 (some 2)) 2 (some 0);
  prev = store (store (store (λ a. none) 0 (some 2)) 1 (some 0)) 2 (some 1);
}

with_two-IsRing : IsRing with_two 0 (1 ∷ 2 ∷ [])
unfolding Chain
with_two-IsRing = record { chain = (refl, refl, (refl, refl, (refl, refl))); apart = refl }

list_remove-IsRing_example : (h' : Heap) × (list_remove with_two 1 ≡ ok h') × IsRing h' 0 (2 ∷ [])
list_remove-IsRing_example = list_remove-IsRing with_two 0 1 [] (2 ∷ []) with_two-IsRing
