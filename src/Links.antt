-- ===== src/Links.antt =====
-- The circular doubly linked lists of kernel/include/util/list.h. Links and heads of lists are
-- addresses; a pointer that is NULL is `none`, and following it stops the machine.
pub mod Ring
pub mod Gone
mod Tests
use avengers.Prelude.{
  ℕ, Bool, true, false, Option, none, some, ◌==◌, if◌then◌else◌, Outcome, ok, panic, ◌>>=◌,
}

-- `l_next` and `l_prev` by address
pub record Heap : Type 0 where
  pub next : ℕ → Option ℕ
  pub prev : ℕ → Option ℕ

abbrev pub store : (ℕ → Option ℕ) → ℕ → Option ℕ → ℕ → Option ℕ
store f a p b = if b == a then p else f b

abbrev pub set_next : Heap → ℕ → Option ℕ → Heap
set_next h a p = record h { next = store h.next a p }

abbrev pub set_prev : Heap → ℕ → Option ℕ → Heap
set_prev h a p = record h { prev = store h.prev a p }

abbrev pub follow : Option ℕ → Outcome ℕ
follow none = panic
follow (some a) = ok a

-- `list_init`
pub list_init : Heap → ℕ → Heap
list_init h l = set_prev (set_next h l (some l)) l (some l)

-- `list_empty`
pub list_empty : Heap → ℕ → Bool
list_empty h l = elim (h.next l) [ none ↦ false | some a ↦ a == l ]

-- `list_insert_before`; `prev` is the new link and `next` the old one.
pub insert_before : Heap → ℕ → ℕ → Outcome Heap
insert_before h next prev = do
  let h1 = set_next h prev (some next)
  let h2 = set_prev h1 prev (h1.prev next)
  p ← follow (h2.prev next)
  let h3 = set_next h2 p (some prev)
  ok (set_prev h3 next (some prev))

-- `list_insert_head` and `list_insert_tail`
pub insert_head : Heap → ℕ → ℕ → Outcome Heap
unfolding insert_before
insert_head h l link = follow (h.next l) >>= λ first. insert_before h first link

pub insert_tail : Heap → ℕ → ℕ → Outcome Heap
unfolding insert_before
insert_tail h l link = insert_before h l link

-- `list_remove`
pub list_remove : Heap → ℕ → Outcome Heap
list_remove h link = do
  prev ← follow (h.prev link)
  next ← follow (h.next link)
  let h1 = set_next h prev (some next)
  let h2 = set_prev h1 next (some prev)
  let h3 = set_prev h2 link none
  ok (set_next h3 link none)

-- `list_link_init` and `list_link_is_linked`
pub list_link_init : Heap → ℕ → Heap
list_link_init h link = set_prev (set_next h link none) link none

pub is_linked : Heap → ℕ → Bool
is_linked h link = elim (h.next link) [
  | none ↦ false
  | some a ↦ elim (h.prev link) [ none ↦ false | some b ↦ true ]
]

-- `list_remove_head` and `list_remove_tail`
pub remove_head : Heap → ℕ → Outcome Heap
unfolding list_remove
remove_head h l = follow (h.next l) >>= λ first. list_remove h first

pub remove_tail : Heap → ℕ → Outcome Heap
unfolding list_remove
remove_tail h l = follow (h.prev l) >>= λ last. list_remove h last
