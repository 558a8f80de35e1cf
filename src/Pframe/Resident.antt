-- ===== src/Pframe/Resident.antt =====
-- The hash of resident pages of kernel/mm/pframe.c.
use avengers.Prelude.{
  ℕ, ◌<◌, ◌≡◌, refl, ◌⊎◌, inl, inr, true, false, Bool-cases, none, some, List, [], ◌∷◌, count,
  arith,
}
use avengers.Pframe.{
  Pframe, Frames, Memory, hash_page, is_page, resident_in, found, get_resident, pframe_alloc,
  alloc_slab, alloc_page, enter,
}

-- Every frame that holds a page is on the hash chain of the page.
abbrev pub IsHashed : Frames → Type 0
IsHashed fr =
    (f o pagenum : ℕ)
    → is_page (fr.frame f) o pagenum ≡ true
    → 0 < count f (fr.chain (hash_page o pagenum))

resident_in-cases :
    (frames : ℕ → Pframe) (chain : List ℕ) (o pagenum : ℕ)
    → ((resident_in frames chain o pagenum ≡ none)
        × ((f : ℕ) → 0 < count f chain → is_page (frames f) o pagenum ≡ false))
      ⊎ ((f : ℕ) × (resident_in frames chain o pagenum ≡ some f)
          × (is_page (frames f) o pagenum ≡ true))
unfolding resident_in
resident_in-cases frames [] o pagenum = inl (refl, λ f p. absurd (omega arith))
resident_in-cases frames (g ∷ gs) o pagenum = elim (Bool-cases (is_page (frames g) o pagenum)) [
  | inl y ↦ inr (g, ground arith, y)
  | inr n ↦ elim (resident_in-cases frames gs o pagenum) [
    | inl (e, out) ↦ inl (ground arith, λ f p. ground (arith, out f))
    | inr (f, e, y) ↦ inr (f, ground arith, y)
  ]
]

-- If every frame is on the hash chain of its page, pframe_get_resident returns a frame that holds
-- the page, or nothing if no frame holds it.
pub get_resident-cases :
    (fr : Frames) (o pagenum : ℕ)
    → IsHashed fr
    → (((get_resident fr o pagenum).1 ≡ none) × ((f : ℕ) → is_page (fr.frame f) o pagenum ≡ false))
      ⊎ ((f : ℕ) × ((get_resident fr o pagenum).1 ≡ some f)
          × (is_page (fr.frame f) o pagenum ≡ true))
unfolding get_resident found
get_resident-cases fr o pagenum hashed =
    elim (resident_in-cases fr.frame (fr.chain (hash_page o pagenum)) o pagenum) [
      | inl (e, out) ↦ inl (
        ground arith,
        λ f. elim (Bool-cases (is_page (fr.frame f) o pagenum)) [
          | inl y ↦ ground (arith, out f, hashed f o pagenum y)
          | inr n ↦ n
        ],
      )
      | inr (f, e, y) ↦ inr (f, ground arith, y)
    ]

-- The page that pframe_alloc has allocated is the one that pframe_get_resident then finds.
get_resident-pframe_alloc :
    (memory : Memory) (fr : Frames) (o pagenum f addr : ℕ)
    → memory.slab fr.requests ≡ some f
    → memory.page fr.requests ≡ some addr
    → ((pframe_alloc memory fr o pagenum).1 ≡ some f)
      × ((get_resident (pframe_alloc memory fr o pagenum).0 o pagenum).1 ≡ some f)
unfolding pframe_alloc alloc_slab alloc_page enter get_resident resident_in found
get_resident-pframe_alloc memory fr o pagenum f addr s p = (ground arith, ground arith)
