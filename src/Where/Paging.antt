-- ===== src/Where/Paging.antt =====
-- Offsets and limits.
use public_pkg.Common.{ℕ, suc, ◌-◌, ◌*◌, ◌^◌, ◌<◌, ◌≡◌, arith, ◌⊎◌, refl}
use public_pkg.Common.Int.{int64-pos, int64-negsuc, ℤ, pos, negsuc, ◌-ℤ◌, ◌*ℤ◌, ◌≤ℤ◌}
use public_pkg.Where.{Options, default_limit, set_offset, set_limit, set_page, with_page}

-- The limit is no limit, -1, or above 0.
abbrev pub IsLimit : ℤ → Type 0
IsLimit n = (n ≡ default_limit) ⊎ (pos 1 ≤ℤ n)

pages_before : (page : ℕ) → pos (suc page) -ℤ pos 1 ≡ pos page
unfolding ◌-ℤ◌
pages_before page = ground arith

*ℤ-pos : (a b : ℕ) → pos a *ℤ pos b ≡ pos (a * b)
unfolding ◌*ℤ◌
*ℤ-pos a b = ground arith

*ℤ-default_limit : (n : ℕ) → pos (suc n) *ℤ default_limit ≡ negsuc n
unfolding ◌*ℤ◌
*ℤ-default_limit n = ground arith

module _ {K C Q : Type 0} where
  -- `O` changes the offset only, and leaves none below 0; `L` changes the limit only, and leaves -1, which is no limit,
  -- or one above 0. A valid argument is taken over, and any other gives the offset 0 or no limit.
  pub paging_bounds :
      (n m : ℤ) (whr : Options K C Q)
      → let o = set_offset n whr in
        let p = set_limit m whr in
        (o ≡ record whr { offset = o.offset })
        × (p ≡ record whr { limit = p.limit })
        × (pos 0 ≤ℤ o.offset)
        × IsLimit p.limit
        × (((pos 0 ≤ℤ n) × (o.offset ≡ n)) ⊎ ((n ≤ℤ negsuc 0) × (o.offset ≡ pos 0)))
        × (((pos 1 ≤ℤ m) × (p.limit ≡ m)) ⊎ ((m ≤ℤ pos 0) × (p.limit ≡ default_limit)))
  unfolding set_offset set_limit
  paging_bounds n m whr = (refl, refl, ground arith, ground arith, ground arith, ground arith)

  -- For a page from 1 on and a positive page size, `P` and `WithPage` agree: the offset is the number
  -- of rows on the pages before, if that fits an int.
  page_offset :
      (page size : ℕ) (whr : Options K C Q)
      → 0 < size
      → page < 2 ^ 63
      → page * size < 2 ^ 63
      → (set_page (pos (suc page)) (pos size) whr
          ≡ record whr { offset = pos (page * size); limit = pos size })
        × (with_page (pos (suc page)) (pos size) whr ≡ set_page (pos (suc page)) (pos size) whr)
  unfolding set_page with_page
  page_offset page size whr h p q =
      ground (arith, pages_before page, *ℤ-pos page size, int64-pos page, int64-pos (page * size))

  -- Without a page size the limit is -1, and the offset of a later page is the number of pages before
  -- it below 0.
  page_without_size :
      (page : ℕ) (size : ℤ) (whr : Options K C Q)
      → size ≤ℤ pos 0
      → page < 2 ^ 63 - 1
      → (set_page (pos (suc (suc page))) size whr).offset ≡ negsuc page
  unfolding set_page
  page_without_size page size whr h p = ground (
    arith,
    pages_before (suc page),
    *ℤ-default_limit page,
    int64-pos (suc page),
    int64-negsuc page,
  )
