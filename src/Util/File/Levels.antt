-- ===== src/Util/File/Levels.antt =====
-- The directories that GetIntraDir of pkg/util/file/file.go builds.
use public_pkg.Common.{
  ℕ, zero, suc, ◌+◌, ◌-◌, ◌*◌, ◌^◌, ◌≤◌, ◌<◌, leb, ltb, ◌||◌, Bool-cases, inl, inr, Bool, true,
  false, List, [], ◌∷◌, ◌++◌, some, ◌≡◌, ◌≢◌, refl, sym, ap, ◌∙◌, arith, All, All-append,
  append_assoc, append-nil, length, drop, if◌then◌else◌,
}
use public_pkg.Common.Int.{pos, ltb_ℤ, int64-pos}
use public_pkg.Text.{Bytes}
use public_pkg.Text.Split.{join, split-join, Lacks}
use public_pkg.Util.File.Path.{
  is_rooted, push, push_all, rev_onto, or_dot, clean, path_join, take, slice, add_levels,
  get_intra_dir,
}

-- A byte that is no slash and no dot, and a part of a path made of such bytes.
abbrev pub IsPlain : ℕ → Type 0
IsPlain c = (c ≢ b'/') × (c ≢ b'.')

abbrev pub IsName : Bytes → Type 0
IsName p = (p ≢ []) × All IsPlain p

-- The first parts of a text, each of `len` bytes.
abbrev pub chunks : ℕ → ℕ → Bytes → List Bytes
chunks zero len s = []
chunks (suc n) len s = take len s ∷ chunks n len (drop len s)

push-IsName :
    (rooted : Bool) (p : Bytes) (stack : List Bytes) → IsName p → push rooted p stack ≡ p ∷ stack
push-IsName rooted [] stack (h, _) = absurd (h refl)
push-IsName rooted (c ∷ []) stack (_, ((slash, dot), _)) = ground arith
push-IsName rooted (c ∷ d ∷ s) stack (_, ((slash, dot), _)) = ground arith

push_all_names :
    (rooted : Bool) (ps stack : List Bytes)
    → All IsName ps
    → push_all rooted ps stack ≡ rev_onto ps stack
push_all_names rooted [] stack h = refl
push_all_names rooted (p ∷ ps) stack (hp, h) =
    ap (λ s. push_all rooted ps s) (push-IsName rooted p stack hp)
    ∙ push_all_names rooted ps (p ∷ stack) h

rev_onto_twice : (xs ys zs : List Bytes) → rev_onto (rev_onto xs ys) zs ≡ rev_onto ys (xs ++ zs)
rev_onto_twice [] ys zs = refl
rev_onto_twice (x ∷ xs) ys zs = rev_onto_twice xs (x ∷ ys) zs

plain-Lacks : (p : Bytes) → All IsPlain p → Lacks b'/' p
plain-Lacks [] h = tt
plain-Lacks (c ∷ p) ((slash, dot), h) = (slash, plain-Lacks p h)

names_lack : (ps : List Bytes) → All IsName ps → All (Lacks b'/') ps
names_lack [] h = tt
names_lack (p ∷ ps) (hp, h) = (plain-Lacks p hp.1, names_lack ps h)

-- A join of names starts with a plain byte.
starts :
    (p : Bytes) (ps : List Bytes)
    → IsName p
    → (c : ℕ) × (s : Bytes) × (join b'/' (p ∷ ps) ≡ c ∷ s) × IsPlain c
unfolding join
starts [] ps (h, _) = absurd (h refl)
starts (c ∷ p) [] (_, (hc, _)) = (c, p, refl, hc)
starts (c ∷ p) (q ∷ ps) (_, (hc, _)) = (c, _, refl, hc)

names_back : (p : Bytes) (ps : List Bytes) → rev_onto (rev_onto ps (p ∷ [])) [] ≡ p ∷ ps
names_back p ps = rev_onto_twice ps (p ∷ []) [] ∙ ap (λ (l : List Bytes). p ∷ l) (append-nil ps)

unrooted :
    (c : ℕ) (s : Bytes)
    → IsPlain c
    → or_dot ((if is_rooted (c ∷ s) then b'/' ∷ [] else []) ++ c ∷ s) ≡ c ∷ s
unrooted c s (slash, dot) = ground arith

-- `Clean` leaves a join of names.
clean-join :
    (p : Bytes) (ps : List Bytes)
    → All IsName (p ∷ ps)
    → clean (join b'/' (p ∷ ps)) ≡ join b'/' (p ∷ ps)
unfolding clean
clean-join p ps h =
    let (c, s, e, hc) = starts p ps h.0 in
    rw
      (
        split-join b'/' p ps (names_lack (p ∷ ps) h),
        push_all_names (is_rooted (join b'/' (p ∷ ps))) (p ∷ ps) [] h,
        names_back p ps,
        e,
      )
      (unrooted c s hc)

join_snoc :
    (p : Bytes) (ps : List Bytes) (q : Bytes)
    → join b'/' (p ∷ ps ++ q ∷ []) ≡ join b'/' (p ∷ ps) ++ b'/' ∷ q
unfolding join
join_snoc p [] q = refl
join_snoc p (r ∷ ps) q =
    ap (λ (s : Bytes). p ++ b'/' ∷ s) (join_snoc r ps q)
    ∙ sym (append_assoc p (b'/' ∷ join b'/' (r ∷ ps)) (b'/' ∷ q))

join_step : (s q : Bytes) → s ≢ [] → path_join s q ≡ clean (s ++ b'/' ∷ q)
unfolding path_join
join_step [] q h = absurd (h refl)
join_step (c ∷ s) q h = refl

path_join_snoc :
    (p : Bytes) (ps : List Bytes) (q : Bytes)
    → All IsName (p ∷ ps)
    → IsName q
    → path_join (join b'/' (p ∷ ps)) q ≡ join b'/' (p ∷ ps ++ q ∷ [])
path_join_snoc p ps q h hq =
    let (c, s, e, hc) = starts p ps h.0 in
    join_step (join b'/' (p ∷ ps)) q (λ n. cc)
    ∙ ap clean (sym (join_snoc p ps q))
    ∙ clean-join p (ps ++ q ∷ []) (h.0, All-append IsName ps (q ∷ []) h.1 (hq, tt))

drop-length : (n : ℕ) (s : Bytes) → length (drop n s) ≡ length s - n
drop-length zero s = omega arith
drop-length (suc n) [] = omega arith
drop-length (suc n) (c ∷ s) = omega (arith, drop-length n s)

drop-nil : (n : ℕ) → drop {A = ℕ} n [] ≡ []
drop-nil zero = refl
drop-nil (suc n) = refl

suc_left : (a b : ℕ) → suc a + b ≡ suc (a + b)
suc_left a b = omega arith

drop_add : (a b : ℕ) (s : Bytes) → drop (a + b) s ≡ drop b (drop a s)
drop_add zero b s = ap (λ n. drop n s) (omega arith)
drop_add (suc a) b [] = drop-nil (suc a + b) ∙ sym (drop-nil b)
drop_add (suc a) b (c ∷ s) = ap (λ n. drop n (c ∷ s)) (suc_left a b) ∙ drop_add a b s

drop-plain : (n : ℕ) (s : Bytes) → All IsPlain s → All IsPlain (drop n s)
drop-plain zero s h = h
drop-plain (suc n) [] h = tt
drop-plain (suc n) (c ∷ s) h = drop-plain n s h.1

take-plain : (n : ℕ) (s : Bytes) → All IsPlain s → All IsPlain (take n s)
take-plain zero s h = tt
take-plain (suc n) [] h = tt
take-plain (suc n) (c ∷ s) h = (h.0, take-plain n s h.1)

take-IsName : (n : ℕ) (s : Bytes) → 1 ≤ n → 1 ≤ length s → All IsPlain s → IsName (take n s)
take-IsName zero s hn hs h = absurd (omega arith)
take-IsName (suc n) [] hn hs h = absurd (omega arith)
take-IsName (suc n) (c ∷ s) hn hs h = (λ e. cc, take-plain (suc n) (c ∷ s) h)

-- The test before the first slice, for a pattern that is long enough and for one that is not.
passes :
    (depth len n : ℕ)
    → 1 ≤ depth
    → 1 ≤ len
    → depth * len ≤ n
    → (ltb depth 1 || ltb len 1 || ltb_ℤ (pos n) (pos (depth * len))) ≡ false
passes depth len n hd hl h = ground arith

fails :
    (depth len n : ℕ)
    → n < depth * len
    → (ltb depth 1 || ltb len 1 || ltb_ℤ (pos n) (pos (depth * len))) ≡ true
fails depth len n h = ground arith

module _ (pattern : Bytes) (plain : All IsPlain pattern) (len : ℕ) (some_length : 1 ≤ len) where
  piece :
      (i : ℕ)
      → len * i + len ≤ length pattern
      → slice pattern (len * i) (len * (i + 1)) ≡ some (take len (drop (len * i) pattern))
  unfolding slice
  piece i h = ground arith

  next : (i : ℕ) → drop (len * (i + 1)) pattern ≡ drop len (drop (len * i) pattern)
  next i = ap (λ n. drop n pattern) (omega arith) ∙ drop_add (len * i) len pattern

  one_level :
      (rounds i : ℕ) (intra_dir part : Bytes)
      → slice pattern (len * i) (len * (i + 1)) ≡ some part
      → add_levels pattern len i (suc rounds) intra_dir
        ≡ add_levels pattern len (i + 1) rounds (path_join intra_dir part)
  unfolding add_levels
  one_level rounds i intra_dir part h = rw (add_levels, h) refl

  levels :
      (rounds i : ℕ) (p : Bytes) (ps : List Bytes)
      → All IsName (p ∷ ps)
      → len * (i + rounds) ≤ length pattern
      → add_levels pattern len i rounds (join b'/' (p ∷ ps))
        ≡ some (join b'/' (p ∷ ps ++ chunks rounds len (drop (len * i) pattern)))
  unfolding add_levels
  levels zero i p ps h fits =
      ap (λ (l : List Bytes). some (join b'/' (p ∷ l))) (sym (append-nil ps))
  levels (suc rounds) i p ps h fits =
      let q = take len (drop (len * i) pattern) in
      let room : 1 ≤ length (drop (len * i) pattern) =
        omega (arith, drop-length (len * i) pattern) in
      let hq : IsName q =
        take-IsName len (drop (len * i) pattern) some_length room
          (drop-plain (len * i) pattern plain) in
      one_level rounds i (join b'/' (p ∷ ps)) q (piece i (omega arith))
      ∙ ap (add_levels pattern len (i + 1) rounds) (path_join_snoc p ps q h hq)
      ∙ levels rounds (i + 1) p (ps ++ q ∷ []) (h.0, All-append IsName ps (q ∷ []) h.1 (hq, tt))
          (omega arith)
      ∙ rw (next i) (
          ap (λ (l : List Bytes). some (join b'/' (p ∷ l)))
            (append_assoc ps (q ∷ []) (chunks rounds len (drop len (drop (len * i) pattern)))))

  first_piece : len ≤ length pattern → slice pattern 0 len ≡ some (take len pattern)
  unfolding slice
  first_piece h = ground arith

  whole :
      (d : ℕ)
      → suc d * len ≤ length pattern
      → add_levels pattern len 1 (suc d - 1) (take len pattern)
        ≡ some (join b'/' (take len pattern ∷ chunks d len (drop len pattern)))
  unfolding join
  whole d long =
      let p = take len pattern in
      let hp : IsName p = take-IsName len pattern some_length (omega arith) plain in
      let rounds : suc d - 1 ≡ d = omega arith in
      let at_one : len * 1 ≡ len = omega arith in
      ap (λ k. add_levels pattern len 1 k p) rounds
      ∙ levels d 1 p [] (hp, tt) (omega arith)
      ∙ ap (λ n. some (join b'/' (p ∷ chunks d len (drop n pattern)))) at_one

  -- Below the wrap-around of an int64, `GetIntraDir` returns the pattern's first `depth` chunks of `len`
  -- bytes, joined by slashes, where the pattern has that many bytes and no dot or slash; else nothing.
  pub get_intra_dir-chunks :
      (depth : ℕ)
      → 1 ≤ depth
      → depth * len < 2 ^ 63
      → get_intra_dir pattern (pos depth) (pos len)
        ≡ some (
            if leb (depth * len) (length pattern) then join b'/' (chunks depth len pattern) else [])
  unfolding get_intra_dir
  get_intra_dir-chunks zero none small = absurd (omega arith)
  get_intra_dir-chunks (suc d) some_depth small =
      elim (Bool-cases (leb (suc d * len) (length pattern))) [
        | inl fits ↦
            let long : suc d * len ≤ length pattern = ground arith in
            rw
              (
                int64-pos (suc d * len) small,
                passes (suc d) len (length pattern) some_depth some_length long,
                fits,
                first_piece (omega arith),
              )
              (whole d (omega arith))
        | inr short ↦
            let long : length pattern < suc d * len = ground arith in
            rw (int64-pos (suc d * len) small, fails (suc d) len (length pattern) long, short) refl
      ]
