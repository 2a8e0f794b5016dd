-- ===== src/HashCache/RoundTrip.antt =====
-- What StoreCksums writes, ReadCacheFromDb reads back. src/hash_cache.cpp.
use dupa.Base.{
  ◌≡◌, ◌↔◌, inl, inr, refl, sym, ap, ◌∙◌, subst, String, Option, none, some, List, [], ◌∷◌, map,
  foldl, str_eq, eq_iff, In, In-map, In-map_of, Distinct, arith, Bool-cases, Option-cases,
}
use dupa.DbLib.Interface.{Value}
use dupa.HashCache.{FileInfo, find_path}
use dupa.HashCache.Table.{info_row, row_info, insert_path, insert_info, insert_row}

abbrev Entries : Type 0
Entries = List (String × FileInfo)

-- No path has two entries, as in a map.
abbrev pub IsMap : Entries → Type 0
IsMap cache = Distinct (map (λ (x : String × FileInfo). x.0) cache)

find_path-In : (p : String) (i : FileInfo) (xs : Entries) → find_path p xs ≡ some i → In (p, i) xs
find_path-In p i [] e = absurd (ground arith)
find_path-In p i (x ∷ xs) e = elim (Bool-cases (str_eq x.0 p)) [
  | inl m ↦
      let same : x.0 ≡ p = (eq_iff x.0 p).0 m in
      let found : x.1 ≡ i = ground arith in inl (λ k. (sym same k, sym found k))
  | inr m ↦ inr (find_path-In p i xs (ground arith))
]

In-find_path :
    (p : String) (i : FileInfo) (xs : Entries)
    → In (p, i) xs
    → (j : FileInfo) × (find_path p xs ≡ some j)
In-find_path p i [] m = absurd m
In-find_path p i (x ∷ xs) m = elim (Bool-cases (str_eq x.0 p)) [
  | inl e ↦ (x.1, rw e refl)
  | inr e ↦ elim m [
    | inl same ↦
        absurd (let b = (eq_iff x.0 p).1 (sym (ap (λ (z : String × FileInfo). z.0) same)) in cc)
    | inr there ↦ let (j, f) = In-find_path p i xs there in (j, rw e f)
  ]
]

-- In a map an entry is the one that is found.
IsMap-find_path :
    (p : String) (i : FileInfo) (xs : Entries) → IsMap xs → In (p, i) xs → find_path p xs ≡ some i
IsMap-find_path p i [] d m = absurd m
IsMap-find_path p i (x ∷ xs) d (inl same) =
    let e = (eq_iff x.0 p).1 (sym (ap (λ (z : String × FileInfo). z.0) same)) in
    rw e (ap some (sym (ap (λ (z : String × FileInfo). z.1) same)))
IsMap-find_path p i (x ∷ xs) d (inr there) = elim (Bool-cases (str_eq x.0 p)) [
  | inl e ↦ absurd (
      d.0 (
        subst (λ z. In z (map (λ (x : String × FileInfo). x.0) xs)) (sym ((eq_iff x.0 p).0 e))
          (In-map_of (λ (x : String × FileInfo). x.0) (p, i) xs there)))
  | inr e ↦ rw e (IsMap-find_path p i xs d.1 there)
]

-- A list with the members of a map finds what the map finds.
SameMembers : Entries → Entries → Type 0
SameMembers xs ys = (x : String × FileInfo) → In x ys ↔ In x xs

find_path-SameMembers :
    (p : String) (xs ys : Entries) → IsMap xs → SameMembers xs ys → find_path p ys ≡ find_path p xs
unfolding SameMembers
find_path-SameMembers p xs ys d same = elim (Option-cases (find_path p ys)) [
  | inl n ↦ elim (Option-cases (find_path p xs)) [
    | inl n2 ↦ n ∙ sym n2
    | inr (i, e) ↦
        absurd (
          let (j, f) = In-find_path p i ys ((same (p, i)).1 (find_path-In p i xs e)) in
          ground arith)
  ]
  | inr (i, e) ↦ e ∙ sym (IsMap-find_path p i xs d ((same (p, i)).0 (find_path-In p i ys e)))
]

some_inj : (x y : String × FileInfo) → some x ≡ some y → x ≡ y
some_inj x y e = ap (λ o. elim o [ some z ↦ z | none ↦ x ]) e

-- The first of two.
abbrev or_else : Option FileInfo → Option FileInfo → Option FileInfo
or_else (some i) o = some i
or_else none o = o

find_path-insert_path :
    (p : String) (x : String × FileInfo) (cache : Entries)
    → find_path p (insert_path x cache) ≡ or_else (find_path p cache) (find_path p (x ∷ []))
unfolding insert_path
find_path-insert_path p x cache = elim (Bool-cases (str_eq x.0 p)) [
  | inl m ↦
      let same : x.0 ≡ p = (eq_iff x.0 p).0 m in
      elim (Option-cases (find_path p cache)) [
        | inl n ↦
            let n' : find_path x.0 cache ≡ none =
              subst (λ z. find_path z cache ≡ none) (sym same) n in
            rw (n', m, n) refl
        | inr (j, e) ↦
            let e' : find_path x.0 cache ≡ some j =
              subst (λ z. find_path z cache ≡ some j) (sym same) e in
            rw (e', e) refl
      ]
  | inr m ↦ elim (Option-cases (find_path x.0 cache)) [
    | inl n ↦ rw (n, m) (right_none (find_path p cache))
    | inr (j, e) ↦ rw (e, m) (right_none (find_path p cache))
  ]
]
  where
    right_none : (o : Option FileInfo) → o ≡ or_else o none
    right_none none = refl
    right_none (some i) = refl

abbrev cons_info : Option (String × FileInfo) → Entries → Entries
cons_info none xs = xs
cons_info (some x) xs = x ∷ xs

module _ {D : Type 0} where
  -- The entries that some rows hold.
  abbrev infos : List (List (Value D)) → Entries
  infos [] = []
  infos (r ∷ rs) = cons_info (row_info r) (infos rs)

  -- The loop of ReadCacheFromDb finds what it had, and then the first entry of a row.
  insert_row_lem :
      (p : String) (rs : List (List (Value D))) (cache : Entries)
      → find_path p (foldl insert_row cache rs)
        ≡ or_else (find_path p cache) (find_path p (infos rs))
  unfolding insert_row
  insert_row_lem p [] cache = elim (Option-cases (find_path p cache)) [
    | inl n ↦ rw n refl
    | inr (i, e) ↦ rw e refl
  ]
  insert_row_lem p (r ∷ rs) cache =
      insert_row_lem p rs (insert_info (row_info r) cache) ∙ first_row (row_info r)
    where
      assoc :
          (x : String × FileInfo) (o : Option FileInfo)
          → or_else (or_else o (find_path p (x ∷ []))) (find_path p (infos rs))
            ≡ or_else o (find_path p (x ∷ infos rs))
      assoc x (some i) = refl
      assoc x none = elim (Bool-cases (str_eq x.0 p)) [ inl m ↦ rw m refl | inr m ↦ rw m refl ]

      first_row :
          (o : Option (String × FileInfo))
          → or_else (find_path p (insert_info o cache)) (find_path p (infos rs))
            ≡ or_else (find_path p cache) (find_path p (cons_info o (infos rs)))
      first_row none = refl
      first_row (some x) =
          ap (λ o. or_else o (find_path p (infos rs))) (find_path-insert_path p x cache)
          ∙ assoc x (find_path p cache)

  infos-In :
      (x : String × FileInfo) (rs : List (List (Value D)))
      → In x (infos rs) ↔ ((r : List (Value D)) × In r rs × (row_info r ≡ some x))
  infos-In x [] = ((λ m. absurd m), (λ z. absurd z.1))
  infos-In x (r ∷ rs) = cons_In (row_info r) refl (infos-In x rs)
    where
      cons_In :
          (o : Option (String × FileInfo))
          → row_info r ≡ o
          → (In x (infos rs) ↔ ((q : List (Value D)) × In q rs × (row_info q ≡ some x)))
          → In x (cons_info o (infos rs))
            ↔ ((q : List (Value D)) × In q (r ∷ rs) × (row_info q ≡ some x))
      cons_In none n (there, back) = (
        (λ m. let (q, i, e) = there m in (q, inr i, e)),
        (λ z. elim z.1 [
          | inl same ↦ absurd (let e = sym n ∙ (ap row_info (sym same) ∙ z.2) in ground arith)
          | inr i ↦ back (z.0, i, z.2)
        ]),
      )
      cons_In (some y) e (there, back) = (
        (λ m. elim m [
          | inl same ↦ (r, inl refl, e ∙ ap some (sym same))
          | inr k ↦ let (q, i, f) = there k in (q, inr i, f)
        ]),
        (λ z. elim z.1 [
          | inl same ↦ inl (some_inj x y (sym z.2 ∙ (ap row_info same ∙ e)))
          | inr i ↦ inr (back (z.0, i, z.2))
        ]),
      )

  -- Rows with the members of a map's rows hold its entries.
  infos-SameMembers :
      (cache : Entries) (rs : List (List (Value D)))
      → ((r : List (Value D)) → In r rs ↔ In r (map info_row cache))
      → SameMembers cache (infos rs)
  unfolding SameMembers
  infos-SameMembers cache rs same x = (
    (λ m.
        let (r, i, e) = (infos-In x rs).0 m in
        let (y, j, f) = In-map info_row r cache ((same r).0 i) in
        let both : some y ≡ some x = ap row_info (sym f) ∙ e in
        subst (λ z. In z cache) (some_inj y x both) j),
    (λ m.
        (infos-In x rs).1 (info_row x, (same (info_row x)).1 (In-map_of info_row x cache m), refl)),
  )

  -- So the cache that is read from such rows finds what the map finds.
  pub insert_row-find_path :
      (p : String) (cache : Entries) (rs : List (List (Value D)))
      → IsMap cache
      → ((r : List (Value D)) → In r rs ↔ In r (map info_row cache))
      → find_path p (foldl insert_row [] rs) ≡ find_path p cache
  insert_row-find_path p cache rs d same =
      insert_row_lem p rs []
      ∙ find_path-SameMembers p cache (infos rs) d (infos-SameMembers cache rs same)
