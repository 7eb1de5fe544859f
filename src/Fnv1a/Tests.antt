-- ===== src/Fnv1a/Tests.antt =====
-- Hashes of sample texts, and the theorems of the hash there.
use loginhelper.Prelude.{
  ℕ, ◌≡◌, refl, List, [], ◌∷◌, ◌++◌, map, none, some, length, arith, codes, ok,
}
use loginhelper.Fnv1a.{
  ascii_tolower, ascii_toupper, fnv1a32, fnv1a64, make_hash, make_hash_sized, hash_terminated,
  hash_char, hash_bytes,
}
use loginhelper.Fnv1a.Reference.{fnv_32, fnv_64, make_hash-fnv}
use loginhelper.Fnv1a.Laws.{make_hash_sized-fold}

abbrev name : List ℕ
name = codes "ab"

abbrev upper : List ℕ
upper = codes "AB"

make_hash-name : make_hash (fnv1a32 1) (name ++ (0 ∷ [])) none ≡ ok 0x4d2505ca
unfolding make_hash hash_terminated hash_char hash_bytes
make_hash-name = refl

fold-names : map ascii_tolower name ≡ map ascii_tolower upper
unfolding ascii_tolower
fold-names = refl

make_hash_sized-fold_example :
    make_hash_sized (fnv1a64 2) name (length name) (some ascii_tolower)
    ≡ make_hash_sized (fnv1a64 2) upper (length upper) (some ascii_tolower)
make_hash_sized-fold_example = make_hash_sized-fold (fnv1a64 2) ascii_tolower name upper fold-names

make_hash-fnv_example :
    (make_hash (fnv1a32 1) (codes "Ab" ++ (0 ∷ 7 ∷ [])) (some ascii_tolower) ≡ ok (fnv_32 name))
    × (make_hash (fnv1a32 1) (codes "Ab" ++ (0 ∷ 7 ∷ [])) (some ascii_toupper) ≡ ok (fnv_32 upper))
    × (make_hash (fnv1a64 1) (codes "Ab" ++ (0 ∷ 7 ∷ [])) (some ascii_tolower) ≡ ok (fnv_64 name))
    × (make_hash (fnv1a64 1) (codes "Ab" ++ (0 ∷ 7 ∷ [])) (some ascii_toupper) ≡ ok (fnv_64 upper))
make_hash-fnv_example =
    make_hash-fnv (codes "Ab") name upper (7 ∷ []) ((λ e. omega arith), ((λ e. omega arith), _))
      (ground arith) (ground arith) (omega arith) (omega arith)
