-- ===== src/Ingest/Normalize.antt =====
-- The metadata of a document after normalization, and the page limit.
use nornickel_hackathon.Prelude.{
  ℕ, zero, suc, ◌≤◌, String, Bool, true, false, not, List, ◌≡◌, refl, arith, eq_iff, contains, ok,
  fail_if, subst, ok-injective, fail_if-eq_ok, >>=-eq_ok,
}
use nornickel_hackathon.Ingest.{
  Meta, normalize_meta, default_string, valid_doc_types, valid_geographies, valid_access_levels,
  list_limit, invalid_doc_type, invalid_geography, invalid_access_level,
}

default_valid :
    (valid : List String) (value fallback : String)
    → contains valid "" ≡ false
    → contains valid value ≡ true
    → default_string value fallback ≡ value
default_valid valid value fallback h m = ground (arith, eq_iff value "")

not-false : {b : Bool} → not b ≡ false → b ≡ true
not-false {b} h = ground arith

abbrev IsNormal : Meta → Type 0
IsNormal m =
    (contains valid_doc_types m.doc_type ≡ true)
    × (contains valid_geographies m.geography ≡ true)
    × (contains valid_access_levels m.access_level ≡ true)
    × (normalize_meta m.doc_type m.geography m.access_level ≡ ok m)

normal :
    (t g a : String)
    → contains valid_doc_types t ≡ true
    → contains valid_geographies g ≡ true
    → contains valid_access_levels a ≡ true
    → IsNormal (record { doc_type = t; geography = g; access_level = a })
unfolding normalize_meta
normal t g a ht hg ha = (
  ht,
  hg,
  ha,
  rw
      (
        default_valid valid_doc_types t "report" refl ht,
        default_valid valid_geographies g "unknown" refl hg,
        default_valid valid_access_levels a "internal" refl ha,
      )
      (rw (ht, hg, ha) refl),
)

-- The metadata that normalization returns are of the valid values, and normalizing them again
-- returns them as they are.
pub normalize_meta_valid :
    (doc_type geography access_level : String) {m : Meta}
    → normalize_meta doc_type geography access_level ≡ ok m
    → (contains valid_doc_types m.doc_type ≡ true)
      × (contains valid_geographies m.geography ≡ true)
      × (contains valid_access_levels m.access_level ≡ true)
      × (normalize_meta m.doc_type m.geography m.access_level ≡ ok m)
unfolding normalize_meta
normalize_meta_valid doc_type geography access_level {m} h =
    let t : String = default_string doc_type "report" in
    let g : String = default_string geography "unknown" in
    let a : String = default_string access_level "internal" in
    let (u, e1, h1) = >>=-eq_ok (fail_if (not (contains valid_doc_types t)) invalid_doc_type) _ h in
    let (v, e2, h2) =
      >>=-eq_ok (fail_if (not (contains valid_geographies g)) invalid_geography) _ h1 in
    let (w, e3, h3) =
      >>=-eq_ok (fail_if (not (contains valid_access_levels a)) invalid_access_level) _ h2 in
    subst IsNormal (ok-injective h3) (
      normal t g a (not-false (fail_if-eq_ok _ _ e1)) (not-false (fail_if-eq_ok _ _ e2))
        (not-false (fail_if-eq_ok _ _ e3)))

-- A page is never empty and never longer than a hundred documents.
pub list_limit_bounds : (limit : ℕ) → (1 ≤ list_limit limit) × (list_limit limit ≤ 100)
unfolding list_limit
list_limit_bounds zero = ground arith
list_limit_bounds (suc n) = ground arith
