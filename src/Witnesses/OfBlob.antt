-- ===== src/Witnesses/OfBlob.antt =====
-- Witnesses of the object store.
use nornickel_hackathon.Prelude.{
  ℕ, ◌&&◌, some, List, [], ◌∷◌, ◌==◌, if◌then◌else◌, ◌≡◌, ◌↔◌, ok, err,
}
use nornickel_hackathon.Blob.{
  MemStore, parse_uri, exists, get, put, ensure_bucket, is_there, uri, read_failed,
}
use nornickel_hackathon.Blob.Address.{Names, parse_uri_iff}
use nornickel_hackathon.Blob.Memory.{object_of, mem_store_refines}

parse_uri_iff_example :
    (parse_uri "s3://raw/d1.pdf" ≡ ok ("raw", "d1.pdf")) ↔ Names "s3://raw/d1.pdf" "raw" "d1.pdf"
parse_uri_iff_example = parse_uri_iff "s3://raw/d1.pdf" "raw" "d1.pdf"

abbrev store : MemStore
store = ("raw", ("d1.pdf", 37 ∷ 80 ∷ []) ∷ []) ∷ []

mem_store_refines_example :
    (exists "raw" "d1.pdf" store ≡ is_there (object_of store "raw" "d1.pdf"))
    × ((d : List ℕ) → (get "raw" "d1.pdf" store ≡ ok d) ↔ (object_of store "raw" "d1.pdf" ≡ some d))
    × ((put "raw" "d2.pdf" (some (1 ∷ [])) store).0
        ≡ (if is_there (some (1 ∷ [])) then ok (uri "raw" "d2.pdf") else err read_failed))
    × (object_of (put "raw" "d2.pdf" (some (1 ∷ [])) store).1 "raw" "d1.pdf" ≡ (
        if is_there (some (1 ∷ [])) && "raw" == "raw" && "d2.pdf" == "d1.pdf"
        then some (1 ∷ [])
        else object_of store "raw" "d1.pdf"))
    × (object_of (ensure_bucket "raw" store) "raw" "d1.pdf" ≡ object_of store "raw" "d1.pdf")
mem_store_refines_example = mem_store_refines store "raw" "d1.pdf" "raw" "d2.pdf" (some (1 ∷ []))
