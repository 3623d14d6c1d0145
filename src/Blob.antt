-- ===== src/Blob.antt =====
-- internal/platform/blob: the address of an object (blob.go) and the store in memory (mem.go).
--
-- An object is the list of its bytes, read before `Put` is called; `none` is a reader that fails.
pub mod Address
pub mod Memory
use nornickel_hackathon.Prelude.{
  ℕ, String, Bool, true, false, ◌||◌, Option, none, some, List, [], nat_eq, ◌==◌, if◌then◌else◌,
  lookup, insert, Assoc, Result, ok, err,
}
use Prim.Native.String.{◌++◌}
use Prim.Native.Char.{Char, code}

pub data BlobError : Type 0 where
  invalid_scheme missing_part read_failed bucket_not_found object_not_found : BlobError

abbrev pub uri_scheme : String
uri_scheme = "s3://"

unfoldable pub uri : String → String → String
uri bucket key = ((uri_scheme ++ bucket) ++ "/") ++ key

-- `strings.HasPrefix` with the rest of the text after the prefix.
unfoldable pub strip_prefix : String → String → Option String
strip_prefix String.[] s = some s
strip_prefix (String.◌∷◌ p prefix) String.[] = none
strip_prefix (String.◌∷◌ p prefix) (String.◌∷◌ c s) =
    if nat_eq (code p) (code c) then strip_prefix prefix s else none

unfoldable pub push_front : Char → Option (String × String) → Option (String × String)
push_front c none = none
push_front c (some (before, after)) = some (String.◌∷◌ c before, after)

-- The parts before and after the first slash, as `strings.IndexByte` finds it.
unfoldable pub cut_slash : String → Option (String × String)
unfolding push_front
cut_slash String.[] = none
cut_slash (String.◌∷◌ c s) =
    let rest = cut_slash s in if nat_eq (code c) b'/' then some ("", s) else push_front c rest

unfoldable pub parts_of : Option (String × String) → Result BlobError (String × String)
parts_of none = err missing_part
parts_of (some (bucket, key)) =
    if bucket == "" || key == "" then err missing_part else ok (bucket, key)

unfoldable pub after_scheme : Option String → Result BlobError (String × String)
unfolding parts_of cut_slash
after_scheme none = err invalid_scheme
after_scheme (some rest) = parts_of (cut_slash rest)

unfoldable pub parse_uri : String → Result BlobError (String × String)
unfolding after_scheme strip_prefix
parse_uri uri = after_scheme (strip_prefix uri_scheme uri)

-- The buckets of the store in memory.
abbrev pub MemStore : Type 0
MemStore = Assoc (Assoc (List ℕ))

unfoldable pub objects_in : Option (Assoc (List ℕ)) → Assoc (List ℕ)
objects_in none = []
objects_in (some objects) = objects

unfoldable pub ensure_bucket : String → MemStore → MemStore
unfolding objects_in
ensure_bucket bucket store = insert bucket (objects_in (lookup bucket store)) store

unfoldable pub put :
    String → String → Option (List ℕ) → MemStore → Result BlobError String × MemStore
unfolding objects_in uri
put bucket key none store = (err read_failed, store)
put bucket key (some body) store =
    (ok (uri bucket key), insert bucket (insert key body (objects_in (lookup bucket store))) store)

unfoldable pub is_there : Option (List ℕ) → Bool
is_there none = false
is_there (some body) = true

unfoldable pub exists_in : String → Option (Assoc (List ℕ)) → Bool
unfolding is_there
exists_in key none = false
exists_in key (some objects) = is_there (lookup key objects)

unfoldable pub exists : String → String → MemStore → Bool
unfolding exists_in
exists bucket key store = exists_in key (lookup bucket store)

unfoldable pub found_object : Option (List ℕ) → Result BlobError (List ℕ)
found_object none = err object_not_found
found_object (some body) = ok body

unfoldable pub get_from : String → Option (Assoc (List ℕ)) → Result BlobError (List ℕ)
unfolding found_object
get_from key none = err bucket_not_found
get_from key (some objects) = found_object (lookup key objects)

unfoldable pub get : String → String → MemStore → Result BlobError (List ℕ)
unfolding get_from
get bucket key store = get_from key (lookup bucket store)
