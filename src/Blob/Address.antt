-- ===== src/Blob/Address.antt =====
-- The addresses that are parsed are those that are written.
use nornickel_hackathon.Prelude.{
  String, Bool, true, false, ◌||◌, Option, none, some, nat_eq, ◌==◌, eq_iff, if◌then◌else◌, Result,
  ok, err, ◌≡◌, ◌≢◌, ◌↔◌, refl, sym, ap, ok-injective, ◌∙◌, subst, arith,
}
use Prim.Native.String.{◌++◌}
use Prim.Native.Char.{Char, code}
use text.Mathlib.TextEquality.{Char-path}
use text.Mathlib.TextLemmas.{append_assoc}
use Prim.Native.String.append.{nil, cons}
use nornickel_hackathon.Blob.{
  uri, uri_scheme, strip_prefix, push_front, cut_slash, parts_of, after_scheme, parse_uri,
  missing_part, BlobError,
}

-- Whether a text has a slash.
abbrev pub has_slash : String → Bool
has_slash String.[] = false
has_slash (String.◌∷◌ c s) = nat_eq (code c) b'/' || has_slash s

nil-append : (t : String) → "" ++ t ≡ t
nil-append t = nil t

cons-append : (c : Char) (s t : String) → String.◌∷◌ c s ++ t ≡ String.◌∷◌ c (s ++ t)
cons-append c s t = cons c s t

slash-append : (s : String) → "/" ++ s ≡ String.◌∷◌ "/" s
slash-append s = cons-append "/" "" s ∙ ap (λ (x : String). String.◌∷◌ "/" x) (nil-append s)

cut_here : (s : String) → cut_slash (String.◌∷◌ "/" s) ≡ some ("", s)
unfolding cut_slash
cut_here s = refl

cut_there :
    (c : Char) (s : String)
    → nat_eq (code c) b'/' ≡ false
    → cut_slash (String.◌∷◌ c s) ≡ push_front c (cut_slash s)
unfolding cut_slash
cut_there c s e = rw e refl

cut-append : (b k : String) → has_slash b ≡ false → cut_slash (b ++ ("/" ++ k)) ≡ some (b, k)
unfolding push_front
cut-append String.[] k h = ap cut_slash (nil-append ("/" ++ k) ∙ slash-append k) ∙ cut_here k
cut-append (String.◌∷◌ c b) k h =
    ap cut_slash (cons-append c b ("/" ++ k))
    ∙ cut_there c (b ++ ("/" ++ k)) (ground (arith, h))
    ∙ ap (push_front c) (cut-append b k (ground (arith, h)))

pair-injective :
    {a b x y : String}
    → ◌≡◌ {A = Option (String × String)} (some (a, b)) (some (x, y))
    → (a ≡ x) × (b ≡ y)
pair-injective h = (cc, cc)

push_lem :
    (c : Char) (o : Option (String × String)) {b k : String}
    → push_front c o ≡ some (b, k)
    → (b' : String) × (o ≡ some (b', k)) × (b ≡ String.◌∷◌ c b')
unfolding push_front
push_lem c none h = cc
push_lem c (some (x, y)) h =
    let (u, v) = pair-injective h in (x, ap (λ (z : String). some (x, z)) v, sym u)

slash_char : (c : Char) (s : String) → nat_eq (code c) b'/' ≡ true → String.◌∷◌ c s ≡ "/" ++ s
slash_char c s h =
    ap (λ (d : Char). String.◌∷◌ d s) (Char-path c "/" (ground (arith, h))) ∙ sym (slash-append s)

-- What the first slash cuts: the part before has none, and the two parts with a slash are the text.
cut_lem :
    (s b k : String) → cut_slash s ≡ some (b, k) → (s ≡ b ++ ("/" ++ k)) × (has_slash b ≡ false)
unfolding cut_slash
cut_lem String.[] b k h = cc
cut_lem (String.◌∷◌ c s) b k h = go (nat_eq (code c) b'/') refl (λ b' m. cut_lem s b' k m) h
  where
    go :
        (t : Bool)
        → nat_eq (code c) b'/' ≡ t
        → ((b' : String)
            → cut_slash s ≡ some (b', k)
            → (s ≡ b' ++ ("/" ++ k)) × (has_slash b' ≡ false))
        → (if t then some ("", s) else push_front c (cut_slash s)) ≡ some (b, k)
        → (String.◌∷◌ c s ≡ b ++ ("/" ++ k)) × (has_slash b ≡ false)
    go true e rec h =
        let (u, v) = pair-injective h in
        (
          subst (λ (x : String). String.◌∷◌ c s ≡ x ++ ("/" ++ k)) u
              (slash_char c s e ∙ ap (λ (x : String). "/" ++ x) v ∙ sym (nil-append ("/" ++ k))),
          subst (λ (x : String). has_slash x ≡ false) u refl,
        )
    go false e rec h =
        let (b', m, n) = push_lem c (cut_slash s) h in
        let (x, y) = rec b' m in
        subst (λ (z : String). (String.◌∷◌ c s ≡ z ++ ("/" ++ k)) × (has_slash z ≡ false)) (sym n)
          (
            ap (λ (z : String). String.◌∷◌ c z) x ∙ sym (cons-append c b' ("/" ++ k)),
            ground (arith, e, y),
          )

strip_same :
    (c : Char) (p s : String) → strip_prefix (String.◌∷◌ c p) (String.◌∷◌ c s) ≡ strip_prefix p s
unfolding strip_prefix
strip_same c p s = ground arith

strip-append : (p s : String) → strip_prefix p (p ++ s) ≡ some s
unfolding strip_prefix
strip-append String.[] s = ap some (nil-append s)
strip-append (String.◌∷◌ c p) s =
    ap (strip_prefix (String.◌∷◌ c p)) (cons-append c p s)
    ∙ strip_same c p (p ++ s)
    ∙ strip-append p s

some-injective : {a b : String} → ◌≡◌ {A = Option String} (some a) (some b) → a ≡ b
some-injective h = cc

strip_lem : (p s rest : String) → strip_prefix p s ≡ some rest → s ≡ p ++ rest
unfolding strip_prefix
strip_lem String.[] s rest h = some-injective h ∙ sym (nil-append rest)
strip_lem (String.◌∷◌ c p) String.[] rest h = cc
strip_lem (String.◌∷◌ c p) (String.◌∷◌ d s) rest h =
    go (nat_eq (code c) (code d)) refl (strip_lem p s rest) h
  where
    go :
        (t : Bool)
        → nat_eq (code c) (code d) ≡ t
        → (strip_prefix p s ≡ some rest → s ≡ p ++ rest)
        → (if t then strip_prefix p s else none) ≡ some rest
        → String.◌∷◌ d s ≡ String.◌∷◌ c p ++ rest
    go true e rec h =
        ap (λ (x : Char). String.◌∷◌ x s) (sym (Char-path c d (ground (arith, e))))
        ∙ ap (λ (x : String). String.◌∷◌ c x) (rec h)
        ∙ sym (cons-append c p rest)
    go false e rec h = cc

uri_lem : (b k : String) → uri b k ≡ uri_scheme ++ (b ++ ("/" ++ k))
unfolding uri
uri_lem b k =
    ap (λ (x : String). x ++ k) (append_assoc uri_scheme b "/")
    ∙ append_assoc uri_scheme (b ++ "/") k
    ∙ ap (λ (x : String). uri_scheme ++ x) (append_assoc b "/" k)

-- What an address names: the bucket has no slash and neither part is empty.
abbrev pub Names : String → String → String → Type 0
Names u b k = (u ≡ uri b k) × (has_slash b ≡ false) × (b ≢ "") × (k ≢ "")

parts_lem :
    (o : Option (String × String)) (b k : String)
    → (parts_of o ≡ ok (b, k)) ↔ ((o ≡ some (b, k)) × (b ≢ "") × (k ≢ ""))
unfolding parts_of
parts_lem none b k = (λ h. cc, λ h. cc (h.0))
parts_lem (some (x, y)) b k = (λ h. to (x == "" || y == "") refl h, λ h. from h)
  where
    to :
        (t : Bool)
        → (x == "" || y == "") ≡ t
        → if◌then◌else◌ {A = Result BlobError (String × String)} t (err missing_part) (ok (x, y))
          ≡ ok (b, k)
        → (◌≡◌ {A = Option (String × String)} (some (x, y)) (some (b, k))) × (b ≢ "") × (k ≢ "")
    to true e h = cc
    to false e h =
        let m = ap some (ok-injective h) in
        let (u, v) = pair-injective m in
        (
          m,
          ground (arith, e, u, eq_iff x "", eq_iff b ""),
          ground (arith, e, v, eq_iff y "", eq_iff k ""),
        )

    from :
        (◌≡◌ {A = Option (String × String)} (some (x, y)) (some (b, k))) × (b ≢ "") × (k ≢ "")
        → parts_of (some (x, y)) ≡ ok (b, k)
    from (m, n, o) =
        let (u, v) = pair-injective m in
        rw u (rw v (ground (arith, eq_iff b "", eq_iff k "", n, o)))

after_lem :
    (o : Option String) (b k : String)
    → (after_scheme o ≡ ok (b, k))
      ↔ ((o ≡ some (b ++ ("/" ++ k))) × (has_slash b ≡ false) × (b ≢ "") × (k ≢ ""))
unfolding after_scheme
after_lem none b k = (λ h. cc, λ h. cc (h.0))
after_lem (some r) b k = (
  λ h.
      (let (cut, m, n) = (parts_lem (cut_slash r) b k).0 h in
        let (x, y) = cut_lem r b k cut in (ap some x, y, m, n)),
  λ h.
      (parts_lem (cut_slash r) b k).1
        (ap cut_slash (some-injective h.0) ∙ cut-append b k h.1, h.2, h.3),
)

-- An address is parsed into a bucket and a key just where it is the address that is written for
-- them, the bucket has no slash, and neither is empty.
pub parse_uri_iff : (u b k : String) → (parse_uri u ≡ ok (b, k)) ↔ Names u b k
unfolding parse_uri
parse_uri_iff u b k = (
  λ h.
      (let (x, y, m, n) = (after_lem (strip_prefix uri_scheme u) b k).0 h in
        (strip_lem uri_scheme u (b ++ ("/" ++ k)) x ∙ sym (uri_lem b k), y, m, n)),
  λ h. (after_lem (strip_prefix uri_scheme u) b k).1 (
    ap (strip_prefix uri_scheme) (h.0 ∙ uri_lem b k) ∙ strip-append uri_scheme (b ++ ("/" ++ k)),
    h.1,
    h.2,
    h.3,
  ),
)
