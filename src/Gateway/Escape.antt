-- ===== src/Gateway/Escape.antt =====
-- document_file.go: the name of a file in a header, as `rfc5987Escape` writes it.
--
-- A name is the list of its bytes. `none` stands for the panic of an index out of range.
use nornickel_hackathon.Prelude.{
  ℕ, zero, suc, ◌+◌, ◌-◌, ◌*◌, ◌/◌, ◌%◌, ◌<◌, Bool, true, false, ◌&&◌, ◌||◌, not, any, Option, none,
  some, List, [], ◌∷◌, leb, ltb, nat_eq, if◌then◌else◌, get_elem?, all, ◌≡◌, refl, ap, arith,
  Bool-cases, inl, inr,
}

unfoldable pub is_attr_char : ℕ → Bool
is_attr_char char =
    if leb 65 char && leb char 90 || (leb 97 char && leb char 122 || leb 48 char && leb char 57)
    then true
    else nat_eq char 33
      || nat_eq char 35
      || nat_eq char 36
      || nat_eq char 38
      || nat_eq char 43
      || nat_eq char 45
      || nat_eq char 46
      || nat_eq char 94
      || nat_eq char 95
      || nat_eq char 96
      || nat_eq char 124
      || nat_eq char 126

-- "0123456789ABCDEF"
abbrev pub upperhex : List ℕ
upperhex = 48 ∷ 49 ∷ 50 ∷ 51 ∷ 52 ∷ 53 ∷ 54 ∷ 55 ∷ 56 ∷ 57 ∷ 65 ∷ 66 ∷ 67 ∷ 68 ∷ 69 ∷ 70 ∷ []

unfoldable pub write_escaped : Option ℕ → Option ℕ → Option (List ℕ) → Option (List ℕ)
write_escaped (some high) (some low) (some rest) = some (37 ∷ high ∷ low ∷ rest)
write_escaped (some high) (some low) none = none
write_escaped (some high) none rest = none
write_escaped none low rest = none

unfoldable pub write_plain : ℕ → Option (List ℕ) → Option (List ℕ)
write_plain char none = none
write_plain char (some rest) = some (char ∷ rest)

unfoldable pub rfc5987_escape : List ℕ → Option (List ℕ)
unfolding is_attr_char write_escaped write_plain
rfc5987_escape [] = some []
rfc5987_escape (char ∷ name) =
    let rest = rfc5987_escape name in
    if is_attr_char char
    then write_plain char rest
    else write_escaped (get_elem? upperhex (char / 16)) (get_elem? upperhex (char % 16)) rest

-- The decoder of RFC 5987: a percent sign and two hexadecimal digits are a byte, and every other
-- byte stands for itself where the header allows it.
unhex : ℕ → Option ℕ
unhex c =
    if leb 48 c && leb c 57
    then some (c - 48)
    else if leb 65 c && leb c 70
    then some (c - 55)
    else if leb 97 c && leb c 102
    then some (c - 87)
    else none

abbrev byte_of : Option ℕ → Option ℕ → Option (List ℕ) → Option (List ℕ)
byte_of (some high) (some low) (some rest) = some ((16 * high + low) ∷ rest)
byte_of (some high) (some low) none = none
byte_of (some high) none rest = none
byte_of none low rest = none

-- The `attr-char` of RFC 5987, as its grammar lists them: letters, digits, and !#$&+-.^_`|~.
abbrev rfc_attr_chars : List ℕ
rfc_attr_chars =
    33 ∷ 35 ∷ 36 ∷ 38 ∷ 43 ∷ 45 ∷ 46 ∷ 48 ∷ 49 ∷ 50 ∷ 51 ∷ 52 ∷ 53 ∷ 54 ∷ 55 ∷ 56 ∷ 57 ∷ 65 ∷ 66
    ∷ 67 ∷ 68 ∷ 69 ∷ 70 ∷ 71 ∷ 72 ∷ 73 ∷ 74 ∷ 75 ∷ 76 ∷ 77 ∷ 78 ∷ 79 ∷ 80 ∷ 81 ∷ 82 ∷ 83 ∷ 84 ∷ 85
    ∷ 86 ∷ 87 ∷ 88 ∷ 89 ∷ 90 ∷ 94 ∷ 95 ∷ 96 ∷ 97 ∷ 98 ∷ 99 ∷ 100 ∷ 101 ∷ 102 ∷ 103 ∷ 104 ∷ 105 ∷ 106
    ∷ 107 ∷ 108 ∷ 109 ∷ 110 ∷ 111 ∷ 112 ∷ 113 ∷ 114 ∷ 115 ∷ 116 ∷ 117 ∷ 118 ∷ 119 ∷ 120 ∷ 121 ∷ 122
    ∷ 124 ∷ 126 ∷ []

rfc_attr : ℕ → Bool
rfc_attr c = any (nat_eq c) rfc_attr_chars

pub unescape : List ℕ → Option (List ℕ)
unescape [] = some []
unescape (c ∷ []) = if rfc_attr c then some (c ∷ []) else none
unescape (c ∷ a ∷ []) =
    let rest = unescape (a ∷ []) in if rfc_attr c then write_plain c rest else none
unescape (c ∷ a ∷ b ∷ text) =
    let rest = unescape (a ∷ b ∷ text) in
    let after = unescape text in
    if nat_eq c 37
    then byte_of (unhex a) (unhex b) after
    else if rfc_attr c
    then write_plain c rest
    else none

reads : Option ℕ → ℕ → Bool
reads none n = false
reads (some m) n = nat_eq m n

reads_back : Option ℕ → ℕ → Bool
unfolding reads unhex
reads_back none n = false
reads_back (some d) n = reads (unhex d) n

-- A test that passes on each number below a bound passes on a number below it.
all_below : (ℕ → Bool) → ℕ → Bool
all_below p zero = true
all_below p (suc n) = p n && all_below p n

all_below_lem : (p : ℕ → Bool) (n i : ℕ) → all_below p n ≡ true → i < n → p i ≡ true
unfolding all_below
all_below_lem p zero i h k = absurd (ground arith)
all_below_lem p (suc n) i h k = elim (Bool-cases (nat_eq i n)) [
  | inl e ↦ let same : i ≡ n = ground arith in rw same (ground arith)
  | inr e ↦ all_below_lem p n i (ground arith) (ground arith)
]

hex_table : all_below (λ n. reads_back (get_elem? upperhex n) n) 16 ≡ true
unfolding all_below reads_back
hex_table = refl

reads_lem : (o : Option ℕ) (n : ℕ) → reads o n ≡ true → o ≡ some n
unfolding reads
reads_lem none n h = absurd (ground arith)
reads_lem (some m) n h = let same : m ≡ n = ground arith in ap some same

reads_back_lem :
    (o : Option ℕ) (n : ℕ) → reads_back o n ≡ true → (d : ℕ) × (o ≡ some d) × (unhex d ≡ some n)
unfolding reads_back
reads_back_lem none n h = absurd (ground arith)
reads_back_lem (some d) n h = (d, refl, reads_lem (unhex d) n h)

hex_lem : (n : ℕ) → n < 16 → (d : ℕ) × (get_elem? upperhex n ≡ some d) × (unhex d ≡ some n)
hex_lem n h =
    reads_back_lem (get_elem? upperhex n) n
      (all_below_lem (λ m. reads_back (get_elem? upperhex m) m) 16 n hex_table h)

attr_table : all_below (λ c. not (is_attr_char c) || rfc_attr c && not (nat_eq c 37)) 256 ≡ true
unfolding all_below rfc_attr is_attr_char
attr_table = refl

attr_lem : (c : ℕ) → c < 256 → is_attr_char c ≡ true → (rfc_attr c ≡ true) × (nat_eq c 37 ≡ false)
attr_lem c h k =
    let t =
      all_below_lem (λ n. not (is_attr_char n) || rfc_attr n && not (nat_eq n 37)) 256 c attr_table
        h in
    (ground (arith, t, k), ground (arith, t, k))

unescape_plain :
    (c : ℕ) (text : List ℕ)
    → c < 256
    → is_attr_char c ≡ true
    → unescape (c ∷ text) ≡ write_plain c (unescape text)
unfolding unescape write_plain
unescape_plain c [] b h = rw (attr_lem c b h).0 refl
unescape_plain c (a ∷ []) b h = rw (attr_lem c b h).0 refl
unescape_plain c (a ∷ d ∷ text) b h = let (is, percent) = attr_lem c b h in rw percent (rw is refl)

unescape_escaped :
    (a b high low : ℕ) (text : List ℕ)
    → unhex a ≡ some high
    → unhex b ≡ some low
    → unescape (37 ∷ a ∷ b ∷ text) ≡ byte_of (some high) (some low) (unescape text)
unfolding unescape
unescape_escaped a b high low text h k = rw h (rw k refl)

-- The escape of a name of bytes does not panic, and a decoder that takes just the characters that RFC 5987
-- allows reads the name back from it.
pub rfc5987_escape-unescape :
    (name : List ℕ)
    → all (λ char. ltb char 256) name ≡ true
    → (text : List ℕ) × (rfc5987_escape name ≡ some text) × (unescape text ≡ some name)
unfolding rfc5987_escape write_plain write_escaped unescape
rfc5987_escape-unescape [] h = ([], refl, refl)
rfc5987_escape-unescape (char ∷ name) h =
    let (text, e, k) = rfc5987_escape-unescape name (ground arith) in
    let (a, ea, ka) = hex_lem (char / 16) (ground arith) in
    let (b, eb, kb) = hex_lem (char % 16) (omega arith) in
    elim (Bool-cases (is_attr_char char)) [
      | inl plain ↦ (
        char ∷ text,
        rw plain (rw e refl),
        rw (unescape_plain char text (ground arith) plain) (rw k refl),
      )
      | inr other ↦ (
        37 ∷ a ∷ b ∷ text,
        rw other (rw ea (rw eb (rw e refl))),
        rw (unescape_escaped a b (char / 16) (char % 16) text ka kb)
            (rw k (ap (λ (c : ℕ). some (c ∷ name)) (omega arith))),
      )
    ]
