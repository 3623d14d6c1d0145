-- ===== src/Witnesses.antt =====
-- The theorems at concrete inputs: each witness applies one of them, and the values that they use.
pub mod OfAuth
pub mod OfEvents
pub mod OfIngest
pub mod OfLlm
pub mod OfCatalog
pub mod OfConsensus
pub mod OfSearch
pub mod OfAnswer
pub mod OfBlob
pub mod OfGateway
pub mod OfCache
pub mod OfCommit
pub mod OfRls
use nornickel_hackathon.Prelude.{
  ℕ, zero, suc, ◌+◌, ◌-◌, ◌*◌, ◌/◌, String, Bool, true, false, ltb, leb, nat_eq, ◌||◌, ◌≡◌, arith,
  Option, none, some, List, [], ◌∷◌, if◌then◌else◌, ◌==◌, ◌≢◌, eq_iff,
}
use nornickel_hackathon.Float.{Float}
use nornickel_hackathon.Events.{Envelope}

-- Natural numbers in place of floating-point ones.
abbrev pub small_float : Float
small_float = record {
  F = ℕ;
  lt = ltb;
  le = leb;
  eq = nat_eq;
  add = λ a b. a + b;
  sub = λ a b. a - b;
  mul = λ a b. a * b;
  div = λ a b. a / b;
  abs = λ a. a;
  lit = λ n d. n / d;
  min = λ a b. if ltb a b then a else b;
  max = λ a b. if ltb a b then b else a;
  exp = λ a. a;
  round = λ a. a;
  of_diff = λ a b. a - b;
  is_whole = λ a. true;
}

pub small_asymm : (a b : ℕ) → ltb a b ≡ true → ltb b a ≡ false
small_asymm a b h = ground arith

pub small_split : (a b c : ℕ) → nat_eq b b ≡ true → ltb a c ≡ true → (ltb a b || ltb b c) ≡ true
small_split a b c k h = ground arith

abbrev pub some_envelope : Envelope
some_envelope = record {
  specversion = "1.0";
  id = "e1";
  source = "ingest";
  typ = "kmap.doc.v1.registered";
  subject = "d1";
  time = 5;
  data_content_type = "application/json";
  body = 1 ∷ [];
}

-- An encoding that reads every text as one envelope.
abbrev pub encode : Envelope → List ℕ
encode env = 7 ∷ []

abbrev pub decode : List ℕ → Option Envelope
decode raw = some some_envelope

pub unlike : (a b : String) → (a == b) ≡ false → a ≢ b
unlike a b h = ground (arith, eq_iff a b, h)
