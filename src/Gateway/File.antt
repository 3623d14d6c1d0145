-- ===== src/Gateway/File.antt =====
-- `documentFileHandler` of document_file.go: the source file of a document.
--
-- The query under the row security of the principal is the argument `query`. The object store is
-- `fetch`: its reader gives some bytes and then ends or fails. The connection of the client takes `room`
-- bytes of a body, and a write beyond them fails. The title is put into the headers by
-- functions that have no part in the outcome.
use nornickel_hackathon.Prelude.{
  ℕ, String, Bool, false, Option, none, some, List, ◌++◌, take, drop, take-append-drop, ◌==◌,
  eq_iff, nat_eq, ◌≢◌, if◌then◌else◌, zero, suc, true, ◌||◌, ltb, leb, length, ◌-◌, [], ◌∷◌, Result,
  ok, err, ◌≡◌, ◌↔◌, refl, sym, ap, ◌∙◌, arith, Bool-cases, inl, inr,
}
use mathlib.Core.Bool.{false≢true}
use nornickel_hackathon.Blob.{BlobError, invalid_scheme, parse_uri, strip_prefix, after_scheme}

pub data QueryError : Type 0 where
  no_rows query_failed : QueryError

-- A response: its code, the bytes of its body where it is a file, and whether the view was audited.
pub record FileResponse : Type 0 where
  pub status : ℕ
  pub content : Option (List ℕ)
  pub viewed : Bool

-- The object that the store opens: the bytes that its reader gives, and whether it then ends or fails.
pub record Object : Type 0 where
  pub bytes : List ℕ
  pub ends : Bool

unfoldable pub refused : ℕ → Bool → FileResponse
refused status viewed = record { status = status; content = none; viewed = viewed }

empty_uri : parse_uri "" ≡ err invalid_scheme
unfolding parse_uri strip_prefix after_scheme
empty_uri = refl

module _ (has_audit : Bool) (fetch : String → String → Result BlobError Object) (room : ℕ) where
  -- What the client gets of the object: the head, and the rest where the head was written; an error of
  -- these writes or of a later read is ignored.
  unfoldable pub send_bytes : List ℕ → List ℕ → List ℕ
  send_bytes head rest =
      take room head ++ (if ltb room (length head) then [] else take (room - length head) rest)

  -- The end of the handler, on the object: its head is read with `io.ReadFull`, which fails where the
  -- reader fails before the head is full, and written before the rest.
  unfoldable pub send_object : Result BlobError Object → FileResponse
  unfolding refused send_bytes
  send_object (err e) = refused 502 false
  send_object (ok object) =
      if object.ends || leb 512 (length object.bytes)
      then record {
        status = 200;
        content = some (send_bytes (take 512 object.bytes) (drop 512 object.bytes));
        viewed = has_audit;
      }
      else refused 404 has_audit

  unfoldable pub send_parsed : Result BlobError (String × String) → FileResponse
  unfolding send_object refused
  send_parsed (err e) = refused 500 false
  send_parsed (ok (bucket, key)) = send_object (fetch bucket key)

  unfoldable pub send_found : Result QueryError (String × String) → FileResponse
  unfolding send_parsed refused
  send_found (err no_rows) = refused 404 false
  send_found (err query_failed) = refused 500 false
  send_found (ok (title, blob_uri)) =
      if blob_uri == "" then refused 404 false else send_parsed (parse_uri blob_uri)

  unfoldable pub document_file :
      (String → Result QueryError (String × String)) → String → FileResponse
  unfolding send_found refused
  document_file query document_id =
      if document_id == "" then refused 400 false else send_found (query document_id)

  -- The head of the object can be read, and the body is what the connection takes of its bytes.
  abbrev pub Sends : List ℕ → Object → Type 0
  Sends body object =
      ((object.ends || leb 512 (length object.bytes)) ≡ true) × (body ≡ take room object.bytes)

  -- The document has a source file with an address that can be parsed, and the store opens an object
  -- of which the body is sent.
  abbrev pub Stored : (String → Result QueryError (String × String)) → String → List ℕ → Type 0
  Stored query document_id bytes =
      (title : String) × (blob_uri : String) × (bucket : String) × (key : String) × (query
          document_id
        ≡ ok (title, blob_uri))
      × (parse_uri blob_uri ≡ ok (bucket, key))
      × (object : Object) × (fetch bucket key ≡ ok object)
      × Sends bytes object

  cut_lem :
      (n : ℕ) (xs ys : List ℕ)
      → take n xs ++ (if ltb n (length xs) then [] else take (n - length xs) ys) ≡ take n (xs ++ ys)
  cut_lem n [] ys = no_head n
    where
      no_head : (n : ℕ) → take n [] ++ (if ltb n 0 then [] else take (n - 0) ys) ≡ take n ys
      no_head zero = refl
      no_head (suc n) = ground arith
  cut_lem zero (x ∷ xs) ys = ground arith
  cut_lem (suc n) (x ∷ xs) ys =
      let fits : ltb (suc n) (suc (length xs)) ≡ ltb n (length xs) = ground arith in
      let left : suc n - suc (length xs) ≡ n - length xs = omega arith in
      rw (fits, left) (ap (λ (l : List ℕ). x ∷ l) (cut_lem n xs ys))

  sent_lem : (bytes : List ℕ) → send_bytes (take 512 bytes) (drop 512 bytes) ≡ take room bytes
  unfolding send_bytes
  sent_lem bytes =
      cut_lem room (take 512 bytes) (drop 512 bytes) ∙ ap (take room) (take-append-drop 512 bytes)

  object_lem :
      (o : Result BlobError Object) (body : List ℕ)
      → ((send_object o).content ≡ some body)
        ↔ ((object : Object) × (o ≡ ok object) × Sends body object)
  unfolding send_object refused
  object_lem (err e) body = ((λ h. cc), (λ (b, h, k). cc))
  object_lem (ok b) body = elim (Bool-cases (b.ends || leb 512 (length b.bytes))) [
    | inr e ↦ rw e ((λ h. cc), (λ (c, h, m). same_bad c (ok_value h) e m.0))
    | inl e ↦ rw e (
      (λ h. (b, refl, (e, sym (some_value h) ∙ sent_lem b.bytes))),
      (λ (c, h, m).
          ap some
            (sent_lem b.bytes ∙ ap (λ (x : Object). take room x.bytes) (ok_value h) ∙ sym m.1)),
    )
  ]
    where
      ok_value : {c : Object} → ◌≡◌ {A = Result BlobError Object} (ok b) (ok c) → b ≡ c
      ok_value h = cc

      some_value : {x y : List ℕ} → ◌≡◌ {A = Option (List ℕ)} (some x) (some y) → x ≡ y
      some_value h = cc

      same_bad :
          {A : Type 0} (c : Object)
          → b ≡ c
          → (b.ends || leb 512 (length b.bytes)) ≡ false
          → (c.ends || leb 512 (length c.bytes)) ≡ true
          → A
      same_bad c e k m =
          let n : (b.ends || leb 512 (length b.bytes)) ≡ true =
            ap (λ (x : Object). x.ends || leb 512 (length x.bytes)) e ∙ m in
          absurd (false≢true (sym k ∙ n))

  parsed_lem :
      (o : Result BlobError (String × String)) (bytes : List ℕ)
      → ((send_parsed o).content ≡ some bytes) ↔ (
          (bucket : String) × (key : String) × (o ≡ ok (bucket, key))
          × (object : Object) × (fetch bucket key ≡ ok object)
          × Sends bytes object)
  unfolding send_parsed refused
  parsed_lem (err e) bytes = ((λ h. cc), (λ (b, k, h, object, g, m). cc))
  parsed_lem (ok (bucket, key)) bytes = (
    (λ h.
        let (object, f, sends) = (object_lem (fetch bucket key) bytes).0 h in
        (bucket, key, refl, object, f, sends)),
    (λ (b, k, h, object, g, sends).
        let m = pair_lem h in
        (object_lem (fetch bucket key) bytes).1
          (object, ap (λ (x : String). fetch x key) m.0 ∙ ap (fetch b) m.1 ∙ g, sends)),
  )
    where
      pair_lem :
          {b k : String}
          → ◌≡◌ {A = Result BlobError (String × String)} (ok (bucket, key)) (ok (b, k))
          → (bucket ≡ b) × (key ≡ k)
      pair_lem h = (cc, cc)

  found_lem :
      (o : Result QueryError (String × String)) (bytes : List ℕ)
      → ((send_found o).content ≡ some bytes) ↔ (
          (title : String) × (blob_uri : String) × (bucket : String) × (key : String) × (o
            ≡ ok (title, blob_uri))
          × (parse_uri blob_uri ≡ ok (bucket, key))
          × (object : Object) × (fetch bucket key ≡ ok object)
          × Sends bytes object)
  unfolding send_found refused
  found_lem (err no_rows) bytes = ((λ h. cc), (λ (t, u, b, k, h, g, object, f, sends). cc))
  found_lem (err query_failed) bytes = ((λ h. cc), (λ (t, u, b, k, h, g, object, f, sends). cc))
  found_lem (ok (title, blob_uri)) bytes = elim (Bool-cases (blob_uri == "")) [
    | inl e ↦ rw e (
      (λ h. cc),
      (λ (t, u, b, k, h, g, object, f, sends).
          let m = pair_lem h in no_address u (sym m.1 ∙ (eq_iff blob_uri "").0 e) g),
    )
    | inr e ↦ rw e (
      (λ h.
          let (b, k, g, object, f, sends) = (parsed_lem (parse_uri blob_uri) bytes).0 h in
          (title, blob_uri, b, k, refl, g, object, f, sends)),
      (λ (t, u, b, k, h, g, object, f, sends).
          let m = pair_lem h in
          (parsed_lem (parse_uri blob_uri) bytes).1 (b, k, ap parse_uri m.1 ∙ g, object, f, sends)),
    )
  ]
    where
      pair_lem :
          {t u : String}
          → ◌≡◌ {A = Result QueryError (String × String)} (ok (title, blob_uri)) (ok (t, u))
          → (title ≡ t) × (blob_uri ≡ u)
      pair_lem h = (cc, cc)

      no_address : {A : Type 0} (u : String) {b k : String} → u ≡ "" → parse_uri u ≡ ok (b, k) → A
      no_address u e g =
          let m : ◌≡◌ {A = Result BlobError (String × String)} (err invalid_scheme) (ok (_, _)) =
            sym (empty_uri) ∙ ap parse_uri (sym e) ∙ g in
          cc

  -- The code 200 stands for a body.
  abbrev pub Agrees : FileResponse → Type 0
  Agrees response = (response.status ≡ 200) ↔ ((b : List ℕ) × (response.content ≡ some b))

  refused_lem :
      (status : ℕ) (viewed : Bool) → nat_eq status 200 ≡ false → Agrees (refused status viewed)
  unfolding refused
  refused_lem status viewed e = ((λ h. absurd (ground (arith, e, h))), (λ (b, h). cc))

  found_Agrees : (o : Result QueryError (String × String)) → Agrees (send_found o)
  unfolding send_found send_parsed send_object
  found_Agrees (err no_rows) = refused_lem 404 false refl
  found_Agrees (err query_failed) = refused_lem 500 false refl
  found_Agrees (ok (title, blob_uri)) = elim (Bool-cases (blob_uri == "")) [
    | inl e ↦ rw e (refused_lem 404 false refl)
    | inr e ↦ rw e (parsed (parse_uri blob_uri))
  ]
    where
      object : (o : Result BlobError Object) → Agrees (send_object o)
      object (err e) = refused_lem 502 false refl
      object (ok b) = elim (Bool-cases (b.ends || leb 512 (length b.bytes))) [
        | inl e ↦
            rw e ((λ h. (send_bytes (take 512 b.bytes) (drop 512 b.bytes), refl)), (λ h. refl))
        | inr e ↦ rw e (refused_lem 404 has_audit refl)
      ]

      parsed : (o : Result BlobError (String × String)) → Agrees (send_parsed o)
      parsed (err e) = refused_lem 500 false refl
      parsed (ok (bucket, key)) = object (fetch bucket key)

  -- A response has a body just where the request names a document, the query finds its address, the
  -- address can be parsed, and the store opens an object whose reader does not fail within its first 512
  -- bytes; the code is 200 for these responses alone. The body is the bytes that the reader gives, as
  -- many of them as the connection takes; so where the reader fails later, or the connection does, a
  -- response with the code 200 has a shorter body.
  pub document_file_sends :
      (query : String → Result QueryError (String × String)) (document_id : String) (bytes : List ℕ)
      → (((document_file query document_id).content ≡ some bytes)
          ↔ ((document_id ≢ "") × Stored query document_id bytes))
        × Agrees (document_file query document_id)
  unfolding document_file refused
  document_file_sends query document_id bytes = elim (Bool-cases (document_id == "")) [
    | inl e ↦ rw e (
      ((λ h. cc), (λ (n, rest). absurd (n ((eq_iff document_id "").0 e)))),
      refused_lem 400 false refl,
    )
    | inr e ↦ rw e (
      (
        (λ h. (
          (λ same. absurd (ground (arith, e, (eq_iff document_id "").1 same))),
          (found_lem (query document_id) bytes).0 h,
        )),
        (λ (n, rest). (found_lem (query document_id) bytes).1 rest),
      ),
      found_Agrees (query document_id),
    )
  ]
