-- ===== src/Answer/Events.antt =====
-- The events of an answer, and what the cache does to the next question.
use nornickel_hackathon.Prelude.{
  String, Bool, true, false, ◌&&◌, not, Option, none, some, List, [], ◌∷◌, ◌++◌, nat_eq, ◌==◌,
  if◌then◌else◌, lookup, lookup-insert, eq_self, Result, ok, err, ◌≡◌, refl, sym, ap, ok-injective,
  subst, ◌∙◌, arith,
}
use mathlib.Core.List.{append_assoc, append-nil}
use nornickel_hackathon.Answer.{
  AskError, GuardReport, AnswerDoc, AskResponse, plan_event, evidence_event, delta_event,
  done_event, CachedAnswer, World, Parts, Ask, continue, ◌>>=◌, ◌>>◌, or_fail, emit, check_alive,
  emit_deltas, replay_cached, synthesis_of, put_cache, answer_of, ask_evidence, ask_fresh,
  ask_cached, cache_get, ask_planned, ask, encode_failed, plan_failed, search_failed,
  question_required,
}

module _ (P E M C Payload : Type 0) where
  abbrev W : Type 0
  W = World P E M C Payload

  bind_ok :
      {A B : Type 0} (m : Ask P E M C Payload A) (f : A → Ask P E M C Payload B) (w : W) {b : B}
      → (◌>>=◌ P E M C Payload m f w).0 ≡ ok b
      → (a : A) × ((m w).0 ≡ ok a) × (◌>>=◌ P E M C Payload m f w ≡ f a (m w).1)
  bind_ok {A} {B} m f w {b} h = go (m w) h
    where
      go :
          (r : Result AskError A × W)
          → (continue P E M C Payload f r).0 ≡ ok b
          → (a : A) × (r.0 ≡ ok a) × (continue P E M C Payload f r ≡ f a r.1)
      go (ok a, u) h = (a, refl, refl)
      go (err e, u) h = cc

  -- From one state to the other, these events were sent and the cache was left alone.
  Sent : W → W → List (AskResponse P E M C Payload) → Type 0
  Sent w w' es = (w'.sent ≡ w.sent ++ es) × (w'.cache ≡ w.cache)

  Sent-trans :
      (w u v : W) (es fs : List (AskResponse P E M C Payload))
      → Sent w u es
      → Sent u v fs
      → Sent w v (es ++ fs)
  unfolding Sent
  Sent-trans w u v es fs (s, c) (s', c') =
      (s' ∙ ap (λ l. l ++ fs) s ∙ append_assoc w.sent es fs, c' ∙ c)

  fail_ok :
      {A : Type 0} (e : AskError) (o : Option A) (w : W) {a : A}
      → (or_fail P E M C Payload e o w).0 ≡ ok a
      → (o ≡ some a) × ((or_fail P E M C Payload e o w).1 ≡ w)
  unfolding or_fail
  fail_ok e none w h = cc
  fail_ok e (some a) w h = (ap some (ok-injective h), refl)

  module _ (parts : Parts P E M C Payload) where
    open parts use {
      plan_and_terms, plan_key, search, augment, synthesize, chunk_deltas, methods_payload,
      has_cache, cache_reads, cache_writes,
    }

    emit_ok :
        (e : AskResponse P E M C Payload) (w : W) {u : Unit {0}}
        → (emit P E M C Payload parts e w).0 ≡ ok u
        → Sent w (emit P E M C Payload parts e w).1 (e ∷ [])
    unfolding emit Sent
    emit_ok e w h = ground arith

    alive_ok :
        (w : W) {u : Unit {0}}
        → (check_alive P E M C Payload parts w).0 ≡ ok u
        → (check_alive P E M C Payload parts w).1 ≡ w
    unfolding check_alive
    alive_ok w h = ground arith

    abbrev delta_events : List String → List (AskResponse P E M C Payload)
    delta_events [] = []
    delta_events (d ∷ ds) = delta_event d ∷ delta_events ds

    -- A sequence of two actions that succeeds.
    seq_ok :
        {B : Type 0} (m : Ask P E M C Payload (Unit {0})) (n : Ask P E M C Payload B) (w : W)
        {b : B}
        → (◌>>◌ P E M C Payload m n w).0 ≡ ok b
        → ((m w).0 ≡ ok tt) × ((n (m w).1).0 ≡ ok b) × (◌>>◌ P E M C Payload m n w ≡ n (m w).1)
    seq_ok m n w h = let (u, a, e) = bind_ok m (λ _. n) w h in (a, ap (λ r. r.0) (sym e) ∙ h, e)

    -- An action that sends these events and leaves the cache alone, where it succeeds.
    Does : Ask P E M C Payload (Unit {0}) → List (AskResponse P E M C Payload) → Type 0
    Does m es = (w : W) → (m w).0 ≡ ok tt → Sent w (m w).1 es

    Does-seq :
        (m n : Ask P E M C Payload (Unit {0})) (es fs : List (AskResponse P E M C Payload))
        → Does m es
        → Does n fs
        → Does (◌>>◌ P E M C Payload m n) (es ++ fs)
    unfolding Does
    Does-seq m n es fs dm dn w h =
        let (a, b, e) = seq_ok m n w h in
        subst (λ r. Sent w r.1 (es ++ fs)) (sym e)
          (Sent-trans w (m w).1 (n (m w).1).1 es fs (dm w a) (dn (m w).1 b))

    Does-emit : (e : AskResponse P E M C Payload) → Does (emit P E M C Payload parts e) (e ∷ [])
    unfolding Does
    Does-emit e w h = emit_ok e w h

    Does-alive : Does (check_alive P E M C Payload parts) []
    unfolding Does Sent
    Does-alive w h = rw (alive_ok w h) (sym (append-nil w.sent), refl)

    Does-deltas : (ds : List String) → Does (emit_deltas P E M C Payload parts ds) (delta_events ds)
    unfolding emit_deltas Does Sent
    Does-deltas [] w h = (sym (append-nil w.sent), refl)
    Does-deltas (d ∷ ds) w h =
        Does-seq (check_alive P E M C Payload parts)
          (◌>>◌ P E M C Payload (emit P E M C Payload parts (delta_event d))
            (emit_deltas P E M C Payload parts ds))
          [] (delta_event d ∷ delta_events ds) Does-alive
          (Does-seq (emit P E M C Payload parts (delta_event d))
            (emit_deltas P E M C Payload parts ds) (delta_event d ∷ []) (delta_events ds)
            (Does-emit (delta_event d)) (Does-deltas ds))
          w h

    -- The events of an answer: its plan, its evidence, its text in pieces, and the answer itself.
    abbrev pub answer_events :
        P → E → AnswerDoc P E M C Payload → List (AskResponse P E M C Payload)
    answer_events plan evidence answer =
        plan_event plan
        ∷ evidence_event evidence
        ∷ (delta_events (chunk_deltas answer.summary) ++ done_event answer ∷ [])

    Does-replay :
        (c : CachedAnswer P E M C Payload)
        → Does (replay_cached P E M C Payload parts c) (answer_events c.plan c.evidence c.answer)
    unfolding replay_cached
    Does-replay c =
        Does-seq (emit P E M C Payload parts (plan_event c.plan)) _ (plan_event c.plan ∷ []) _
          (Does-emit (plan_event c.plan))
          (Does-seq (emit P E M C Payload parts (evidence_event c.evidence)) _
            (evidence_event c.evidence ∷ []) _ (Does-emit (evidence_event c.evidence))
            (Does-seq (emit_deltas P E M C Payload parts (chunk_deltas c.answer.summary)) _
              (delta_events (chunk_deltas c.answer.summary)) (done_event c.answer ∷ [])
              (Does-deltas (chunk_deltas c.answer.summary)) (Does-emit (done_event c.answer))))

    -- Whether an answer may be kept: its numbers are supported and it is not degraded.
    abbrev pub keepable : GuardReport → Bool
    keepable g = nat_eq g.violations 0 && not g.degraded

    -- What the cache has under the key of an answer, by what it had before.
    abbrev pub kept :
        CachedAnswer P E M C Payload
        → Option (CachedAnswer P E M C Payload)
        → Option (CachedAnswer P E M C Payload)
    kept c before = if has_cache && cache_writes && keepable c.answer.guard then some c else before

    -- A success of `Ask`: it sent the events of one answer, and the cache is as `kept` says.
    abbrev pub Answered : String → W → W → Type 0
    Answered key w w' =
        (c : CachedAnswer P E M C Payload) × (w'.sent
          ≡ w.sent ++ answer_events c.plan c.evidence c.answer)
        × (lookup key w'.cache ≡ kept c (lookup key w.cache))

    put_lem :
        (key : String) (c : CachedAnswer P E M C Payload) (w : W)
        → ((put_cache P E M C Payload parts key c w).0 ≡ ok tt)
          × ((put_cache P E M C Payload parts key c w).1.sent ≡ w.sent)
          × (lookup key (put_cache P E M C Payload parts key c w).1.cache
              ≡ kept c (lookup key w.cache))
    unfolding put_cache
    put_lem key c w =
        (ground arith, ground arith, ground (arith, lookup-insert key key c w.cache, eq_self key))

    -- The end of a fresh answer.
    abbrev closing : String → CachedAnswer P E M C Payload → Ask P E M C Payload (Unit {0})
    closing key c =
        ◌>>◌ P E M C Payload (put_cache P E M C Payload parts key c)
          (emit P E M C Payload parts (done_event c.answer))

    closing_lem :
        (key : String) (c : CachedAnswer P E M C Payload) (w : W)
        → (closing key c w).0 ≡ ok tt
        → ((closing key c w).1.sent ≡ w.sent ++ done_event c.answer ∷ [])
          × (lookup key (closing key c w).1.cache ≡ kept c (lookup key w.cache))
    unfolding Sent
    closing_lem key c w h =
        let (a, b, e) =
          seq_ok (put_cache P E M C Payload parts key c)
            (emit P E M C Payload parts (done_event c.answer)) w h in
        let (done, same_sent, stored) = put_lem key c w in
        let after = (put_cache P E M C Payload parts key c w).1 in
        let (s, k) = emit_ok (done_event c.answer) after b in
        (
          ap (λ r. r.1.sent) e ∙ s ∙ ap (λ l. l ++ done_event c.answer ∷ []) same_sent,
          ap (λ r. lookup key r.1.cache) e ∙ ap (lookup key) k ∙ stored,
        )

    regroup :
        (l : List (AskResponse P E M C Payload)) (e : AskResponse P E M C Payload)
        (ds : List (AskResponse P E M C Payload)) (d : AskResponse P E M C Payload)
        → ((l ++ e ∷ []) ++ ds) ++ d ∷ [] ≡ l ++ e ∷ (ds ++ d ∷ [])
    regroup l e ds d = simp append_assoc

    -- The part of the answer's events that follows its plan.
    abbrev tail_events : CachedAnswer P E M C Payload → List (AskResponse P E M C Payload)
    tail_events c =
        evidence_event c.evidence
        ∷ (delta_events (chunk_deltas c.answer.summary) ++ done_event c.answer ∷ [])

    Stored : String → CachedAnswer P E M C Payload → W → W → Type 0
    Stored key c w w' = lookup key w'.cache ≡ kept c (lookup key w.cache)

    evidence_ok :
        (question key : String) (plan : P) (pack : E) (w : W)
        → (ask_evidence P E M C Payload parts question plan key pack w).0 ≡ ok tt
        → (answer : AnswerDoc P E M C Payload) × let c : CachedAnswer P E M C Payload = record {
          plan = plan;
          evidence = pack;
          answer = answer;
        } in
            ((ask_evidence P E M C Payload parts question plan key pack w).1.sent
              ≡ w.sent ++ tail_events c)
            × Stored key c w (ask_evidence P E M C Payload parts question plan key pack w).1
    unfolding ask_evidence Sent Stored Does answer_of
    evidence_ok question key plan pack w h =
        let written = synthesis_of P E M C Payload parts pack (synthesize question pack) in
        let send_evidence = emit P E M C Payload parts (evidence_event pack) in
        let send_deltas = emit_deltas P E M C Payload parts (chunk_deltas written.0.summary) in
        let encode = or_fail P E M C Payload encode_failed (methods_payload written.0.methods) in
        let last = λ (payload : Payload). closing key (record {
          plan = plan;
          evidence = pack;
          answer = answer_of P E M C Payload parts written payload;
        }) in
        let (a1, b1, e1) =
          seq_ok send_evidence
            (◌>>◌ P E M C Payload send_deltas (◌>>=◌ P E M C Payload encode last)) w h in
        let w1 = (send_evidence w).1 in
        let (a2, b2, e2) = seq_ok send_deltas (◌>>=◌ P E M C Payload encode last) w1 b1 in
        let w2 = (send_deltas w1).1 in
        let (payload, a3, e3) = bind_ok encode last w2 b2 in
        let (found, same_world) = fail_ok encode_failed (methods_payload written.0.methods) w2 a3 in
        let answer = answer_of P E M C Payload parts written payload in
        let c : CachedAnswer P E M C Payload = record {
          plan = plan;
          evidence = pack;
          answer = answer;
        } in
        let whole = e1 ∙ e2 ∙ e3 ∙ ap (last payload) same_world in
        let (sent, stored) =
          closing_lem key c w2 (ap (λ (r : Result AskError Unit × W). r.0) (sym whole) ∙ h) in
        let (s1, k1) = emit_ok (evidence_event pack) w a1 in
        let (s2, k2) = Does-deltas (chunk_deltas written.0.summary) w1 a2 in
        (
          answer,
          (
            ap (λ (r : Result AskError Unit × W). r.1.sent) whole
                ∙ sent
                ∙ ap (λ l. l ++ done_event answer ∷ [])
                    (s2 ∙ ap (λ l. l ++ delta_events (chunk_deltas written.0.summary)) s1)
                ∙ regroup w.sent (evidence_event pack)
                    (delta_events (chunk_deltas written.0.summary)) (done_event answer),
            ap (λ (r : Result AskError Unit × W). lookup key r.1.cache) whole
                ∙ stored
                ∙ ap (λ l. kept c (lookup key l)) (k2 ∙ k1),
          ),
        )

    fresh_ok :
        (question key : String) (plan : P) (terms : List String) (w : W)
        → (ask_fresh P E M C Payload parts question plan terms key w).0 ≡ ok tt
        → Answered key w (ask_fresh P E M C Payload parts question plan terms key w).1
    unfolding ask_fresh Sent Stored
    fresh_ok question key plan terms w h =
        let send_plan = emit P E M C Payload parts (plan_event plan) in
        let find = or_fail P E M C Payload search_failed (search plan) in
        let rest = λ (found : E).
          ask_evidence P E M C Payload parts question plan key (augment terms question found) in
        let (a1, b1, e1) = seq_ok send_plan (◌>>=◌ P E M C Payload find rest) w h in
        let w1 = (send_plan w).1 in
        let (found, a2, e2) = bind_ok find rest w1 b1 in
        let (some_found, same_world) = fail_ok search_failed (search plan) w1 a2 in
        let whole = e1 ∙ e2 ∙ ap (rest found) same_world in
        let (answer, post) =
          evidence_ok question key plan (augment terms question found) w1
            (ap (λ (r : Result AskError Unit × W). r.0) (sym whole) ∙ h) in
        let (s1, k1) = emit_ok (plan_event plan) w a1 in
        let c : CachedAnswer P E M C Payload = record {
          plan = plan;
          evidence = augment terms question found;
          answer = answer;
        } in
        (
          c,
          ap (λ (r : Result AskError Unit × W). r.1.sent) whole
              ∙ post.0
              ∙ ap (λ l. l ++ tail_events c) s1
              ∙ append_assoc w.sent (plan_event plan ∷ []) (tail_events c),
          ap (λ (r : Result AskError Unit × W). lookup key r.1.cache) whole
              ∙ post.1
              ∙ ap (λ l. kept c (lookup key l)) k1,
        )

    kept-same : (c : CachedAnswer P E M C Payload) → kept c (some c) ≡ some c
    kept-same c = ground arith

    replay_ok :
        (key : String) (c : CachedAnswer P E M C Payload) (w : W)
        → lookup key w.cache ≡ some c
        → (replay_cached P E M C Payload parts c w).0 ≡ ok tt
        → Answered key w (replay_cached P E M C Payload parts c w).1
    unfolding Sent Does
    replay_ok key c w found h =
        let (s, k) = Does-replay c w h in
        (c, s, ap (lookup key) k ∙ found ∙ sym (ap (kept c) found ∙ kept-same c))

    get_lem :
        (key : String) (w : W) {c : CachedAnswer P E M C Payload}
        → cache_get P E M C Payload parts key w ≡ some c
        → lookup key w.cache ≡ some c
    unfolding cache_get
    get_lem key w h = ground arith

    planned_ok :
        (question access : String) (plan : P) (terms : List String) (w : W)
        → (ask_planned P E M C Payload parts question access (plan, terms) w).0 ≡ ok tt
        → Answered
            (plan_key plan access)
            w
            (ask_planned P E M C Payload parts question access (plan, terms) w).1
    unfolding ask_planned
    planned_ok question access plan terms w h =
        go (cache_get P E M C Payload parts (plan_key plan access) w) refl h
      where
        go :
            (o : Option (CachedAnswer P E M C Payload))
            → cache_get P E M C Payload parts (plan_key plan access) w ≡ o
            → (ask_cached P E M C Payload parts question plan terms (plan_key plan access) o w).0
              ≡ ok tt
            → Answered
                (plan_key plan access)
                w
                (ask_cached P E M C Payload parts question plan terms (plan_key plan access) o w).1
        go none e k = fresh_ok question (plan_key plan access) plan terms w k
        go (some c) e k =
            replay_ok (plan_key plan access) c w (get_lem (plan_key plan access) w e) k

    abbrev choose : String → String → Bool → Ask P E M C Payload (Unit {0})
    choose question access b =
        if b
        then (λ w. (err question_required, w))
        else (◌>>=◌ P E M C Payload (or_fail P E M C Payload plan_failed (plan_and_terms question))
            (λ p. ask_planned P E M C Payload parts question access p))

    choose_ok :
        (question access : String) (w : W) (b : Bool)
        → (choose question access b w).0 ≡ ok tt
        → (plan : P) × (terms : List String) × (plan_and_terms question ≡ some (plan, terms))
          × Answered (plan_key plan access) w (choose question access b w).1
    choose_ok question access w true h = cc
    choose_ok question access w false h =
        let plan_it = or_fail P E M C Payload plan_failed (plan_and_terms question) in
        let run = λ (p : P × List String). ask_planned P E M C Payload parts question access p in
        let (p, a, e) = bind_ok plan_it run w h in
        let (found, same_world) = fail_ok plan_failed (plan_and_terms question) w a in
        let whole = e ∙ ap (run p) same_world in
        (
          p.0,
          p.1,
          found,
          subst (λ (r : Result AskError Unit × W). Answered (plan_key p.0 access) w r.1) (sym whole)
              (planned_ok question access p.0 p.1 w
                (ap (λ (r : Result AskError Unit × W). r.0) (sym whole) ∙ h)),
        )

    -- A question that is answered without an error sends the events of one answer, in this order:
    -- plan, evidence, the text in pieces, and the answer. Under the key of the plan of the question
    -- the cache then has that answer, if the cache can be written, the numbers of the answer are supported
    -- and it is not degraded, and what it had before otherwise.
    pub ask_events :
        (question access : String) (w : W)
        → (ask P E M C Payload parts question access w).0 ≡ ok tt
        → (plan : P) × (terms : List String) × (plan_and_terms question ≡ some (plan, terms))
          × Answered (plan_key plan access) w (ask P E M C Payload parts question access w).1
    unfolding ask
    ask_events question access w h = choose_ok question access w (question == "") h
