-- ===== src/Answer/Synth.antt =====
-- internal/answer/app/synth.go: the summary that is written from the evidence without a model, the
-- methods that it names and its confidence.
--
-- The fields of protobuf structures that the code reads are fields of records, with the value that a
-- missing one is read as. The functions of Go's standard library on texts are the fields of `Strings`.

pub mod Methods
use nornickel_hackathon.Prelude.{
  ℕ, zero, suc, ◌-◌, String, Bool, true, false, ◌&&◌, ◌||◌, not, Option, none, some, List, [], ◌∷◌,
  ◌++◌, ltb, leb, length, take, contains, map, ◌==◌, if◌then◌else◌, lookup, insert, Assoc,
}
use Prim.Native.String.{◌++◌ as append}
use nornickel_hackathon.Float.{Float}
use nornickel_hackathon.Auth.Signed.{join}
use nornickel_hackathon.Blob.{strip_prefix}

-- TrimSpace, TrimSuffix, ToLower, FormatFloat with its point replaced by a comma, the replacement of
-- each run of spaces by one, Itoa, and the first code points of a text with whether there are more.
pub record Strings (F : Type 0) : Type 0 where
  pub trim_space : String → String
  pub trim_suffix : String → String → String
  pub to_lower : String → String
  pub format_number : F → String
  pub squeeze : String → String
  pub itoa : ℕ → String
  pub first_runes : ℕ → String → String
  pub has_more : ℕ → String → Bool

pub record FactView : Type 0 where
  pub ref : String
  pub subject_slug : String
  pub subject_name : String
  pub source_title : String
  pub parameter_name : String
  pub value_text : String
  pub geography : String

pub record ChunkView : Type 0 where
  pub ref : String
  pub source_title : String
  pub text : String

pub record MethodView : Type 0 where
  pub name : String
  pub applicability : String
  pub citations : List String

abbrev pub summary_fact_limit : ℕ
summary_fact_limit = 12

abbrev pub summary_chunk_limit : ℕ
summary_chunk_limit = 10

unfoldable pub verdict_label : String → String
verdict_label verdict =
    if verdict == "consensus"
    then "консенсус"
    else if verdict == "majority"
    then "большинство источников"
    else if verdict == "split"
    then "расхождение источников"
    else "недостаточно данных"

unfoldable pub applicability_label : String → String
applicability_label geography =
    if geography == "ru"
    then "отечественная практика"
    else if geography == "foreign"
    then "зарубежная практика"
    else "подтверждено источниками"

unfoldable pub is_some : Option String → Bool
is_some none = false
is_some (some s) = true

-- The subject of a view is a process or a technology.
unfoldable pub is_method : String → Bool
unfolding is_some strip_prefix
is_method slug = is_some (strip_prefix "process:" slug) || is_some (strip_prefix "technology:" slug)

unfoldable pub cite : FactView → Option MethodView → MethodView
unfolding applicability_label
cite view none = record {
  name = view.subject_name;
  applicability = applicability_label view.geography;
  citations = view.ref ∷ [];
}
cite view (some method) = record method { citations = method.citations ++ view.ref ∷ [] }

-- The loop of `deriveMethods`: the map of groups, its keys in the order in which they came.
unfoldable pub group_methods : List FactView → Assoc MethodView → Assoc MethodView
unfolding cite is_method
group_methods [] groups = groups
group_methods (view ∷ views) groups = group_methods views (
    if is_method view.subject_slug
    then insert view.subject_slug (cite view (lookup view.subject_slug groups)) groups
    else groups)

unfoldable pub methods_in : Assoc MethodView → List MethodView
methods_in [] = []
methods_in ((slug, method) ∷ groups) = method ∷ methods_in groups

unfoldable pub derive_methods : List FactView → List MethodView
unfolding group_methods methods_in
derive_methods views = methods_in (group_methods views [])

module _ (float : Float) (strings : Strings float.F) where
  open float use {F, lt, add, sub, lit}
  open strings use {
    trim_space, trim_suffix, to_lower, format_number, squeeze, itoa, first_runes, has_more,
  }

  pub record FactItem : Type 0 where
    pub ref : String
    pub subject_slug : String
    pub subject_name : String
    pub source_title : String
    pub parameter_name : String
    pub geography : String
    pub operator : String
    pub unit : String
    pub vmin : Option F
    pub vmax : Option F

  pub record ChunkItem : Type 0 where
    pub title : String
    pub text : String

  unfoldable pub number_or_zero : Option F → F
  number_or_zero none = lit 0 1
  number_or_zero (some value) = value

  unfoldable pub format_some : String → Option F → Option F → String
  format_some suffix (some vmin) vmax = append (format_number vmin) suffix
  format_some suffix none (some vmax) = append (format_number vmax) suffix
  format_some suffix none none = trim_space suffix

  unfoldable pub format_value : FactItem → String
  unfolding number_or_zero format_some
  format_value item =
      let suffix = if item.unit == "" then "" else append " " item.unit in
      let low = append (format_number (number_or_zero item.vmin)) suffix in
      let high = append (format_number (number_or_zero item.vmax)) suffix in
      if item.operator == "range"
      then append (append (format_number (number_or_zero item.vmin)) "–") high
      else if item.operator == "lte"
      then append "≤" high
      else if item.operator == "lt"
      then append "<" high
      else if item.operator == "gte"
      then append "≥" low
      else if item.operator == "gt"
      then append ">" low
      else if item.operator == "from"
      then append "от " low
      else if item.operator == "to"
      then append "до " high
      else if item.operator == "approx"
      then append "≈" low
      else format_some suffix item.vmin item.vmax

  unfoldable pub fact_view : FactItem → FactView
  unfolding format_value
  fact_view item = record {
    ref = item.ref;
    subject_slug = item.subject_slug;
    subject_name = item.subject_name;
    source_title = item.source_title;
    parameter_name = item.parameter_name;
    value_text = format_value item;
    geography = item.geography;
  }

  unfoldable pub fact_views : List FactItem → List FactView
  unfolding fact_view
  fact_views facts = map fact_view (take summary_fact_limit facts)

  unfoldable pub clean_snippet : String → ℕ → String
  clean_snippet text limit =
      let clean = squeeze (trim_space text) in
      if has_more limit clean then append (trim_space (first_runes limit clean)) "…" else clean

  unfoldable pub views_from : ℕ → List ChunkItem → List ChunkView
  unfolding clean_snippet
  views_from n [] = []
  views_from n (c ∷ chunks) =
      record { ref = append "C" (itoa n); source_title = c.title; text = clean_snippet c.text 700 }
      ∷ views_from (suc n) chunks

  unfoldable pub chunk_views : List ChunkItem → List ChunkView
  unfolding views_from
  chunk_views chunks = views_from 1 (take summary_chunk_limit chunks)

  unfoldable pub trim_all : List String → String → String
  trim_all [] title = title
  trim_all (ext ∷ exts) title = trim_all exts (trim_suffix title ext)

  abbrev pub doc_extensions : List String
  doc_extensions = ".docx" ∷ ".pptx" ∷ ".xlsx" ∷ ".pdf" ∷ ".xls" ∷ ".doc" ∷ ".txt" ∷ []

  unfoldable pub short_title : String → String
  unfolding trim_all
  short_title title =
      let bare = trim_space (trim_all doc_extensions (trim_space title)) in
      if has_more 70 bare then append (first_runes 70 bare) "…" else bare

  unfoldable pub passage : ChunkView → String
  unfolding short_title clean_snippet
  passage view =
      let cited = append (append (append (clean_snippet view.text 260) " [") view.ref) "]" in
      if short_title view.source_title == ""
      then cited
      else append (append (append "«" (short_title view.source_title)) "»: ") cited

  unfoldable pub passages_digest : List ChunkView → String
  unfolding passage
  passages_digest [] = ""
  passages_digest (v ∷ views) =
      append (append "Из источников: " (join " " (map passage (v ∷ views)))) "."

  unfoldable pub derive_confidence : Bool → Bool → F
  derive_confidence has_consensus has_contradictions =
      let base = lit 7 10 in
      let agreed = if has_consensus then add base (lit 15 100) else base in
      let contested = if has_contradictions then sub agreed (lit 1 10) else agreed in
      let raised = if lt contested (lit 3 10) then lit 3 10 else contested in
      if lt (lit 95 100) raised then lit 95 100 else raised

  -- A view's place in the order of the sources; a view with no source stands under its subject.
  unfoldable pub source_key : FactView → String
  source_key view = if view.source_title == "" then view.subject_name else view.source_title

  unfoldable pub views_of : Option (List FactView) → List FactView
  views_of none = []
  views_of (some views) = views

  -- The first loop of `sourcesDigest`.
  unfoldable pub group_sources : List FactView → Assoc (List FactView) → Assoc (List FactView)
  unfolding source_key views_of
  group_sources [] groups = groups
  group_sources (view ∷ views) groups = group_sources views (
      if source_key view == ""
      then groups
      else insert (source_key view) (views_of (lookup (source_key view) groups) ++ view ∷ [])
          groups)

  unfoldable pub label_or : String → Option String → String
  label_or name none = name
  label_or name (some label) = label

  -- `paramDisplay`
  abbrev pub param_display : Assoc String
  param_display =
      ("ratio", "доля")
      ∷ ("content", "содержание")
      ∷ ("size", "размер")
      ∷ ("duration", "длительность")
      ∷ ("concentration", "концентрация")
      ∷ ("molar concentration", "молярная концентрация")
      ∷ ("pressure", "давление")
      ∷ ("throughput", "производительность")
      ∷ ("flow rate", "расход")
      ∷ ("volumetric flow", "объёмный расход")
      ∷ ("mass flow", "массовый расход")
      ∷ ("energy intensity", "энергозатраты")
      ∷ ("current density", "плотность тока")
      ∷ ("rotation speed", "скорость вращения")
      ∷ ("velocity", "скорость")
      ∷ ("length", "длина")
      ∷ ("temperature", "температура")
      ∷ ("acidity", "кислотность")
      ∷ ("ph", "кислотность")
      ∷ ("cost", "стоимость")
      ∷ ("mass fraction", "массовая доля")
      ∷ []

  unfoldable pub param_label : String → String
  unfolding label_or
  param_label name = label_or name (lookup (to_lower name) param_display)

  unfoldable pub item_of : FactView → String
  unfolding param_label
  item_of view =
      append
        (append
          (append (append (append (param_label view.parameter_name) " ") view.value_text) " [")
          view.ref)
        "]"

  -- The inner loop: each item once, and no more of them than are left.
  unfoldable pub items_of : ℕ → List String → List FactView → List String
  unfolding item_of
  items_of zero seen views = []
  items_of (suc left) seen [] = []
  items_of (suc left) seen (view ∷ views) =
      let skipped = items_of (suc left) seen views in
      let rest = items_of left (item_of view ∷ seen) views in
      if contains seen (item_of view) then skipped else item_of view ∷ rest

  unfoldable pub clauses_of : Assoc (List FactView) → List String
  unfolding items_of short_title
  clauses_of [] = []
  clauses_of ((source, views) ∷ groups) =
      append (append (append "«" (short_title source)) "» — ") (join ", " (items_of 6 [] views))
      ∷ clauses_of groups

  unfoldable pub digest_of : Assoc (List FactView) → String
  unfolding clauses_of
  digest_of [] = "По запросу найдены числовые факты в источниках."
  digest_of (g ∷ groups) =
      append (append "По данным источников: " (join "; " (clauses_of (g ∷ groups)))) "."

  unfoldable pub sources_digest : List FactView → String
  unfolding digest_of group_sources
  sources_digest views = digest_of (group_sources views [])

  -- The first consensus, contradiction and gap of the evidence, as far as the paragraphs read them.
  pub record ConsensusItem : Type 0 where
    pub parameter : String
    pub unit : String
    pub agreed_min : F
    pub agreed_max : F
    pub verdict : String

  pub record ContradictionItem : Type 0 where
    pub status : String
    pub a_ref : String
    pub b_ref : String
    pub a_statement : String
    pub b_statement : String
    pub cause : String

  pub record GapItem : Type 0 where
    pub label : String
    pub reasons : List String

  unfoldable pub consensus_paragraph : List ConsensusItem → String
  unfolding verdict_label
  consensus_paragraph [] = ""
  consensus_paragraph (c ∷ items) = join "" (
      "Согласованный диапазон параметра «"
      ∷ c.parameter
      ∷ "» — "
      ∷ format_number c.agreed_min
      ∷ "–"
      ∷ format_number c.agreed_max
      ∷ " "
      ∷ c.unit
      ∷ " ("
      ∷ verdict_label c.verdict
      ∷ ")."
      ∷ [])

  unfoldable pub contradiction_paragraph : List ContradictionItem → String
  contradiction_paragraph [] = ""
  contradiction_paragraph (c ∷ items) =
      if c.status == "suspected"
      then ""
      else join "" (
          "Подтверждённое противоречие [" ∷ c.a_ref ∷ "]↔[" ∷ c.b_ref ∷ "]: " ∷ c.a_statement
          ∷ " против " ∷ c.b_statement ∷ ". Вероятная причина — " ∷ c.cause ∷ "." ∷ [])

  unfoldable pub reasons_text : List String → String
  reasons_text [] = ""
  reasons_text (r ∷ reasons) = append (append " (" (join ", " (r ∷ reasons))) ")"

  unfoldable pub gap_paragraph : List GapItem → String
  unfolding reasons_text
  gap_paragraph [] = ""
  gap_paragraph (g ∷ items) =
      if g.label == ""
      then ""
      else append (append (append "Пробел в данных: " g.label) (reasons_text g.reasons)) "."

  pub record Evidence : Type 0 where
    pub facts : List FactItem
    pub chunks : List ChunkItem
    pub consensus : List ConsensusItem
    pub contradictions : List ContradictionItem
    pub gaps : List GapItem

  abbrev pub non_empty {ℓ} : {A : Type ℓ} → List A → Bool
  non_empty [] = false
  non_empty (x ∷ xs) = true

  unfoldable pub add_paragraph : String → List String → List String
  add_paragraph text rest = if text == "" then rest else text ∷ rest

  -- `synthesize`: the summary, the methods and the confidence.
  unfoldable pub synthesize : Evidence → String × List MethodView × F
  unfolding fact_views chunk_views passages_digest sources_digest consensus_paragraph
      contradiction_paragraph gap_paragraph derive_methods derive_confidence add_paragraph
  synthesize pack =
      let views = fact_views pack.facts in
      let cviews = chunk_views pack.chunks in
      let later = add_paragraph (consensus_paragraph pack.consensus) (
        add_paragraph (contradiction_paragraph pack.contradictions)
          (add_paragraph (gap_paragraph pack.gaps) [])) in
      let digests = if non_empty views then sources_digest views ∷ later else later in
      if not (non_empty views) && not (non_empty cviews)
      then ("По запросу не найдено релевантных материалов в доступном корпусе.", [], lit 3 10)
      else (
        join " " (add_paragraph (passages_digest cviews) digests),
        derive_methods views,
        derive_confidence (non_empty pack.consensus) (non_empty pack.contradictions),
      )
