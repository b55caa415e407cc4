-- ===== src/Discovery/Parse.antt =====
-- The projects that discovery reads from a log: parseDiscoveredProjects and
-- getDiscoveredProjectsFromJobLogs of src/internal/renovate/podLogs.go.
use mogenius_renovate_operat.Prelude.{
  ℕ, suc, Bool, true, false, Option, none, some, List, [], ◌∷◌, ◌≡◌, refl, sym, ap, ◌∙◌,
  if◌then◌else◌, arith, All, count_of, Bool-cases, Option-cases, inl, inr,
}
use mogenius_renovate_operat.Prelude.Text.{Text, ◌==◌, trim_space}
use mogenius_renovate_operat.Discovery.{
  DiscoveryJson, both, repository_of, mixed, parse_array, starts_array, element_name, collect,
  parse_line_for_discovered_projects, text_ltb, insert_text, sort_texts, DiscoveryClient,
  sorted_projects, get_discovered_projects_from_job_logs, parse_discovered_projects,
}
use mathlib.Core.Path.{subst}
use mogenius_renovate_operat.Kube.{Result, ok, err, continue}
use mogenius_renovate_operat.Jobs.{KubeJob}
use mogenius_renovate_operat.Pods.{get_latest_successful_pod_log}

-- The raw elements and the strings they hold, one for one.
unfoldable pub Strings : DiscoveryJson → List Text → List Text → Type 0
Strings json [] [] = Unit
Strings json (elem' ∷ raw) (s ∷ ss) = (json.string_value elem' ≡ some s) × Strings json raw ss
Strings json _ _ = ⊥

-- What encoding/json promises: a list of strings is a list of elements that are strings.
unfoldable pub JsonLaws : DiscoveryJson → Type 0
unfolding Strings
JsonLaws json =
    (line : Text) (ss : List Text)
    → json.string_array line ≡ some ss
    → (raw : List Text) × (json.raw_array line ≡ some raw) × Strings json raw ss

collect-Strings :
    (json : DiscoveryJson) (raw ss : List Text) → Strings json raw ss → collect json raw ≡ some ss
unfolding Strings collect element_name both
collect-Strings json [] [] h = refl
collect-Strings json [] (s ∷ ss) h = absurd h
collect-Strings json (elem' ∷ raw) [] h = absurd h
collect-Strings json (elem' ∷ raw) (s ∷ ss) h =
    rw (h.0, collect-Strings json raw ss h.1, collect, element_name) refl

module _ (json : DiscoveryJson) where
  -- A line read without the fast path: all its elements one by one.
  unfoldable pub parse_elements : Text → Option (List Text)
  unfolding starts_array mixed
  parse_elements line =
      let line = trim_space line in
      if starts_array json line then mixed json (json.raw_array line) else none

  parse_array-mixed :
      (laws : JsonLaws json) (line : Text)
      → parse_array json line ≡ mixed json (json.raw_array line)
  unfolding parse_array mixed JsonLaws
  parse_array-mixed laws line = elim (Option-cases (json.string_array line)) [
    | inl e ↦ rw (e, parse_array) refl
    | inr (ss, e) ↦
        let (raw, r, strings) = laws line ss e in
        rw (e, r, parse_array) (sym (collect-Strings json raw ss strings))
  ]

  -- The fast path for a list of plain strings changes nothing.
  parse_line-elements :
      JsonLaws json
      → (line : Text) → parse_line_for_discovered_projects json line ≡ parse_elements line
  unfolding parse_line_for_discovered_projects parse_elements
  parse_line-elements laws line =
      ap (λ (o : Option (List Text)). if starts_array json (trim_space line) then o else none)
        (parse_array-mixed laws (trim_space line))

  -- The name that an element of the list gives: it is a string, or else an object with a repository that
  -- is not empty.
  pub data Named (elem' name : Text) : Type 0 where
    of_string : json.string_value elem' ≡ some name → Named elem' name
    of_object :
        json.string_value elem' ≡ none
        → json.repository elem' ≡ some name
        → (name == []) ≡ false
        → Named elem' name

  -- Each element gives a name, one for one.
  pub data Elements : List Text → List Text → Type 0 where
    done : Elements [] []
    next :
        {elem' name : Text} {raw names : List Text}
        → Named elem' name
        → Elements raw names
        → Elements (elem' ∷ raw) (name ∷ names)

  -- The trimmed line is a list, and its elements give the names.
  pub record Reading (line : Text) (names : List Text) : Type 0 where
    pub rest : Text
    pub raw : List Text
    pub opens : trim_space line ≡ b'[' ∷ rest
    pub is_array : json.raw_array (trim_space line) ≡ some raw
    pub elements : Elements raw names

  unless-empty :
      (b : Bool) (r : Text) {name : Text}
      → (if b then none else some r) ≡ some name
      → (b ≡ false) × (r ≡ name)
  unless-empty true r h = cc
  unless-empty false r h = (refl, cc)

  object-Named :
      (elem' : Text) (o : Option Text) {name : Text}
      → json.string_value elem' ≡ none
      → json.repository elem' ≡ o
      → elim o [ none ↦ none | some r ↦ if r == [] then none else some r ] ≡ some name
      → Named elem' name
  object-Named elem' none s e h = cc
  object-Named elem' (some r) s e h =
      let (nonempty, same) = unless-empty (r == []) r h in
      subst (Named elem') same (of_object s e nonempty)

  element-Named :
      (elem' : Text) (v : Option Text) {name : Text}
      → json.string_value elem' ≡ v
      → elim v [ none ↦ repository_of json elem' | some s ↦ some s ] ≡ some name
      → Named elem' name
  unfolding repository_of
  element-Named elem' none e h = object-Named elem' (json.repository elem') e refl h
  element-Named elem' (some s) e h = of_string (e ∙ h)

  Named-element_name : (elem' name : Text) → Named elem' name → element_name json elem' ≡ some name
  unfolding element_name repository_of
  Named-element_name elem' name (of_string e) = rw (element_name, e) refl
  Named-element_name elem' name (of_object s e n) = rw (element_name, s, repository_of, e, n) refl

  both-some :
      (o : Option Text) (os : Option (List Text)) {names : List Text}
      → both o os ≡ some names
      → (first : Text) × (later : List Text) × (o ≡ some first)
        × (os ≡ some later)
        × (first ∷ later ≡ names)
  unfolding both
  both-some none os h = cc
  both-some (some first) none h = cc
  both-some (some first) (some later) h = (first, later, refl, refl, cc)

  collect-Elements : (raw names : List Text) → collect json raw ≡ some names → Elements raw names
  unfolding collect element_name
  collect-Elements [] [] h = done
  collect-Elements [] (name ∷ names) h = cc
  collect-Elements (elem' ∷ raw) names h =
      let (first, later, e, es, same) = both-some (element_name json elem') (collect json raw) h in
      subst (Elements (elem' ∷ raw)) same (
        next (element-Named elem' (json.string_value elem') refl e) (collect-Elements raw later es))

  Elements-collect : {raw names : List Text} → Elements raw names → collect json raw ≡ some names
  unfolding collect both
  Elements-collect done = refl
  Elements-collect (next {elem' = elem'} {name = name} n rest) =
      rw (Named-element_name elem' name n, Elements-collect rest) refl

  starts_array-opens :
      (line : Text) → starts_array json line ≡ true → (rest : Text) × (line ≡ b'[' ∷ rest)
  unfolding starts_array
  starts_array-opens [] h = cc
  starts_array-opens (k ∷ line) h = (line, ground (arith, h))

  mixed-Elements :
      (o : Option (List Text)) {names : List Text}
      → mixed json o ≡ some names
      → (raw : List Text) × (o ≡ some raw) × Elements raw names
  unfolding mixed
  mixed-Elements none h = cc
  mixed-Elements (some raw) {names} h = (raw, refl, collect-Elements raw names h)

  parse_elements-Reading :
      (line : Text) (b : Bool) {names : List Text}
      → starts_array json (trim_space line) ≡ b
      → (if b then mixed json (json.raw_array (trim_space line)) else none) ≡ some names
      → Reading line names
  parse_elements-Reading line false e h = cc
  parse_elements-Reading line true e h =
      let (rest, opens) = starts_array-opens (trim_space line) e in
      let (raw, is_array, elements) = mixed-Elements (json.raw_array (trim_space line)) h in
      record { rest = rest; raw = raw; opens = opens; is_array = is_array; elements = elements }

  Reading-parse_elements :
      (line : Text) (names : List Text) → Reading line names → parse_elements line ≡ some names
  unfolding parse_elements starts_array mixed
  Reading-parse_elements line names h = rw h.opens (
      ap (mixed json) (ap (λ (t : Text). json.raw_array t) (sym h.opens) ∙ h.is_array)
      ∙ Elements-collect h.elements)

  -- A line gives names exactly if, trimmed, it is a list each of whose elements gives one, in order: an
  -- element that is a string gives that string, one that is an object its repository, and none if that
  -- is empty. The shortcut for a list of plain strings makes no difference.
  pub parse_line_for_discovered_projects-elements :
      JsonLaws json
      → (line : Text) (names : List Text)
      → (parse_line_for_discovered_projects json line ≡ some names → Reading line names)
        × (Reading line names → parse_line_for_discovered_projects json line ≡ some names)
  unfolding parse_elements
  parse_line_for_discovered_projects-elements laws line names =
      let same = parse_line-elements laws line in
      (
        λ h. parse_elements-Reading line (starts_array json (trim_space line)) refl (sym same ∙ h),
        λ reading. same ∙ Reading-parse_elements line names reading,
      )

text_ltb-asym : (s t : Text) → text_ltb s t ≡ true → text_ltb t s ≡ false
unfolding text_ltb
text_ltb-asym [] [] h = ground arith
text_ltb-asym [] (d ∷ t) h = refl
text_ltb-asym (c ∷ s) [] h = ground arith
text_ltb-asym (c ∷ s) (d ∷ t) h = ground (arith, text_ltb-asym s t)

text_ltb-not_trans :
    (s t u : Text) → text_ltb s t ≡ false → text_ltb t u ≡ false → text_ltb s u ≡ false
unfolding text_ltb
text_ltb-not_trans s t [] h k = ground arith
text_ltb-not_trans [] [] (e ∷ u) h k = ground arith
text_ltb-not_trans [] (d ∷ t) (e ∷ u) h k = ground arith
text_ltb-not_trans (c ∷ s) [] (e ∷ u) h k = ground arith
text_ltb-not_trans (c ∷ s) (d ∷ t) (e ∷ u) h k = ground (arith, text_ltb-not_trans s t u)

-- No text stands before a smaller one.
pub IsSorted : List Text → Type 0
IsSorted [] = Unit
IsSorted (s ∷ ss) = All (λ t. text_ltb t s ≡ false) ss × IsSorted ss

abbrev pub occurrences : Text → List Text → ℕ
occurrences s = count_of (λ t. t == s)

All-insert_text :
    (P : Text → Type 0) (s : Text) (ss : List Text) → P s → All P ss → All P (insert_text s ss)
unfolding insert_text
All-insert_text P s [] h k = (h, tt)
All-insert_text P s (t ∷ ss) h k = elim (Bool-cases (text_ltb t s)) [
  | inl e ↦ rw (e, insert_text) (k.0, All-insert_text P s ss h k.1)
  | inr e ↦ rw (e, insert_text) (h, k)
]

All-not_less :
    (s t : Text) (ss : List Text)
    → text_ltb t s ≡ false
    → All (λ u. text_ltb u t ≡ false) ss
    → All (λ u. text_ltb u s ≡ false) ss
All-not_less s t [] h k = tt
All-not_less s t (u ∷ ss) h k = (text_ltb-not_trans u t s k.0 h, All-not_less s t ss h k.1)

insert_text-IsSorted : (s : Text) (ss : List Text) → IsSorted ss → IsSorted (insert_text s ss)
unfolding insert_text IsSorted
insert_text-IsSorted s [] h = (tt, tt)
insert_text-IsSorted s (t ∷ ss) h = elim (Bool-cases (text_ltb t s)) [
  | inl e ↦
      rw (e, insert_text)
        (
          All-insert_text (λ u. text_ltb u t ≡ false) s ss (text_ltb-asym t s e) h.0,
          insert_text-IsSorted s ss h.1,
        )
  | inr e ↦ rw (e, insert_text) ((e, All-not_less s t ss e h.0), h)
]

occurrences-insert_text :
    (u s : Text) (ss : List Text) → occurrences u (insert_text s ss) ≡ occurrences u (s ∷ ss)
unfolding insert_text
occurrences-insert_text u s [] = refl
occurrences-insert_text u s (t ∷ ss) = ground (arith, occurrences-insert_text u s ss)

sort_texts-lem :
    (ss : List Text)
    → IsSorted (sort_texts ss) × ((u : Text) → occurrences u (sort_texts ss) ≡ occurrences u ss)
unfolding sort_texts IsSorted
sort_texts-lem [] = (tt, λ u. refl)
sort_texts-lem (s ∷ ss) =
    let (sorted, same) = sort_texts-lem ss in
    (
      insert_text-IsSorted s (sort_texts ss) sorted,
      λ u.
          occurrences-insert_text u s (sort_texts ss)
          ∙ ap (λ n. if s == u then suc n else n) (same u),
    )

module _ {W : Type 0} (x : DiscoveryClient W) where
  parsed-IsSorted :
      (o : Option (List Text)) (v : W) {projects : List Text} {w : W}
      → sorted_projects x o v ≡ (ok projects, w)
      → (parsed : List Text) × (o ≡ some parsed)
        × IsSorted projects
        × ((u : Text) → occurrences u projects ≡ occurrences u parsed)
  unfolding sorted_projects
  parsed-IsSorted none v h = cc
  parsed-IsSorted (some parsed) v {projects} h =
      let same : sort_texts parsed ≡ projects = cc in
      (
        parsed,
        refl,
        subst IsSorted same (sort_texts-lem parsed).0,
        λ u. sym (ap (occurrences u) same) ∙ (sort_texts-lem parsed).1 u,
      )

  read-IsSorted :
      (r : Result Text) (v : W) {projects : List Text} {w : W}
      → continue r (λ logs. sorted_projects x (parse_discovered_projects x.json logs)) v
        ≡ (ok projects, w)
      → (logs : Text) × (r ≡ ok logs)
        × (parsed : List Text) × (parse_discovered_projects x.json logs ≡ some parsed)
        × IsSorted projects
        × ((u : Text) → occurrences u projects ≡ occurrences u parsed)
  read-IsSorted (ok logs) v h =
      let (parsed, e, sorted, same) = parsed-IsSorted (parse_discovered_projects x.json logs) v h in
      (logs, refl, parsed, e, sorted, same)
  read-IsSorted (err e) v h = cc

  -- Discovery gives the projects that it parses from the log in alphabetical order, each as often as the
  -- log has it.
  pub get_discovered_projects_from_job_logs-IsSorted :
      (job : KubeJob) (v : W) {projects : List Text} {w : W}
      → get_discovered_projects_from_job_logs x job v ≡ (ok projects, w)
      → (logs : Text) × ((get_latest_successful_pod_log x.pods job v).0 ≡ ok logs)
        × (parsed : List Text) × (parse_discovered_projects x.json logs ≡ some parsed)
        × IsSorted projects
        × ((u : Text) → occurrences u projects ≡ occurrences u parsed)
  unfolding get_discovered_projects_from_job_logs
  get_discovered_projects_from_job_logs-IsSorted job v =
      let read = get_latest_successful_pod_log x.pods job v in read-IsSorted read.0 read.1
