-- ===== src/Bridge/Handler/Runtimes.antt =====
-- judge/models/runtime.py, `Judge.runtime_versions`: the table of the versions that the judges which
-- are online run, by judge and language.
use mathlib.Core.Option.{map as map_option}
use study_sys.Prelude.{
  sym, ap, ◌∙◌, subst, eq_iff, all, ◌&&◌, Bool, true, false, not, Option, none, some, List, [], ◌∷◌,
  ◌++◌, ◌≡◌, refl, arith, String, str_eq, if◌then◌else◌, any, inl, inr, Bool-cases,
}

-- A row of the query, which is sorted by language and priority.
pub record VersionRow : Type 0 where
  pub judge : String
  pub key : String
  pub language : String
  pub version : String
  pub name : String

-- What the table has for a language, and for a judge.
pub record Runtime : Type 0 where
  pub name : String
  pub runtime : List (String × String)

abbrev pub Languages : Type 0
Languages = List (String × Runtime)

abbrev pub Table : Type 0
Table = List (String × Languages)

-- `d[key] = value` and `d.get(key)` of a dictionary with texts as keys.
unfoldable pub assign {ℓ} : {A : Type ℓ} → String → A → List (String × A) → List (String × A)
assign key x [] = (key, x) ∷ []
assign key x ((k, y) ∷ rest) = if str_eq k key then (k, x) ∷ rest else (k, y) ∷ assign key x rest

unfoldable pub find {ℓ} : {A : Type ℓ} → String → List (String × A) → Option A
find key [] = none
find key ((k, y) ∷ rest) = if str_eq k key then some y else find key rest

-- `key in d`
abbrev pub has_key {ℓ} : {A : Type ℓ} → String → List (String × A) → Bool
has_key key d = any (λ e. str_eq e.0 key) d

-- `ret[judge]` of the defaultdict.
abbrev pub or_empty : Option Languages → Languages
or_empty none = []
or_empty (some l) = l

unfoldable pub languages_of : String → Table → Languages
unfolding find
languages_of judge ret = or_empty (find judge ret)

abbrev pub one_version : VersionRow → Runtime
one_version r = record { name = r.language; runtime = (r.name, r.version) ∷ [] }

abbrev pub append_version : VersionRow → Runtime → Runtime
append_version r old = record old { runtime = old.runtime ++ (r.name, r.version) ∷ [] }

-- The body of the loop: the test looks for the language among the judges. No table is the KeyError of
-- a language that `ret[judge]` lacks.
unfoldable pub add_version : VersionRow → Table → Option Table
unfolding languages_of assign find
add_version r ret =
    let langs = languages_of r.judge ret in
    if has_key r.key ret
    then (elim (find r.key langs) [
      | none ↦ none
      | some old ↦ some (assign r.judge (assign r.key (append_version r old) langs) ret)
    ])
    else some (assign r.judge (assign r.key (one_version r) langs) ret)

unfoldable pub runtime_versions : List VersionRow → Table → Option Table
unfolding add_version
runtime_versions [] ret = some ret
runtime_versions (r ∷ rs) ret = elim (add_version r ret) [
  | none ↦ none
  | some t ↦ runtime_versions rs t
]

-- What the table says of a language of a judge.
unfoldable pub runtime_of : String → String → Table → Option Runtime
unfolding languages_of find
runtime_of judge key ret = find key (languages_of judge ret)

-- The last row of a language of a judge.
unfoldable pub last_row : String → String → List VersionRow → Option VersionRow
last_row judge key [] = none
last_row judge key (r ∷ rs) = elim (last_row judge key rs) [
  | some l ↦ some l
  | none ↦ if str_eq r.judge judge && str_eq r.key key then some r else none
]

find-assign {ℓ} :
    {A : Type ℓ} (key k : String) (x : A) (d : List (String × A))
    → find k (assign key x d) ≡ (if str_eq key k then some x else find k d)
unfolding find assign
find-assign key k x [] = ground arith
find-assign key k x ((i, y) ∷ d) =
    ground (arith, eq_iff key k, eq_iff i k, eq_iff i key, find-assign key k x d)

own_runtime :
    (judge key k : String) (x : Runtime) (ret : Table)
    → runtime_of judge k (assign judge (assign key x (languages_of judge ret)) ret)
      ≡ (if str_eq judge judge && str_eq key k then some x else runtime_of judge k ret)
unfolding runtime_of languages_of
own_runtime judge key k x ret =
    let langs = languages_of judge ret in
    let f = find-assign judge judge (assign key x langs) ret in
    let self : str_eq judge judge ≡ true = (eq_iff judge judge).1 refl in
    let g = f ∙ ap (λ b. if b then some (assign key x langs) else find judge ret) self in
    ap (λ o. find k (or_empty o)) g
    ∙ find-assign key k x langs
    ∙ ap (λ b. if b && str_eq key k then some x else find k langs) (sym self)

runtime_of-assign :
    (judge key j k : String) (x : Runtime) (ret : Table)
    → runtime_of j k (assign judge (assign key x (languages_of judge ret)) ret)
      ≡ (if str_eq judge j && str_eq key k then some x else runtime_of j k ret)
unfolding runtime_of languages_of
runtime_of-assign judge key j k x ret =
    let langs = languages_of judge ret in
    elim (Bool-cases (str_eq judge j)) [
      | inl same ↦
          let eq : judge ≡ j = (eq_iff judge j).0 same in
          subst
            (λ i.
              runtime_of i k (assign judge (assign key x langs) ret)
              ≡ (if str_eq judge i && str_eq key k then some x else runtime_of i k ret))
            eq (own_runtime judge key k x ret)
      | inr other ↦
          let f = find-assign judge j (assign key x langs) ret in
          let g = f ∙ ap (λ b. if b then some (assign key x langs) else find j ret) other in
          ap (λ o. find k (or_empty o)) g
          ∙ ap (λ b. if b && str_eq key k then some x else runtime_of j k ret) (sym other)
    ]

module _ (is_judge : String → Bool) where
  -- Judges are named, and no language is named as a judge is.
  abbrev pub is_apart : VersionRow → Bool
  is_apart r = is_judge r.judge && not (is_judge r.key)

  abbrev are_judges : Table → Bool
  are_judges ret = all (λ e. is_judge e.0) ret

  no_key :
      (key : String) (ret : Table)
      → is_judge key ≡ false
      → are_judges ret ≡ true
      → has_key key ret ≡ false
  no_key key [] out named = refl
  no_key key ((j, l) ∷ ret) out named =
      ground (arith, out, named, eq_iff j key, no_key key ret out (ground (arith, named)))

  assign-are_judges :
      (judge : String) (l : Languages) (ret : Table)
      → is_judge judge ≡ true
      → are_judges ret ≡ true
      → are_judges (assign judge l ret) ≡ true
  unfolding assign
  assign-are_judges judge l [] own named = ground (arith, own)
  assign-are_judges judge l ((j, m) ∷ ret) own named =
      ground (arith, own, named, assign-are_judges judge l ret own (ground (arith, named)))

  by_cases :
      (o : Option VersionRow)
      → (elim o [ some r ↦ some (one_version r) | none ↦ none ]) ≡ map_option one_version o
  by_cases none = refl
  by_cases (some r) = refl

  -- One row.
  added :
      (r : VersionRow) (ret : Table)
      → is_apart r ≡ true
      → are_judges ret ≡ true
      → (t : Table) × (add_version r ret ≡ some t)
        × (are_judges t ≡ true)
        × ((j k : String)
            → runtime_of j k t ≡ (
                if str_eq r.judge j && str_eq r.key k
                then some (one_version r)
                else runtime_of j k ret))
  unfolding add_version
  added r ret apart named =
      let langs = assign r.key (one_version r) (languages_of r.judge ret) in
      (
        assign r.judge langs ret,
        rw (no_key r.key ret (ground (arith, apart)) named, add_version) refl,
        assign-are_judges r.judge langs ret (ground (arith, apart)) named,
        λ j k. runtime_of-assign r.judge r.key j k (one_version r) ret,
      )

  table-last_row :
      (rows : List VersionRow) (ret : Table)
      → all is_apart rows ≡ true
      → are_judges ret ≡ true
      → (t : Table) × (runtime_versions rows ret ≡ some t)
        × ((j k : String)
            → runtime_of j k t ≡ (elim (last_row j k rows) [
              | some r ↦ some (one_version r)
              | none ↦ runtime_of j k ret
            ]))
  unfolding runtime_versions last_row
  table-last_row [] ret apart named = (ret, refl, λ j k. refl)
  table-last_row (r ∷ rows) ret apart named =
      let (t, e, named_t, one) = added r ret (ground (arith, apart)) named in
      let (u, f, rest) = table-last_row rows t (ground (arith, apart)) named_t in
      (u, rw (e, runtime_versions) f, λ j k. ground (arith, rest j k, one j k))

  -- Over rows of judges which are not named as a language is, no exception is raised, and the table
  -- that is returned has, for each language of a judge, one version, that of the last row: the test
  -- in the loop makes a new entry for every row.
  pub runtime_versions-last_row :
      (rows : List VersionRow)
      → all is_apart rows ≡ true
      → (t : Table) × (runtime_versions rows [] ≡ some t)
        × ((j k : String) → runtime_of j k t ≡ map_option one_version (last_row j k rows))
  unfolding runtime_of languages_of find
  runtime_versions-last_row rows apart =
      let (t, e, last) = table-last_row rows [] apart refl in
      (t, e, λ j k. last j k ∙ by_cases (last_row j k rows))
