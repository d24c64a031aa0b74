-- ===== src/Stats/Reader/Decoding.antt =====
-- When the rows of a response can be read.
use close.Prelude.{
  All, Bool, List, String, Value, [], ap, arith, bind_after, done, false, if◌then◌else◌,
  json_number, json_other, json_text, length, length-append, pure, raise, refl, some, str_eq, suc,
  true, ℕ, ◌++◌, ◌+◌, ◌>>=◌, ◌∙◌, ◌∷◌, ◌≡◌,
}
use close.Stats.Influx.{Influx, InfluxUrl, Query, Response, Row, database, make_query}
use close.Stats.Series.{ReaderError, SeriesKey, SeriesStats, SeriesTab, response_error}
use close.Stats.Reader.{
  answered, ask, float_of, get_stats, key_of, no_tab, over_results, read_column, read_tab,
  set_column, stats_command, stats_of, tabs_of, time_of,
}

module _ (i : Influx) where
  -- the value of a column: a time that parses in the column of that name, a number that parses in others
  abbrev pub IsReadable : Bool → Value → Type 0
  IsReadable true (json_text s) = (t : ℕ) × (i.parse_time s ≡ some t)
  IsReadable true (json_number s) = ⊥
  IsReadable true json_other = ⊥
  IsReadable false (json_text s) = ⊥
  IsReadable false (json_number s) = (x : i.Float) × (i.to_float s ≡ some x)
  IsReadable false json_other = ⊥

  -- a row with a readable value for each column
  abbrev pub Reads : List String → List Value → Type 0
  Reads [] vs = Unit {0}
  Reads (c ∷ cs) [] = ⊥
  Reads (c ∷ cs) (v ∷ vs) = IsReadable (str_eq c "time") v × Reads cs vs

  abbrev pub AllRead : List Row → Type 0
  AllRead = All (λ row. All (Reads row.columns) row.values)

  abbrev pub row_count : List Row → ℕ
  row_count [] = 0
  row_count (row ∷ rows) = length row.values + row_count rows

  abbrev pub total_count : List (List Row) → ℕ
  total_count [] = 0
  total_count (rows ∷ more) = row_count rows + total_count more

  module _ {S : Type 0} (s : S) where
    time_of-readable : (v : Value) → IsReadable true v → (t : ℕ) × (time_of i v s ≡ (done t, s))
    unfolding time_of
    time_of-readable (json_text x) (t, e) = (t, rw (e, time_of) refl)
    time_of-readable (json_number x) h = absurd h
    time_of-readable json_other h = absurd h

    float_of-readable :
        (v : Value) → IsReadable false v → (x : i.Float) × (float_of i v s ≡ (done x, s))
    unfolding float_of
    float_of-readable (json_text x) h = absurd h
    float_of-readable (json_number x) (t, e) = (t, rw (e, float_of) refl)
    float_of-readable json_other h = absurd h

    read_column-readable :
        (c : String) (v : Value) (t : SeriesTab i)
        → IsReadable (str_eq c "time") v
        → (t' : SeriesTab i) × (read_column i c v t s ≡ (done t', s))
    unfolding read_column
    read_column-readable c v t =
        elim (str_eq c "time")
          as (λ b.
            IsReadable b v
            → (t' : SeriesTab i) × ((if b
                    then (time_of i v >>= (λ time. pure (record t { time = time })))
                    else (float_of i v >>= (λ x. pure (set_column i c x t))))
                  s
                ≡ (done t', s))) [
                  | true ↦ (λ h.
                      let (x, e) = time_of-readable v h in
                      (
                        record t { time = x },
                        bind_after (time_of i v) (λ time. pure (record t { time = time })) s e,
                      ))
                  | false ↦ (λ h.
                      let (x, e) = float_of-readable v h in
                      (
                        set_column i c x t,
                        bind_after (float_of i v) (λ x. pure (set_column i c x t)) s e,
                      ))
                ]

    read_tab-readable :
        (t : SeriesTab i) (cs : List String) (vs : List Value)
        → Reads cs vs
        → (t' : SeriesTab i) × (read_tab i t cs vs s ≡ (done t', s))
    unfolding read_tab
    read_tab-readable t [] vs h = (t, refl)
    read_tab-readable t (c ∷ cs) [] h = absurd h
    read_tab-readable t (c ∷ cs) (v ∷ vs) (h, g) =
        let (t', e) = read_column-readable c v t h in
        let (t'', e') = read_tab-readable t' cs vs g in
        (t'', bind_after (read_column i c v t) (λ x. read_tab i x cs vs) s e ∙ e')

    -- what `tabs_of` gives for a row
    abbrev Given : String → Row → List (SeriesStats i) → Type 0
    Given field row = All (λ (x : SeriesStats i). (x.key ≡ key_of row) × (x.field ≡ field))

    tabs_of-readable :
        (field : String) (row : Row) (vss : List (List Value))
        → All (Reads row.columns) vss
        → (out : List (SeriesStats i)) × (tabs_of i field row vss s ≡ (done out, s))
          × (length out ≡ length vss)
    unfolding tabs_of
    tabs_of-readable field row [] h = ([], refl, refl)
    tabs_of-readable field row (vs ∷ vss) (h, g) =
        let (t, e) = read_tab-readable (no_tab i) row.columns vs h in
        let (out, e', n) = tabs_of-readable field row vss g in
        let x : SeriesStats i = record { key = key_of row; field = field; tab = t } in
        (
          x ∷ out,
          bind_after (read_tab i (no_tab i) row.columns vs)
                (λ t.
                  tabs_of i field row vss
                  >>= (λ more. pure (record { key = key_of row; field = field; tab = t } ∷ more)))
                s e
              ∙ bind_after (tabs_of i field row vss) (λ more. pure (x ∷ more)) s e',
          ap suc n,
        )

    stats_of-readable :
        (field : String) (rows : List Row)
        → AllRead rows
        → (out : List (SeriesStats i)) × (stats_of i field rows s ≡ (done out, s))
          × (length out ≡ row_count rows)
    unfolding stats_of
    stats_of-readable field [] h = ([], refl, refl)
    stats_of-readable field (row ∷ rows) (h, g) =
        let (here, e, n) = tabs_of-readable field row row.values h in
        let (out, e', n') = stats_of-readable field rows g in
        (
          here ++ out,
          bind_after (tabs_of i field row row.values)
                (λ x. stats_of i field rows >>= (λ more. pure (x ++ more))) s e
              ∙ bind_after (stats_of i field rows) (λ more. pure (here ++ more)) s e',
          omega (arith, length-append here out, n, n'),
        )

    over_results-readable :
        (field : String) (results : List (List Row))
        → All AllRead results
        → (out : List (SeriesStats i)) × (over_results (stats_of i field) results s ≡ (done out, s))
          × (length out ≡ total_count results)
    unfolding over_results
    over_results-readable field [] h = ([], refl, refl)
    over_results-readable field (rows ∷ more) (h, g) =
        let (here, e, n) = stats_of-readable field rows h in
        let (out, e', n') = over_results-readable field more g in
        (
          here ++ out,
          bind_after (stats_of i field rows)
                (λ x. over_results (stats_of i field) more >>= (λ rest. pure (x ++ rest))) s e
              ∙ bind_after (over_results (stats_of i field) more) (λ rest. pure (here ++ rest)) s
                  e',
          omega (arith, length-append here out, n, n'),
        )

  -- If the database answers without an error, and every row has a readable value in each column, then
  -- `GetStats` succeeds, with as many entries as there are rows.
  pub get_stats_total :
      (u : InfluxUrl) (series : SeriesKey) (field name : String) (duration : ℕ) (s s' : i.State)
      (r : Response)
      → database {S = i.State} {E = ReaderError} u s ≡ (done name, s)
      → ((q : Query) → i.query q s ≡ (some r, s'))
      → r.has_error ≡ false
      → All AllRead r.results
      → (out : List (SeriesStats i)) × (get_stats i u series field duration s ≡ (done out, s'))
        × (length out ≡ total_count r.results)
  unfolding get_stats make_query ask answered
  get_stats_total u series field name duration s s' r hu hq hr h =
      let (out, e, n) = over_results-readable s' field r.results h in
      let q : Query = record {
        command = stats_command i u series field duration;
        database = name;
      } in
      let made =
        bind_after (database u)
          (λ x. pure (record { command = stats_command i u series field duration; database = x })) s
          hu in
      let asked : ask i q s ≡ (done r.results, s') =
        ap (λ x. answered i x.0 x.1) (hq q)
        ∙ ap (λ b. (if b then raise response_error else pure r.results) s') hr in
      (
        out,
        bind_after (make_query u (stats_command i u series field duration))
              (λ q. ask i q >>= over_results (stats_of i field)) s made
            ∙ bind_after (ask i q) (over_results (stats_of i field)) s asked
            ∙ e,
        n,
      )
