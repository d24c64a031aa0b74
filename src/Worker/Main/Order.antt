-- ===== src/Worker/Main/Order.antt =====
-- The order in which the parts of a worker are started.
use close.Prelude.{
  Bool, Exec, continue, List, Option, Outcome, [], ap, append-nil, append_assoc, done, failed,
  false, if◌then◌else◌, none, panicked, refl, some, subst, sym, true, ◌++◌, ◌>>◌, ◌∙◌, ◌∷◌, ◌≡◌,
  pure,
}
use close.Config.Redis.{or_failed}
use close.Worker.Main.{
  Fatal, Options, Program, call, config_sub_failed, configure, main, new_sub_failed,
  new_writer_failed, redis_failed, run_failed, stats_writer_failed, stop_on_signal, worker_failed,
  write_stats,
}

pub data Call : Type 0 where
  creates connects subscribes configures opens reports stops runs : Call

abbrev pub answered : Option (Unit {0}) → Bool
answered none = false
answered (some u) = true

-- Calls without an error.
abbrev pub succeeded : List Call → List (Call × Bool)
succeeded [] = []
succeeded (c ∷ cs) = (c, true) ∷ succeeded cs

succeeded-append : (cs ds : List Call) → succeeded (cs ++ ds) ≡ succeeded cs ++ succeeded ds
succeeded-append [] ds = refl
succeeded-append (c ∷ cs) ds = ap (λ l. (c, true) ∷ l) (succeeded-append cs ds)

module _ (S : Type 0) where
  -- A call that is noted, with whether it was answered without an error.
  abbrev noted :
      Call
      → (S → Option (Unit {0}) × S)
      → S × List (Call × Bool)
      → Option (Unit {0}) × (S × List (Call × Bool))
  noted c f (s, log) = let (o, s') = f s in (o, (s', log ++ (c, answered o) ∷ []))

  -- A call that starts a goroutine has no error.
  abbrev noted_start :
      Call
      → (S → Option (Unit {0}) × S)
      → S × List (Call × Bool)
      → Option (Unit {0}) × (S × List (Call × Bool))
  noted_start c f (s, log) = let (o, s') = f s in (o, (s', log ++ (c, true) ∷ []))

  -- A program whose calls are noted.
  abbrev pub logged : Program S → Program (S × List (Call × Bool))
  logged p = record {
    worker = noted creates p.worker;
    is_config_worker = p.is_config_worker;
    new_redis = noted connects p.new_redis;
    new_sub = noted subscribes p.new_sub;
    config_sub = noted configures p.config_sub;
    is_stats_worker = p.is_stats_worker;
    new_writer = noted opens p.new_writer;
    stats_writer = noted reports p.stats_writer;
    is_stop_worker = p.is_stop_worker;
    stopping = noted_start stops p.stopping;
    run = noted runs p.run;
  }

  abbrev Act : Type 0
  Act = Exec (S × List (Call × Bool)) Fatal (Unit {0})

  -- What was called: all of the calls, each answered without an error, if the action is done; and if it
  -- fails, the first of them, of which only the last one was answered with an error.
  abbrev pub Called :
      List (Call × Bool) → List Call → Outcome Fatal (Unit {0}) × (S × List (Call × Bool)) → Type 0
  Called before calls (done u, (s, log)) = log ≡ before ++ succeeded calls
  Called before calls (failed e, (s, log)) =
      (made : List Call) × (last : Call) × (left : List Call) × (log
        ≡ before ++ (succeeded made ++ (last, false) ∷ []))
      × (made ++ last ∷ left ≡ calls)
  Called before calls (panicked, (s, log)) = ⊥

  abbrev Calls : List Call → Act → Type 0
  Calls calls act = (s : S) (log : List (Call × Bool)) → Called log calls (act (s, log))

  noted-Calls :
      (e : Fatal) (c : Call) (f : S → Option (Unit {0}) × S)
      → Calls (c ∷ []) (λ s. or_failed e (noted c f s))
  unfolding or_failed
  noted-Calls e c f s log =
      elim ((f s).0)
        as (λ o. Called log (c ∷ []) (or_failed e (o, ((f s).1, log ++ (c, answered o) ∷ [])))) [
          | none ↦ ([], c, [], refl, refl)
          | some u ↦ refl
        ]

  pure-Calls : Calls [] (pure tt)
  pure-Calls s log = sym (append-nil log)

  -- what was called behind other calls, all of which went well
  Called-append :
      (log : List (Call × Bool)) (cs ds : List Call)
      (x : Outcome Fatal (Unit {0}) × (S × List (Call × Bool)))
      → Called (log ++ succeeded cs) ds x
      → Called log (cs ++ ds) x
  Called-append log cs ds (done u, (s, log')) c =
      c
      ∙ append_assoc log (succeeded cs) (succeeded ds)
      ∙ ap (λ l. log ++ l) (sym (succeeded-append cs ds))
  Called-append log cs ds (failed e, (s, log')) (made, last, left, p, q) = (
    cs ++ made,
    last,
    left,
    p
        ∙ append_assoc log (succeeded cs) (succeeded made ++ (last, false) ∷ [])
        ∙ ap (λ l. log ++ l)
            (sym (append_assoc (succeeded cs) (succeeded made) ((last, false) ∷ []))
              ∙ ap (λ l. l ++ (last, false) ∷ []) (sym (succeeded-append cs made))),
    append_assoc cs made (last ∷ left) ∙ ap (λ x. cs ++ x) q,
  )
  Called-append log cs ds (panicked, (s, log')) c = c

  then-Calls : (cs ds : List Call) (m k : Act) → Calls cs m → Calls ds k → Calls (cs ++ ds) (m >> k)
  then-Calls cs ds m k first second s log = go (m (s, log)) (first s log)
    where
      go :
          (x : Outcome Fatal (Unit {0}) × (S × List (Call × Bool)))
          → Called log cs x
          → Called log (cs ++ ds) (let (r, t) = x in continue r (λ u. k) t)
      go (done u, (s', log')) c =
          Called-append log cs ds (k (s', log'))
            (subst (λ l. Called l ds (k (s', log'))) c (second s' log'))
      go (failed e, (s', log')) (made, last, left, p, q) = (
        made,
        last,
        left ++ ds,
        p,
        sym (append_assoc made (last ∷ left) ds) ∙ ap (λ x. x ++ ds) q,
      )
      go (panicked, (s', log')) c = absurd c

  if-Calls :
      (b : Bool) (cs ds : List Call) (m k : Act)
      → Calls cs m
      → Calls ds k
      → Calls (if b then cs else ds) (if b then m else k)
  if-Calls true cs ds m k first second = first
  if-Calls false cs ds m k first second = second

  -- the calls for the configuration, for the statistics and for signals
  abbrev pub config_calls : Options → Program S → List Call
  config_calls o p =
      if o.no_config
      then []
      else if p.is_config_worker
      then connects ∷ subscribes ∷ configures ∷ []
      else []

  abbrev pub stats_calls : Options → Program S → List Call
  stats_calls o p =
      if o.no_stats then [] else if p.is_stats_worker then opens ∷ reports ∷ [] else []

  abbrev pub stop_calls : Program S → List Call
  stop_calls p = if p.is_stop_worker then stops ∷ [] else []

  configure-Calls :
      (o : Options) (p : Program S) → Calls (config_calls o p) (configure o (logged p))
  unfolding configure
  configure-Calls o p =
      let q = logged p in
      let redis = call redis_failed q.new_redis in
      let sub = call new_sub_failed q.new_sub in
      let config = call config_sub_failed q.config_sub in
      let noted_redis = noted-Calls redis_failed connects p.new_redis in
      let noted_sub = noted-Calls new_sub_failed subscribes p.new_sub in
      let noted_config = noted-Calls config_sub_failed configures p.config_sub in
      let calls = connects ∷ subscribes ∷ configures ∷ [] in
      let three =
        then-Calls (connects ∷ []) (subscribes ∷ configures ∷ []) redis (sub >> config) noted_redis
          (then-Calls (subscribes ∷ []) (configures ∷ []) sub config noted_sub noted_config) in
      if-Calls o.no_config [] (if p.is_config_worker then calls else []) (pure tt)
        (if p.is_config_worker then redis >> (sub >> config) else pure tt) pure-Calls
        (if-Calls p.is_config_worker calls [] (redis >> (sub >> config)) (pure tt) three pure-Calls)

  write_stats-Calls :
      (o : Options) (p : Program S) → Calls (stats_calls o p) (write_stats o (logged p))
  unfolding write_stats
  write_stats-Calls o p =
      let q = logged p in
      let writer = call new_writer_failed q.new_writer in
      let stats = call stats_writer_failed q.stats_writer in
      let noted_writer = noted-Calls new_writer_failed opens p.new_writer in
      let noted_stats = noted-Calls stats_writer_failed reports p.stats_writer in
      let two = then-Calls (opens ∷ []) (reports ∷ []) writer stats noted_writer noted_stats in
      if-Calls o.no_stats [] (if p.is_stats_worker then opens ∷ reports ∷ [] else []) (pure tt)
        (if p.is_stats_worker then writer >> stats else pure tt) pure-Calls
        (if-Calls p.is_stats_worker (opens ∷ reports ∷ []) [] (writer >> stats) (pure tt) two
          pure-Calls)

  stop_on_signal-Calls : (p : Program S) → Calls (stop_calls p) (stop_on_signal (logged p))
  unfolding stop_on_signal
  stop_on_signal-Calls p s log =
      elim (p.is_stop_worker)
        as (λ b. Called log (if b then stops ∷ [] else []) (
          if b
          then (done tt, ((p.stopping s).1, log ++ (stops, true) ∷ []))
          else (done tt, (s, log)))) [ true ↦ refl | false ↦ sym (append-nil log) ]

  -- The calls of `Main` come in their order, and each once: the worker is created, it gets its
  -- configuration and its statistics, if it wants them and options for them are there, the goroutine for
  -- signals is started for a worker that can be stopped, and the worker runs. If Main ends without an
  -- error, all of them were made and none of them was answered with an error. If it ends with an error,
  -- the calls that were made are the first ones, and just the last of them was answered with an error.
  pub main_calls :
      (o : Options) (p : Program S) (s : S)
      → Called []
          (creates ∷ (config_calls o p ++ (stats_calls o p ++ (stop_calls p ++ runs ∷ []))))
          (main o (logged p) (s, []))
  unfolding main
  main_calls o p s =
      let q = logged p in
      let run = call run_failed q.run in
      let last = stop_calls p ++ runs ∷ [] in
      let stopped =
        then-Calls (stop_calls p) (runs ∷ []) (stop_on_signal q) run (stop_on_signal-Calls p)
          (noted-Calls run_failed runs p.run) in
      let reported =
        then-Calls (stats_calls o p) last (write_stats o q) (stop_on_signal q >> run)
          (write_stats-Calls o p) stopped in
      let configured =
        then-Calls (config_calls o p) (stats_calls o p ++ last) (configure o q)
          (write_stats o q >> (stop_on_signal q >> run)) (configure-Calls o p) reported in
      then-Calls (creates ∷ []) (config_calls o p ++ (stats_calls o p ++ last))
        (call worker_failed q.worker)
        (configure o q >> (write_stats o q >> (stop_on_signal q >> run)))
        (noted-Calls worker_failed creates p.worker) configured s []
