-- ===== src/Worker/Examples.antt =====
-- A worker with statistics, whose registration fails, and the dummy worker.
use close.Prelude.{Option, [], false, none, some, true, ◌++◌, ◌∷◌}
use close.Worker.Main.{Options, Program, main}
use close.Worker.Main.Order.{
  Called, config_calls, creates, logged, main_calls, runs, stats_calls, stop_calls,
}

abbrev works : Unit {0} → Option (Unit {0}) × Unit {0}
works s = (some tt, s)

abbrev program : Program (Unit {0})
program = record {
  worker = works;
  is_config_worker = true;
  new_redis = works;
  new_sub = works;
  config_sub = λ s. (none, s);
  is_stats_worker = true;
  new_writer = works;
  stats_writer = works;
  is_stop_worker = false;
  stopping = works;
  run = works;
}

abbrev both : Options
both = record { no_config = false; no_stats = false }

main_calls_example :
    Called
      (Unit {0})
      []
      (creates
        ∷ (config_calls (Unit {0}) both program
            ++ (stats_calls (Unit {0}) both program
                ++ (stop_calls (Unit {0}) program ++ runs ∷ []))))
      (main both (logged (Unit {0}) program) (tt, []))
main_calls_example = main_calls (Unit {0}) both program tt
