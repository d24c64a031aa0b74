-- ===== src/Control/Web/Examples.antt =====
-- The request to delete everything, to a manager with a client and a worker.
use close.Prelude.{[], done, ◌∷◌, ◌≡◌, ◌⊎◌}
use close.Config.Sub.Examples.{store}
use close.Control.Manager.Examples.{clients-IsMap, manager, workers-IsMap}
use close.Control.Web.{App, delete_all, writes_error, writes_header}
use close.Control.Web.Deletion.{delete_all_lem}
use close.Docker.Manager.Examples.{empty_daemon}
use close.Stats.Examples.{row_influx}

abbrev app : App empty_daemon store row_influx
app = record { manager = manager; redis = []; influx = 0 }

delete_all_lem_example :
    (s' : App empty_daemon store row_influx) × ((delete_all empty_daemon store row_influx app
        ≡ (done (writes_error 500 ∷ []), s'))
      ⊎ ((delete_all empty_daemon store row_influx app ≡ (done (writes_header 200 ∷ []), s'))
          × ((s'.manager.clients ≡ []) × (s'.manager.workers ≡ []))))
delete_all_lem_example =
    delete_all_lem empty_daemon store row_influx app clients-IsMap workers-IsMap
