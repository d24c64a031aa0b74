-- ===== src/Control/Manager/Lifecycle.antt =====
-- Stopping and cleaning the whole of a configuration.
use close.Prelude.{
  Assoc, List, Option, String, [], ap, bind_after, done, lookup, none, pure, refl, some, ◌++◌,
  ◌>>=◌, ◌>>◌, ◌∙◌, ◌≡◌,
}
use close.Control.Types.{Client, Error, Manager, Worker}
use close.Control.Entries.{IsMap, changed, lookup-empty, passing}
use close.Control.Manager.{clean, stop}
use close.Control.Clients.{client_clean, client_down, mark_client}
use close.Control.Workers.{mark_worker, worker_clean, worker_down}
use close.Control.Clients.Lifecycle.{client_clean_drops, client_down_marks, is_kept}
use close.Control.Workers.Lifecycle.{
  worker_clean_drops, worker_down_marks, is_kept as is_kept_worker,
}
use close.Docker.Daemon.{Daemon}

marked_client : (o : Option Client) → passing is_kept (changed mark_client o) ≡ none
unfolding passing changed
marked_client none = refl
marked_client (some c) = refl

marked_worker : (o : Option Worker) → passing is_kept_worker (changed mark_worker o) ≡ none
unfolding passing changed
marked_worker none = refl
marked_worker (some c) = refl

module _ (d : Daemon) where
  -- `Stop` runs to its end.
  pub stop_marks :
      (w : Manager d)
      → IsMap w.clients
      → IsMap w.workers
      → (es : List Error) × (s : d.State) × (mc : Assoc Client) × (mw : Assoc Worker) × (stop d w
          ≡ (done es, record w { docker = s; clients = mc; workers = mw }))
        × (IsMap mc × IsMap mw)
        × (((k : String) → lookup k mc ≡ changed mark_client (lookup k w.clients))
            × ((k : String) → lookup k mw ≡ changed mark_worker (lookup k w.workers)))
  unfolding stop
  stop_marks w hc hw =
      let (ew, s1, mw, e1, iw, lw) = worker_down_marks d w hw in
      let t = record w { docker = s1; workers = mw } in
      let (ec, s2, mc, e2, ic, lc) = client_down_marks d t hc in
      (
        ew ++ ec,
        s2,
        mc,
        mw,
        bind_after (worker_down d none) (λ es. client_down d none >>= (λ more. pure (es ++ more))) w
              e1
            ∙ bind_after (client_down d none) (λ more. pure (ew ++ more)) t e2,
        (ic, iw),
        (lc, lw),
      )

  -- If no two clients and no two workers have the same key: after `Stop` and then `Clean` no client and
  -- no worker is left, whatever the calls of the daemon answer, and neither operation panics.
  pub stop_clean_empties :
      (w : Manager d)
      → IsMap w.clients
      → IsMap w.workers
      → (es : List Error) × (s : d.State) × ((stop d >> clean d) w
          ≡ (done es, record w { docker = s; clients = []; workers = [] }))
  unfolding clean
  stop_clean_empties w hc hw =
      let (es, s, mc, mw, e, (ic, iw), (lc, lw)) = stop_marks w hc hw in
      let t = record w { docker = s; clients = mc; workers = mw } in
      let (ew, s1, nw, e1, kw) = worker_clean_drops d t iw in
      let u = record t { docker = s1; workers = nw } in
      let (ec, s2, nc, e2, kc) = client_clean_drops d u ic in
      let nil-workers : nw ≡ [] =
        lookup-empty nw
          (λ k. kw k ∙ ap (passing is_kept_worker) (lw k) ∙ marked_worker (lookup k w.workers)) in
      let nil-clients : nc ≡ [] =
        lookup-empty nc
          (λ k. kc k ∙ ap (passing is_kept) (lc k) ∙ marked_client (lookup k w.clients)) in
      (
        ew ++ ec,
        s2,
        bind_after (stop d) (λ _. clean d) w e
            ∙ bind_after (worker_clean d) (λ a. client_clean d >>= (λ more. pure (a ++ more))) t e1
            ∙ bind_after (client_clean d) (λ more. pure (ew ++ more)) u e2
            ∙ ap (λ m. (done (ew ++ ec), record w { docker = s2; clients = nc; workers = m }))
                nil-workers
            ∙ ap (λ m. (done (ew ++ ec), record w { docker = s2; clients = m; workers = [] }))
                nil-clients,
      )
