-- ===== src/Control/Web/Deletion.antt =====
-- The request that stops and removes everything.
use close.Prelude.{
  Exec, List, Result, [], ap, bind_after, done, inl, inr, ok, refl, sym, ◌∙◌, ◌∷◌, ◌≡◌, ◌⊎◌,
}
use close.Control.Entries.{IsMap}
use close.Control.Manager.{clean, stop}
use close.Control.Manager.Lifecycle.{stop_clean_empties, stop_marks}
use close.Control.Web.{
  App, Handler, delete_all, no_errors, serve, with_manager, write, writes_error, writes_header,
}
use close.Config.Sub.{Redis}
use close.Docker.Daemon.{Daemon}
use close.Stats.Influx.{Influx}
use close.Control.Types.{Error, Manager}

module _ (d : Daemon) (r : Redis) (i : Influx) where
  served :
      {E A : Type 0} (m : Exec (Manager d) E A) (f : Result E A → Handler d r i) (s : App d r i)
      {a : A} {t : Manager d}
      → m s.manager ≡ (done a, t)
      → with_manager d r i m f s ≡ f (ok a) (record s { manager = t })
  unfolding with_manager serve
  served m f s e = ap (λ x. serve d r i f x.0 (record s { manager = x.1 })) e

  -- The request to delete everything, with no two clients and no two workers of the same key: it writes
  -- one response, either 500, or 200 and then no client and no worker is left.
  pub delete_all_lem :
      (s : App d r i)
      → IsMap s.manager.clients
      → IsMap s.manager.workers
      → (s' : App d r i) × ((delete_all d r i s ≡ (done (writes_error 500 ∷ []), s'))
          ⊎ ((delete_all d r i s ≡ (done (writes_header 200 ∷ []), s'))
              × ((s'.manager.clients ≡ []) × (s'.manager.workers ≡ []))))
  unfolding delete_all no_errors
  delete_all_lem s hc hw =
      let (es, s1, mc, mw, e, maps, looks) = stop_marks d s.manager hc hw in
      let (es2, s2, e2) = stop_clean_empties d s.manager hc hw in
      let t = record (s.manager) { docker = s1; clients = mc; workers = mw } in
      go es es2 t (record (s.manager) { docker = s2; clients = []; workers = [] }) refl refl
        (served (stop d) (no_errors d r i second) s e)
        (served (clean d) ends (record s { manager = t })
          (sym (bind_after (stop d) (λ _. clean d) s.manager e) ∙ e2))
    where
      ends : Result {0, 0} Error (List Error) → Handler d r i
      ends = no_errors d r i (write d r i (writes_header 200))

      second : Handler d r i
      second = with_manager d r i (clean d) ends

      go :
          (es es2 : List Error) (t u : Manager d)
          → u.clients ≡ []
          → u.workers ≡ []
          → delete_all d r i s
            ≡ no_errors d r i {E = Error} second (ok es) (record s { manager = t })
          → second (record s { manager = t }) ≡ ends (ok es2) (record s { manager = u })
          → (s' : App d r i) × ((delete_all d r i s ≡ (done (writes_error 500 ∷ []), s'))
              ⊎ ((delete_all d r i s ≡ (done (writes_header 200 ∷ []), s'))
                  × ((s'.manager.clients ≡ []) × (s'.manager.workers ≡ []))))
      go (e ∷ es) es2 t u hc hw p q = (record s { manager = t }, inl p)
      go [] (e ∷ es2) t u hc hw p q = (record s { manager = u }, inl (p ∙ q))
      go [] [] t u hc hw p q = (record s { manager = u }, inr (p ∙ q, (hc, hw)))
