-- ===== src/Docker/Cache/Repeats.antt =====
-- Asking a cache again.
use close.Prelude.{
  List, Option, Outcome, ap, continue, done, eq_refl, failed, false, if◌then◌else◌, none, panicked,
  refl, some, subst, true, ◌||◌, ◌∷◌, ◌≡◌,
}
use close.Docker.Id.{ContainerId, id_eq}
use close.Docker.Container.{ContainerStatus}
use close.Docker.Daemon.{Daemon}
use close.Docker.Manager as Docker
use close.Docker.Manager.{DockerError, list}
use close.Docker.Cache.{
  Cache, fetch, get_status, managed, query_filter, status_at, unless_cached, warm, was_queried,
}

id_eq_refl : (id : ContainerId) → id_eq id id ≡ true
unfolding id_eq
id_eq_refl id = rw (eq_refl id.class, eq_refl id.type, eq_refl id.instance_name)

module _ (d : Daemon) where
  asked_again :
      (id : ContainerId) (c : Cache d) (o : Option ContainerStatus)
      → status_at id c.statuses ≡ o
      → was_queried (query_filter c.eager id) c.queries ≡ true
      → get_status d id c ≡ (done o, c)
  unfolding get_status unless_cached
  asked_again id c none e q = rw (e, q)
  asked_again id c (some s) e q = rw e

  fetched :
      (id : ContainerId) (c : Cache d) (o : Option ContainerStatus) (c' : Cache d)
      → fetch d id c ≡ (done o, c')
      → get_status d id c' ≡ (done o, c')
  unfolding fetch managed was_queried
  fetched id c o c' h = go (Docker.list d (query_filter c.eager id) c.docker).0 h
    where
      s : d.State
      s = (Docker.list d (query_filter c.eager id) c.docker).1

      go :
          (r : Outcome DockerError (List ContainerStatus))
          → continue r
              (λ found c'.
                let entries = warm found c'.statuses in
                (
                  done (status_at id entries),
                  record c' { queries = query_filter c.eager id ∷ c'.queries; statuses = entries },
                ))
              (record c { docker = s })
            ≡ (done o, c')
          → get_status d id c' ≡ (done o, c')
      go (done found) k =
          let w : Cache d = record c {
            queries = query_filter c.eager id ∷ c.queries;
            statuses = warm found c.statuses;
            docker = s;
          } in
          subst (λ p. get_status d id p.1 ≡ p) k
            (asked_again id w (status_at id w.statuses) refl (
              ap (λ b. b || was_queried (query_filter c.eager id) c.queries)
                (id_eq_refl (query_filter c.eager id))))
      go (failed e) k = absurd (cc)
      go panicked k = absurd (cc)

  -- A cache answers a repeated question as it did before, without another call of the daemon and
  -- without a change of the cache, whether the container is known, known to be absent, or was asked
  -- for with a query.
  pub get_status_repeats :
      (id : ContainerId) (c c' : Cache d) (o : Option ContainerStatus)
      → get_status d id c ≡ (done o, c')
      → get_status d id c' ≡ (done o, c')
  unfolding get_status unless_cached
  get_status_repeats id c c' o h = go (status_at id c.statuses) refl h
    where
      again : Outcome DockerError (Option ContainerStatus) × Cache d → Type 0
      again p = get_status d id p.1 ≡ p

      go :
          (x : Option ContainerStatus)
          → status_at id c.statuses ≡ x
          → unless_cached d id x c ≡ (done o, c')
          → get_status d id c' ≡ (done o, c')
      go (some s) e k = subst again k (rw e)
      go none e k =
          elim (was_queried (query_filter c.eager id) c.queries)
              as (λ t.
                was_queried (query_filter c.eager id) c.queries ≡ t
                → (if t then (done none, c) else fetch d id c) ≡ (done o, c')
                → get_status d id c' ≡ (done o, c')) [
                  | true ↦ (λ q k'. subst again k' (asked_again id c none e q))
                  | false ↦ (λ q k'. fetched id c o c' k')
                ]
            refl k
