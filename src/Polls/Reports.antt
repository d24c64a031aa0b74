-- ===== src/Polls/Reports.antt =====
-- The queries that the workers report.
use close.Prelude.{Bool, List, Option, none, refl, some, true, ℕ, ◌+◌, ◌==◌, ◌≡◌}
use close.Polls.{Event, Running}
use close.Polls.Conservation.{run-waiting, tally, tally_ticks, waiting}
use close.Polls.Dns as Dns
use close.Polls.Dns.{DnsQuery, DnsWorker, exchanged, generate_query, stats_writer}
use close.Polls.Http as Http
use close.Polls.Http.{HttpWorker, RequestStats, new_request, responded}

abbrev pub started_at : ℕ → DnsQuery → Bool
started_at t q = q.start == t

exchanged-start :
    (t : ℕ) (a : Option (ℕ × ℕ)) (q : DnsQuery) → started_at t (exchanged a q) ≡ started_at t q
unfolding exchanged
exchanged-start t none q = refl
exchanged-start t (some (count, rtt)) q = refl

-- A name server worker with statistics, in whatever order answers arrive and results are received: the
-- queries of a time that were reported, and those of that time that still wait for an answer or to be
-- received, are together as many as waited at first and as there were ticks of that time. None is lost
-- and none is reported twice.
pub dns_reports_each :
    (w : DnsWorker) (s : Running DnsQuery (Option (ℕ × ℕ)))
    (es : List (Event DnsQuery (Option (ℕ × ℕ)))) (t : ℕ)
    → tally (started_at t) (Dns.run (stats_writer w) s es).1
        + waiting (started_at t) (Dns.run (stats_writer w) s es).0
      ≡ waiting (started_at t) s + tally_ticks (started_at t) (generate_query w) es
unfolding Dns.run stats_writer generate_query
dns_reports_each w s es t =
    run-waiting (generate_query w) exchanged (started_at t) (exchanged-start t) s es

abbrev requested_at : ℕ → RequestStats → Bool
requested_at t r = r.start == t

responded-start :
    (t : ℕ) (a : Option ℕ) (r : RequestStats) → requested_at t (responded a r) ≡ requested_at t r
unfolding responded
responded-start t none r = refl
responded-start t (some now) r = refl

-- The same of a worker that requests a URL.
http_reports_each :
    (w : HttpWorker) (s : Running RequestStats (Option ℕ))
    (es : List (Event RequestStats (Option ℕ))) (t : ℕ)
    → tally (requested_at t) (Http.run (record w { reports = true }) s es).1
        + waiting (requested_at t) (Http.run (record w { reports = true }) s es).0
      ≡ waiting (requested_at t) s + tally_ticks (requested_at t) (new_request w) es
unfolding Http.run new_request
http_reports_each w s es t =
    run-waiting (new_request w) responded (requested_at t) (responded-start t) s es
