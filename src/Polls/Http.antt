-- ===== src/Polls/Http.antt =====
-- http/worker.go: a worker that requests a URL. URLs of the standard library are a parameter; times are
-- numbers, of a clock that does not run back.
use close.Prelude.{
  Bool, List, Option, Result, String, err, false, if◌then◌else◌, none, ok, some, str_eq, true, ℕ,
  ◌-◌,
}
use close.Polls.{Event, Running, run as run_polls}

pub record HttpConfig : Type 0 where
  pub url : String
  pub interval : ℕ

pub record RequestStats : Type 0 where
  pub url : String
  pub start : ℕ
  pub rtt : ℕ
  pub has_error : Bool

pub record HttpWorker : Type 0 where
  pub config : HttpConfig
  pub url : String
  pub reports : Bool  -- statsChan is not nil

-- `url.URL`
pub record Urls : Type 1 where
  pub Url : Type 0
  pub parse : String → Option Url  -- none for an error
  pub scheme : Url → String
  pub with_scheme : String → Url → Url
  pub text : Url → String

pub data HttpError : Type 0 where
  empty_url invalid_url : HttpError

module _ (l : Urls) where
  -- the text of the URL, of scheme http if it has none
  unfoldable pub url_text : l.Url → String
  url_text u = if str_eq (l.scheme u) "" then l.text (l.with_scheme "http" u) else l.text u

  unfoldable pub parsed : HttpConfig → Option l.Url → Result {0, 0} HttpError HttpWorker
  unfolding url_text
  parsed config none = err invalid_url
  parsed config (some u) = ok (record { config = config; url = url_text u; reports = false })

  -- `Config.Worker`, with `apply`
  unfoldable pub apply : HttpConfig → Result {0, 0} HttpError HttpWorker
  unfolding parsed
  apply config = if str_eq config.url "" then err empty_url else parsed config (l.parse config.url)

-- the request of a tick
unfoldable pub new_request : HttpWorker → ℕ → RequestStats
new_request w tick = record { url = w.url; start = tick; rtt = 0; has_error = false }

-- `request`, on the time when the response is there, none for an error
unfoldable pub responded : Option ℕ → RequestStats → RequestStats
responded none r = record r { has_error = true }
responded (some now) r = record r { rtt = now - r.start }

-- `Errors`
unfoldable pub errors : RequestStats → ℕ
errors r = if r.has_error then 1 else 0

-- `Run`
unfoldable pub run :
    HttpWorker
    → Running RequestStats (Option ℕ)
    → List (Event RequestStats (Option ℕ))
    → Running RequestStats (Option ℕ) × List RequestStats
unfolding new_request responded
run w = run_polls (new_request w) responded w.reports
