-- ===== src/Shell/Examples.antt =====
-- A shell that asks for the configuration of a worker.
use close.Prelude.{
  All, List, String, [], arith, done, insert, lookup, none, refl, some, ◌∷◌, ◌≡◌, ◌⧺◌,
}
use close.Docker.Container.{split_path}
use close.Shell.Commands.{
  Client, Generic, Options, ShellConfig, compositional, find, generic, main, make_request,
  no_configs, parse, parsed, register_sub, with_config,
}
use close.Shell.Commands.Dispatch.{parse_runs_registered, settings}
use close.Shell.Path.{Field, collect_values, parameter, request_path}
use close.Shell.Path.Requests.{All-Plain, Filled, Given, Plain, captures, request_path-captures}

abbrev arguments : List Field
arguments =
    record { positional = "type-instance"; args = ("type", "ping") ∷ ("instance", "1") ∷ [] } ∷ []

plain : Plain (collect_values arguments [])
unfolding collect_values insert
plain = All-Plain (("type", "ping") ∷ ("instance", "1") ∷ []) (ground arith, (ground arith, tt))

filled :
    (let (c, cs) = split_path "/api/config/:type/:instance" in
      All (λ c. Filled (collect_values arguments []) (parameter c)) (c ∷ cs))
unfolding collect_values insert lookup split_path parameter
filled = (tt, (tt, (tt, (("ping", refl), (("1", refl), tt)))))

request_path-captures_example :
    let (c, cs) = split_path "/api/config/:type/:instance" in
    let (d, ds) = split_path (request_path "/api/config/:type/:instance" arguments) in
    Given (collect_values arguments []) (captures (c ∷ cs) (d ∷ ds))
request_path-captures_example =
    request_path-captures "/api/config/:type/:instance" arguments plain filled

-- A client that keeps what is printed, and answers every request with its URL.
abbrev echo : Client
echo = record {
  State = List String;
  Request = String;
  Data = String;
  new_request = λ method url. some (method ⧺ url);
  perform = λ request user s. (some request, s);
  copy = λ body s. body ∷ s;
  print = λ line s. line ∷ s;
  pretty = λ v. v;
  field = λ name v. v;
}

abbrev config_get : Generic echo
config_get = record {
  method = "GET";
  path = "/api/config/:type/:instance";
  res_type = none;
  field_name = "";
  extra = arguments;
}

abbrev flags : ShellConfig
flags = record { url = "http://localhost"; user = record { id = "admin"; password = "" } }

abbrev options : Options echo
options = record {
  config = flags;
  config_file = "";
  commands = with_config "workers" (compositional no_configs) no_configs;
  cmd = "";
  sub_cmd = "";
  cmd_config = none;
}

parse_runs_registered_example :
    let (r, o1) = register_sub echo "workers" "get" (generic config_get) options in
    let (r', o2) =
      parse echo (λ file. none) (parsed flags "" [] (some ("workers", some "get"))) o1 in
    (r ≡ done tt)
    × (r' ≡ done tt)
    × (main echo o2 [] ≡ make_request echo (settings echo (λ file. none) flags "") config_get [])
unfolding find
parse_runs_registered_example =
    parse_runs_registered echo "workers" "get" config_get no_configs options (λ file. none) flags ""
      [] refl
