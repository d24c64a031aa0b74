-- ===== src/Shell/Commands.antt =====
-- shell/shell.go, shell/config/config.go and shell/command: the commands of the shell, their
-- registration, the choice of one, and the request that it makes. The parser of flags, the HTTP client,
-- JSON decoding and the formatting of what is printed are parameters; logging is left out.
pub mod Dispatch
use close.Prelude.{
  Bool, Exec, List, Option, Outcome, Result, String, [], done, failed, if◌then◌else◌, none, panic,
  panicked, pure, raise, some, str_eq, ◌>>=◌, ◌>>◌, ◌∷◌, ◌⧺◌,
}
use close.Shell.Path.{Field, request_path}

pub record User : Type 0 where
  pub id : String
  pub password : String

-- `config.Config` of the shell
pub record ShellConfig : Type 0 where
  pub url : String
  pub user : User

-- The calls of the HTTP client, the output, and what values of the response types are.
pub record Client : Type 1 where
  pub State : Type 0
  pub Request : Type 0
  pub Data : Type 0  -- values of any of the response types
  pub new_request : String → String → Option Request  -- of a method and a URL
  pub perform : Request → User → State → Option String × State  -- the body of a response
  pub copy : String → State → State  -- a body to the output
  pub print : String → State → State  -- a line of the output's logger
  pub pretty : Data → String
  pub field : String → Data → Data  -- FieldByName

pub data ShellError : Type 0 where
  bad_request request_failed decode_failed : ShellError

-- how `Parse` ends the program
pub data Exit : Type 0 where
  parse_failed extra_arguments no_command invalid_command : Exit

module _ (client : Client) where
  -- `GenericConfigImpl`; a response type is the decoding of JSON into it, and `extra` has the values that
  -- the parser of flags gives to the command's own fields
  pub record Generic : Type 0 where
    pub method : String
    pub path : String
    pub res_type : Option (String → Option client.Data)
    pub field_name : String
    pub extra : List Field

  mutual
    -- `CommandConfig`: `GenericConfigImpl` or `GenericCompositionalConfigImpl`
    pub data Config : Type 0 where
      generic : Generic → Config
      compositional : Configs → Config

    -- a map from names to these
    pub data Configs : Type 0 where
      no_configs : Configs
      with_config : String → Config → Configs → Configs

  unfoldable pub find : String → Configs → Option Config
  find name no_configs = none
  find name (with_config n c rest) = if str_eq n name then some c else find name rest

  -- `GenericCompositionalConfigImpl.Register`, and the assignment of `Options.Register`
  unfoldable pub register_in : String → Config → Configs → Configs
  register_in name config no_configs = with_config name config no_configs
  register_in name config (with_config n c rest) =
      if str_eq n name
      then with_config name config rest
      else with_config n c (register_in name config rest)

  pub record Options : Type 0 where
    pub config : ShellConfig
    pub config_file : String
    pub commands : Configs
    pub cmd : String
    pub sub_cmd : String
    pub cmd_config : Option Config

  -- `Register`
  unfoldable pub register : String → Config → Options → Options
  unfolding register_in
  register name config o = record o { commands = register_in name config o.commands }

  -- the assertion of `RegisterSub`, and the command with its new subcommand
  unfoldable pub register_at :
      String → String → Config → Option Config → Exec Options Exit (Unit {0})
  unfolding register_in
  register_at cmd subcmd config none o = (done tt, o)
  register_at cmd subcmd config (some (generic g)) o = (panicked, o)
  register_at cmd subcmd config (some (compositional subs)) o = (
    done tt,
    record o {
      commands = register_in cmd (compositional (register_in subcmd config subs)) o.commands;
    },
  )

  -- `RegisterSub`; the command is a pointer, so the map has its new subcommand
  unfoldable pub register_sub : String → String → Config → Exec Options Exit (Unit {0})
  unfolding register_at find
  register_sub cmd subcmd config o = register_at cmd subcmd config (find cmd o.commands) o

  -- What the parser of flags makes of the arguments: a duplicate command, a usage error, or the fields
  -- that flags set, the arguments left over, and the command with its subcommand.
  pub data Parsed : Type 0 where
    duplicate : Parsed
    usage : Parsed
    parsed : ShellConfig → String → List String → Option (String × Option String) → Parsed

  -- the configuration file, whose errors are only logged
  unfoldable pub load_file : (String → Option ShellConfig) → Options → Options
  load_file read o =
      if str_eq o.config_file ""
      then o
      else elim (read o.config_file) [ none ↦ o | some c ↦ record o { config = c } ]

  -- the command that is active, and its subcommand
  unfoldable pub choose : Option Config → String → Option String → Exec Options Exit (Unit {0})
  choose none name sub o = (failed invalid_command, o)
  choose (some c) name none o = (done tt, record o { cmd = name; cmd_config = some c })
  choose (some c) name (some sub) o =
      (done tt, record o { cmd = name; cmd_config = some c; sub_cmd = sub })

  unfoldable pub activate : Option (String × Option String) → Exec Options Exit (Unit {0})
  unfolding choose find
  activate none o = (failed no_command, o)
  activate (some (name, sub)) o = choose (find name o.commands) name sub o

  -- `Parse`
  unfoldable pub parse : (String → Option ShellConfig) → Parsed → Exec Options Exit (Unit {0})
  unfolding load_file activate
  parse read duplicate o = (panicked, o)
  parse read usage o = (failed parse_failed, o)
  parse read (parsed config file (arg ∷ args) active) o =
      (failed extra_arguments, record o { config = config; config_file = file })
  parse read (parsed config file [] active) o =
      activate active (load_file read (record o { config = config; config_file = file }))

  -- `ParseJSON`
  unfoldable pub parse_json : Generic → String → Exec client.State ShellError (Unit {0})
  parse_json g body s = elim (g.res_type) [
    | none ↦ (done tt, client.copy body s)
    | some decode ↦ elim (decode body) [
      | none ↦ (failed decode_failed, s)
      | some v ↦ (
        done tt,
        client.print
            (client.pretty (if str_eq g.field_name "" then v else client.field g.field_name v))
            (client.print "" s),
      )
    ]
  ]

  unfoldable pub performed :
      Generic → Option String × client.State → Outcome ShellError (Unit {0}) × client.State
  unfolding parse_json
  performed g (none, s) = (failed request_failed, s)
  performed g (some body, s) = parse_json g body s

  -- `MakeHttpRequest`
  unfoldable pub make_request : ShellConfig → Generic → Exec client.State ShellError (Unit {0})
  unfolding performed request_path
  make_request c g s = elim (client.new_request g.method (c.url ⧺ request_path g.path g.extra)) [
    | none ↦ (failed bad_request, s)
    | some request ↦ performed g (client.perform request c.user s)
  ]

  unfoldable mutual
    unfolding make_request

    -- `Command` with `Execute`: a command with subcommands goes on with that of the options' name
    pub execute : ShellConfig → String → Config → Exec client.State ShellError (Unit {0})
    execute c name (generic g) = make_request c g
    execute c name (compositional subs) = execute_sub c name name subs

    -- `SubCommand` with `Execute`: the command of a name that is not there is nil
    pub execute_sub :
        ShellConfig → String → String → Configs → Exec client.State ShellError (Unit {0})
    execute_sub c name wanted no_configs = panic
    execute_sub c name wanted (with_config n config rest) =
        if str_eq n wanted then execute c name config else execute_sub c name wanted rest

  -- `Main`, whose errors are only logged
  unfoldable pub main : Options → Exec client.State ShellError (Unit {0})
  unfolding execute
  main o = elim (o.cmd_config) [ none ↦ panic | some config ↦ execute o.config o.sub_cmd config ]
