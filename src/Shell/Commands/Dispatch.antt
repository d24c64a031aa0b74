-- ===== src/Shell/Commands/Dispatch.antt =====
-- The command that is asked for is the one that runs.
use close.Prelude.{
  Bool-cases, Option, Option-cases, String, [], arith, done, eq_iff, eq_refl, if◌then◌else◌, inl,
  inr, none, refl, some, str_eq, subst, ap, ◌∙◌, ◌≡◌,
}
use close.Shell.Commands.{
  Client, Config, Configs, Generic, Options, ShellConfig, activate, choose, compositional, execute,
  execute_sub, find, generic, load_file, main, make_request, no_configs, parse, parsed, register_at,
  register_in, register_sub, with_config,
}

module _ (client : Client) where
  find-register_in :
      (name asked : String) (config : Config client) (m : Configs client)
      → find client asked (register_in client name config m)
        ≡ (if str_eq name asked then some config else find client asked m)
  unfolding find register_in
  find-register_in name asked config no_configs = refl
  find-register_in name asked config (with_config n c rest) =
      let ih = find-register_in name asked config rest in
      ground (arith, eq_iff n asked, eq_iff n name, eq_iff name asked)

  find-register_in_self :
      (name : String) (config : Config client) (m : Configs client)
      → find client name (register_in client name config m) ≡ some config
  find-register_in_self name config m = rw (find-register_in name name config m, eq_refl name) refl

  -- what runs is what the map has under the name
  execute_sub-find :
      (c : ShellConfig) (name wanted : String) (m : Configs client) {config : Config client}
      (s : client.State)
      → find client wanted m ≡ some config
      → execute_sub client c name wanted m s ≡ execute client c name config s
  unfolding find execute_sub
  execute_sub-find c name wanted no_configs s e = absurd (cc)
  execute_sub-find c name wanted (with_config n config rest) {config = found} s e =
      elim (Bool-cases (str_eq n wanted)) [
        | inl q ↦
            (let p : some config ≡ some found =
                subst (λ b. (if b then some config else find client wanted rest) ≡ some found) q
                  e in
              let p' : config ≡ found = cc in rw q (ap (λ x. execute client c name x s) p'))
        | inr q ↦ rw q (
            execute_sub-find c name wanted rest s
              (subst (λ b. (if b then some config else find client wanted rest) ≡ some found) q e))
      ]

  -- what `parse` leaves of the flags and the file
  abbrev pub settings : (String → Option ShellConfig) → ShellConfig → String → ShellConfig
  settings read config file =
      if str_eq file "" then config else elim (read file) [ none ↦ config | some c ↦ c ]

  load_file_lem :
      (read : String → Option ShellConfig) (o : Options client)
      → load_file client read o ≡ record o { config = settings read o.config o.config_file }
  unfolding load_file
  load_file_lem read o = elim (Bool-cases (str_eq o.config_file "")) [
    | inl e ↦ rw e refl
    | inr e ↦ elim (Option-cases (read o.config_file)) [
      | inl n ↦ rw (e, n) refl
      | inr (c, n) ↦ rw (e, n) refl
    ]
  ]

  activate-found :
      (name sub : String) (o : Options client) {config : Config client}
      → find client name o.commands ≡ some config
      → activate client (some (name, some sub)) o
        ≡ (done tt, record o { cmd = name; cmd_config = some config; sub_cmd = sub })
  unfolding activate choose
  activate-found name sub o e = rw e refl

  parse-found :
      (name sub : String) (o : Options client) (read : String → Option ShellConfig)
      (config : ShellConfig) (file : String) {found : Config client}
      → find client name o.commands ≡ some found
      → parse client read (parsed config file [] (some (name, some sub))) o ≡ (
        done tt,
        record o {
          config = settings read config file;
          config_file = file;
          cmd = name;
          cmd_config = some found;
          sub_cmd = sub;
        },
      )
  unfolding parse
  parse-found name sub o read config file e =
      ap (λ x. activate client (some (name, some sub)) x)
        (load_file_lem read (record o { config = config; config_file = file }))
      ∙ activate-found name sub
          (record o { config = settings read config file; config_file = file }) e

  register_sub-found :
      (cmd sub : String) (g : Config client) (subs : Configs client) (o : Options client)
      → find client cmd o.commands ≡ some (compositional subs)
      → register_sub client cmd sub g o ≡ (
        done tt,
        record o {
          commands =
              register_in client cmd (compositional (register_in client sub g subs)) o.commands;
        },
      )
  unfolding register_sub register_at
  register_sub-found cmd sub g subs o e = rw e refl

  -- A subcommand that is registered under a command with subcommands is the one that runs when the
  -- arguments ask for it, whatever else is registered: its request is made once, for the user and to the
  -- URL of the flags or of the configuration file.
  pub parse_runs_registered :
      (cmd sub : String) (g : Generic client) (subs : Configs client) (o : Options client)
      (read : String → Option ShellConfig) (config : ShellConfig) (file : String) (s : client.State)
      → find client cmd o.commands ≡ some (compositional subs)
      → let (r, o1) = register_sub client cmd sub (generic g) o in
        let (r', o2) = parse client read (parsed config file [] (some (cmd, some sub))) o1 in
        (r ≡ done tt)
        × (r' ≡ done tt)
        × (main client o2 s ≡ make_request client (settings read config file) g s)
  unfolding main execute
  parse_runs_registered cmd sub g subs o read config file s e =
      let subs' = register_in client sub (generic g) subs in
      let registered = register_sub-found cmd sub (generic g) subs o e in
      let o1 = (register_sub client cmd sub (generic g) o).1 in
      let there : find client cmd o1.commands ≡ some (compositional subs') =
        ap (λ x. find client cmd x.1.commands) registered
        ∙ find-register_in_self cmd (compositional subs') o.commands in
      let chosen = parse-found cmd sub o1 read config file there in
      (
        ap (λ x. x.0) registered,
        ap (λ x. x.0) chosen,
        ap (λ x. main client x.1 s) chosen
            ∙ execute_sub-find (settings read config file) sub sub subs' s
                (find-register_in_self sub (generic g) subs),
      )
