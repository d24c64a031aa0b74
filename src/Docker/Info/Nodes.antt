-- ===== src/Docker/Info/Nodes.antt =====
-- The nodes that are read from the text of a swarm.
use mathlib.Core.List.{map-append}
use close.Prelude.{
  Bool, List, Option, Outcome, String, [], ap, append-nil, append_assoc, continue, done, failed,
  false, if◌then◌else◌, map, none, panicked, refl, some, str_eq, subst, sym, true, ℕ, ◌++◌, ◌∙◌,
  ◌∷◌, ◌≡◌, ◌≢◌,
}
use close.Docker.Info.{
  InfoError, Line, NodeInfo, Scans, Swarm, attr_line, change_last, change_node, decode_line,
  decode_lines, decode_swarm_status, invalid_count, line_of, new_node, node_attr, node_line,
  top_attr, top_line,
}

-- no attribute of a node is before the first node
abbrev pub Orderly : List Line → Type 0
Orderly [] = Unit {0}
Orderly (top_line name value ∷ ls) = Orderly ls
Orderly (attr_line attr value ∷ ls) = ⊥
Orderly (node_line name addr ∷ ls) = Unit {0}

abbrev node_of : Line → List (String × String)
node_of (top_line name value) = []
node_of (attr_line attr value) = []
node_of (node_line name addr) = (name, addr) ∷ []

abbrev pub node_lines : List Line → List (String × String)
node_lines [] = []
node_lines (l ∷ ls) = node_of l ++ node_lines ls

-- as `Orderly`, behind the nodes that were read before
abbrev Fits : List (String × String) → List Line → Type 0
Fits [] ls = Orderly ls
Fits (n ∷ ns) ls = Unit {0}

Fits-next :
    (ns : List (String × String)) (l : Line) (ls : List Line)
    → Fits ns (l ∷ ls)
    → Fits (ns ++ node_of l) ls
Fits-next [] (top_line name value) ls h = h
Fits-next [] (attr_line attr value) ls h = absurd h
Fits-next [] (node_line name addr) ls h = tt
Fits-next (n ∷ ns) l ls h = tt

module _ (t : Scans) where
  abbrev pub identity : NodeInfo t → String × String
  identity n = (n.name, n.addr)

  abbrev Keeps : Option (NodeInfo t → NodeInfo t) → Type 0
  Keeps none = Unit {0}
  Keeps (some f) = (n : NodeInfo t) → identity (f n) ≡ identity n

  Keeps-if :
      (b : Bool) (x y : Option (NodeInfo t → NodeInfo t))
      → Keeps x
      → Keeps y
      → Keeps (if b then x else y)
  Keeps-if true x y h k = h
  Keeps-if false x y h k = k

  node_attr-Keeps : (attr value : String) → Keeps (node_attr t attr value)
  unfolding node_attr
  node_attr-Keeps attr value =
      Keeps-if (str_eq attr "Status") _ _ (λ n. refl)
        (Keeps-if (str_eq attr "Containers") _ _ (λ n. refl)
          (Keeps-if (str_eq attr "Reserved CPUs") _ _ (λ n. refl)
            (Keeps-if (str_eq attr "Reserved Memory") _ _ (λ n. refl)
              (Keeps-if (str_eq attr "Labels") _ _ (λ n. refl)
                (Keeps-if (str_eq attr "Error") _ _ (λ n. refl)
                  (Keeps-if (str_eq attr "UpdatedAt") _ none (go (t.parse_time value)) tt))))))
    where
      go :
          (x : Option ℕ)
          → Keeps (elim x as (λ _. Option (NodeInfo t → NodeInfo t)) [
            | none ↦ none
            | some time ↦ some (λ node. record node { swarm_updated = some time })
          ])
      go none = tt
      go (some time) = λ n. refl

  -- the same nodes, or none for no nodes
  abbrev Renewed : List (NodeInfo t) → Option (List (NodeInfo t)) → Type 0
  Renewed ns none = ns ≡ []
  Renewed ns (some ms) = map identity ms ≡ map identity ns

  change_last-Renewed :
      (f : NodeInfo t → NodeInfo t) (ns : List (NodeInfo t))
      → ((n : NodeInfo t) → identity (f n) ≡ identity n)
      → Renewed ns (change_last t f ns)
  unfolding change_last
  change_last-Renewed f [] h = refl
  change_last-Renewed f (n ∷ []) h = ap (λ x. x ∷ []) (h n)
  change_last-Renewed f (n ∷ m ∷ ns) h =
      go (change_last t f (m ∷ ns)) (change_last-Renewed f (m ∷ ns) h)
    where
      go :
          (x : Option (List (NodeInfo t)))
          → Renewed (m ∷ ns) x
          → Renewed (n ∷ m ∷ ns) (elim x as (λ _. Option (List (NodeInfo t))) [
            | none ↦ none
            | some rest ↦ some (n ∷ rest)
          ])
      go none e = absurd (cc)
      go (some rest) e = ap (λ x. identity n ∷ x) e

  -- Lines give the nodes with their names and addresses, unless they end with an error; they do not panic.
  abbrev pub Gives : List (String × String) → Outcome InfoError (Unit {0}) × Swarm t → Type 0
  Gives ns (done u, s) = map identity s.nodes ≡ ns
  Gives ns (failed e, s) = Unit {0}
  Gives ns (panicked, s) = ⊥

  change_node-Gives :
      (x : Option (NodeInfo t → NodeInfo t)) (s : Swarm t)
      → Keeps x
      → s.nodes ≢ []
      → Gives (map identity s.nodes) (change_node t x s)
  unfolding change_node
  change_node-Gives none s h n = refl
  change_node-Gives (some f) s h n = go (change_last t f s.nodes) (change_last-Renewed f s.nodes h)
    where
      go :
          (x : Option (List (NodeInfo t)))
          → Renewed s.nodes x
          → Gives (map identity s.nodes) (elim x as (λ _. Outcome InfoError (Unit {0}) × Swarm t) [
            | none ↦ (panicked, s)
            | some nodes ↦ (done tt, record s { nodes = nodes })
          ])
      go none e = n e
      go (some nodes) e = e

  Gives-if :
      (ns : List (String × String)) (b : Bool) (x y : Outcome InfoError (Unit {0}) × Swarm t)
      → Gives ns x
      → Gives ns y
      → Gives ns (if b then x else y)
  Gives-if ns true x y h k = h
  Gives-if ns false x y h k = k

  top_attr-Gives :
      (attr value : String) (s : Swarm t) → Gives (map identity s.nodes) (top_attr t attr value s)
  unfolding top_attr
  top_attr-Gives attr value s = Gives-if _ (str_eq attr "Role") _ _ refl (
      Gives-if _ (str_eq attr "Strategy") _ _ refl
        (Gives-if _ (str_eq attr "Nodes") _ _ (go (t.scan_int value)) refl))
    where
      go :
          (x : Option t.Int)
          → Gives (map identity s.nodes) (elim x as (λ _. Outcome InfoError (Unit {0}) × Swarm t) [
            | none ↦ (failed (invalid_count value), s)
            | some n ↦ (done tt, record s { swarm = record (s.swarm) { node_count = n } })
          ])
      go none = tt
      go (some n) = refl

  decode_line-Gives :
      (l : Line) (ls : List Line) (s : Swarm t)
      → Fits (map identity s.nodes) (l ∷ ls)
      → Gives (map identity s.nodes ++ node_of l) (decode_line t l s)
  unfolding decode_line new_node
  decode_line-Gives (top_line attr value) ls s h =
      rw (append-nil (map identity s.nodes)) (top_attr-Gives attr value s)
  decode_line-Gives (attr_line attr value) ls s h = rw (append-nil (map identity s.nodes)) (
      change_node-Gives (node_attr t attr value) s (node_attr-Keeps attr value)
        (λ e. subst (λ ns. Fits (map identity ns) (attr_line attr value ∷ ls)) e h))
  decode_line-Gives (node_line name addr) ls s h =
      map-append identity s.nodes (new_node t name addr ∷ [])

  decode_lines-Gives :
      (ls : List (String × String)) (s : Swarm t)
      → Fits (map identity s.nodes) (map (line_of t.trim_space) ls)
      → Gives
          (map identity s.nodes ++ node_lines (map (line_of t.trim_space) ls))
          (decode_lines t ls s)
  unfolding decode_lines
  decode_lines-Gives [] s h = sym (append-nil (map identity s.nodes))
  decode_lines-Gives (l ∷ ls) s h =
      let l' = line_of t.trim_space l in
      let (o, s1) = decode_line t l' s in
      go o s1 (decode_line-Gives l' (map (line_of t.trim_space) ls) s h) (decode_lines-Gives ls)
    where
      more : List Line
      more = map (line_of t.trim_space) ls

      go :
          (o : Outcome InfoError (Unit {0})) (s1 : Swarm t)
          → Gives (map identity s.nodes ++ node_of (line_of t.trim_space l)) (o, s1)
          → ((s : Swarm t)
              → Fits (map identity s.nodes) more
              → Gives (map identity s.nodes ++ node_lines more) (decode_lines t ls s))
          → Gives
              (map identity s.nodes ++ node_lines (map (line_of t.trim_space) (l ∷ ls)))
              (continue o (λ _. decode_lines t ls) s1)
      go (done u) s1 e ih =
          let names = map identity s.nodes in
          let l' = line_of t.trim_space l in
          subst (λ ns. Gives ns (decode_lines t ls s1))
            (ap (λ ns. ns ++ node_lines more) e ∙ append_assoc names (node_of l') (node_lines more))
            (ih s1 (subst (λ ns. Fits ns more) (sym e) (Fits-next names l' more h)))
      go (failed e) s1 h ih = tt
      go panicked s1 h ih = h

  -- A text in which no attribute of a node is before the first node is read without a panic: unless the
  -- number of nodes is no number, it gives a node for each line of a node, in their order, with the
  -- name and the address of the line.
  pub decode_swarm_status_lem :
      (ls : List (String × String))
      → Orderly (map (line_of t.trim_space) ls)
      → Gives (node_lines (map (line_of t.trim_space) ls)) (decode_swarm_status t ls)
  unfolding decode_swarm_status
  decode_swarm_status_lem ls h = decode_lines-Gives ls _ h
