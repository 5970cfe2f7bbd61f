-- ===== src/Cluster/Examples.antt =====
-- A codec for lists of texts, concrete containers, and the theorems about cluster/ applied to them.
use cattle.Prelude.{
  sym, zero, suc, ◌≡◌, refl, ap, ◌∙◌, List, [], ◌∷◌, ◌++◌, none, some, Text, text, text_eq, true,
  false, not, pos, map, append_assoc, append-nil, keep, take,
}
use cattle.Cluster.Data.{Labels, Container, ContainerConfig, HostConfig}
use cattle.Cluster.Config.{
  Json, extract_exprs, add_expr, remove_expr, build_config, gathered, constraint,
}
use cattle.Cluster.Config.Stored.{ReadsBack, add-remove_expr}
use cattle.Cluster.Config.Build.{build_config_exprs, said, moved}
use cattle.Cluster.Containers.{get, has_id}
use cattle.Cluster.Containers.Found.{Answers, get-Answers}

-- Each byte plus one, and a zero behind each text.
abbrev encode : List Text → Text
encode [] = []
encode (t ∷ ts) = map suc t ++ 0 ∷ encode ts

abbrev decode : Text → Text → List Text
decode front [] = []
decode front (zero ∷ s) = front ∷ decode [] s
decode front (suc c ∷ s) = decode (front ++ c ∷ []) s

decode-text : (front t s : Text) → decode front (map suc t ++ 0 ∷ s) ≡ (front ++ t) ∷ decode [] s
decode-text front [] s = ap (λ l. l ∷ decode [] s) (sym (append-nil front))
decode-text front (c ∷ t) s =
    decode-text (front ++ c ∷ []) t s ∙ ap (λ l. l ∷ decode [] s) (append_assoc front (c ∷ []) t)

decode-encode : (ts : List Text) → decode [] (encode ts) ≡ ts
decode-encode [] = refl
decode-encode (t ∷ ts) = decode-text [] t (encode ts) ∙ ap (λ l. t ∷ l) (decode-encode ts)

abbrev pub codec : Json
codec = record { unmarshal = decode []; marshal = encode }

pub codec-ReadsBack : ReadsBack codec
codec-ReadsBack exprs = decode-encode exprs

abbrev pub no_host : HostConfig
no_host = record {
  network_mode = [];
  volumes_from = [];
  links = [];
  memory = pos 0;
  cpu_shares = pos 0;
  port_bindings = [];
}

abbrev pub config_with : List Text → Labels → ContainerConfig
config_with envs labels = record {
  env = envs;
  config_labels = labels;
  image = text "nginx";
  exposed_ports = [];
  host_config = no_host;
}

abbrev pub container_named : Text → Text → Container
container_named id name = record {
  ident = id;
  names = name ∷ [];
  state = text "running";
  labels = [];
  config = config_with [] [];
  info = record {
    info_name = [];
    has_config = false;
    info_state = none;
    info_networks = none;
    info_host_config = none;
    info_exposed_ports = [];
    network_ports = none;
  };
  engine = record {
    engine_id = text "e";
    engine_name = text "node1";
    engine_addr = [];
    engine_labels = [];
  };
}

add-remove_expr_example :
    (extract_exprs codec
        (text "affinities")
        (add_expr codec (text "affinities") (text "image==nginx") (config_with [] []))
      ≡ extract_exprs codec (text "affinities") (config_with [] []) ++ text "image==nginx" ∷ [])
    × (extract_exprs codec (text "affinities") (
          remove_expr codec
            (text "affinities")
            (text "image==nginx")
            (add_expr codec (text "affinities") (text "image==nginx") (config_with [] [])))
        ≡ keep
            (λ a. not (text_eq a (text "image==nginx")))
            (extract_exprs codec (text "affinities") (config_with [] [])))
add-remove_expr_example =
    add-remove_expr codec codec-ReadsBack (text "affinities") (text "image==nginx")
      (config_with [] [])

abbrev constrained : ContainerConfig
constrained = config_with (text "constraint:node==node1" ∷ text "A=b" ∷ []) []

build_config_exprs_example :
    (extract_exprs codec (text "affinities") (build_config codec constrained)
      ≡ extract_exprs codec (text "affinities") constrained
        ++ said (text "affinity") constrained.env)
    × (extract_exprs codec (text "constraints") (build_config codec constrained)
        ≡ extract_exprs codec (text "constraints") constrained
          ++ said (text "constraint") constrained.env)
    × (extract_exprs codec (text "reschedule-policies") (build_config codec constrained)
        ≡ extract_exprs codec (text "reschedule-policies") constrained
          ++ said (text "reschedule") constrained.env)
    × (extract_exprs codec (text "whitelists") (build_config codec constrained)
        ≡ extract_exprs codec (text "whitelists") constrained
          ++ said (text "whitelist") constrained.env)
    × ((build_config codec constrained).env ≡ keep (λ e. not (moved e)) constrained.env)
build_config_exprs_example = build_config_exprs codec codec-ReadsBack constrained

said_test : said (text "constraint") constrained.env ≡ text "node==node1" ∷ []
unfolding said
said_test = refl

moved_test : keep (λ e. not (moved e)) constrained.env ≡ text "A=b" ∷ []
unfolding keep moved
moved_test = refl

gathered_example :
    gathered codec (text "constraints") constraint constrained ≡ text "node==node1" ∷ []
unfolding gathered
gathered_example = refl

abbrev short : Text → Text
short id = take 12 id

abbrev two_containers : List Container
two_containers =
    container_named (text "c1") (text "/a") ∷ container_named (text "c2") (text "/b") ∷ []

second_found : get short (text "c2") two_containers ≡ some (container_named (text "c2") (text "/b"))
unfolding get
second_found = refl

get-Answers_example :
    Answers short (text "c2") two_containers (container_named (text "c2") (text "/b"))
get-Answers_example =
    get-Answers short (text "c2") two_containers (container_named (text "c2") (text "/b"))
      second_found

first_other : has_id short (text "c2") (container_named (text "c1") (text "/a")) ≡ false
unfolding has_id
first_other = refl

second_here : has_id short (text "c2") (container_named (text "c2") (text "/b")) ≡ true
unfolding has_id
second_here = refl
