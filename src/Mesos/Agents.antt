-- ===== src/Mesos/Agents.antt =====
-- cluster/mesos/agent.go, and the parts of an offer and a task that the code reads. A protocol buffer is
-- a record, and a getter of an absent field gives the zero of its type.
use cattle.Prelude.{
  ℕ, zero, suc, ◌+◌, ◌/◌, ◌%◌, ◌==◌, Bool, true, false, ◌&&◌, List, [], ◌∷◌, ◌++◌, Option, none,
  some, Text, text, text_eq, ℤ, pos, negsuc, if◌then◌else◌,
}
use cattle.Cluster.Data.{ContainerConfig, lookup, insert, delete}
use cattle.Engine.Data.{Engine}

-- mesosproto.Value of an attribute: the whole part of a scalar, a text, or another value.
pub data AttributeValue : Type 0 where
  scalar : ℤ → AttributeValue
  text_value : Text → AttributeValue
  other_value : AttributeValue

pub record Attribute : Type 0 where
  pub attribute_name : Text
  pub attribute_value : AttributeValue

pub record Offer : Type 0 where
  pub offer_id : Text
  pub offer_agent : Text
  pub hostname : Text
  pub attributes : List Attribute

-- Task, without its channels and what it tells the driver. `launched_on` is its SlaveId.
pub record Task : Type 0 where
  pub task_id : Text
  pub task_config : ContainerConfig
  pub launched_on : Option Text
  pub done : Bool

pub record Agent : Type 0 where
  pub agent_id : Text
  pub offers : List (Text × Offer)
  pub tasks : List (Text × Task)
  pub engine : Engine

-- newAgent
unfoldable pub new_agent : Text → Engine → Agent
new_agent sid e = record { agent_id = sid; offers = []; tasks = []; engine = e }

-- addOffer, addTask
unfoldable pub add_offer : Offer → Agent → Agent
unfolding insert
add_offer o a = record a { offers = insert o.offer_id o a.offers }

unfoldable pub add_task : Task → Agent → Agent
unfolding insert
add_task t a = record a { tasks = insert t.task_id t a.tasks }

abbrev pub is_some : {A : Type 0} → Option A → Bool
is_some none = false
is_some (some a) = true

-- removeOffer, removeTask
unfoldable pub remove_offer : Text → Agent → Agent × Bool
unfolding lookup delete
remove_offer id a = (record a { offers = delete id a.offers }, is_some (lookup id a.offers))

unfoldable pub remove_task : Text → Agent → Agent × Bool
unfolding lookup delete
remove_task id a = (record a { tasks = delete id a.tasks }, is_some (lookup id a.tasks))

abbrev pub is_nil : {A : Type 0} → List A → Bool
is_nil [] = true
is_nil (a ∷ rest) = false

-- empty
unfoldable pub empty : Agent → Bool
empty a = is_nil a.offers && is_nil a.tasks

-- The decimal digits of a number, in front of a text; 20 digits are enough for an int64.
unfoldable pub digits : ℕ → ℕ → Text → Text
digits zero n rest = rest
digits (suc fuel) n rest =
    let more = digits fuel (n / 10) ((n % 10 + 48) ∷ rest) in
    if n / 10 == 0 then (n % 10 + 48) ∷ rest else more

-- fmt.Sprintf("%d")
unfoldable pub decimal : ℤ → Text
unfolding digits
decimal (pos n) = digits 20 n []
decimal (negsuc n) = text "-" ++ digits 20 (suc n) []

unfoldable pub port_of : Text → AttributeValue → Text
unfolding decimal
port_of port (scalar n) = decimal n
port_of port (text_value t) = t
port_of port other_value = port

-- The port of the docker engine that the attributes tell, the last one counts.
unfoldable pub docker_port : Text → List Attribute → Text
unfolding port_of text_eq
docker_port port [] = port
docker_port port (a ∷ rest) =
    docker_port
      (if text_eq a.attribute_name (text "docker_port")
        then port_of port a.attribute_value
        else port)
      rest
