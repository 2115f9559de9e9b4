-- ===== src/Caller.antt =====
-- protocol/caller/caller.go: the stack of callers that a request collects and its response goes
-- back along. `encoding/json` is a parameter.
pub mod Path
use nbagent.Base.{ℕ, Option, none, some, List, [], ◌∷◌, ◌++◌, Text}

abbrev pub caller_agent : ℕ
caller_agent = 1

abbrev pub caller_node : ℕ
caller_node = 2

-- `Caller`, with the fields of the embedded `AgentCaller` and `NodeCaller`.
pub record Caller : Type 0 where
  pub type : ℕ
  pub agent_id : Text
  pub connection_id : Text
  pub request_id : Text
  pub node : Text

-- `json.Marshal` and `json.Unmarshal` of a `Caller`.
pub record Json : Type 0 where
  pub marshal : Caller → Text
  pub unmarshal : Text → Option Caller

unfoldable pub push_stack : Text → List Text → List Text
push_stack value stack = stack ++ (value ∷ [])

-- `""` and `false` are `none`.
unfoldable pub get_top_stack : List Text → Option Text
get_top_stack [] = none
get_top_stack (v ∷ []) = some v
get_top_stack (v ∷ w ∷ stack) = get_top_stack (w ∷ stack)

-- The slice without its last element.
unfoldable pub drop_last : List Text → List Text
drop_last [] = []
drop_last (v ∷ []) = []
drop_last (v ∷ w ∷ stack) = v ∷ drop_last (w ∷ stack)

unfoldable pub pop_stack : List Text → Option Text × List Text
unfolding get_top_stack drop_last
pop_stack stack = (get_top_stack stack, drop_last stack)

abbrev pub node_caller : Text → Caller
node_caller node = record {
  type = caller_node;
  agent_id = [];
  connection_id = [];
  request_id = [];
  node = node;
}

abbrev pub agent_caller : Text → Text → Text → Caller
agent_caller agent_id request_id connection_id = record {
  type = caller_agent;
  agent_id = agent_id;
  connection_id = connection_id;
  request_id = request_id;
  node = [];
}

unfoldable pub gen_node_caller : Json → Text → Text
gen_node_caller json node = json.marshal (node_caller node)

unfoldable pub gen_agent_caller : Json → Text → Text → Text → Text
gen_agent_caller json agent_id request_id connection_id =
    json.marshal (agent_caller agent_id request_id connection_id)
