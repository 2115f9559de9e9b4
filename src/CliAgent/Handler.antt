-- ===== src/CliAgent/Handler.antt =====
-- cli_agent/handler.go: what the agent asks of the node. `N` is the node's state.
use nbagent.Base.{◌≡◌, Bool, false, List, [], Text, ◌||◌, text_beq, if◌then◌else◌}
use nbagent.Node.Entry.{EntryType, get_uri2}
use nbagent.Node.Manager.State.{NodeInfo, RpcCallReq, RpcCallResp, ResultCode, error}

-- `DispatchReq` and `DispatchRsp` get the request id of the context.
pub record NodeHandler (N : Type 0) : Type 0 where
  pub dispatch_req : Text → RpcCallReq → N → N × ResultCode
  pub dispatch_rsp : Text → RpcCallResp → N → N × ResultCode
  pub add_entry : Text → EntryType → N → N
  pub remove_entry : Text → EntryType → N → N
  pub node_list : N → List NodeInfo
  pub entry_check : Text → EntryType → N → ResultCode

-- What the agent relies on: which entries the node has, by key, in the states that `IsReady` allows.
pub record Laws {N : Type 0} (h : NodeHandler N) : Type 1 where
  pub IsReady : N → Type 0
  pub has_entry : Text → N → Bool
  pub add_ready : (uri : Text) (t : EntryType) (n : N) → IsReady n → IsReady (h.add_entry uri t n)
  pub remove_ready :
      (uri : Text) (t : EntryType) (n : N) → IsReady n → IsReady (h.remove_entry uri t n)
  pub has_add :
      (uri key : Text) (t : EntryType) (n : N)
      → IsReady n
      → has_entry key (h.add_entry uri t n) ≡ (text_beq (get_uri2 uri t) key || has_entry key n)
  pub has_remove :
      (uri key : Text) (t : EntryType) (n : N)
      → IsReady n
      → has_entry key (h.remove_entry uri t n)
        ≡ (if text_beq (get_uri2 uri t) key then false else has_entry key n)

-- `DummyNodeHandler`
unfoldable pub dummy_node_handler : NodeHandler (Unit {0})
dummy_node_handler = record {
  dispatch_req = λ request_id req n. (n, error);
  dispatch_rsp = λ request_id rsp n. (n, error);
  add_entry = λ uri t n. n;
  remove_entry = λ uri t n. n;
  node_list = λ n. [];
  entry_check = λ uri t n. error;
}
