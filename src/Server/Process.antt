-- ===== src/Server/Process.antt =====
-- The whole process: the steps of the node manager and those of the client manager, in any order.
pub mod Steps
pub mod Serving
use nbagent.Base.{
  ℕ, ◌≡◌, ◌≢◌, refl, sym, subst, ◌∙◌, inl, inr, Bool, true, false, not, ◌||◌, [], ◌∷◌, ◌++◌, arith,
  Text, find, has, keep, text_eq, text_beq, text_beq_iff, nat_beq, nat_eq, if◌then◌else◌,
  Bool-cases, Dict, some,
}
use nbagent.Caller.{Json}
use nbagent.Node.Entry.{EntryType, EntryInfo, get_uri}
use nbagent.Node.Info.{Info, is_alive, entry_exist, new_node}
use nbagent.Node.Manager.State.{Manager, notify_entry, name_of, get_node_by_connection}
use nbagent.Node.Manager.Routes.{routes, set_routes}
use nbagent.Node.Manager.Local.{add_entry, remove_entry}
use nbagent.Node.Manager.Start.{new_manager}
use nbagent.Node.Manager.Run.Own.{modify_self_eq, settled}
use nbagent.Node.Manager.Run.Steps as NodeSteps
use nbagent.Node.Manager.Apart.{KeepsOf, Keeps, IsApart, IsForOther, All-append}
use nbagent.Node.Manager.Apart.Peaceful.{IsPeaceful, Step-Keeps}
use nbagent.CliAgent.Handler.{NodeHandler, Laws}
use nbagent.CliAgent.State.{ClientManager}
use nbagent.CliAgent.Uris.Told.{IsServed}
use nbagent.CliAgent.Manager.Steps as ClientSteps
use nbagent.CliAgent.Manager.Steps.{Step-IsServed}
use nbagent.CliAgent.Manager.Start.{new_client_manager}
use nbagent.Server.{node_handler, new_nb_server, ServerConf}
use nbagent.Server.Entries.{
  IsInStep, has_own, add_entry-own, remove_entry-own, add_entry_eq, remove_entry_eq,
}

settled-IsApart : (entry : EntryInfo) (m : Manager) → IsApart m → IsApart (settled entry m)
settled-IsApart entry m h =
    let same : nat_beq m.self m.self ≡ true = ground arith in
    rw same (record {
      itself = refl;
      count = refl;
      same = (refl, refl, refl, refl);
      small = h.small;
      marked = h.marked;
      named = h.named;
      tasked = All-append (IsForOther m.self) (notify_entry entry) m.tasks tt h.tasked;
    })

pub add_entry-IsApart :
    (uri : Text) (t : EntryType) (m : Manager)
    → IsInStep m
    → IsApart m
    → IsApart (add_entry uri t m)
unfolding add_entry
add_entry-IsApart uri t m s h =
    let entry : EntryInfo = record { uri = uri; entry_type = t; is_new = true } in
    let added = set_routes (get_uri entry) (routes (get_uri entry) m ++ (m.self ∷ [])) m in
    elim (Bool-cases (entry_exist entry (m.infos m.self))) [
      | inl e ↦ rw e h
      | inr e ↦ subst IsApart (sym (add_entry_eq uri t m e s)) (settled-IsApart entry added h)
    ]

pub remove_entry-IsApart :
    (uri : Text) (t : EntryType) (m : Manager)
    → IsInStep m
    → IsApart m
    → IsApart (remove_entry uri t m)
unfolding remove_entry
remove_entry-IsApart uri t m s h =
    let entry : EntryInfo = record { uri = uri; entry_type = t; is_new = false } in
    let others = keep (λ p. not (text_beq (name_of m p) (name_of m m.self))) (routes uri m) in
    subst IsApart (sym (remove_entry_eq uri t m s))
      (settled-IsApart entry (set_routes uri others m) h)

-- What was kept is kept from now on.
pub Keeps-IsApart : (i : ℕ) (n : Info) (seq : ℕ) (m : Manager) → Keeps i n seq m → IsApart m
Keeps-IsApart i n seq m h =
    let now : Keeps i (m.infos i) m.sequence m = record {
      itself = h.itself;
      count = refl;
      same = (refl, refl, refl, refl);
      small = h.small;
      marked = h.marked;
      named = λ name e. h.named name e ∙ sym h.same.0;
      tasked = h.tasked;
    } in
    subst (λ x. Keeps x (m.infos x) m.sequence m) (sym h.itself) now

module _ (json : Json) (intn : ℕ → ℕ) (checksum : Text → ℕ) (pick : ℕ → ℕ) (start : ℕ) where
  abbrev pub handler : NodeHandler Manager
  handler = node_handler json intn checksum pick start

  unfoldable pub apart_laws : Laws handler
  unfolding node_handler
  apart_laws = record {
    IsReady = λ n. IsInStep n × IsApart n;
    has_entry = has_own;
    add_ready = λ uri t n (s, h). ((add_entry-own uri t n s).0, add_entry-IsApart uri t n s h);
    remove_ready =
        λ uri t n (s, h). ((remove_entry-own uri t n s).0, remove_entry-IsApart uri t n s h);
    has_add = λ uri key t n (s, h). (add_entry-own uri t n s).1 key;
    has_remove = λ uri key t n (s, h). (remove_entry-own uri t n s).1 key;
  }
