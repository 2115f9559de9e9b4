-- ===== src/Examples/Nodes.antt =====
-- A node at concrete inputs.
use nbagent.Base.{
  ◌+◌, ◌≤◌, ◌≡◌, refl, true, false, none, [], ◌∷◌, arith, codes, find, length, nat_eq, text_eq,
  for_each,
}
use nbagent.Node.Entry.{EntryInfo, rpc}
use nbagent.Node.Info.{Info, alive, append_connection, new_node, sync_entry, sync_one}
use nbagent.Node.Info.Entries.{last_word, sync_entry_lem}
use nbagent.Node.Info.Versions.{change, in_step, advance, change-in_step}
use nbagent.Node.Info.Connections.{Adding, idle, tested, appended, connections_bounded}

abbrev pub sum : EntryInfo
sum = record { uri = codes "sum"; entry_type = rpc; is_new = true }

abbrev pub no_sum : EntryInfo
no_sum = record { uri = codes "sum"; entry_type = rpc; is_new = false }

abbrev pub peer : Info
unfolding new_node
peer = new_node (codes "n1") (codes "10.0.0.1") 7 8800 8900 100

sync_entry_lem_example :
    ((sync_entry (sum ∷ []) 4 peer).status ≡ alive)
    × ((sync_entry (sum ∷ []) 4 peer).data_version ≡ 4)
    × (find (codes "sum_RPC") (sync_entry (sum ∷ []) 4 peer).entry_info
        ≡ last_word (codes "sum_RPC") (sum ∷ []) none)
sync_entry_lem_example = sync_entry_lem (sum ∷ []) 4 peer (codes "sum_RPC")

change-in_step_example :
    ((for_each change (in_step 0 ((sum ∷ []) ∷ (no_sum ∷ []) ∷ [])) peer).status ≡ alive)
    × ((for_each change (in_step 0 ((sum ∷ []) ∷ (no_sum ∷ []) ∷ [])) peer).data_version
        ≡ advance 2 0)
    × ((for_each change (in_step 0 ((sum ∷ []) ∷ (no_sum ∷ []) ∷ [])) peer).entry_info
        ≡ for_each sync_one (sum ∷ no_sum ∷ []) [])
unfolding peer
change-in_step_example = change-in_step ((sum ∷ []) ∷ (no_sum ∷ []) ∷ []) peer refl

-- Two tasks test before either appends.
both : Adding 0 2 peer (append_connection 4 (append_connection 3 peer)) []
unfolding peer
both =
    appended 4 (appended 3 (tested 3 (tested 4 idle refl (omega arith)) refl (omega arith)) refl)
      refl

connections_bounded_example :
    length (append_connection 4 (append_connection 3 peer)).connection_list ≤ 0 + 2
unfolding peer
connections_bounded_example = connections_bounded (omega arith) both
