-- ===== src/Node/Entry.antt =====
-- The entries of protocol/node/node.proto and their keys, node/node.go `getUri` and `getUri2`.
-- Numbers outside the enumeration, which proto3 lets through, are not modelled.
pub mod Key
use nbagent.Base.{Bool, ◌++◌, Text, codes}

pub data EntryType : Type 0 where
  invalidate http rpc : EntryType

pub record EntryInfo : Type 0 where
  pub uri : Text
  pub entry_type : EntryType
  pub is_new : Bool

unfoldable pub entry_type_name : EntryType → Text
entry_type_name invalidate = codes "INVALIDATE"
entry_type_name http = codes "HTTP"
entry_type_name rpc = codes "RPC"

unfoldable pub get_uri2 : Text → EntryType → Text
unfolding entry_type_name
get_uri2 uri entry_type = uri ++ (codes "_" ++ entry_type_name entry_type)

unfoldable pub get_uri : EntryInfo → Text
unfolding get_uri2
get_uri entry = get_uri2 entry.uri entry.entry_type
