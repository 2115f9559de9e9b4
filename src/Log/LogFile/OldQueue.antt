-- ===== src/Log/LogFile/OldQueue.antt =====
-- log/asyncfile/log.go, `appendCache` and `flush`: the queue before the channel. Nothing calls them.
use nbagent.Base.{Bool, true, ◌||◌, Option, none, some, List, [], ◌∷◌, ◌++◌, Text, if◌then◌else◌}
use nbagent.Log.LogFile.{LogFile, SyncStatus, Clock, log_filename, append_file}

-- `strings.Join` with the empty separator.
abbrev pub join : List Text → Text
join [] = []
join (t ∷ ts) = t ++ join ts

unfoldable pub append_cache : Text → LogFile → LogFile
append_cache msg lf = record lf { cache_data = lf.cache_data ++ (msg ∷ []) }

-- What is taken from the queue is written at once. The tests tell whether the file opens and whether
-- the bytes are written, each at the first and at the second try; `none` is a panic.
unfoldable pub flush : Clock → Bool → Bool → Bool → Bool → LogFile → Option (Bool × LogFile)
flush now first second written again lf =
    let cache = lf.cache_data in
    let taken = record lf { status = SyncStatus.done; cache_data = [] } in
    if first || second
    then elim cache [
      | [] ↦ some (true, taken)
      | msg ∷ more ↦
          if written || again
          then some (true, append_file (log_filename now lf) (join (msg ∷ more)) taken)
          else none
    ]
    else none
