-- ===== src/Log/LogFile.antt =====
-- log/asyncfile/log.go, `LogFile`. The files are a store of their contents by name; what the system
-- answers to opening and writing is an argument. `none` is a panic.
pub mod Levels
pub mod OldQueue
pub mod Order
use nbagent.Base.{
  ℕ, zero, suc, ◌<◌, ◌≡◌, Bool, true, false, ◌&&◌, ◌||◌, not, Option, none, some, List, [], ◌∷◌,
  ◌++◌, Text, codes, Dict, find, put, text_eq, text_beq, length, ltb, get_or_empty, is_some,
  if◌then◌else◌,
}

pub data SyncStatus : Type 0 where
  init doing done : SyncStatus

pub data LogRotate : Type 0 where
  rotate_none rotate_hour rotate_date : LogRotate

-- log/asyncfile/level.go, the levels: a `Priority` is a number.
abbrev pub level_all : ℕ
level_all = 0

-- The handle that `logRotate.file` keeps, and the suffix that it was opened with.
pub record Handle : Type 0 where
  pub name : Text
  pub suffix : Text

-- `cache_data` is the queue of `appendCache`, `datach` that of the channel, oldest first; `files` the contents of the files on disk.
pub record LogFile : Type 0 where
  pub filename : Text
  pub std_flag : Bool
  pub newlinestr : Text
  pub level : ℕ
  pub status : SyncStatus
  pub use_cache : Bool
  pub cache_data : List Text
  pub datach : List Text
  pub rotate : LogRotate
  pub file : Option Handle
  pub files : Dict Text Text

-- The setters; the probability is an argument of `write_json`.
abbrev pub set_flags : Bool → LogFile → LogFile
set_flags std lf = record lf { std_flag = std }

abbrev pub set_rotate : LogRotate → LogFile → LogFile
set_rotate rotate lf = record lf { rotate = rotate }

abbrev pub set_use_cache : Bool → LogFile → LogFile
set_use_cache cached lf = record lf { use_cache = cached }

abbrev pub set_new_line_str : Text → LogFile → LogFile
set_new_line_str str lf = record lf { newlinestr = str }

abbrev pub cap_datach : ℕ
cap_datach = 100000

abbrev pub newline_str : Text
newline_str = 10 ∷ []

-- The map of the log files by name: a file that is there is given again. `disk` is what the disk
-- holds.
unfoldable pub new_log_file :
    Dict Text Text → Text → Dict Text LogFile → LogFile × Dict Text LogFile
new_log_file disk filename all_files =
    let fresh : LogFile = record {
      filename = filename;
      std_flag = true;
      newlinestr = newline_str;
      level = level_all;
      status = init;
      use_cache = true;
      cache_data = [];
      datach = [];
      rotate = rotate_none;
      file = none;
      files = disk;
    } in
    elim (find filename all_files) [
      | some lf ↦ (lf, all_files)
      | none ↦ (fresh, put filename fresh all_files)
    ]

-- The time in the formats that the code uses.
pub record Clock : Type 0 where
  pub rfc3339 : Text
  pub date : Text
  pub hour : Text

abbrev pub get_filename_suffix : Clock → LogRotate → Text
get_filename_suffix now rotate_none = []
get_filename_suffix now rotate_date = now.date
get_filename_suffix now rotate_hour = now.hour

abbrev pub log_filename : Clock → LogFile → Text
log_filename now lf =
    let suffix = get_filename_suffix now lf.rotate in
    if text_beq suffix [] then lf.filename else lf.filename ++ (codes "." ++ suffix)

-- A full channel takes nothing.
unfoldable pub append_cache2 : Text → LogFile → LogFile
append_cache2 msg lf =
    if ltb (length lf.datach) cap_datach then record lf { datach = lf.datach ++ (msg ∷ []) } else lf

-- `WriteString` on an open file: the bytes go to its end, or it fails and nothing is written.
abbrev pub append_file : Text → Text → LogFile → LogFile
append_file name bytes lf = record lf {
  files = put name (get_or_empty (find name lf.files) ++ bytes) lf.files;
}

-- What the system answers: whether the watcher of the open file tells that it is gone (created anew,
-- removed or renamed), whether the file opens at the first or the second try, whether a new watcher
-- is made, and whether the bytes are written. A handle writes to the file of its name.
pub record Answers : Type 0 where
  pub gone : Bool
  pub first : Bool
  pub second : Bool
  pub watched : Bool
  pub writes : Bool

unfoldable pub open_file : Clock → Answers → LogFile → Option Text × LogFile
open_file now a lf =
    let suffix = get_filename_suffix now lf.rotate in
    let name = log_filename now lf in
    let opened : Option Text × LogFile =
      if (a.first || a.second) && a.watched
      then (some name, record lf { file = some (record { name = name; suffix = suffix }) })
      else (none, lf) in
    elim lf.file [
      | none ↦ opened
      | some h ↦ if text_beq suffix h.suffix && not a.gone then (some h.name, lf) else opened
    ]

-- The result tells that there was no error.
unfoldable pub direct_write : Clock → Answers → Text → LogFile → Option (Bool × LogFile)
unfolding open_file
direct_write now a msg lf =
    let (name, lf') = open_file now a lf in
    elim name [
      | none ↦ none
      | some n ↦ if a.writes then some (true, append_file n msg lf') else some (false, lf')
    ]

-- What `Write` makes of a message.
abbrev pub line_of : Clock → LogFile → Text → Text
line_of now lf msg =
    if lf.std_flag
    then now.rfc3339 ++ (codes " " ++ (msg ++ lf.newlinestr))
    else msg ++ lf.newlinestr

unfoldable pub write : Clock → Answers → Text → LogFile → Option (Bool × LogFile)
unfolding append_cache2 direct_write
write now a msg lf =
    if lf.use_cache
    then some (true, append_cache2 (line_of now lf msg) lf)
    else direct_write now a (line_of now lf msg) lf

-- `WriteJson`: the value as JSON, or none if it has none; `sampled` is the test on the probability.
unfoldable pub write_json : Clock → Answers → Bool → Option Text → LogFile → Option (Bool × LogFile)
unfolding append_cache2 direct_write
write_json now a sampled json lf = if not sampled then some (true, lf) else elim json [
  | none ↦ some (false, lf)
  | some bytes ↦
      if lf.use_cache
      then some (true, append_cache2 (bytes ++ newline_str) lf)
      else direct_write now a (bytes ++ newline_str) lf
]

abbrev pub batch : ℕ
batch = 10000

-- The loop of `flush2` for so many messages: each leaves the channel before it is written. The
-- results of the writes are a list, with success behind its end.
abbrev pub next_result : List Bool → Bool × List Bool
next_result [] = (true, [])
next_result (b ∷ bs) = (b, bs)

unfoldable pub flush_loop : ℕ → Text → List Bool → LogFile → Bool × LogFile
flush_loop zero name writes lf = (true, lf)
flush_loop (suc n) name writes lf = elim lf.datach [
  | [] ↦ (true, lf)
  | msg ∷ more ↦
      let taken = record lf { datach = more } in
      let (ok, writes') = next_result writes in
      let rest = flush_loop n name writes' (append_file name msg taken) in
      if ok then rest else (false, taken)
]

unfoldable pub flush2 : Clock → Bool → Bool → List Bool → LogFile → Option (Bool × LogFile)
unfolding flush_loop
flush2 now first second writes lf =
    if first || second
    then (let (ok, lf') =
          flush_loop batch (log_filename now lf) writes (record lf { status = doing }) in
        some (ok, record lf' { status = done }))
    else none

abbrev pub is_doing : SyncStatus → Bool
is_doing init = false
is_doing doing = true
is_doing done = false

-- The files that a tick of the timer starts `flush2` for.
unfoldable pub due : Dict Text LogFile → List Text
due [] = []
due ((name, lf) ∷ more) = if is_doing lf.status then due more else name ∷ due more
