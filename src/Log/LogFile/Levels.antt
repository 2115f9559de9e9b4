-- ===== src/Log/LogFile/Levels.antt =====
-- log/asyncfile/level.go: messages with a level.
use nbagent.Base.{
  ℕ, Bool, true, not, Option, some, [], ◌∷◌, ◌++◌, Text, codes, Dict, find, put, nat_eq, text_eq,
  ltb, get_or_empty, if◌then◌else◌,
}
use nbagent.Log.LogFile.{LogFile, Clock, Answers, new_log_file, write}

abbrev pub level_debug : ℕ
level_debug = 1

abbrev pub level_info : ℕ
level_info = 2

abbrev pub level_warn : ℕ
level_warn = 3

abbrev pub level_error : ℕ
level_error = 4

abbrev pub level_fatal : ℕ
level_fatal = 5

abbrev pub level_off : ℕ
level_off = 6

-- A level that is not in the map has the empty title.
abbrev pub level_title : Dict ℕ Text
level_title =
    (level_debug, codes "[DEBUG]")
    ∷ (level_info, codes "[INFO]")
    ∷ (level_warn, codes "[WARN]")
    ∷ (level_error, codes "[ERROR]")
    ∷ (level_fatal, codes "[FATAL]")
    ∷ []

abbrev pub set_level : ℕ → LogFile → LogFile
set_level log_level lf = record lf { level = log_level }

-- The level is set on the file that the map holds, also where it was there before.
unfoldable pub new_level_log :
    Dict Text Text → Text → ℕ → Dict Text LogFile → LogFile × Dict Text LogFile
unfolding new_log_file
new_level_log disk filename log_level all_files =
    let (lf, all_files') = new_log_file disk filename all_files in
    (set_level log_level lf, put filename (set_level log_level lf) all_files')

-- What a message of a level is written as; `Sprintf` has made the message.
abbrev pub titled : ℕ → Text → Text
titled level msg = get_or_empty (find level level_title) ++ (codes " " ++ msg)

-- `sampled` is the test on the probability.
unfoldable pub write_level_msg :
    Clock → Answers → Bool → ℕ → Text → LogFile → Option (Bool × LogFile)
unfolding write
write_level_msg now a sampled level msg lf =
    if not sampled
    then some (true, lf)
    else if ltb level lf.level
    then some (true, lf)
    else write now a (titled level msg) lf

abbrev pub debug : Clock → Answers → Bool → Text → LogFile → Option (Bool × LogFile)
debug now a sampled = write_level_msg now a sampled level_debug

abbrev pub info : Clock → Answers → Bool → Text → LogFile → Option (Bool × LogFile)
info now a sampled = write_level_msg now a sampled level_info

abbrev pub warn : Clock → Answers → Bool → Text → LogFile → Option (Bool × LogFile)
warn now a sampled = write_level_msg now a sampled level_warn

abbrev pub error : Clock → Answers → Bool → Text → LogFile → Option (Bool × LogFile)
error now a sampled = write_level_msg now a sampled level_error

abbrev pub fatal : Clock → Answers → Bool → Text → LogFile → Option (Bool × LogFile)
fatal now a sampled = write_level_msg now a sampled level_fatal
