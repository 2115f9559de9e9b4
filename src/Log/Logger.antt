-- ===== src/Log/Logger.antt =====
-- log/logger.go, log/logconfig.go, log/loginiter.go, log/asyncfile.go, log/syslog.go and
-- log/stdout.go: the options of the logger, what it is made of, and where an entry goes. The encoder
-- of the logging library is an argument, and so is what the system answers.
pub mod Levels
pub mod Sessions
pub mod Entries
use nbagent.Base.{
  ℕ, ◌+◌, Bool, true, false, not, ◌||◌, ◌&&◌, Option, none, some, List, [], ◌∷◌, ◌++◌, Text, codes,
  Dict, find, put, text_eq, text_beq, map, ltb, for_each, if◌then◌else◌,
}
use nbagent.Log.LogFile.{
  LogFile, LogRotate, Clock, Answers, rotate_hour, rotate_date, set_flags, set_rotate,
  set_new_line_str, new_log_file, write,
}

pub record LogConf : Type 0 where
  pub testenv : Bool
  pub process_name : Text
  pub with_pid : Bool
  pub log_path : Text
  pub listen_addr : Text
  pub encodeing : Text
  pub target_name : Text
  pub log_file_path : Text
  pub log_file_rotate : Text
  pub host_name : Text
  pub elk_template_name : Text

-- `name` is the base name of the program.
abbrev pub default_log_options : Text → LogConf
default_log_options name = record {
  testenv = false;
  process_name = name;
  with_pid = true;
  log_path = codes "/log";
  listen_addr = codes "127.0.0.1:0";
  encodeing = codes "json";
  target_name = codes "syslog";
  log_file_path = codes "../log";
  log_file_rotate = [];
  host_name = [];
  elk_template_name = name;
}

pub data LogOption : Type 0 where
  listen_addr log_api_path set_target log_file_path log_file_rotate set_encode process_name
        host_name elk_tmeplate_name :
      Text → LogOption
  with_pid test_env : Bool → LogOption

-- A rotation that is not known leaves the one before.
unfoldable pub apply : LogOption → LogConf → LogConf
apply (listen_addr addr) conf = record conf { listen_addr = addr }
apply (log_api_path path) conf = record conf { log_path = path }
apply (set_target name) conf = record conf { target_name = name }
apply (log_file_path path) conf = record conf { log_file_path = path }
apply (log_file_rotate r) conf =
    if text_beq r (codes "hour") || text_beq r (codes "date")
    then record conf { log_file_rotate = r }
    else conf
apply (set_encode enc) conf = record conf { encodeing = enc }
apply (process_name name) conf = record conf { process_name = name }
apply (host_name name) conf = record conf { host_name = name }
apply (elk_tmeplate_name name) conf = record conf { elk_template_name = name }
apply (with_pid flag) conf = record conf { with_pid = flag }
apply (test_env flag) conf = record conf { testenv = flag }

-- The levels of the logging library, in their order.
pub data Level : Type 0 where
  debug info warn error dpanic panic fatal : Level

abbrev pub rank : Level → ℕ
rank debug = 0
rank info = 1
rank warn = 2
rank error = 3
rank dpanic = 4
rank panic = 5
rank fatal = 6

abbrev pub enabled : Level → Level → Bool
enabled limit level = not (ltb (rank level) (rank limit))

-- Where the entries go: the system's log, a file by its name, or the standard output.
pub data Core : Type 0 where
  to_syslog to_stdout : Core
  to_file : Text → Core

-- The fields are those that every entry carries.
pub record Logger : Type 0 where
  pub core : Core
  pub encodeing : Text
  pub level : Level
  pub fields : List (Text × Text)

abbrev pub first_level : LogConf → Level
first_level conf = if conf.testenv then debug else info

-- What the system answers: whether the directory is there or can be made, the system's log opens,
-- and the logging library builds a logger.
pub record InitAnswers : Type 0 where
  pub directory : Bool
  pub syslog : Bool
  pub build : Bool

abbrev pub logfilename : LogConf → Text
logfilename conf =
    let name = conf.process_name ++ codes ".log" in
    if text_beq conf.log_file_path [] then name else conf.log_file_path ++ (codes "/" ++ name)

-- `loginit` of the asynchronous file: the file of that name, in the map of the files, is set up.
unfoldable pub set_up : LogConf → LogFile → LogFile
set_up conf lf =
    let rotated =
      if text_beq conf.log_file_rotate (codes "date")
      then set_rotate rotate_date lf
      else if text_beq conf.log_file_rotate (codes "hour")
      then set_rotate rotate_hour lf
      else lf in
    set_new_line_str [] (set_flags false rotated)

abbrev pub made : LogConf → Core → Logger
made conf core = record {
  core = core;
  encodeing = conf.encodeing;
  level = first_level conf;
  fields = [];
}

unfoldable pub loginit_file :
    Dict Text Text → Bool → LogConf → Dict Text LogFile → Option Logger × Dict Text LogFile
unfolding new_log_file set_up
loginit_file disk directory conf files =
    if not (text_beq conf.log_file_path []) && not directory
    then (none, files)
    else (let (lf, files') = new_log_file disk (logfilename conf) files in
        (
          some (made conf (to_file (logfilename conf))),
          put (logfilename conf) (set_up conf lf) files',
        ))

-- `zapLogInit`; `pid` is the number of the process in decimal.
unfoldable pub zap_log_init :
    Dict Text Text
    → InitAnswers
    → Text
    → LogConf
    → Dict Text LogFile
    → Option Logger × Dict Text LogFile
unfolding loginit_file
zap_log_init disk a pid conf files =
    let (logger, files') : Option Logger × Dict Text LogFile =
      if text_beq conf.target_name (codes "syslog")
      then ((if a.syslog then some (made conf to_syslog) else none), files)
      else if text_beq conf.target_name (codes "asyncfile")
      then loginit_file disk a.directory conf files
      else ((if a.build then some (made conf to_stdout) else none), files) in
    elim logger [
      | none ↦ (none, files')
      | some l ↦ (
        some (record l {
          fields =
              (if conf.with_pid then (codes "pid", pid) ∷ [] else [])
              ++ ((if text_beq conf.elk_template_name []
                    then []
                    else (codes "procname", conf.elk_template_name) ∷ [])
                  ++ (if text_beq conf.host_name []
                      then []
                      else (codes "hostname", conf.host_name) ∷ []));
        }),
        files',
      )
    ]

-- `InitLog`: the default logger stays where the new one cannot be made. The last part tells whether
-- there was no error.
unfoldable pub init_log :
    Dict Text Text
    → InitAnswers
    → Text
    → Text
    → List LogOption
    → Option Logger
    → Dict Text LogFile
    → (Option Logger × Dict Text LogFile) × Bool
unfolding zap_log_init apply
init_log disk a name pid options default_log files =
    let (logger, files') =
      zap_log_init disk a pid (for_each apply options (default_log_options name)) files in
    elim logger [ none ↦ ((default_log, files'), false) | some l ↦ ((some l, files'), true) ]

-- `filecore.Write`: an error of the file is dropped; `encoded` is the entry, if the encoder gives one.
-- The result is none where opening the file panics.
unfoldable pub write_file : Clock → Answers → Option Text → LogFile → Option (Bool × LogFile)
unfolding write
write_file now a none lf = some (false, lf)
write_file now a (some message) lf = elim (write now a message lf) [
  | none ↦ none
  | some (ok, lf') ↦ some (true, lf')
]

-- The severities of the system's log.
pub data Severity : Type 0 where
  log_debug log_info log_warning log_err log_crit : Severity

unfoldable pub severity : Level → Severity
severity debug = log_debug
severity info = log_info
severity warn = log_warning
severity error = log_err
severity dpanic = log_crit
severity panic = log_crit
severity fatal = log_crit
