-- ===== src/Log/Logger/Entries.antt =====
-- log/logger.go: the functions that log an entry. `Field` is the logging library's. The result is none
-- where there is no logger, which is a nil pointer; otherwise it is what the logger lets through.
-- A formatted message is made by `Sprintf` before. That an entry of the panic levels panics, and one
-- of the last level ends the process, is the logging library's.
use nbagent.Base.{Option, none, some, List, [], ◌∷◌, ◌++◌, Text, codes, if◌then◌else◌}
use nbagent.Log.Logger.{Level, Logger, enabled}
use nbagent.Log.Logger.Levels.{level_of}

pub record Entry {ℓ} (Field : Type ℓ) : Type ℓ where
  pub level : Level
  pub message : Text
  pub fields : List Field

module _ {ℓ} {Field : Type ℓ} where
  unfoldable pub writelog : Text → Text → List Field → Option Logger → Option (List (Entry Field))
  unfolding level_of
  writelog level msg fields none = none
  writelog level msg fields (some l) =
      let entry : Entry Field = record { level = level_of level; message = msg; fields = fields } in
      some (if enabled l.level (level_of level) then entry ∷ [] else [])

  abbrev pub log : Text → Text → Option Logger → Option (List (Entry Field))
  log level msg = writelog level msg []

  -- The name of the calling function goes before the format, if it is known.
  abbrev pub log_f :
      (Text → Text) → Option Text → Text → Text → Option Logger → Option (List (Entry Field))
  log_f sprintf none level format = writelog level (sprintf []) []
  log_f sprintf (some func_name) level format =
      writelog level (sprintf (func_name ++ (codes " " ++ format))) []

  abbrev pub debug : Text → List Field → Option Logger → Option (List (Entry Field))
  debug = writelog (codes "debug")

  abbrev pub debugf : Text → Option Logger → Option (List (Entry Field))
  debugf msg = writelog (codes "debug") msg []

  abbrev pub info : Text → List Field → Option Logger → Option (List (Entry Field))
  info = writelog (codes "info")

  abbrev pub infof : Text → Option Logger → Option (List (Entry Field))
  infof msg = writelog (codes "info") msg []

  abbrev pub warn : Text → List Field → Option Logger → Option (List (Entry Field))
  warn = writelog (codes "warn")

  abbrev pub warningf : Text → Option Logger → Option (List (Entry Field))
  warningf msg = writelog (codes "warn") msg []

  abbrev pub error : Text → List Field → Option Logger → Option (List (Entry Field))
  error = writelog (codes "error")

  abbrev pub errorf : Text → Option Logger → Option (List (Entry Field))
  errorf msg = writelog (codes "error") msg []

  abbrev pub dpanic : Text → List Field → Option Logger → Option (List (Entry Field))
  dpanic = writelog (codes "dpanic")

  abbrev pub dpanicf : Text → Option Logger → Option (List (Entry Field))
  dpanicf msg = writelog (codes "dpanic") msg []

  abbrev pub panic : Text → List Field → Option Logger → Option (List (Entry Field))
  panic = writelog (codes "panic")

  abbrev pub panicf : Text → Option Logger → Option (List (Entry Field))
  panicf msg = writelog (codes "panic") msg []

  abbrev pub fatal : Text → List Field → Option Logger → Option (List (Entry Field))
  fatal = writelog (codes "fatal")

  abbrev pub fatalf : Text → Option Logger → Option (List (Entry Field))
  fatalf msg = writelog (codes "fatal") msg []

  abbrev pub cloud_log : List Field → Option Logger → Option (List (Entry Field))
  cloud_log = writelog (codes "info") (codes "CloudLog")
