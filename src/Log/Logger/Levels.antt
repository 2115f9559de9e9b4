-- ===== src/Log/Logger/Levels.antt =====
-- log/logger.go, the names of the levels: `writelog` and `SetLogLevel`.
use nbagent.Base.{
  ◌+◌, Bool, true, false, ◌||◌, ◌&&◌, not, Option, none, some, Text, codes, text_beq, text_eq, map,
  ltb, if◌then◌else◌,
}
use nbagent.Log.Logger.{Level, debug, info, warn, error, dpanic, panic, fatal, Logger}

-- A level that is not known is `info`.
unfoldable pub level_of : Text → Level
level_of name =
    if text_beq name (codes "info")
    then info
    else if text_beq name (codes "debug")
    then debug
    else if text_beq name (codes "warn")
    then warn
    else if text_beq name (codes "error")
    then error
    else if text_beq name (codes "panic")
    then panic
    else if text_beq name (codes "dpanic")
    then dpanic
    else if text_beq name (codes "fatal")
    then fatal
    else info

-- `strings.ToLower` on the letters of the names below; no other byte matters to the comparison.
abbrev pub to_lower : Text → Text
to_lower = map (λ c. if not (ltb c 65) && ltb c 91 then c + 32 else c)

-- The level that the name stands for, if it is one of those that are supported.
unfoldable pub supported_level : Text → Option Level
supported_level name =
    let low = to_lower name in
    if text_beq low (codes "debug") || text_beq low (codes "all")
    then some debug
    else if text_beq low (codes "info")
    then some info
    else if text_beq low (codes "warn")
    then some warn
    else if text_beq low (codes "error")
    then some error
    else if text_beq low (codes "fatal")
        || (text_beq low (codes "off") || text_beq low (codes "none"))
    then some fatal
    else none

-- The boolean tells that there was no error.
unfoldable pub set_log_level : Text → Logger → Bool × Logger
unfolding supported_level
set_log_level name l = elim (supported_level name) [
  | none ↦ (false, l)
  | some level ↦ (true, record l { level = level })
]
