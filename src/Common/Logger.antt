-- ===== src/Common/Logger.antt =====
-- internal/common/log.go, `NewLogger`, up to the logger of zap.
use dknet.Base.{
  String, Bool, true, false, [], ◌∷◌, Option, none, some, Result, ok, err, Error, wrap_args, str,
  ◌==◌, if◌then◌else◌, contains, ◌≡◌, sym, ==_of_eq, arith, inl, inr, Bool-cases, eq_iff,
}
use dknet.Config.{LoggingConfig, validate_logging_config}

-- zapcore.Level
pub data Level : Type 0 where
  debug_level info_level warn_level error_level : Level

-- the choices of a logger: level, the encoder for production, the file if it is not the standard output,
-- and whether it adds the caller
pub record Logger : Type 0 where
  pub level : Level
  pub json_encoder : Bool
  pub file : Option String
  pub adds_caller : Bool

unfoldable pub level_of : String → Level
level_of text =
    if text == "debug"
    then debug_level
    else if text == "info"
    then info_level
    else if text == "warn"
    then warn_level
    else if text == "error"
    then error_level
    else info_level

abbrev pub is_debug : Level → Bool
is_debug debug_level = true
is_debug _ = false

-- NewLogger; `open_file` is os.OpenFile for appending
unfoldable pub new_logger : (String → Option Error) → LoggingConfig → Result Logger
unfolding level_of
new_logger open_file cfg =
    let logger : Logger = record {
      level = level_of cfg.level;
      json_encoder = cfg.environment == "pro";
      file = if cfg.output == "stdout" then none else some cfg.output;
      adds_caller = is_debug (level_of cfg.level);
    } in
    if cfg.output == "stdout" then ok logger else elim (open_file cfg.output) [
      | none ↦ ok logger
      | some e ↦ err (wrap_args "failed to open log file %s" (str cfg.output ∷ []) e)
    ]

-- the name of a level in a configuration
abbrev pub level_name : Level → String
level_name debug_level = "debug"
level_name info_level = "info"
level_name warn_level = "warn"
level_name error_level = "error"

module _ (level : String) where
  -- a level that is not one of the first three names is the fourth
  last_name :
      contains ("debug" ∷ "info" ∷ "warn" ∷ "error" ∷ []) level ≡ true
      → (level == "debug") ≡ false
      → (level == "info") ≡ false
      → (level == "warn") ≡ false
      → level ≡ "error"
  unfolding contains
  last_name h a b c = ground (
    arith,
    h,
    a,
    b,
    c,
    eq_iff level "debug",
    eq_iff "debug" level,
    eq_iff level "info",
    eq_iff "info" level,
    eq_iff level "warn",
    eq_iff "warn" level,
    eq_iff "error" level,
  )

  level_name-level_of :
      contains ("debug" ∷ "info" ∷ "warn" ∷ "error" ∷ []) level ≡ true
      → level_name (level_of level) ≡ level
  unfolding level_of
  level_name-level_of h = elim (Bool-cases (level == "debug")) [
    | inl a ↦ rw a (sym ((eq_iff level "debug").0 a))
    | inr a ↦ rw a (elim (Bool-cases (level == "info")) [
      | inl b ↦ rw b (sym ((eq_iff level "info").0 b))
      | inr b ↦ rw b (elim (Bool-cases (level == "warn")) [
        | inl c ↦ rw c (sym ((eq_iff level "warn").0 c))
        | inr c ↦
            rw c (let named = last_name h a b c in rw (==_of_eq level "error" named) (sym named))
      ])
    ])
  ]

-- A logger for a configuration that passes the validation of Load has the level that is named there.
pub new_logger_level :
    (open_file : String → Option Error) (cfg : LoggingConfig) (logger : Logger)
    → validate_logging_config cfg ≡ ok tt
    → new_logger open_file cfg ≡ ok logger
    → level_name logger.level ≡ cfg.level
unfolding new_logger validate_logging_config
new_logger_level open_file cfg logger valid made =
    let chosen : level_of cfg.level ≡ logger.level = ground arith in
    rw (← chosen) (level_name-level_of cfg.level (ground (arith, valid)))
