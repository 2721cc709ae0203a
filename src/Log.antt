-- ===== src/Log.antt =====
-- inc/lixs/log/logger.hh: the logger. A line is what `fprintf` makes of the format and its arguments;
-- the file is a descriptor, and `none` is `stdout`.
use lixs.Base.{ℕ, Option, none, some, [], ◌∷◌, ◌++◌, leb, if◌then◌else◌}
use lixs.Base.Text.{Text, codes}
use lixs.LixsConf.{Level, level_off, level_error, level_warn, level_info, level_debug, level_trace}
use lixs.System.{System, open_fd, close_fd}

-- `enum level`
abbrev pub number : Level → ℕ
number level_trace = 5
number level_debug = 4
number level_info = 3
number level_warn = 2
number level_error = 1
number level_off = 0

pub record Logger : Type 0 where
  pub logger_level : Level
  pub fp : Option ℕ

unfoldable pub to_stdout : Level → Logger
to_stdout l = record { logger_level = l; fp = none }

-- The constructor with a path; `none` where it throws.
unfoldable pub to_file : Level → Option ℕ → System → Option Logger × System
to_file l none s = (none, s)
to_file l (some fd) s = (some (record { logger_level = l; fp = some fd }), open_fd fd s)

-- The destructor.
abbrev pub close_fp : Option ℕ → System → System
close_fp none s = s
close_fp (some fd) s = close_fd fd s

unfoldable pub close : Logger → System → System
close log s = close_fp log.fp s

-- `switch (l)`, with the line behind the name of the level.
abbrev pub line_at : Level → Text → Text
line_at level_trace line = codes "TRACE " ++ line ++ 10 ∷ []
line_at level_debug line = codes "DEBUG " ++ line ++ 10 ∷ []
line_at level_info line = codes "INFO  " ++ line ++ 10 ∷ []
line_at level_warn line = codes "WARN  " ++ line ++ 10 ∷ []
line_at level_error line = codes "ERROR " ++ line ++ 10 ∷ []
line_at level_off line = []

-- `logger::logf`: what it writes.
unfoldable pub logf : Logger → Level → Text → Text
logf log l line = if leb (number l) (number log.logger_level) then line_at l line else []

-- `LOG<l>::logf`, compiled with `LOGGER_MAX_LEVEL`.
unfoldable pub log_at : ℕ → Level → Logger → Text → Text
log_at max_level l log line = if leb (number l) max_level then logf log l line else []
