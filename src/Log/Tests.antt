-- ===== src/Log/Tests.antt =====
-- The logger at concrete messages and lines.
use maroonedpods.Prelude.{◌≡◌, refl, Bool, true, Option, some, List, [], ◌∷◌, ◌++◌, length, ◌≤◌}
use maroonedpods.Prelude.Int.{pos}
use maroonedpods.Log.{FilteredLogger, LoggableObject, make_logger, info, Message, level_name}
use maroonedpods.Log.Registry.{Loggers}
use maroonedpods.Log.Text.{Line, trim_space, join, split_n, join-split_n}
use maroonedpods.Log.Libvirt.{log_libvirt_line, panicked, codes}
use maroonedpods.Log.Qemu.{log_qemu_lines, log_qemu_lines_conserves, flatten, filled_lines}

abbrev quiet : FilteredLogger
quiet = make_logger (pos 2) "operator"

abbrev config_map : LoggableObject
config_map = record { name = "cm"; namespace = ""; uid = "1"; kind = "ConfigMap" }

abbrev plain : Message
plain = "level" ∷ "info" ∷ "component" ∷ "operator" ∷ "msg" ∷ "w" ∷ []

quiet-info : info quiet "w" ≡ some plain
unfolding info make_logger level_name
quiet-info = refl

abbrev empty : Loggers
empty = record { loggers = []; default_component = "operator" }

abbrev line : Line
line = codes "t: 1: error: f:1"

join-split_n_example : (join (split_n 4 line) ≡ line) × (length (split_n 4 line) ≤ 5)
join-split_n_example = join-split_n 4 line

abbrev parse_time : Line → Option Line
parse_time s = some s

abbrev atoi_accepts : Line → Bool
atoi_accepts s = true

-- The line above is one of those.
line-panics : log_libvirt_line parse_time atoi_accepts (pos 2) line ≡ panicked
unfolding log_libvirt_line trim_space split_n
line-panics = refl

abbrev command : List Line
command = codes "qemu \\" ∷ codes "-m 1 \\" ∷ []

log_qemu_lines_conserves_example :
    flatten (log_qemu_lines [] command).1 ++ (log_qemu_lines [] command).0
    ≡ [] ++ flatten (filled_lines command)
log_qemu_lines_conserves_example = log_qemu_lines_conserves [] command
