-- ===== src/Log.antt =====
-- pkg/log/log.go: the leveled logger. A value receiver works on a copy, so each method here returns
-- the logger that the Go method returns, and a pointer receiver the logger that it leaves behind.
-- A message is the list of its keys and values, without the timestamp and the code position.
pub mod Filter
pub mod Registry
pub mod Text
pub mod Libvirt
pub mod Qemu
pub mod Tests
use maroonedpods.Prelude.{
  String, ◌==◌, Bool, true, false, ◌&&◌, ◌||◌, Option, none, some, List, [], ◌∷◌, ◌++◌,
  if◌then◌else◌, is_some,
}
use maroonedpods.Prelude.Int.{ℤ, pos, negsuc, ◌≤?◌}

-- `type LogLevel int32`, whose values are not only the four constants
abbrev pub LogLevel : Type 0
LogLevel = ℤ

abbrev pub level_info : LogLevel
level_info = pos 0

abbrev pub level_warning : LogLevel
level_warning = pos 1

abbrev pub level_error : LogLevel
level_error = pos 2

abbrev pub level_fatal : LogLevel
level_fatal = pos 3

abbrev pub int_eq : ℤ → ℤ → Bool
int_eq a b = (a ≤? b) && (b ≤? a)

-- `LogLevelNames[level]`, which is empty for a level that is not in the map
unfoldable pub level_name : LogLevel → String
level_name level =
    if int_eq level level_info
    then "info"
    else if int_eq level level_warning
    then "warning"
    else if int_eq level level_error
    then "error"
    else if int_eq level level_fatal
    then "fatal"
    else ""

abbrev pub Message : Type 0
Message = List String

-- `context` is what `klog.With` has added to the logger
pub record FilteredLogger : Type 0 where
  pub context : Message
  pub component : String
  pub filter_level : LogLevel
  pub current_log_level : LogLevel
  pub verbosity_level : ℤ
  pub current_verbosity_level : ℤ
  pub err : Option String

-- `FilteredVerbosityLogger`
pub record VerbosityLogger : Type 0 where
  pub filtered_logger : FilteredLogger

-- k8s.io/apimachinery, what `Object` reads
pub record LoggableObject : Type 0 where
  pub name : String
  pub namespace : String
  pub uid : String
  pub kind : String

-- `MakeLogger`, with the default verbosity, on a logger with no context
unfoldable pub make_logger : ℤ → String → FilteredLogger
make_logger default_verbosity default_component = record {
  context = [];
  component = default_component;
  filter_level = level_info;
  current_log_level = level_info;
  verbosity_level = default_verbosity;
  current_verbosity_level = pos 2;
  err = none;
}

reason_of : Option String → Message
reason_of none = []
reason_of (some e) = "reason" ∷ e ∷ []

-- `log`: the message that is written, if any
unfoldable pub log : FilteredLogger → Message → Option Message
unfolding reason_of
log l params =
    if level_warning ≤? l.current_log_level
      || int_eq l.filter_level level_info
        && int_eq l.current_log_level l.filter_level
        && (l.current_verbosity_level ≤? l.verbosity_level)
    then some (
        ("level" ∷ level_name l.current_log_level ∷ "component" ∷ l.component ∷ [])
        ++ l.context
        ++ reason_of l.err
        ++ params)
    else none

abbrev msg : FilteredLogger → String → Option Message
msg l text = log l ("msg" ∷ text ∷ [])

unfoldable pub at_level : FilteredLogger → LogLevel → FilteredLogger
at_level l level = record l { current_log_level = level }

unfoldable pub reason : FilteredLogger → String → FilteredLogger
reason l e = record l { err = some e }

unfoldable pub with : FilteredLogger → Message → FilteredLogger
with l obj = record l { context = l.context ++ obj }

object_params : LoggableObject → Message
object_params obj =
    (if obj.namespace == "" then [] else "namespace" ∷ obj.namespace ∷ [])
    ++ "name" ∷ obj.name ∷ "kind" ∷ obj.kind ∷ "uid" ∷ obj.uid ∷ []

unfoldable pub object : FilteredLogger → LoggableObject → FilteredLogger
unfolding object_params with
object l obj = with l (object_params obj)

unfoldable pub set_log_level : FilteredLogger → LogLevel → FilteredLogger × Bool
set_log_level l level =
    if (level_info ≤? level) && (level ≤? level_fatal)
    then (record l { filter_level = level }, true)
    else (l, false)

unfoldable pub set_verbosity_level : FilteredLogger → ℤ → FilteredLogger × Bool
set_verbosity_level l level =
    if pos 0 ≤? level then (record l { verbosity_level = level }, true) else (l, false)

unfoldable pub v : FilteredLogger → ℤ → VerbosityLogger
v l level = record {
  filtered_logger = if pos 0 ≤? level then record l { current_verbosity_level = level } else l;
}

unfoldable pub info : FilteredLogger → String → Option Message
unfolding log at_level
info l text = msg (at_level l level_info) text

unfoldable pub warning : FilteredLogger → String → Option Message
unfolding log at_level
warning l text = msg (at_level l level_warning) text

unfoldable pub error : FilteredLogger → String → Option Message
unfolding log at_level
error l text = msg (at_level l level_error) text

-- what is written, and that the call panics then
unfoldable pub critical : FilteredLogger → String → Option Message × Bool
unfolding log at_level
critical l text = (msg (at_level l level_fatal) text, true)

-- `Criticalf` writes the same and returns
unfoldable pub criticalf : FilteredLogger → String → Option Message × Bool
unfolding log at_level
criticalf l text = (msg (at_level l level_fatal) text, false)

-- The methods of `FilteredVerbosityLogger`.
unfoldable pub verbosity_v : VerbosityLogger → ℤ → VerbosityLogger
verbosity_v l level =
    if pos 0 ≤? level
    then record { filtered_logger = record (l.filtered_logger) { current_verbosity_level = level } }
    else l

unfoldable pub verbosity_info : VerbosityLogger → String → Option Message
unfolding log at_level
verbosity_info l text = log (at_level l.filtered_logger level_info) ("msg" ∷ text ∷ [])

unfoldable pub verbosity_infof : VerbosityLogger → String → Option Message
unfolding log
verbosity_infof l text = log l.filtered_logger ("msg" ∷ text ∷ [])

-- the logger that `Object` of the wrapped logger returns is dropped
unfoldable pub verbosity_object : VerbosityLogger → LoggableObject → VerbosityLogger
unfolding object
verbosity_object l obj = let dropped = object l.filtered_logger obj in l

unfoldable pub verbosity_reason : VerbosityLogger → String → VerbosityLogger
verbosity_reason l e = record { filtered_logger = record (l.filtered_logger) { err = some e } }
