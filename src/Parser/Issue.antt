-- ===== src/Parser/Issue.antt =====
-- ribosome/crates/ribosome-parser/src/error.rs: validation issues and the errors of the parser.
use lysine_os.Base.{Bool, true, false, Option, none, some, List, ◌++◌, Text, codes, retain, length}
use lysine_os.Base.Decimal.{format_nat}

pub data Severity : Type 0 where
  error_severity : Severity
  warning_severity : Severity

pub record ValidationIssue : Type 0 where
  pub field : Text
  pub message : Text
  pub severity : Severity

abbrev pub error : Text → Text → ValidationIssue
error field message = record { field = field; message = message; severity = error_severity }

abbrev pub warning : Text → Text → ValidationIssue
warning field message = record { field = field; message = message; severity = warning_severity }

unfoldable pub show_issue : ValidationIssue → Text
show_issue i = i.field ++ (codes ": " ++ i.message)

-- `severity == Severity::Error`
abbrev pub has_error_severity : Severity → Bool
has_error_severity error_severity = true
has_error_severity warning_severity = false

abbrev pub is_error : ValidationIssue → Bool
is_error i = has_error_severity i.severity

pub data ParserError : Type 0 where
  yaml_syntax : Text → ParserError
  validation : List ValidationIssue → ParserError
  io : Text → ParserError

unfoldable pub issues : ParserError → Option (List ValidationIssue)
issues (validation is) = some is
issues (yaml_syntax e) = none
issues (io e) = none

unfoldable pub show_error : ParserError → Text
unfolding format_nat retain
show_error (yaml_syntax e) = codes "YAML syntax error: " ++ e
show_error (validation is) =
    codes "mRNA validation failed with "
    ++ (format_nat (length (retain is_error is)) ++ codes " error(s)")
show_error (io e) = codes "I/O error: " ++ e
