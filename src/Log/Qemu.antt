-- ===== src/Log/Qemu.antt =====
-- log.go, `LogQemuLogLine`: lines that end with a backslash are put together into one message.
use maroonedpods.Prelude.{
  ◌≡◌, refl, sym, Bool, true, false, Option, none, some, List, [], ◌∷◌, ◌++◌, arith, length, nat_eq,
  if◌then◌else◌, Bool-cases, inl, inr, all, not, ◌&&◌,
}
use mathlib.Core.List.{append-nil, append_assoc}
use maroonedpods.Log.Text.{Line, trim_space}

abbrev pub is_blank : Line → Bool
is_blank line = nat_eq (length (trim_space line)) 0

-- `strings.HasSuffix(line, "\\")`
unfoldable pub is_continued : Line → Bool
is_continued [] = false
is_continued (c ∷ []) = nat_eq c 92
is_continued (c ∷ d ∷ s) = is_continued (d ∷ s)

put_together : Line → Line → Line × Option Line
put_together [] line = ([], some line)
put_together (c ∷ pending) line = ([], some ((c ∷ pending) ++ line))

-- `pending` is `qemuLogLines`; the result is its new value and the message that is logged
unfoldable pub log_qemu_line : Line → Line → Line × Option Line
unfolding put_together
log_qemu_line pending line =
    if is_blank line
    then (pending, none)
    else if is_continued line
    then (pending ++ line, none)
    else put_together pending line

abbrev pub add_message : Option Line → List Line → List Line
add_message none messages = messages
add_message (some m) messages = m ∷ messages

-- a sequence of lines: what is pending in the end, and the messages in order
unfoldable pub log_qemu_lines : Line → List Line → Line × List Line
log_qemu_lines pending [] = (pending, [])
log_qemu_lines pending (line ∷ lines) =
    let step = log_qemu_line pending line in
    let rest = log_qemu_lines step.0 lines in (rest.0, add_message step.1 rest.1)

unfoldable pub flatten : List Line → Line
flatten [] = []
flatten (s ∷ ss) = s ++ flatten ss

abbrev pub filled_lines : List Line → List Line
filled_lines [] = []
filled_lines (line ∷ lines) =
    let rest = filled_lines lines in if is_blank line then rest else line ∷ rest

message_of : Option Line → Line
message_of none = []
message_of (some m) = m

log_qemu_line_conserves :
    (pending line : Line)
    → message_of (log_qemu_line pending line).1 ++ (log_qemu_line pending line).0
      ≡ pending ++ flatten (filled_lines (line ∷ []))
unfolding log_qemu_line flatten message_of
log_qemu_line_conserves [] line = elim (Bool-cases (is_blank line)) [
  | inl blank ↦ rw (blank) refl
  | inr filled ↦ elim (Bool-cases (is_continued line)) [
    | inl continued ↦ rw (filled, continued, append-nil) refl
    | inr ends ↦ rw (filled, ends, append-nil) refl
  ]
]
log_qemu_line_conserves (c ∷ pending) line = elim (Bool-cases (is_blank line)) [
  | inl blank ↦ rw (blank, append-nil) refl
  | inr filled ↦ elim (Bool-cases (is_continued line)) [
    | inl continued ↦ rw (filled, continued, append-nil) refl
    | inr ends ↦ rw (filled, ends, append-nil line, append-nil) refl
  ]
]

flatten-add_message :
    (m : Option Line) (ms : List Line) → flatten (add_message m ms) ≡ message_of m ++ flatten ms
unfolding flatten message_of
flatten-add_message none ms = refl
flatten-add_message (some m) ms = refl

flatten-filled_lines :
    (line : Line) (lines : List Line)
    → flatten (filled_lines (line ∷ lines))
      ≡ flatten (filled_lines (line ∷ [])) ++ flatten (filled_lines lines)
unfolding flatten
flatten-filled_lines line lines = elim (Bool-cases (is_blank line)) [
  | inl blank ↦ rw (blank) refl
  | inr filled ↦ rw (filled, append-nil) refl
]

-- Of the lines that are not blank no byte is lost, added or moved: the messages, with what is still
-- pending behind them, are what was pending before and then these lines.
pub log_qemu_lines_conserves :
    (pending : Line) (lines : List Line)
    → flatten (log_qemu_lines pending lines).1 ++ (log_qemu_lines pending lines).0
      ≡ pending ++ flatten (filled_lines lines)
unfolding log_qemu_lines flatten
log_qemu_lines_conserves pending [] = sym (append-nil pending)
log_qemu_lines_conserves pending (line ∷ lines) =
    let step = log_qemu_line pending line in
    let rest = log_qemu_lines_conserves step.0 lines in
    let first = log_qemu_line_conserves pending line in
    rw
      (
        flatten-add_message step.1 (log_qemu_lines step.0 lines).1,
        append_assoc (message_of step.1),
        rest,
        ← append_assoc (message_of step.1),
        first,
        append_assoc pending,
        ← flatten-filled_lines line lines,
      )
      refl

-- Lines that are not blank, of which exactly the last does not end with a backslash, are logged as
-- one message, behind what was pending, and nothing is pending after it.
pub log_qemu_lines_command :
    (pending : Line) (parts : List Line) (end : Line)
    → all (λ p. not (is_blank p) && is_continued p) parts ≡ true
    → is_blank end ≡ false
    → is_continued end ≡ false
    → log_qemu_lines pending (parts ++ end ∷ []) ≡ ([], (pending ++ flatten parts ++ end) ∷ [])
unfolding log_qemu_lines flatten log_qemu_line all
log_qemu_lines_command [] [] end ps filled ends = rw (filled, ends) refl
log_qemu_lines_command (c ∷ pending) [] end ps filled ends = rw (filled, ends, append-nil) refl
log_qemu_lines_command pending (p ∷ parts) end ps filled ends = elim (Bool-cases (is_blank p)) [
  | inl blank ↦ ground arith
  | inr full ↦ elim (Bool-cases (is_continued p)) [
    | inr ended ↦ ground arith
    | inl continued ↦
        let rest = log_qemu_lines_command (pending ++ p) parts end (ground arith) filled ends in
        rw (full, continued, ← append_assoc pending p) rest
  ]
]
