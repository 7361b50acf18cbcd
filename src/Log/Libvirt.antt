-- ===== src/Log/Libvirt.antt =====
-- log.go, `LogLibvirtLogLine`: what becomes of one line of libvirt's output.
use maroonedpods.Prelude.{
  ◌≡◌, refl, ◌↔◌, String, Bool, true, false, Option, none, some, List, [], ◌∷◌, ◌++◌, arith, length,
  nat_eq, if◌then◌else◌, Option-cases, Bool-cases, is_some, inl, inr,
}
use Prim.Native.Char.{code}
use maroonedpods.Prelude.Int.{ℤ, pos, ◌≤?◌}
use maroonedpods.Log.Text.{Line, trim_space, to_lower, contains, split_n, line_eq, after_only_colon}

abbrev pub codes : String → Line
codes String.[] = []
codes (String.◌∷◌ c s) = code c ∷ codes s

-- the keys and values that are logged; `pos` and `thread` where the line has them
pub record LibvirtMessage : Type 0 where
  pub level : Line
  pub timestamp : Option Line
  pub position : Option Line
  pub thread : Option Line
  pub msg : Line

pub data Outcome : Type 0 where
  skipped panicked : Outcome
  logged : LibvirtMessage → Outcome

-- `time.Parse` with the timestamp in the layout of the log, and whether `strconv.Atoi` accepts
module _ (parse_time : Line → Option Line) (atoi_accepts : Line → Bool) where
  is_position : Line → Bool
  is_position position = elim (after_only_colon position) [
    | none ↦ false
    | some line_number ↦ atoi_accepts line_number
  ]

  -- the branch on `isPos`
  written : Line → Line → Line → Line → Line → Line → Outcome
  unfolding is_position
  written severity t thread f3 f4 msg =
      let position = trim_space f3 in
      if is_position position
      then logged (record {
        level = severity;
        timestamp = some t;
        position = some position;
        thread = some thread;
        msg = msg;
      })
      else logged (record {
        level = severity;
        timestamp = some t;
        position = none;
        thread = some thread;
        msg = trim_space (f3 ++ codes ": " ++ f4);
      })

  -- from the timestamp on; `fragments[4]` of four fragments panics
  on_fragments : ℤ → Line → Line → Line → Line → List Line → Outcome
  unfolding written
  on_fragments verbosity f0 f1 f2 f3 rest =
      let lowered = to_lower (trim_space f2) in
      let severity = if line_eq lowered (codes "debug") then codes "info" else lowered in
      elim (parse_time (trim_space f0)) [
        | none ↦ skipped
        | some t ↦ elim rest [
          | [] ↦ panicked
          | f4 ∷ _ ↦
              let msg = trim_space f4 in
              if contains msg (codes "unable to execute QEMU agent command")
              then if pos 4 ≤? verbosity
                then written (codes "warning") t (trim_space f1) f3 f4 msg
                else skipped
              else written severity t (trim_space f1) f3 f4 msg
        ]
      ]

  by_fragments : ℤ → Line → List Line → Outcome
  unfolding on_fragments
  by_fragments verbosity line (f0 ∷ f1 ∷ f2 ∷ f3 ∷ rest) = on_fragments verbosity f0 f1 f2 f3 rest
  by_fragments verbosity line _ = logged (record {
    level = codes "info";
    timestamp = none;
    position = none;
    thread = none;
    msg = line;
  })

  -- the line's outcome under the verbosity of the logger
  unfoldable pub log_libvirt_line : ℤ → Line → Outcome
  unfolding by_fragments
  log_libvirt_line verbosity line =
      if nat_eq (length (trim_space line)) 0
      then skipped
      else by_fragments verbosity line (split_n 4 line)

  -- a line that is not blank, with a timestamp that parses and exactly three times ": "
  pub data Short (line : Line) : Type 0 where
    short :
        (f0 f1 f2 f3 t : Line)
        → nat_eq (length (trim_space line)) 0 ≡ false
        → split_n 4 line ≡ f0 ∷ f1 ∷ f2 ∷ f3 ∷ []
        → parse_time (trim_space f0) ≡ some t
        → Short line

  Short-panics :
      (verbosity : ℤ) (line : Line) → Short line → log_libvirt_line verbosity line ≡ panicked
  unfolding log_libvirt_line
  Short-panics verbosity line (short f0 f1 f2 f3 t filled split parsed) = ground arith

  on_fragments-panics :
      (verbosity : ℤ) (f0 f1 f2 f3 : Line) (rest : List Line)
      → on_fragments verbosity f0 f1 f2 f3 rest ≡ panicked
      → (rest ≡ []) × (is_some (parse_time (trim_space f0)) ≡ true)
  unfolding on_fragments
  on_fragments-panics verbosity f0 f1 f2 f3 [] h = ground arith
  on_fragments-panics verbosity f0 f1 f2 f3 (f4 ∷ rest) h = ground arith

  split-Short :
      (verbosity : ℤ) (line : Line) (fragments : List Line)
      → nat_eq (length (trim_space line)) 0 ≡ false
      → split_n 4 line ≡ fragments
      → by_fragments verbosity line fragments ≡ panicked
      → Short line
  unfolding by_fragments
  split-Short verbosity line [] filled split h = ground arith
  split-Short verbosity line (f0 ∷ []) filled split h = ground arith
  split-Short verbosity line (f0 ∷ f1 ∷ []) filled split h = ground arith
  split-Short verbosity line (f0 ∷ f1 ∷ f2 ∷ []) filled split h = ground arith
  split-Short verbosity line (f0 ∷ f1 ∷ f2 ∷ f3 ∷ rest) filled split h =
      let (none_left, parsed) = on_fragments-panics verbosity f0 f1 f2 f3 rest h in
      elim (Option-cases (parse_time (trim_space f0))) [
        | inl e ↦ ground arith
        | inr (t, e) ↦ short f0 f1 f2 f3 t filled (ground arith) e
      ]

  -- The logger panics on a line exactly if the line is not blank, splits into four fragments, and
  -- begins with a timestamp that parses.
  pub log_libvirt_line_panics_iff :
      (verbosity : ℤ) (line : Line) → (log_libvirt_line verbosity line ≡ panicked) ↔ Short line
  unfolding log_libvirt_line
  log_libvirt_line_panics_iff verbosity line = (
    λ h. elim (Bool-cases (nat_eq (length (trim_space line)) 0)) [
      | inl blank ↦ ground arith
      | inr filled ↦ split-Short verbosity line (split_n 4 line) filled refl (ground arith)
    ],
    Short-panics verbosity line,
  )
