-- ===== src/Web/BuildLog.antt =====
-- buildlog.go: the bounded sink of one app's deploy output. The mutex makes each method one step.
pub mod Polling
use space_elevator.Base.{
  ℕ, ◌+◌, ◌-◌, Bool, List, [], ◌∷◌, ◌++◌, ltb, if◌then◌else◌, length, drop, sift, Bytes, is_empty,
}

pub record BuildLogLine : Type 0 where
  pub seq : ℕ
  pub text : Bytes
  pub stage : Bytes

pub record BuildLog : Type 0 where
  pub lines : List BuildLogLine
  pub seq : ℕ

abbrev pub build_log_max : ℕ
build_log_max = 500

abbrev pub empty_log : BuildLog
empty_log = record { lines = []; seq = 0 }

unfoldable pub reset : BuildLog → BuildLog
reset b = record b { lines = [] }

abbrev pub output_line : ℕ → Bytes → BuildLogLine
output_line seq text = record { seq = seq; text = text; stage = [] }

abbrev pub stage_line : ℕ → Bytes → BuildLogLine
stage_line seq stage = record { seq = seq; text = []; stage = stage }

-- `lines[len(lines)-buildLogMax:]`
abbrev pub newest : List BuildLogLine → List BuildLogLine
newest lines =
    if ltb build_log_max (length lines) then drop (length lines - build_log_max) lines else lines

unfoldable pub append : Bytes → BuildLog → BuildLog
append text b =
    if is_empty text
    then b
    else record b { seq = b.seq + 1; lines = newest (b.lines ++ output_line (b.seq + 1) text ∷ []) }

unfoldable pub stage : Bytes → BuildLog → BuildLog
stage s b = record b { seq = b.seq + 1; lines = b.lines ++ stage_line (b.seq + 1) s ∷ [] }

unfoldable pub since : ℕ → BuildLog → List BuildLogLine × ℕ
since after b = (sift (λ l. ltb after l.seq) b.lines, b.seq)
