-- ===== src/Reporter.antt =====
-- reporter/: what is counted is told to every reporter. A reporter is the list of what it was told.
use nbagent.Base.{ℕ, ◌-◌, ◌/◌, List, [], ◌∷◌, ◌++◌, Text, map}

-- The numbers are those that follow the names; a reporter has a default for those left out.
pub data Report : Type 0 where
  counted : Text → List ℕ → Report
  resulted : Text → Text → List ℕ → Report
  lasted : Text → ℕ → List ℕ → Report

abbrev pub Reporters : Type 0
Reporters = List (List Report)

abbrev pub tell : Report → Reporters → Reporters
tell report = map (λ told. told ++ (report ∷ []))

unfoldable pub count : Text → List ℕ → Reporters → Reporters
count key counts rs = tell (counted key counts) rs

unfoldable pub result : Text → Text → List ℕ → Reporters → Reporters
result key sz_result numbers rs = tell (resulted key sz_result numbers) rs

unfoldable pub duration : Text → ℕ → List ℕ → Reporters → Reporters
duration key time counts rs = tell (lasted key time counts) rs

unfoldable pub register : List Report → Reporters → Reporters
register reporter rs = rs ++ (reporter ∷ [])

-- reporter/report_helper.go: the name and the time of the start; times are nanoseconds.
pub record AutoReportHelper : Type 0 where
  pub key : Text
  pub start : ℕ

abbrev pub new_auto_report_helper : ℕ → Text → AutoReportHelper
new_auto_report_helper now key = record { key = key; start = now }

unfoldable pub report : ℕ → AutoReportHelper → Text → Reporters → Reporters
unfolding result
report now helper sz_result rs =
    result helper.key sz_result ((now - helper.start) / 1000 ∷ 1 ∷ []) rs
