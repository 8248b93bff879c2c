-- ===== src/Model/Verdict.antt =====
-- The verdict and the counts that `Report.to_dict` of src/artifact_proof/model.py prints.
use artifact_proof_lab.Base.{
  ℕ, String, ◌+◌, ◌≡◌, ◌≢◌, refl, ap, ◌↔◌, Bool, true, false, not, some, List, [], ◌∷◌, any, length,
  arith, if◌then◌else◌,
}
use artifact_proof_lab.Json.{Number, Fields, obj, str, get}
use artifact_proof_lab.Model.{
  Status, pass, fail, warn, skip, Finding, Report, is_fail, passed, status, Counts, count_one,
  count_from, counts, number, report_to_dict,
}

abbrev one_if_same : Status → Status → ℕ
one_if_same pass pass = 1
one_if_same fail fail = 1
one_if_same warn warn = 1
one_if_same skip skip = 1
one_if_same _ _ = 0

abbrev fresh : Counts
fresh = record { passes = 0; fails = 0; warns = 0; skips = 0 }

-- How many of the findings have the status.
unfoldable pub tally : Status → List Finding → ℕ
tally s [] = 0
tally s (f ∷ fs) = one_if_same s f.status + tally s fs

-- The numbers go up by the tallies.
abbrev Adds : Counts → List Finding → Counts → Type 0
Adds c fs d =
    (d.passes ≡ c.passes + tally pass fs)
    × (d.fails ≡ c.fails + tally fail fs)
    × (d.warns ≡ c.warns + tally warn fs)
    × (d.skips ≡ c.skips + tally skip fs)

Adds-one :
    (s : Status) (c d : Counts) (p q w k : ℕ)
    → (d.passes ≡ (count_one s c).passes + p)
      × (d.fails ≡ (count_one s c).fails + q)
      × (d.warns ≡ (count_one s c).warns + w)
      × (d.skips ≡ (count_one s c).skips + k)
    → (d.passes ≡ c.passes + (one_if_same pass s + p))
      × (d.fails ≡ c.fails + (one_if_same fail s + q))
      × (d.warns ≡ c.warns + (one_if_same warn s + w))
      × (d.skips ≡ c.skips + (one_if_same skip s + k))
Adds-one pass c d p q w k (a, b, e, f) =
    (omega (arith, a), omega (arith, b), omega (arith, e), omega (arith, f))
Adds-one fail c d p q w k (a, b, e, f) =
    (omega (arith, a), omega (arith, b), omega (arith, e), omega (arith, f))
Adds-one warn c d p q w k (a, b, e, f) =
    (omega (arith, a), omega (arith, b), omega (arith, e), omega (arith, f))
Adds-one skip c d p q w k (a, b, e, f) =
    (omega (arith, a), omega (arith, b), omega (arith, e), omega (arith, f))

count_from-Adds : (c : Counts) (fs : List Finding) → Adds c fs (count_from c fs)
unfolding count_from tally
count_from-Adds c [] = (omega arith, omega arith, omega arith, omega arith)
count_from-Adds c (f ∷ fs) =
    Adds-one f.status c _ (tally pass fs) (tally fail fs) (tally warn fs) (tally skip fs)
      (count_from-Adds (count_one f.status c) fs)

tally-length :
    (fs : List Finding) → tally pass fs + tally fail fs + tally warn fs + tally skip fs ≡ length fs
unfolding tally
tally-length [] = refl
tally-length (f ∷ fs) = ground (arith, tally-length fs)

fails_iff : (fs : List Finding) → (any (λ f. is_fail f.status) fs ≡ false) ↔ (tally fail fs ≡ 0)
unfolding tally
fails_iff [] = (λ e. refl, λ e. refl)
fails_iff (f ∷ fs) =
    let (there, back) = fails_iff fs in (λ e. ground (arith, there), λ e. ground (arith, back))

-- What stands in the printed report of these findings.
pub record IsPrinted (findings : List Finding) (fields summary : Fields Number) : Type 0 where
  pub there : get "summary" fields ≡ some (obj summary)
  pub passes : get "PASS" summary ≡ some (number (tally pass findings))
  pub fails : get "FAIL" summary ≡ some (number (tally fail findings))
  pub warns : get "WARN" summary ≡ some (number (tally warn findings))
  pub skips : get "SKIP" summary ≡ some (number (tally skip findings))
  pub good : tally fail findings ≡ 0 → get "status" fields ≡ some (str "PASS")
  pub bad : tally fail findings ≢ 0 → get "status" fields ≡ some (str "FAIL")

abbrev word : Bool → String
word failed = if not failed then "PASS" else "FAIL"

printed_status :
    (failed : Bool) (n : ℕ)
    → (failed ≡ false) ↔ (n ≡ 0)
    → (n ≡ 0 → word failed ≡ "PASS") × (n ≢ 0 → word failed ≡ "FAIL")
printed_status true n (there, back) = (λ none_left. cc (back none_left), λ some_left. refl)
printed_status false n (there, back) =
    (λ none_left. refl, λ some_left. absurd (some_left (there refl)))

counts-tally :
    (r : Report)
    → ((counts r).passes ≡ tally pass r.findings)
      × ((counts r).fails ≡ tally fail r.findings)
      × ((counts r).warns ≡ tally warn r.findings)
      × ((counts r).skips ≡ tally skip r.findings)
unfolding counts
counts-tally r =
    let (passes, fails, warns, skips) = count_from-Adds fresh r.findings in
    (omega (arith, passes), omega (arith, fails), omega (arith, warns), omega (arith, skips))

-- A printed report says "PASS" if none of its findings has failed, and else "FAIL"; its summary
-- gives under each status how many of its findings have it, and these four numbers add up to the
-- number of its findings.
pub report_counts :
    (r : Report)
    → (fields : Fields Number) × (summary : Fields Number) × (report_to_dict r ≡ obj fields)
      × IsPrinted r.findings fields summary
      × (tally pass r.findings
            + tally fail r.findings
            + tally warn r.findings
            + tally skip r.findings
          ≡ length r.findings)
unfolding report_to_dict status passed get
report_counts r =
    let (passes, fails, warns, skips) = counts-tally r in
    let (good, bad) =
      printed_status (any (λ f. is_fail f.status) r.findings) (tally fail r.findings)
        (fails_iff r.findings) in
    (
      _,
      _,
      refl,
      record {
        there = refl;
        passes = ap (λ n. some (number n)) passes;
        fails = ap (λ n. some (number n)) fails;
        warns = ap (λ n. some (number n)) warns;
        skips = ap (λ n. some (number n)) skips;
        good = λ none_left. ap (λ s. some (str s)) (good none_left);
        bad = λ some_left. ap (λ s. some (str s)) (bad some_left);
      },
      tally-length r.findings,
    )
