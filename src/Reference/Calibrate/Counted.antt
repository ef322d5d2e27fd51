-- ===== src/Reference/Calibrate/Counted.antt =====
-- What the trials of a calibration add up to.
use os_bench.Reference.Calibrate.Counter.{
  outcomes_of, seen_times, sum, sum-increment, elem-keys-increment, nodup-keys-increment,
  outcomes_of-append, count-outcomes_of-append, lookup_counted,
}
use os_bench.Common.{
  ℕ, zero, suc, ◌+◌, ◌≤◌, String, ◌≡◌, refl, sym, ap, ◌∙◌, Bool, true, false, [], ◌∷◌, ◌++◌, elem,
  elem-append, count, nodup, length, length-append, Option, none, some, keys, lookup, ltb, ltb→lt,
  lt→ltb, arith,
}
use os_bench.Common.Int.{ℤ}
use os_bench.Common.Items.{lookup-sorted_items}
use os_bench.Common.Result.{Result, Error, ok, ◌>>◌, raise_if, >>=-eq-ok, ok-injective}
use os_bench.Common.Sort.{sorted-IsSorted, IsSorted, elem-sorted, nodup-sorted}
use os_bench.Common.Text.{text_leb}
use os_bench.Reference.Documents.{File}
use os_bench.Reference.Calibrate.{
  Laboratory, Tally, TrialRecord, CalibrationDocument, increment, run_trial, run_trials,
  trial_outcome, calibration_document, calibrate_unsynced_outcomes, trials_of, the_file,
}

-- The counts are those of the outcomes in the records, of which there are `done`.
pub record Tallied (done : ℕ) (t : Tally) : Type 0 where
  pub records : length t.trial_records ≡ done
  pub total : sum t.counts ≡ done
  pub counted :
      (k : String) → lookup k t.counts ≡ seen_times (count k (outcomes_of t.trial_records))
  pub seen : (k : String) → elem k (keys t.counts) ≡ elem k (outcomes_of t.trial_records)
  pub distinct : nodup (keys t.counts) ≡ true

add-Tallied :
    (done : ℕ) (t : Tally) (r : TrialRecord)
    → Tallied done t
    → Tallied (done + 1) (record {
      counts = increment r.outcome t.counts;
      trial_records = t.trial_records ++ r ∷ [];
    })
add-Tallied done t r h = record {
  records = length-append t.trial_records (r ∷ []) ∙ ap (λ n. n + 1) h.records;
  total = sum-increment r.outcome t.counts ∙ ap (λ n. n + 1) h.total;
  counted = λ k.
      lookup_counted r.outcome k t.counts (count k (outcomes_of t.trial_records)) (h.counted k)
      ∙ ap seen_times (sym (count-outcomes_of-append k t.trial_records r));
  seen = λ k.
      elem-keys-increment r.outcome k t.counts
      ∙ rw
          (
            outcomes_of-append t.trial_records r,
            elem-append k (outcomes_of t.trial_records) (r.outcome ∷ []),
            h.seen k,
          )
          (ground arith);
  distinct = nodup-keys-increment r.outcome t.counts h.distinct;
}

run_trial-Tallied :
    (lab : Laboratory) (seed index : ℕ) (done : ℕ) (t u : Tally)
    → Tallied done t
    → run_trial lab seed index t ≡ ok u
    → Tallied (done + 1) u
unfolding run_trial
run_trial-Tallied lab seed index done t u h returned =
    let (c, generated, rest) = >>=-eq-ok (lab.generate (seed + index)) _ returned in
    let (o, observed, rest2) = >>=-eq-ok (lab.execute index _) _ rest in
    let (outcome, accepted, last) = >>=-eq-ok (trial_outcome o) _ rest2 in
    let same = ok-injective last in rw (← same) (add-Tallied done t _ h)

run_trials-Tallied :
    (lab : Laboratory) (seed index left done : ℕ) (t u : Tally)
    → Tallied done t
    → run_trials lab seed index left t ≡ ok u
    → Tallied (done + left) u
unfolding run_trials
run_trials-Tallied lab seed index zero done t u h returned =
    let same : t ≡ u = cc returned in
    let nothing : done + 0 ≡ done = omega arith in rw (← same, nothing) h
run_trials-Tallied lab seed index (suc left) done t u h returned =
    let (v, first, rest) = >>=-eq-ok (run_trial lab seed index t) _ returned in
    let e : done + suc left ≡ done + 1 + left = omega arith in
    rw e (
      run_trials-Tallied lab seed (suc index) left (done + 1) v u
        (run_trial-Tallied lab seed index done t v h first) rest)

all-Tallied :
    (lab : Laboratory) (seed n : ℕ) (u : Tally)
    → run_trials lab seed 0 n (record { counts = []; trial_records = [] }) ≡ ok u
    → Tallied n u
all-Tallied lab seed n u ran =
    let nothing : 0 + n ≡ n = omega arith in
    rw (← nothing) (
      run_trials-Tallied lab seed 0 n 0 _ u
        (record {
          records = refl;
          total = refl;
          counted = λ k. refl;
          seen = λ k. refl;
          distinct = refl;
        })
        ran)

-- the parts of a calibration that returned
pub record Calibrated (lab : Laboratory) (trials : ℤ) (profile : String) (d : CalibrationDocument)
    : Type 0 where
  pub enough : ltb (trials_of trials) 2 ≡ false
  pub image : File
  pub image_found : lab.image ≡ some image
  pub payload : File
  pub payload_found : lab.payload ≡ some payload
  pub seed : ℕ
  pub tally : Tally
  pub tallied : Tallied (trials_of trials) tally
  pub document : d ≡ calibration_document profile (trials_of trials) seed image payload tally

the_file-found : (o : Option File) (name : String) (f : File) → the_file o name ≡ ok f → o ≡ some f
the_file-found none name f h = absurd (cc h)
the_file-found (some g) name f h = ap some (ok-injective h)

raise_if-ok :
    {A : Type 0} (bad : Bool) (e : Error) (next : Result A) (a : A)
    → (raise_if bad e >> next) ≡ ok a
    → (bad ≡ false) × (next ≡ ok a)
raise_if-ok true e next a h = absurd (cc h)
raise_if-ok false e next a h = (refl, h)

pub calibrate-Calibrated :
    (lab : Laboratory) (trials : ℤ) (profile : String) (seed : ℕ) (d : CalibrationDocument)
    → calibrate_unsynced_outcomes lab trials profile seed ≡ ok d
    → Calibrated lab trials profile d
unfolding calibrate_unsynced_outcomes
calibrate-Calibrated lab trials profile seed d returned =
    let (enough, second) = raise_if-ok _ _ _ d returned in
    let (named, third) = raise_if-ok _ _ _ d second in
    let (image, image_read, fourth) = >>=-eq-ok (the_file lab.image "image") _ third in
    let (payload, payload_read, fifth) = >>=-eq-ok (the_file lab.payload "payload") _ fourth in
    let (known, sixth) = raise_if-ok _ _ _ d fifth in
    let (tally, ran, last) = >>=-eq-ok (run_trials lab seed 0 (trials_of trials) _) _ sixth in
    record {
      enough = enough;
      image = image;
      image_found = the_file-found lab.image "image" image image_read;
      payload = payload;
      payload_found = the_file-found lab.payload "payload" payload payload_read;
      seed = seed;
      tally = tally;
      tallied = all-Tallied lab seed (trials_of trials) tally ran;
      document = sym (ok-injective last);
    }

document-counts :
    (profile : String) (n seed : ℕ) (image payload : File) (t : Tally)
    → ltb n 2 ≡ false
    → Tallied n t
    → let d = calibration_document profile n seed image payload t in
      (length d.trials ≡ n)
      × (2 ≤ n)
      × ((k : String) → lookup k d.counts ≡ seen_times (count k (outcomes_of d.trials)))
      × ((k : String) → elem k d.outcomes ≡ elem k (outcomes_of d.trials))
      × IsSorted text_leb d.outcomes
      × (nodup d.outcomes ≡ true)
unfolding calibration_document
document-counts profile n seed image payload t enough h = (
  h.records,
  ground (arith, ltb→lt n 2, lt→ltb n 2),
  λ k. lookup-sorted_items k t.counts h.distinct ∙ h.counted k,
  λ k. elem-sorted k (keys t.counts) ∙ h.seen k,
  sorted-IsSorted (keys t.counts),
  nodup-sorted (keys t.counts) h.distinct,
)

-- A calibration that returns is of as many trials as were asked for, at least two. Its counts say how
-- often each outcome came up in the trials, and its outcomes are those
-- that came up, sorted and each once.
pub calibrate_unsynced_outcomes-counts :
    (lab : Laboratory) (trials : ℤ) (profile : String) (seed : ℕ) (d : CalibrationDocument)
    → calibrate_unsynced_outcomes lab trials profile seed ≡ ok d
    → (length d.trials ≡ trials_of trials)
      × (2 ≤ trials_of trials)
      × ((k : String) → lookup k d.counts ≡ seen_times (count k (outcomes_of d.trials)))
      × ((k : String) → elem k d.outcomes ≡ elem k (outcomes_of d.trials))
      × IsSorted text_leb d.outcomes
      × (nodup d.outcomes ≡ true)
calibrate_unsynced_outcomes-counts lab trials profile seed d returned =
    let c = calibrate-Calibrated lab trials profile seed d returned in
    let t = c.tally in
    let h = c.tallied in
    rw c.document (document-counts profile (trials_of trials) c.seed c.image c.payload t c.enough h)
