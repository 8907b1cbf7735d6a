-- ===== src/Metrics/Histogram.antt =====
-- The latency histogram (src/metrics.rs `Histogram`).
use pgfs.Prelude.{
  ℕ, zero, suc, ◌+◌, ◌/◌, ◌-◌, ◌≤◌, ◌<◌, ◌≡◌, ◌∙◌, refl, ◌&&◌, Option, none, some, List, [], ◌∷◌,
  arith, leb, nat_beq, if◌then◌else◌, add64, get_or, mul64, ltb, length, inl, inr, Bool-cases,
  u64_mod, Bool, ◌||◌,
}

abbrev pub histo_thresholds : List ℕ
histo_thresholds = 10 ∷ 100 ∷ 1000 ∷ 10000 ∷ 100000 ∷ 1000000 ∷ []

abbrev pub histo_buckets : ℕ
histo_buckets = 7

-- `HISTO_THRESHOLDS.iter().position(|&t| us <= t).unwrap_or(HISTO_BUCKETS - 1)`, counted from `i`.
unfoldable pub bucket_from : ℕ → ℕ → List ℕ → ℕ
bucket_from us i [] = i
bucket_from us i (t ∷ ts) = let later = bucket_from us (i + 1) ts in if leb us t then i else later

unfoldable pub bump : List ℕ → ℕ → List ℕ
bump [] i = []
bump (c ∷ cs) zero = add64 c 1 ∷ cs
bump (c ∷ cs) (suc i) = c ∷ bump cs i

-- `Histogram::record`
unfoldable pub record_us : ℕ → List ℕ → List ℕ
unfolding bucket_from bump
record_us us counts = bump counts (bucket_from us 0 histo_thresholds)

abbrev pub empty : List ℕ
empty = 0 ∷ 0 ∷ 0 ∷ 0 ∷ 0 ∷ 0 ∷ 0 ∷ []

-- `s.iter().sum()`, from `acc` on
unfoldable pub total_from : ℕ → List ℕ → ℕ
total_from acc [] = acc
total_from acc (c ∷ cs) = total_from (add64 acc c) cs

pub record Percentiles : Type 0 where
  pub total : ℕ
  pub p50 : ℕ
  pub p95 : ℕ
  pub p99 : ℕ

-- `if **done == 0 && cum >= *target { **done = i }`
unfoldable pub mark : ℕ → ℕ → ℕ → ℕ → ℕ
mark i cum target done = if nat_beq done 0 && leb target cum then i else done

-- The loop of `summary` for one target, from bucket `i` on.
unfoldable pub scan : ℕ → ℕ → List ℕ → ℕ → ℕ → ℕ
unfolding mark
scan i cum [] target done = done
scan i cum (c ∷ cs) target done =
    scan (i + 1) (add64 cum c) cs target (mark i (add64 cum c) target done)

-- The numbers that `Histogram::summary` prints; `none` is the text for no samples.
unfoldable pub summary : List ℕ → Option Percentiles
unfolding total_from scan
summary counts =
    let total = total_from 0 counts in
    if nat_beq total 0
    then none
    else some (record {
      total = total;
      p50 = scan 0 0 counts (mul64 total 50 / 100) 0;
      p95 = scan 0 0 counts (mul64 total 95 / 100) 0;
      p99 = scan 0 0 counts (mul64 total 99 / 100) 0;
    })

-- The number of samples.
unfoldable pub sum : List ℕ → ℕ
sum [] = 0
sum (c ∷ cs) = c + sum cs

-- The bucket of a duration: the first whose threshold it does not pass.
pub record IsBucket (us b : ℕ) : Type 0 where
  pub in_range : b < histo_buckets
  pub within : b < 6 → us ≤ get_or histo_thresholds b 0
  pub above : 0 < b → get_or histo_thresholds (b - 1) 0 < us

bucket_from-IsBucket : (us : ℕ) → IsBucket us (bucket_from us 0 histo_thresholds)
unfolding bucket_from
bucket_from-IsBucket us = ground arith

get_or-bump :
    (cs : List ℕ) (i j : ℕ)
    → i < length cs
    → sum cs + 1 < u64_mod
    → get_or (bump cs i) j 0 ≡ (if nat_beq i j then get_or cs j 0 + 1 else get_or cs j 0)
unfolding bump sum
get_or-bump [] i j h k = absurd (omega arith)
get_or-bump (c ∷ cs) zero zero h k = ground arith
get_or-bump (c ∷ cs) zero (suc j) h k = ground arith
get_or-bump (c ∷ cs) (suc i) zero h k = ground arith
get_or-bump (c ∷ cs) (suc i) (suc j) h k = ground (arith, get_or-bump cs i j)

sum-bump :
    (cs : List ℕ) (i : ℕ) → i < length cs → sum cs + 1 < u64_mod → sum (bump cs i) ≡ sum cs + 1
unfolding bump sum
sum-bump [] i h k = absurd (omega arith)
sum-bump (c ∷ cs) zero h k = ground arith
sum-bump (c ∷ cs) (suc i) h k = ground (arith, sum-bump cs i)

-- Recording a duration adds one to the count of its bucket, leaves the other counts, and so adds one
-- sample, as long as the number of samples fits a `u64`.
record_us_lem :
    (us : ℕ) (counts : List ℕ)
    → length counts ≡ histo_buckets
    → sum counts + 1 < u64_mod
    → (b : ℕ) × IsBucket us b
      × ((j : ℕ)
          → get_or (record_us us counts) j 0
            ≡ (if nat_beq b j then get_or counts j 0 + 1 else get_or counts j 0))
      × (sum (record_us us counts) ≡ sum counts + 1)
unfolding record_us
record_us_lem us counts h k =
    let b = bucket_from us 0 histo_thresholds in
    let v = bucket_from-IsBucket us in
    let fits : b < length counts = omega (arith, v.in_range) in
    (b, v, λ j. get_or-bump counts b j fits k, sum-bump counts b fits k)

scan_done :
    (i cum : ℕ) (cs : List ℕ) (target done : ℕ) → 0 < done → scan i cum cs target done ≡ done
unfolding scan
scan_done i cum [] target done h = refl
scan_done i cum (c ∷ cs) target done h =
    ground (arith, scan_done (i + 1) (add64 cum c) cs target done)

-- Past the first bucket, the loop ends with a bucket past the first: the last one brings the count up
-- to any target that the total, which wraps as the count does, is not below.
scan_positive :
    (i cum c : ℕ) (cs : List ℕ) (target : ℕ)
    → 0 < i
    → target ≤ total_from cum (c ∷ cs)
    → 0 < scan i cum (c ∷ cs) target 0
unfolding scan total_from
scan_positive i cum c [] target h fits = ground arith
scan_positive i cum c (c' ∷ cs) target h fits = elim (Bool-cases (leb target (add64 cum c))) [
  | inl hit ↦ ground (arith, scan_done (i + 1) (add64 cum c) (c' ∷ cs) target i h)
  | inr miss ↦ ground (arith, scan_positive (i + 1) (add64 cum c) c' cs target (omega arith) fits)
]

scan-skips_first :
    (c₀ c₁ : ℕ) (cs : List ℕ) (target : ℕ)
    → target ≤ total_from 0 (c₀ ∷ c₁ ∷ cs)
    → 0 < scan 0 0 (c₀ ∷ c₁ ∷ cs) target 0
unfolding scan total_from
scan-skips_first c₀ c₁ cs target h =
    ground (arith, scan_positive 1 (add64 0 c₀) c₁ cs target (omega arith) h)

-- Whatever was recorded, no percentile of a summary is the first bucket: with all samples in it, the
-- summary still names a later one.
pub summary-skips_first :
    (counts : List ℕ) (p : Percentiles)
    → length counts ≡ histo_buckets
    → summary counts ≡ some p
    → (0 < p.p50) × (0 < p.p95) × (0 < p.p99)
unfolding summary
summary-skips_first [] p h e = absurd (omega arith)
summary-skips_first (c₀ ∷ []) p h e = absurd (omega arith)
summary-skips_first (c₀ ∷ c₁ ∷ cs) p h e =
    let total = total_from 0 (c₀ ∷ c₁ ∷ cs) in
    let a = scan-skips_first c₀ c₁ cs (mul64 total 50 / 100) (omega arith) in
    let b = scan-skips_first c₀ c₁ cs (mul64 total 95 / 100) (omega arith) in
    let c = scan-skips_first c₀ c₁ cs (mul64 total 99 / 100) (omega arith) in
    (ground (arith, a), ground (arith, b), ground (arith, c))

-- `Histogram::record` for each of some durations.
abbrev pub record_all : List ℕ → List ℕ → List ℕ
record_all [] counts = counts
record_all (us ∷ ds) counts = record_all ds (record_us us counts)

-- Whether a duration is of the bucket `b`, by the thresholds on both sides of it.
abbrev pub is_in : ℕ → ℕ → Bool
is_in us b =
    (nat_beq b 0 || ltb (get_or histo_thresholds (b - 1) 0) us)
    && (leb 6 b || leb us (get_or histo_thresholds b 0))
    && ltb b histo_buckets

abbrev pub count_in : ℕ → List ℕ → ℕ
count_in b [] = 0
count_in b (us ∷ ds) = (if is_in us b then 1 else 0) + count_in b ds

is_in_lem : (us b : ℕ) → is_in us b ≡ nat_beq (bucket_from us 0 histo_thresholds) b
unfolding bucket_from
is_in_lem us zero = ground arith
is_in_lem us (suc zero) = ground arith
is_in_lem us (suc (suc zero)) = ground arith
is_in_lem us (suc (suc (suc zero))) = ground arith
is_in_lem us (suc (suc (suc (suc zero)))) = ground arith
is_in_lem us (suc (suc (suc (suc (suc zero))))) = ground arith
is_in_lem us (suc (suc (suc (suc (suc (suc b)))))) = ground arith

length-bump : (cs : List ℕ) (i : ℕ) → length (bump cs i) ≡ length cs
unfolding bump
length-bump [] i = refl
length-bump (c ∷ cs) zero = refl
length-bump (c ∷ cs) (suc i) = ground (arith, length-bump cs i)

-- After any durations are recorded in a histogram whose samples, with these, fit a `u64`, each bucket
-- has as many more as there are durations above the threshold before it and not above its own, and
-- all of them together have as many more as there are durations.
pub record_all_lem :
    (ds counts : List ℕ)
    → length counts ≡ histo_buckets
    → sum counts + length ds < u64_mod
    → ((b : ℕ) → get_or (record_all ds counts) b 0 ≡ get_or counts b 0 + count_in b ds)
      × (sum (record_all ds counts) ≡ sum counts + length ds)
unfolding record_us
record_all_lem [] counts h k = ((λ b. ground arith), ground arith)
record_all_lem (us ∷ ds) counts h k =
    let at = bucket_from us 0 histo_thresholds in
    let inside : at < length counts = omega (arith, (bucket_from-IsBucket us).in_range) in
    let one_more = sum-bump counts at inside (omega arith) in
    let (buckets, samples) =
      record_all_lem ds (record_us us counts) (length-bump counts at ∙ h)
        (omega (arith, one_more)) in
    (
      (λ b.
          ground (arith, buckets b, get_or-bump counts at b inside (omega arith), is_in_lem us b)),
      omega (arith, samples, one_more),
    )
