-- ===== src/Distributed/Ranges.antt =====
-- The ranges of roots are handed out once (enumerator/distributed_mpi.hpp).
use native.Mathlib.Nat.{div-add-mod, mod-lt, div-eq_of_lt}
use parallel_enum.Base.{
  ℕ, zero, suc, ◌+◌, ◌-◌, ◌*◌, ◌/◌, ◌%◌, ◌≤◌, ◌<◌, ◌≡◌, refl, ap, ◌∙◌, true, ◌&&◌, List, [], ◌∷◌,
  none, some, length, ltb, leb, ◌==◌, ==_iff, if◌then◌else◌, arith, Each, ◌⊎◌, inl, inr, Bool-cases,
}
use parallel_enum.Distributed.{static_ranges, static_partition, master_ranges, clamp}

-- How many of the ranges hold the root `v`.
abbrev pub times_in : ℕ → List (ℕ × ℕ) → ℕ
times_in v [] = 0
times_in v (r ∷ rs) = (if leb r.0 v && ltb v r.1 then 1 else 0) + times_in v rs

-- Each range has `size` roots, or one more.
abbrev pub IsBalanced : ℕ → List (ℕ × ℕ) → Type 0
IsBalanced size = Each (λ r. (r.1 ≡ r.0 + size) ⊎ (r.1 ≡ r.0 + size + 1))

suc_mul : (n r : ℕ) → suc n * r ≡ r + n * r
suc_mul n r = grind arith

static_ranges-times_in :
    (v workers r surplus start : ℕ)
    → surplus ≤ workers
    → times_in v (static_ranges workers r surplus start)
      ≡ (if leb start v && ltb v (start + (workers * r + surplus)) then 1 else 0)
unfolding static_ranges
static_ranges-times_in v zero r surplus start le = ground arith
static_ranges-times_in v (suc workers) r surplus start le =
    let total = suc_mul workers r in
    elim (Bool-cases (ltb 0 surplus)) [
      | inl more ↦
          let rest =
            static_ranges-times_in v workers r (surplus - 1) (start + r + 1) (omega arith) in
          rw more (ground arith)
      | inr no_more ↦
          let rest = static_ranges-times_in v workers r (surplus - 1) (start + r) (omega arith) in
          rw no_more (ground arith)
    ]

length-static_ranges :
    (workers r surplus start : ℕ) → length (static_ranges workers r surplus start) ≡ workers
unfolding static_ranges
length-static_ranges zero r surplus start = refl
length-static_ranges (suc workers) r surplus start =
    ap suc (length-static_ranges workers r (surplus - 1) _)

static_ranges-IsBalanced :
    (workers r surplus start : ℕ) → IsBalanced r (static_ranges workers r surplus start)
unfolding static_ranges
static_ranges-IsBalanced zero r surplus start = tt
static_ranges-IsBalanced (suc workers) r surplus start =
    let rest = static_ranges-IsBalanced workers r (surplus - 1) in
    elim (Bool-cases (ltb 0 surplus)) [
      | inl more ↦ rw more (inr refl, rest (start + r + 1))
      | inr no_more ↦ rw no_more (inl refl, rest (start + r))
    ]

-- With at least one process, static partitioning gives as many ranges as there are processes, each
-- root is in exactly one of them, and each has `maxRoots / numWorkers` roots or one more.
pub static_partition-times_in :
    (max_roots workers : ℕ)
    → 1 ≤ workers
    → ((v : ℕ)
        → times_in v (static_partition max_roots workers) ≡ (if ltb v max_roots then 1 else 0))
      × (length (static_partition max_roots workers) ≡ workers)
      × IsBalanced (max_roots / workers) (static_partition max_roots workers)
unfolding static_partition
static_partition-times_in max_roots workers pos =
    let r = max_roots / workers in
    let s = max_roots % workers in
    let whole : workers * r + s ≡ max_roots = div-add-mod max_roots workers in
    let less : s < workers = mod-lt max_roots pos in
    (
      λ v. static_ranges-times_in v workers r s 0 (omega arith) ∙ rw whole (ground arith),
      length-static_ranges workers r s 0,
      static_ranges-IsBalanced workers r s 0,
    )

-- The loop of the master takes all roots below `start`, in ranges that are not empty.
master_ranges-times_in :
    (fuel r start : ℕ)
    → 1 ≤ r
    → start < fuel
    → (rs : List (ℕ × ℕ)) × (master_ranges fuel r start ≡ some rs)
      × ((v : ℕ) → times_in v rs ≡ (if ltb v start then 1 else 0))
      × Each (λ range. (range.0 < range.1) × (range.1 ≤ range.0 + r)) rs
unfolding master_ranges
master_ranges-times_in zero r start pos lt = absurd (omega arith)
master_ranges-times_in (suc fuel) r start pos lt = elim (Bool-cases (ltb 0 start)) [
  | inr stop ↦ rw stop ([], refl, (λ v. ground arith), tt)
  | inl go_on ↦ elim (Bool-cases (leb r start)) [
    | inl full ↦
        let (rs, ends, times, sizes) =
          master_ranges-times_in fuel r (start - r) pos (ground arith) in
        rw (go_on, full, ends)
          (
            (start - r, start - r + r) ∷ rs,
            refl,
            λ v. (let t = times v in ground arith),
            ((omega arith, omega arith), sizes),
          )
    | inr part ↦
        let (rs, ends, times, sizes) = master_ranges-times_in fuel r 0 pos (ground arith) in
        rw (go_on, part, ends)
          (
            (0, start) ∷ rs,
            refl,
            λ v. (let t = times v in ground arith),
            ((ground arith, ground arith), sizes),
          )
  ]
]

-- With no roots for a request the loop goes on for ever.
master_ranges-never : (fuel start : ℕ) → 0 < start → master_ranges fuel 0 start ≡ none
unfolding master_ranges
master_ranges-never zero start pos = refl
master_ranges-never (suc fuel) start pos =
    let rest = master_ranges-never fuel start pos in
    let go_on : ltb 0 start ≡ true = ground arith in
    let same : start - 0 ≡ start = omega arith in
    let down : leb 0 start ≡ true = ground arith in rw (go_on, down, same, rest) refl

clamp_pos :
    (r max_roots workers : ℕ)
    → 1 ≤ r
    → 1 ≤ workers
    → workers ≤ max_roots
    → (1 ≤ clamp r max_roots workers) × (clamp r max_roots workers ≤ r)
unfolding clamp
clamp_pos r max_roots workers pos some_worker enough =
    let q = max_roots / workers in
    let whole : workers * q + max_roots % workers ≡ max_roots = div-add-mod max_roots workers in
    let less : max_roots % workers < workers = mod-lt max_roots some_worker in
    let pos_q : 1 ≤ q = elim (Bool-cases (q == 0)) [
      | inr other ↦ ground arith
      | inl e ↦
          let e' : q ≡ 0 = (==_iff q 0).0 e in
          let gone : workers * q ≡ 0 = ap (λ z. workers * z) e' ∙ omega arith in
          absurd (omega arith)
    ] in
    (ground arith, ground arith)

-- With at least one worker, no more workers than roots and `roots_per_node` at least 1, the loop of
-- `Master::Run` ends within as many rounds as there are roots, and one more. Each root is in
-- exactly one range; the ranges are not empty and have at most the clamped number of roots, which
-- is at most `roots_per_node`.
pub master_ranges-covers :
    (max_roots workers r : ℕ)
    → 1 ≤ workers
    → workers ≤ max_roots
    → 1 ≤ r
    → (rs : List (ℕ × ℕ)) × (master_ranges (suc max_roots) (clamp r max_roots workers) max_roots
        ≡ some rs)
      × ((v : ℕ) → times_in v rs ≡ (if ltb v max_roots then 1 else 0))
      × Each (λ range. (range.0 < range.1) × (range.1 ≤ range.0 + clamp r max_roots workers)) rs
      × (clamp r max_roots workers ≤ r)
master_ranges-covers max_roots workers r some_worker enough pos =
    let (pos', le) = clamp_pos r max_roots workers pos some_worker enough in
    let (rs, ends, times, sizes) =
      master_ranges-times_in (suc max_roots) (clamp r max_roots workers) max_roots pos'
        (omega arith) in
    (rs, ends, times, sizes, le)

-- With fewer roots than workers, at least one root and `roots_per_node` at least 1, the loop of
-- `Master::Run` never ends: no number of rounds is enough.
pub master_ranges-hangs :
    (max_roots workers r fuel : ℕ)
    → 1 ≤ max_roots
    → max_roots < workers
    → 1 ≤ r
    → master_ranges fuel (clamp r max_roots workers) max_roots ≡ none
unfolding clamp
master_ranges-hangs max_roots workers r fuel pos few pos_r =
    let none_each : max_roots / workers ≡ 0 = div-eq_of_lt few in
    let over : ltb (max_roots / workers) r ≡ true = rw none_each (ground arith) in
    rw (over, none_each) (master_ranges-never fuel max_roots pos)
