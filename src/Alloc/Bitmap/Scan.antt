-- ===== src/Alloc/Bitmap/Scan.antt =====
-- What `next_set_bit` finds, charges and leaves.
use jet3_rs.Common.{
  ℕ, zero, suc, ◌+◌, ◌-◌, ◌^◌, ◌≤◌, ◌<◌, ◌≡◌, refl, arith, List, Option, some, none, ◌==◌,
  if◌then◌else◌, ◌⊎◌, inl, inr, ◌∙◌, ap,
}
use native.Mathlib.Decide.{dec_lt}
use mathlib.Core.Path.{subst}
use jet3_rs.Common.Results.{Outcome, done, fail}
use jet3_rs.Format.Error.{Error}
use jet3_rs.Format.Resource.{ResourceBudget, charge_items}
use jet3_rs.Format.Resource.Charges.{items, charge}
use jet3_rs.Format.Resource.Accounting.{spend, charge_done, charge_refused}
use jet3_rs.Alloc.Bitmap.{SetBitCursor, SetBitError, resource, scan, next_set_bit}
use jet3_rs.Alloc.Bitmap.Position.{
  bit_at, bit_count, standing_at, advance-standing_at, bit_is_set-bit_at,
}

-- The bits from one place to before another are all clear.
abbrev pub AllClear : List ℕ → ℕ → ℕ → Type 0
AllClear bytes from to = (k : ℕ) → from ≤ k → k < to → bit_at bytes k ≡ 0

-- The budget that has paid for `n` bits.
abbrev pub charged : ResourceBudget → ℕ → ResourceBudget
charged b n = spend (items n) b

-- The outcomes of a search from a bit on: the first set bit, with the cursor behind it; no set bit;
-- or a refused charge, with the cursor at the bit that was refused and only clear bits passed. One
-- item is charged for each bit that was passed.
pub data Search (bytes : List ℕ) (b : ResourceBudget) (from : ℕ)
    : Outcome SetBitError (SetBitCursor × ResourceBudget) (Option ℕ) → Type 0 where
  found :
      (at : ℕ)
      → from ≤ at
      → at < bit_count bytes
      → bit_at bytes at ≡ 1
      → AllClear bytes from at
      → Search bytes b from (done (some at) (standing_at bytes (suc at), charged b (suc at - from)))
  none_left :
      AllClear bytes from (bit_count bytes)
      → Search bytes b from
          (done none (standing_at bytes (bit_count bytes), charged b (bit_count bytes - from)))
  refused :
      (at : ℕ) (e : Error)
      → from ≤ at
      → at < bit_count bytes
      → AllClear bytes from at
      → charge_items 1 (charged b (at - from)) ≡ fail e (charged b (at - from))
      → Search bytes b from (fail (resource e) (standing_at bytes at, charged b (at - from)))

-- One more item is charged, or the charge is refused.
charge_one :
    (b : ResourceBudget) (n : ℕ)
    → (charge_items 1 (charged b n) ≡ done tt (charged b (suc n)))
      ⊎ ((e : Error) × (charge_items 1 (charged b n) ≡ fail e (charged b n)))
unfolding charge
charge_one b n = by_outcome (charge_items 1 (charged b n)) refl
  where
    by_outcome :
        (o : Outcome Error ResourceBudget (Unit {0}))
        → charge_items 1 (charged b n) ≡ o
        → (charge_items 1 (charged b n) ≡ done tt (charged b (suc n)))
          ⊎ ((e : Error) × (charge_items 1 (charged b n) ≡ fail e (charged b n)))
    by_outcome (done t b') e =
        let paid = charge_done (items 1) (charged b n) b' e in
        let same : b' ≡ charged b (suc n) = paid.1 ∙ ground arith in inl (e ∙ ap (done tt) same)
    by_outcome (fail x b') e =
        let same : b' ≡ charged b n = charge_refused (items 1) (charged b n) b' e in
        inr (x, e ∙ ap (fail x) same)

module _ (bytes : List ℕ) (b : ResourceBudget) (small : bit_count bytes < 2 ^ 64) where
  scan_paid :
      (fuel i : ℕ) (paid spent : ResourceBudget)
      → i < bit_count bytes
      → charge_items 1 paid ≡ done tt spent
      → scan (suc fuel) bytes (standing_at bytes i, paid) ≡ (
          if bit_at bytes i == 1
          then done (some i) (standing_at bytes (suc i), spent)
          else scan fuel bytes (standing_at bytes (suc i), spent))
  unfolding scan
  scan_paid fuel i paid spent h e =
      ground (arith, advance-standing_at bytes i small h, bit_is_set-bit_at bytes i)

  scan_refused :
      (fuel i : ℕ) (paid : ResourceBudget) (x : Error)
      → i < bit_count bytes
      → charge_items 1 paid ≡ fail x paid
      → scan (suc fuel) bytes (standing_at bytes i, paid)
        ≡ fail (resource x) (standing_at bytes i, paid)
  unfolding scan
  scan_refused fuel i paid x h e = ground arith

  scan_end :
      (fuel : ℕ) (paid : ResourceBudget)
      → scan fuel bytes (standing_at bytes (bit_count bytes), paid)
        ≡ done none (standing_at bytes (bit_count bytes), paid)
  unfolding scan
  scan_end zero paid = refl
  scan_end (suc fuel) paid = ground arith

  bit_cases : (i : ℕ) → (bit_at bytes i ≡ 1) ⊎ (bit_at bytes i ≡ 0)
  bit_cases i = elim (dec_lt (bit_at bytes i) 1) [
    | yes p ↦ inr (omega arith)
    | no p ↦ inl (omega arith)
  ]

  one_more_clear :
      (from i : ℕ) → AllClear bytes from i → bit_at bytes i ≡ 0 → AllClear bytes from (suc i)
  one_more_clear from i clear e k lo hi = elim (dec_lt k i) [
    | yes p ↦ clear k lo p
    | no p ↦ let same : i ≡ k = omega arith in subst (λ j. bit_at bytes j ≡ 0) same e
  ]

  scan-Search :
      (fuel from i : ℕ)
      → bit_count bytes < i + fuel
      → from ≤ i
      → i ≤ bit_count bytes
      → AllClear bytes from i
      → Search bytes b from (scan fuel bytes (standing_at bytes i, charged b (i - from)))
  scan-Search zero from i enough lo hi clear = absurd (omega arith)
  scan-Search (suc fuel) from i enough lo hi clear = elim (dec_lt i (bit_count bytes)) [
    | no p ↦
        let at_end : i ≡ bit_count bytes = omega arith in
        rw at_end (
          rw (scan_end (suc fuel) (charged b (bit_count bytes - from)))
            (none_left (rw at_end at clear)))
    | yes p ↦ elim (charge_one b (i - from)) [
      | inr (x, e) ↦
          rw (scan_refused fuel i (charged b (i - from)) x p e) (refused i x lo p clear e)
      | inl e ↦
          let next : suc (i - from) ≡ suc i - from = omega arith in
          let runs =
            scan_paid fuel i (charged b (i - from)) (charged b (suc i - from)) p (rw next at e) in
          elim (bit_cases i) [
            | inl set ↦ rw runs (rw set (found i lo p set clear))
            | inr unset ↦ rw runs (
                rw unset (
                  scan-Search fuel from (suc i) (omega arith) (omega arith) p
                    (one_more_clear from i clear unset)))
          ]
    ]
  ]

  -- From any bit of a bitmap of fewer than 2 ^ 64 bits on, `next_set_bit` gives the first set bit and stands behind it, or
  -- gives none when all the bits that are left are clear, or is refused by the budget at a bit that
  -- the cursor still stands at. It charges one item for each bit that it passes, never fails in
  -- another way, and skips no set bit.
  pub next_set_bit-Search :
      (i : ℕ) → i ≤ bit_count bytes → Search bytes b i (next_set_bit bytes (standing_at bytes i, b))
  unfolding next_set_bit
  next_set_bit-Search i h =
      let unpaid : charged b (i - i) ≡ b = ground arith in
      let runs =
        scan-Search (suc (bit_count bytes)) i i (omega arith) (omega arith) h
          (λ k lo hi. absurd (omega arith)) in
      subst
        (λ paid. Search bytes b i (scan (suc (bit_count bytes)) bytes (standing_at bytes i, paid)))
        unpaid runs
