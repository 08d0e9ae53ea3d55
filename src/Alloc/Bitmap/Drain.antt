-- ===== src/Alloc/Bitmap/Drain.antt =====
-- Calls of `next_set_bit` up to the end give the list of the set bits.
use jet3_rs.Common.{
  ℕ, zero, suc, ◌+◌, ◌-◌, ◌^◌, ◌≤◌, ◌<◌, ◌≡◌, refl, arith, List, [], ◌∷◌, Option, some, none, ◌==◌,
  if◌then◌else◌, ◌∙◌,
}
use jet3_rs.Common.Results.{Outcome, done, fail, Op, continue}
use jet3_rs.Format.Error.{Error}
use jet3_rs.Format.Resource.{ResourceBudget, charge_items}
use jet3_rs.Format.Resource.Charges.{items, charge}
use jet3_rs.Format.Resource.Accounting.{Fits, HasU64Limits, charge-Fits}
use jet3_rs.Alloc.Bitmap.{SetBitCursor, SetBitError, new_cursor, next_set_bit}
use jet3_rs.Alloc.Bitmap.Position.{bit_at, bit_count, standing_at}
use jet3_rs.Alloc.Bitmap.Scan.{
  AllClear, charged, Search, found, none_left, refused, next_set_bit-Search,
}

-- `while let Some(bit) = cursor.next_set_bit(...)?`, at most `fuel` times round.
unfoldable pub drain : ℕ → List ℕ → Op SetBitError (SetBitCursor × ResourceBudget) (List ℕ)
drain zero bytes s = done [] s
drain (suc fuel) bytes s = continue (next_set_bit bytes s) λ next s'. elim next [
  | none ↦ done [] s'
  | some i ↦ continue (drain fuel bytes s') (λ more end. done (i ∷ more) end)
]

-- The set bits among `left` bits from `from` on, in ascending order.
unfoldable pub set_bits : List ℕ → ℕ → ℕ → List ℕ
set_bits bytes zero from = []
set_bits bytes (suc left) from =
    let rest = set_bits bytes left (suc from) in
    if bit_at bytes from == 1 then from ∷ rest else rest

set_bits_skip :
    (bytes : List ℕ) (gap left from : ℕ)
    → AllClear bytes from (from + gap)
    → set_bits bytes (gap + left) from ≡ set_bits bytes left (from + gap)
unfolding set_bits
set_bits_skip bytes zero left from clear =
    let e : from + 0 ≡ from = omega arith in
    let f : 0 + left ≡ left = omega arith in rw e (rw f refl)
set_bits_skip bytes (suc gap) left from clear =
    let e : from + suc gap ≡ suc from + gap = omega arith in
    let f : suc gap + left ≡ suc (gap + left) = omega arith in
    let rest =
      set_bits_skip bytes gap left (suc from) (λ k lo hi. clear k (omega arith) (omega arith)) in
    rw e (rw f (ground (arith, clear from, rest)))

-- Over bits that are clear, up to a place.
pub set_bits_clear :
    (bytes : List ℕ) (n from to : ℕ)
    → from ≤ to
    → to ≤ n
    → AllClear bytes from to
    → set_bits bytes (n - from) from ≡ set_bits bytes (n - to) to
set_bits_clear bytes n from to lo hi clear =
    let e : n - from ≡ (to - from) + (n - to) = omega arith in
    let f : from + (to - from) ≡ to = omega arith in
    rw e (rw f at (set_bits_skip bytes (to - from) (n - to) from (rw f clear)))

pub set_bits_here :
    (bytes : List ℕ) (n at : ℕ)
    → at < n
    → bit_at bytes at ≡ 1
    → set_bits bytes (n - at) at ≡ at ∷ set_bits bytes (n - suc at) (suc at)
unfolding set_bits
set_bits_here bytes n at lt set =
    let e : n - at ≡ suc (n - suc at) = omega arith in rw e (ground arith)

module _ (bytes : List ℕ) (b : ResourceBudget) (small : bit_count bytes < 2 ^ 64)
    (u : HasU64Limits b.limits) (room : Fits (items (bit_count bytes)) b) where
  pub charged-charged : (i k : ℕ) → i ≤ k → charged (charged b i) (k - i) ≡ charged b k
  charged-charged i k h = ground arith

  pub never_refused :
      (at : ℕ) (e : Error) (b' : ResourceBudget)
      → at < bit_count bytes
      → ¬ (charge_items 1 (charged b at) ≡ fail e b')
  unfolding charge
  never_refused at e b' h bad =
      let paid = charge-Fits (items 1) (charged b at) u (omega arith, omega arith) in cc (paid, bad)

  pub no_bits_left : set_bits bytes (bit_count bytes - bit_count bytes) (bit_count bytes) ≡ []
  unfolding set_bits
  no_bits_left = let e : bit_count bytes - bit_count bytes ≡ 0 = omega arith in rw e refl

  abbrev rest_of : ℕ → Outcome SetBitError (SetBitCursor × ResourceBudget) (List ℕ)
  rest_of i =
      done (set_bits bytes (bit_count bytes - i) i)
        (standing_at bytes (bit_count bytes), charged b (bit_count bytes))

  drain_round :
      (fuel i : ℕ) (o : Outcome SetBitError (SetBitCursor × ResourceBudget) (Option ℕ))
      → i ≤ bit_count bytes
      → ((at : ℕ)
          → i ≤ at
          → at < bit_count bytes
          → drain fuel bytes (standing_at bytes (suc at), charged b (suc at)) ≡ rest_of (suc at))
      → Search bytes (charged b i) i o
      → next_set_bit bytes (standing_at bytes i, charged b i) ≡ o
      → drain (suc fuel) bytes (standing_at bytes i, charged b i) ≡ rest_of i
  unfolding drain
  drain_round fuel i _ inside later (found at lo hi set clear) e =
      let paid = charged-charged i (suc at) (omega arith) in
      let over = set_bits_clear bytes (bit_count bytes) i at lo (omega arith) clear in
      let here = set_bits_here bytes (bit_count bytes) at hi set in
      rw e (rw paid (rw (later at lo hi) (rw (over ∙ here) refl)))
  drain_round fuel i _ inside later (none_left clear) e =
      let paid = charged-charged i (bit_count bytes) inside in
      let over =
        set_bits_clear bytes (bit_count bytes) i (bit_count bytes) inside (omega arith) clear in
      rw e (rw paid (rw (over ∙ no_bits_left) refl))
  drain_round fuel i _ inside later (refused at x lo hi clear bad) e =
      absurd (never_refused at x (charged b at) hi (rw (charged-charged i at lo) at bad))

  drain_from :
      (fuel i : ℕ)
      → bit_count bytes < i + fuel
      → i ≤ bit_count bytes
      → drain fuel bytes (standing_at bytes i, charged b i) ≡ rest_of i
  drain_from zero i enough inside = absurd (omega arith)
  drain_from (suc fuel) i enough inside =
      drain_round fuel i (next_set_bit bytes (standing_at bytes i, charged b i)) inside
        (λ at lo hi. drain_from fuel (suc at) (omega arith) hi)
        (next_set_bit-Search bytes (charged b i) small i inside) refl

-- On a bitmap of less than 2^64 bits, and with a budget that has room for one item for each of its
-- bits, calls of `next_set_bit` from a new cursor until it gives none return the set bits of the
-- bitmap, each of them once and in ascending order. They charge exactly one item for each bit and
-- leave the cursor at the end.
pub drain-set_bits :
    (bytes : List ℕ) (b : ResourceBudget)
    → bit_count bytes < 2 ^ 64
    → HasU64Limits b.limits
    → Fits (items (bit_count bytes)) b
    → drain (suc (bit_count bytes)) bytes (new_cursor, b)
      ≡ done
          (set_bits bytes (bit_count bytes) 0)
          (standing_at bytes (bit_count bytes), charged b (bit_count bytes))
drain-set_bits bytes b small u room =
    let whole : bit_count bytes - 0 ≡ bit_count bytes = omega arith in
    let unpaid : charged b 0 ≡ b = ground arith in
    let all =
      drain_from bytes b small u room (suc (bit_count bytes)) 0 (omega arith) (omega arith) in
    rw unpaid at (rw whole at all)
