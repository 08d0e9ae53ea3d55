-- ===== src/Row/Edit/Slots.antt =====
-- The loop over the slots writes their words and nothing else.
use jet3_rs.Common.{
  ℕ, zero, suc, ◌+◌, ◌*◌, ◌≤◌, ◌<◌, ◌≡◌, refl, arith, List, length, copy_at, ◌⊎◌, inl, inr, ◌∙◌,
  get_or-copy_at_below, get_or-copy_at_above,
}
use native.Mathlib.Decide.{dec_lt}
use mathlib.Core.Path.{subst}
use jet3_rs.Common.Bytes.{byte_at, to_le_bytes, u16_at-copy_at}
use jet3_rs.Common.Results.{Result, ok, err, done, ◌>>=◌, lift}
use jet3_rs.Format.Resource.{ResourceBudget}
use jet3_rs.Format.DataPageDirectory.{raw_offset}
use jet3_rs.Format.PageImage.{PageImage}
use jet3_rs.Row.WriteError.{WriteError}
use jet3_rs.Row.DataPage.{write_slot}
use jet3_rs.Row.DataPage.Writing.{IsState, Step, write_then}
use jet3_rs.Row.Edit.{write_slots}

pub with_word :
    (r : Result WriteError ℕ) (k : ℕ → Step) (s s' : PageImage × ResourceBudget)
    → (lift r >>= k) s ≡ done tt s'
    → (w : ℕ) × (r ≡ ok w) × (k w s ≡ done tt s')
with_word (ok w) k s s' h = (w, refl, h)
with_word (err x) k s s' h = cc h

-- The slots from `first` to before `last` hold their words, and the other bytes are as they were.
abbrev pub SlotsWritten : (ℕ → Result WriteError ℕ) → ℕ → ℕ → List ℕ → List ℕ → Type 0
SlotsWritten word_of first last page after =
    ((k : ℕ)
      → first ≤ k
      → k < last
      → (w : ℕ) × (word_of k ≡ ok w) × ((w < 65536) → raw_offset after k ≡ w))
    × ((i : ℕ) → (i < 10 + 2 * first) ⊎ (10 + 2 * last ≤ i) → byte_at after i ≡ byte_at page i)

module _ (word_of : ℕ → Result WriteError ℕ) where
  one_slot :
      (page mid after : List ℕ) (first last w : ℕ)
      → length page ≡ 2048
      → first < last
      → last ≤ 1019
      → mid ≡ copy_at page (10 + 2 * first) (to_le_bytes 2 w)
      → word_of first ≡ ok w
      → SlotsWritten word_of (suc first) last mid after
      → SlotsWritten word_of first last page after
  one_slot page mid after first last w len lt few e here (rest, same) = (
    λ k lo hi. elim (dec_lt first k) [
      | yes p ↦ rest k p hi
      | no p ↦
          let at_first : first ≡ k = omega arith in
          subst (λ k. (w : ℕ) × (word_of k ≡ ok w) × ((w < 65536) → raw_offset after k ≡ w))
            at_first
            (
              w,
              here,
              λ small. omega (
                arith,
                same (10 + 2 * first) (inl (omega arith)),
                same (10 + 2 * first + 1) (inl (omega arith)),
                written small,
              ),
            )
    ],
    λ i outside.
        same i (elim outside [ inl p ↦ inl (omega arith) | inr p ↦ inr p ])
        ∙ unwritten i (elim outside [ inl p ↦ inl p | inr p ↦ inr (omega arith) ]),
  )
    where
      unwritten :
          (i : ℕ) → (i < 10 + 2 * first) ⊎ (12 + 2 * first ≤ i) → byte_at mid i ≡ byte_at page i
      unwritten i (inl p) =
          rw e (get_or-copy_at_below page (10 + 2 * first) (to_le_bytes 2 w) i 0 p)
      unwritten i (inr p) =
          rw e (get_or-copy_at_above page (10 + 2 * first) (to_le_bytes 2 w) i 0 (omega arith))

      written : w < 65536 → raw_offset mid first ≡ w
      written small = rw e (u16_at-copy_at page (10 + 2 * first) w (omega arith) small)

  pub write_slots-output :
      (left first : ℕ) (s s' : PageImage × ResourceBudget)
      → first + left ≤ 1019
      → IsState s
      → write_slots word_of left first s ≡ done tt s'
      → IsState s' × SlotsWritten word_of first (first + left) s.0.bytes s'.0.bytes
  unfolding write_slots write_slot
  write_slots-output zero first s s' few v h =
      let same : s ≡ s' = cc h in
      rw (← same) (v, ((λ k lo hi. absurd (omega arith)), λ i outside. refl))
  write_slots-output (suc left) first s s' few v h =
      let (w, here, runs) = with_word (word_of first) _ s s' h in
      let (mid, v', e, rest) =
        write_then (10 + 2 * first) (to_le_bytes 2 w) (write_slots word_of left (suc first)) s s'
          (omega arith) v runs in
      let (v'', more) = write_slots-output left (suc first) mid s' (omega arith) v' rest in
      let next : suc first + left ≡ first + suc left = omega arith in
      (
        v'',
        one_slot s.0.bytes mid.0.bytes s'.0.bytes first (first + suc left) w v.0 (omega arith) few e
            here (rw next at more),
      )
