-- ===== src/Format/Writer/Sequences.antt =====
-- Writes one behind the other: together they write the concatenation.
use jet3_rs.Common.{
  ℕ, zero, suc, ◌+◌, ◌≤◌, ◌≡◌, refl, ap, ◌∙◌, sym, arith, List, [], ◌∷◌, ◌++◌, length,
  length-append, copy_at, length-copy_at,
}
use mathlib.Core.Path.{subst}
use jet3_rs.Common.Results.{done, Op, ◌>>◌, return, on_error}
use jet3_rs.Format.Resource.Charges.{encoded}
use jet3_rs.Format.Resource.Accounting.{Fits}
use jet3_rs.Format.Writer.{BinaryWriter, write_exact}
use jet3_rs.Format.Writer.Writes.{IsWriter, written, write_exact_iff}

-- A write behind another one continues it.
pub copy_at-copy_at {ℓ} :
    {A : Type ℓ} (xs : List A) (offset : ℕ) (ys zs : List A)
    → offset + length ys ≤ length xs
    → copy_at (copy_at xs offset ys) (offset + length ys) zs ≡ copy_at xs offset (ys ++ zs)
unfolding copy_at
copy_at-copy_at [] offset ys zs h = refl
copy_at-copy_at (x ∷ xs) (suc offset) ys zs h =
    let e : suc offset + length ys ≡ suc (offset + length ys) = omega arith in
    rw e (ap (λ t. x ∷ t) (copy_at-copy_at xs offset ys zs (omega arith)))
copy_at-copy_at (x ∷ xs) zero [] zs h = let e : 0 + 0 ≡ 0 = omega arith in rw e refl
copy_at-copy_at (x ∷ xs) zero (y ∷ ys) zs h =
    let e : 0 + length (y ∷ ys) ≡ suc (0 + length ys) = omega arith in
    rw e (ap (λ t. y ∷ t) (copy_at-copy_at xs zero ys zs (omega arith)))

-- Writing nothing.
pub copy_at-nothing {ℓ} : {A : Type ℓ} (xs : List A) (offset : ℕ) → copy_at xs offset [] ≡ xs
unfolding copy_at
copy_at-nothing [] offset = refl
copy_at-nothing (x ∷ xs) (suc offset) = ap (λ t. x ∷ t) (copy_at-nothing xs offset)
copy_at-nothing (x ∷ xs) zero = refl

-- The writer has room and budget for so many bytes.
pub record HasRoom (w : BinaryWriter) (n : ℕ) : Type 0 where
  pub writer : IsWriter w
  pub fits : w.position + n ≤ w.capacity
  pub allowed : Fits (encoded n) w.budget

written-HasRoom :
    (w : BinaryWriter) (bytes : List ℕ) (n : ℕ)
    → HasRoom w (length bytes + n)
    → HasRoom (written bytes w) n
written-HasRoom w bytes n h =
    let v = h.writer in
    let f = h.fits in
    let a = h.allowed in
    record {
      writer = record {
        same_capacity = v.same_capacity ∙ sym (length-copy_at w.output w.position bytes);
        inside = omega arith;
        capacity_u64 = v.capacity_u64;
        limits_u64 = v.limits_u64;
      };
      fits = omega arith;
      allowed = (omega (arith, a.0), omega (arith, a.1));
    }

written-written :
    (w : BinaryWriter) (ys zs : List ℕ)
    → HasRoom w (length ys)
    → written zs (written ys w) ≡ written (ys ++ zs) w
written-written w ys zs h =
    let v = h.writer in
    let f = h.fits in
    ground (
      arith,
      copy_at-copy_at w.output w.position ys zs (omega (arith, v.same_capacity)),
      length-append ys zs,
    )

-- An operation that writes these bytes wherever there is room for them.
abbrev pub Writes {ℓ} : {E : Type ℓ} → Op E BinaryWriter (Unit {0}) → List ℕ → Type ℓ
Writes m bytes = (w : BinaryWriter) → HasRoom w (length bytes) → m w ≡ done tt (written bytes w)

pub write_exact-Writes : (bytes : List ℕ) → Writes (write_exact bytes) bytes
write_exact-Writes bytes w h =
    (write_exact_iff bytes w (written bytes w) h.writer).1 (h.fits, h.allowed, refl)

pub then-Writes {ℓ} :
    {E : Type ℓ} {m k : Op E BinaryWriter (Unit {0})} (ys zs : List ℕ)
    → Writes m ys
    → Writes k zs
    → Writes (m >> k) (ys ++ zs)
then-Writes {m = m} {k} ys zs first second w h =
    let all = subst (λ n. HasRoom w n) (length-append ys zs) h in
    let v = all.writer in
    let f = all.fits in
    let a = all.allowed in
    let here : HasRoom w (length ys) = record {
      writer = v;
      fits = omega arith;
      allowed = (omega (arith, a.0), omega (arith, a.1));
    } in
    let there = written-HasRoom w ys (length zs) all in
    rw (first w here) (second (written ys w) there ∙ ap (done tt) (written-written w ys zs here))

-- An operation that writes nothing.
pub nothing-Writes {ℓ} : {E : Type ℓ} → Writes {E = E} (return tt) []
nothing-Writes w h =
    let v = h.writer in let f = h.fits in ground (arith, copy_at-nothing w.output w.position)

pub on_error-Writes {ℓ κ} :
    {E : Type ℓ} {F : Type κ} {m : Op E BinaryWriter (Unit {0})} (g : E → F) (bytes : List ℕ)
    → Writes m bytes
    → Writes (λ w. on_error g (m w)) bytes
on_error-Writes g bytes writes w h = ap (on_error g) (writes w h)
