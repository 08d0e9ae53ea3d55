-- ===== src/Row/DataPage/Writing.antt =====
-- Sequences of writes into the copy of a page.
use jet3_rs.Common.{ℕ, ◌≤◌, ◌≡◌, refl, List, length, copy_at, length-copy_at, ap, sym, ◌∙◌}
use jet3_rs.Common.Results.{Outcome, done, fail, on_error, continue, Op, ◌>>◌}
use jet3_rs.Format.Error.{Error}
use jet3_rs.Format.Resource.{ResourceBudget}
use jet3_rs.Format.Resource.Accounting.{HasU64Limits}
use jet3_rs.Format.PageImage.{PageImage, write_at}
use jet3_rs.Format.PageImage.WriteAt.{write_at-output, write_at-limits}
use jet3_rs.Row.WriteError.{WriteError, resource}

-- An image of a page's size and limits that are `u64` values.
abbrev pub IsState : PageImage × ResourceBudget → Type 0
IsState s = (length s.0.bytes ≡ 2048) × HasU64Limits s.1.limits

pub on_error-done :
    (o : Outcome Error (PageImage × ResourceBudget) (Unit {0})) (s : PageImage × ResourceBudget)
    → on_error resource o ≡ done tt s
    → o ≡ done tt s
on_error-done (done t s') s h = cc h
on_error-done (fail e s') s h = cc h

pub one_write :
    (offset : ℕ) (bytes : List ℕ) (s s' : PageImage × ResourceBudget)
    → offset ≤ 2048
    → IsState s
    → on_error resource (write_at offset bytes s) ≡ done tt s'
    → IsState s' × (s'.0.bytes ≡ copy_at s.0.bytes offset bytes)
one_write offset bytes (image, budget) (image', budget') inside (len, u) h =
    let runs = on_error-done (write_at offset bytes (image, budget)) (image', budget') h in
    let out = write_at-output offset bytes image image' budget budget' len inside u runs in
    (
      (
        ap length out ∙ (length-copy_at image.bytes offset bytes ∙ len),
        write_at-limits offset bytes image image' budget budget' len inside u runs,
      ),
      out,
    )

abbrev pub Step : Type 0
Step = Op WriteError (PageImage × ResourceBudget) (Unit {0})

abbrev pub write_step : ℕ → List ℕ → Step
write_step offset bytes s = on_error resource (write_at offset bytes s)

pub sequence-done :
    (m k : Step) (s s' : PageImage × ResourceBudget)
    → (m >> k) s ≡ done tt s'
    → (mid : PageImage × ResourceBudget) × (m s ≡ done tt mid) × (k mid ≡ done tt s')
sequence-done m k s s' h = outcome (m s) refl
  where
    outcome :
        (o : Outcome WriteError (PageImage × ResourceBudget) (Unit {0}))
        → m s ≡ o
        → (mid : PageImage × ResourceBudget) × (m s ≡ done tt mid) × (k mid ≡ done tt s')
    outcome (done t mid) e = (mid, e, sym (ap (λ r. continue r (λ _. k)) e) ∙ h)
    outcome (fail x mid) e = cc (sym (ap (λ r. continue r (λ _. k)) e) ∙ h)

-- A write and what is done after it.
pub write_then :
    (offset : ℕ) (bytes : List ℕ) (k : Step) (s s' : PageImage × ResourceBudget)
    → offset ≤ 2048
    → IsState s
    → (write_step offset bytes >> k) s ≡ done tt s'
    → (mid : PageImage × ResourceBudget) × IsState mid
      × (mid.0.bytes ≡ copy_at s.0.bytes offset bytes)
      × (k mid ≡ done tt s')
write_then offset bytes k s s' inside v h =
    let (mid, first, rest) = sequence-done (write_step offset bytes) k s s' h in
    let (valid, out) = one_write offset bytes s mid inside v first in (mid, valid, out, rest)
