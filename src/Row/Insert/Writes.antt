-- ===== src/Row/Insert/Writes.antt =====
-- The four writes of `append`, one after the other.
use jet3_rs.Common.{ℕ, ◌+◌, ◌*◌, ◌≤◌, ◌≡◌, arith, List, length, copy_at}
use jet3_rs.Common.Bytes.{to_le_bytes}
use jet3_rs.Common.Results.{done, ◌>>◌}
use jet3_rs.Format.Resource.{ResourceBudget}
use jet3_rs.Format.Resource.Accounting.{HasU64Limits}
use jet3_rs.Format.PageImage.{PageImage}
use jet3_rs.Row.DataPage.{write_slot, write_free}
use jet3_rs.Row.DataPage.Writing.{one_write, write_step, write_then}
use jet3_rs.Row.Insert.{append_writes}

-- The page after the writes.
abbrev pub appended_page : List ℕ → List ℕ → ℕ → ℕ → ℕ → ℕ → List ℕ
appended_page page row start count word new_free =
    copy_at
      (copy_at (copy_at (copy_at page start row) (10 + 2 * count) (to_le_bytes 2 word)) 2
        (to_le_bytes 2 new_free))
      8 (to_le_bytes 2 (count + 1))

pub append_writes-output :
    (row : List ℕ) (start count word new_free : ℕ) (image : PageImage) (budget : ResourceBudget)
    (s : PageImage × ResourceBudget)
    → length image.bytes ≡ 2048
    → HasU64Limits budget.limits
    → start ≤ 2048
    → count ≤ 255
    → append_writes row start count word new_free (image, budget) ≡ done tt s
    → s.0.bytes ≡ appended_page image.bytes row start count word new_free
unfolding append_writes write_slot write_free
append_writes-output row start count word new_free image budget s len u inside few h =
    let entry_at = 10 + 2 * count in
    let number = to_le_bytes 2 (count + 1) in
    let entry = to_le_bytes 2 word in
    let free = to_le_bytes 2 new_free in
    let (s1, v1, e1, h1) =
      write_then start row (write_step entry_at entry >> (write_step 2 free >> write_step 8 number))
        (image, budget) s inside (len, u) h in
    let (s2, v2, e2, h2) =
      write_then entry_at entry (write_step 2 free >> write_step 8 number) s1 s (omega arith) v1
        h1 in
    let (s3, v3, e3, h3) = write_then 2 free (write_step 8 number) s2 s (omega arith) v2 h2 in
    let (_, e4) = one_write 8 number s3 s (omega arith) v3 h3 in
    rw (← e1) (rw (← e2) (rw (← e3) e4))
