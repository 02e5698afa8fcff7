-- ===== src/Uploads/Reading.antt =====
-- service.py, `_read_bounded_upload`: the loop and what it comes to.
use imghost.Prelude.{ℕ, ◌+◌, ◌≤◌, ◌≡◌, List, [], ◌∷◌, leb, ◌==◌, sum_by, if◌then◌else◌, arith}
use imghost.Http.{ok, raise, http}
use imghost.Uploads.{read_bounded_upload}

-- The chunks up to the first empty one.
unfoldable pub content : List ℕ → List ℕ
content [] = []
content (chunk ∷ chunks) = let rest = content chunks in if chunk == 0 then [] else chunk ∷ rest

abbrev pub sum : List ℕ → ℕ
sum = sum_by (λ n. n)

read_from :
    (max_upload_bytes total : ℕ) (chunks : List ℕ)
    → total ≤ max_upload_bytes
    → read_bounded_upload max_upload_bytes total chunks ≡ (
        if leb (total + sum (content chunks)) max_upload_bytes
        then ok (total + sum (content chunks))
        else raise (http 413 "Upload exceeds V1 size limit."))
unfolding read_bounded_upload content
read_from max total [] h = ground arith
read_from max total (chunk ∷ chunks) h = ground (arith, read_from max (total + chunk) chunks)

-- The loop that reads chunk by chunk, and stops at the first chunk too many, comes to adding up all
-- chunks before the end of the file (an empty one) and comparing the sum with the limit.
pub read_bounded_upload-sum :
    (max_upload_bytes : ℕ) (chunks : List ℕ)
    → read_bounded_upload max_upload_bytes 0 chunks ≡ (
        if leb (sum (content chunks)) max_upload_bytes
        then ok (sum (content chunks))
        else raise (http 413 "Upload exceeds V1 size limit."))
read_bounded_upload-sum max chunks = ground (arith, read_from max 0 chunks)
