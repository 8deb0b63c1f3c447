-- ===== src/Storage/Upload.antt =====
-- app/storage/seaweed.py: `stream_upload` on every branch.
use native.Mathlib.Nat.{add-zero}
use mathlib.Core.List.{append-nil, append_assoc, flatten}
use rag_ingestion_service.Prelude.{
  List, Text, [], arith, if◌then◌else◌, length, length-append, ltb, nat_eq, option_eq, text_eq, ℕ,
  ◌++◌, ◌+◌, ◌∷◌, ◌≡◌, ◌≤◌,
}
use rag_ingestion_service.Prelude.Result.{ok, err}
use rag_ingestion_service.Errors.{over_limit}
use rag_ingestion_service.Storage.{S3, fill_buffer, stream_upload}
use rag_ingestion_service.Exec.{pure, ◌>>◌}

fill_buffer_lem :
    (limit : ℕ) (chunks : List Text) (written : ℕ) (buffer : Text)
    → written ≤ limit
    → fill_buffer limit chunks written buffer ≡ (
        if ltb limit (written + length (flatten chunks))
        then err (over_limit limit)
        else ok (written + length (flatten chunks), buffer ++ flatten chunks))
unfolding fill_buffer flatten
fill_buffer_lem limit [] written buffer h = ground (arith, append-nil buffer, add-zero written)
fill_buffer_lem limit (chunk ∷ chunks) written buffer h = ground (
  arith,
  fill_buffer_lem limit chunks (written + length chunk) (buffer ++ chunk),
  append_assoc buffer chunk (flatten chunks),
  length-append chunk (flatten chunks),
)

module _ {S : Type 0} (s3 : S3 S) (digest : Text → Text) where
  -- A body of at most `limit` bytes is handed whole to one call of the client's transfer of a file
  -- (which may cut it into parts again), and the result has its length and the digest of all its
  -- bytes, however it was cut into chunks. A longer one raises `ValueError` and the client is not
  -- called.
  pub stream_upload_lem :
      (bucket key : Text) (chunks : List Text) (limit : ℕ) (s : S)
      → let body = flatten chunks in
        stream_upload s3 digest bucket key chunks limit s ≡ (
          if ltb limit (length body)
          then (err (over_limit limit), s)
          else (do
            s3.upload_fileobj bucket key body
            pure (record { key = key; size_bytes = length body; content_hash = digest body }))
              s)
  unfolding stream_upload
  stream_upload_lem bucket key chunks limit s =
      ground (arith, fill_buffer_lem limit chunks 0 [] (omega arith))
