-- ===== src/Errors.antt =====
-- The exceptions that the service raises or lets through, with their arguments where a handler
-- or a client reads them. A message is a constructor in place of its (Russian) wording.
use rag_ingestion_service.Prelude.{ℕ, Text}
use rag_ingestion_service.Archive.{ArchiveRejected}

-- The `detail` of an HTTPException.
pub data Detail : Type 0 where
  rag_not_found document_not_found icon_not_set import_not_found no_filename : Detail
  name_taken set_too_large not_an_image only_zip user_id_required user_id_not_uuid : Detail
  bucket_not_found : Text → Detail
  no_objects : Text → Detail
  too_many_sets nothing_accepted icon_too_large file_too_large : ℕ → Detail
  unsupported_suffix : Text → Detail
  bad_icon_type : Detail

pub data Exception : Type 0 where
  http_exception : ℕ → Detail → Exception
  -- botocore's ClientError
  client_error : Exception
  -- SQLAlchemy's IntegrityError
  integrity_error : Exception
  -- `ValueError`: as many chunks as vectors were expected
  lengths_differ : ℕ → ℕ → Exception
  -- `ValueError`: `stream_upload` over its limit
  over_limit : ℕ → Exception
  archive_rejected : ArchiveRejected → Exception
  -- any other exception of a library
  unexpected : Text → Exception
