-- ===== src/Lib.antt =====
-- The RAG ingestion service: the code under app/ that takes documents into sets, cuts them into
-- chunks and keeps the chunks in a search index.
--
-- A document comes in by an upload, from a zip archive, from a prefix of the staging bucket, or as
-- a reference to an object of a foreign bucket. Its row stands in the tables, its object in the
-- object store, its chunks in the index, and a task in Redis has a worker ingest it: Docling cuts
-- it into chunks, those whose content the index lacks are embedded, and they are loaded.
--
-- Files, with the code that each is about:
--   Settings       app/config.py: the values that the other parts read
--   Archive        app/archive.py: `plan`, with Names, Limits, Entries and Fit about its parts
--   Storage        app/storage/seaweed.py: `ObjectStorage` over an S3 client, `stream_upload`;
--                  Buckets on the buckets of the service; Memory is a client in memory for the
--                  examples
--   BucketImport   app/bucket_import.py: `select` and `drop_known`
--   Models         app/db/models.py: the tables, with their keys, checks and cascades; Integrity,
--                  Writes and Consistency on what its statements keep, Names on the names of the
--                  sets of an owner, Stable the interface of that
--   Migrations     alembic/versions: Versions has the operations of both files, Closed, Reverse and
--                  Undo are about their way back, Rows and Origins about the checks on the rows
--   Repo           app/db/repo.py: the queries and updates
--   Docling        app/docling/client.py and chunk.py: polling, parsing, identity of chunks; Options
--                  and Submit on app/docling/options.py and the requests, Agreement on what both
--                  kinds of requests have in common
--   Embeddings     app/embeddings/base.py: `BaseEmbedder.embed`, and Remote on an embedder behind
--                  the endpoint of app/api/embed.py
--   Search         app/search/loader.py: `OpenSearchLoader` over an OpenSearch client; Calibration
--                  on the check of the scores, over any floating-point numbers
--   Pipeline       app/pipeline.py: `ingest_source` and `ingest_all`; Changes on what they pass
--                  over, Indexed, Ingested and Answers on what an answer of Docling makes of an
--                  index
--   Errors, Exec   the exceptions, and code that changes a state and may raise
--   World          the state that the handlers and the worker share
--   Jobs           app/tasks/jobs.py: Ingest, Register and Purge on the functions of these names,
--                  Archives and Prefixes for the imports, Backed and Counts on the former
--   Api            app/api/rags.py: the handlers for documents, imports and the deletion of sets;
--                  Remote on references to foreign objects, Sets on creating and reading sets,
--                  Updates on changing them and their icons, Creation on what they answer, Access
--                  on who reaches a set, Deletion on the deletion of a set, Schemas on the limits
--                  of app/schemas/rags.py, Internal on app/api/internal.py and app/deps.py, Admin
--                  on app/api/admin.py, Responses on the error answers of app/main.py, Embed on
--                  app/api/embed.py and app/embeddings/http.py, Routes and Routing on the routers,
--                  the two applications and their ports, Startup on `lifespan`, Health on
--                  app/api/health.py
--   Steps          the handlers and the jobs as steps of one transition system on the World: Jobs,
--                  Imports, Handlers, Remote, Removal and Sets on what each of them keeps of the
--                  tables, Invariant on every state that they reach; Additions and Edits on the
--                  handlers that write a set; Quota, Replacement and Limits on the number of sets
--                  of an owner where creations interleave; Changes and Moves on what a step changes for the owners, as moves
--                  of a machine whose state is the view of Repo.Views
--   Prelude        tests, lists, texts, JSON values, dicts and the paths of posixpath and pathlib
--
-- How the code is modelled:
--   A text is a list of code points and a body of bytes is a list too; `lower` acts on ASCII,
--   Latin-1 and Cyrillic. Identifiers and times are numbers, `uuid4` takes the next free one, and
--   the rendering of a UUID is a parameter. `archive_max_ratio` is a whole number and the ratio is
--   compared without division; the floats of a set are in thousandths. The integers of a JSON
--   answer are natural numbers.
--   The S3 and OpenSearch clients, the zip reader, Docling, the embedding model, blake2b and the
--   text of an exception are parameters. The pages of a listing are given whole, where the code
--   asks for them one by one, and `ORDER BY` keeps the order of insertion among equal keys.
--   What a query finds is what the committed tables hold: two requests are modelled one after the
--   other. A violated constraint raises `IntegrityError`; no other failure of the database is
--   modelled.
--   The search for a free name runs on fuel two more than the number of names taken, which is
--   enough since no candidate comes twice; the batches of `embed` on the number of texts; the
--   polling of Docling on a number of rounds, enough where it exceeds the time to the deadline.
--   A step of the system is a whole handler or a whole job; the worker takes documents and jobs
--   from the front of their queues, and time and the store may change between two steps. Steps.Limits
--   cuts the creation of a set into the count of the owner's sets and the insertion, between which
--   other steps run, since the code holds no lock there. A worker that is stopped within a job is not
--   modelled: its document stays in processing.
--   Closing the clients at the end of `ingest_document` has a given outcome and changes nothing; the
--   other jobs are modelled without it. A failed call of `head_object` or `head_bucket` is a
--   `ClientError`; what else these calls may raise is not modelled. The content type of an object is
--   left out.
--   A route has a method and the segments of a path, of which a parameter takes one that is not
--   empty; the JSON of the embedding endpoint carries the numbers of a vector unchanged.
--   A schema is a list of tables and a list of indexes, and the operations of Alembic act on it as
--   Postgres documents it: a name is taken once, a key needs its table, and a table that another
--   one refers to is not dropped. A check that reads a null passes. What pydantic checks of a body
--   is a Boolean test, which the theorems that need it have as a hypothesis.
--
-- Not modelled: the construction of clients, engines and queues, the loading of the models, logging,
-- and the definition of the index, which are calls of other programs; the semaphores of the embedders;
-- `chunk_many` and `BaseDoclingClient.health`, which nothing calls.
mod Prelude
mod Settings
pub mod Archive
pub mod Errors
pub mod Storage
pub mod BucketImport
pub mod Docling
pub mod Embeddings
pub mod Search
pub mod Pipeline
pub mod Models
pub mod Migrations
pub mod Repo
pub mod World
pub mod Jobs
pub mod Api
pub mod Steps
pub mod Exec
