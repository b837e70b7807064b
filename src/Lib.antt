-- ===== src/Lib.antt =====
-- notifications-template-preview: the checking and rewriting of letters in PDF, and their previews.
--
-- The service takes PDFs that a sender made ("precompiled" letters and attachments) and letters that
-- are made from a template. A precompiled file is checked page by page, its address block is read,
-- checked, blanked and printed again, colours and fonts are normalised, and a "NOTIFY" tag is added.
-- Celery tasks read files from S3, run these steps, and put the results into buckets and messages
-- on a queue. HTTP endpoints draw previews of letters and of single pages, behind a cache in S3.
--
-- The files, and what they model:
--   Prelude: tests, lists and integers that all parts share.
--   Python: exceptions as values and the Result monad (Errors), io.BytesIO (Stream), text as a list
--     of code points (Text), base64 (Base64). Json: JSON values and how they are looked into.
--   External: the PDF libraries, notifications_utils, Ghostscript, PIL and wand, as one record of
--     parameters, `Libraries`. Nothing is assumed of them, but where a theorem says so: that pypdf
--     reads the pages that it wrote (`IsFaithful`), and that Ghostscript converts page by page.
--   Geometry: the measurements at the head of app/precompiled.py (Layout), `NotifyCanvas` and the
--     overlays (Canvas), and what the overlays cover (Coverage). A length is a natural number of
--     1/127000 pt, in which every measurement of the source is exact; the source has floats.
--   Precompiled: app/precompiled.py. Overlay has the readers, writers and overlays of pages (Pages:
--     which overlay is on which page), Extraction the text in a rectangle (Inside: of which words it
--     is made, Lines: of which lines, Order: in which order the page lists its words), Validation the
--     checks (`get_invalid_pages_with_message`), Address the address block and the tag, Sanitise
--     `sanitise_file_contents` with `rewrite_pdf` and `normalise_fonts_and_colours`.
--   Transformation: app/transformation.py, with the images that its scan finds (Scan). Fonts:
--     app/embedded_fonts.py, with what can be reached in a document (Reach), the sets of names (Sets),
--     the result (Found) and how the search ends (Ends).
--   Storage: S3, the queue, the signing client, the templates and WeasyPrint, as the record
--     `Services`, the laws of S3 (`IsLawful`), the state `World` and actions on it, and relations
--     between worlds that chains of actions keep (Steps).
--   Cache: the caches of app/utils.py and app/__init__.py, the entries of the first (Entries), what
--     both leave alone (Frame), and both against the functions behind them (Coherent).
--     Templated: app/templated.py and app/letter_attachments.py, and the pages that a letter is made
--     of (Pages). Tasks: app/celery/tasks.py, with the relations between worlds that every task keeps
--     (Frame), the messages and the cache (Ahead), and the number of pages that is reported (Billing).
--   Schemas: app/schemas.py. Weasyprint: app/weasyprint_hack.py.
--   Preview: app/preview.py without its endpoints: the page that is asked for and its image (Pages),
--     letters (Letters), what is read of a JSON (Details).
--   App: the application. Requests and responses (Http), the error handlers of app/__init__.py
--     (Handlers), the endpoints of app/preview.py (Previews), of app/precompiled.py (Precompiled)
--     and of app/status.py (Status), and a request from its token to its answer (Serve). The
--     environments of app/config.py (Config), the handlers of the loggers (Logging) and
--     app/performance.py (Performance).
--   System: a process that answers requests and runs tasks in any order, as steps between worlds, the
--     buckets that it writes to (Buckets), the originals of letters (Durable), and several processes that
--     share S3 and the queue (Workers), whose requests and tasks follow one after the other, with their
--     messages (Messages) and the cache that they share (Caches).
--   Examples: small libraries and services to compute with, and runs on them.
--
-- A function of the source that moves the position of a stream that it was handed returns the stream
-- as well. An exception is a value of `Result`; a task, or an endpoint, is a function from a world to
-- a result and the next world, so that what was written before an exception stays written. The
-- recursion of the font search runs on the depth of calls that Python allows, and raises where Python
-- raises `RecursionError`; everything else recurses on its data.
--
-- The validator of jsonschema is a parameter; `Schemas.Laws.IsDraft7` states what draft 7 says of the
-- four keywords that are relied on. That S3 answers is stated by `Cache.Coherent.IsAvailable`. What
-- the endpoints read of a JSON is read at once, but for the keys that are not read in every run, which
-- are looked up where they are used.
--
-- A retry of a task sends its message again to the queue that the source names, unless celery gives
-- up, and raises. S3 changes by the calls of the service only: that its buckets let files expire is
-- not modelled. Ghostscript, pypdf and pymupdf are functions of their input; theorems on two runs say
-- what each of them gave.
--
-- Left out: logging, but for what `_warn_if_filesize_has_grown` and `log_metadata_for_letter` log, the
-- method of the logger that raises and the set-up of the handlers; the texts of jsonschema's refusals;
-- settings of libraries, and the start of the servers and workers.
pub mod Prelude
pub mod Geometry
pub mod Python
pub mod Json
pub mod Schemas
pub mod External
pub mod Transformation
pub mod Fonts
pub mod Precompiled
pub mod Storage
pub mod Weasyprint
pub mod Cache
pub mod Templated
pub mod Tasks
pub mod Preview
pub mod App
pub mod System
pub mod Examples
