-- ===== src/Lib.antt =====
-- Rendition: its web frontend - uploading videos in parts, the list of uploads, the feed of finished videos,
-- and playback - and the core of the service behind it. The frontend is TypeScript under
-- frontend/src/components, to which the paths below belong; core is the service's Python.
--
-- The parts and how they interact:
--   * uploads/api.ts makes the calls of the service. Its types are in Api, the reading of an answer in
--     Api/Http (readApiError, requestJson, abortVideoUpload), the calls in Api/Requests.
--   * uploads/multipart-upload.ts uploads one file: Uploads/Multipart. Parts has getPartCount,
--     normalizeContentType, mapVideoStatus, partBlob and uploadPart. The closure of
--     createMultipartUploadController is the record `Controller`; Multipart has emit, completeUpload and
--     uploadMissingParts, Steps the methods start, retryFailedParts and cancel and what follows each
--     `await`, with `step` for one event and `run` for any sequence of them. Completion is about what is sent,
--     Pools about the workers, Progress about the bar, Success about uploads without a failure, Cancel and
--     Retry about the other two methods.
--   * uploads/upload-dashboard.tsx keeps the rows, the controllers and the listed videos: Uploads/Dashboard,
--     with the pure functions in Listing and the effects, answers and handlers in Steps. It starts, retries
--     and cancels controllers, whose onChange is updateUploadRow, and it hands its rows to
--     uploads-table.tsx (Uploads/Table, Uploads/Table/Pages), status-cell.tsx and status-badge.tsx
--     (Uploads/StatusCell), and takes files from upload-dropzone.tsx (Uploads/Dropzone). types.ts is in
--     Uploads, utils.ts in Uploads/Utils.
--   * feed/video-feed.tsx lists the finished videos: Feed/Page, with the cards of video-card.tsx,
--     video-surface.tsx and up-next-list.tsx in Feed/Cards and types.ts in Feed.
--   * video/video-detail.tsx polls one video and shows video/hls-player.tsx: Video/Detail, Video/Player.
--   * core/services is the service behind the calls: Service, with the rows of core/models. Service/Status
--     derives a video's status from its renditions. Service/Jobs has the functions of job_service.py:
--     claims and heartbeats in Jobs, the end of an attempt in Jobs/Finishing, the transactions on the
--     database (Jobs/Database) and the reaper in Jobs/Steps, and outbox_service.py in Jobs/Outbox;
--     Jobs/Changes shows that each transaction turns one rendition, from which Jobs/Histories, Stages, Rows,
--     Videos and Attempts follow; Owners, Reports and Delivery follow one job. Service/Playback has
--     playback_service.py and the master playlist, Service/Storage the parts that s3.py lists,
--     Service/Uploads upload_service.py, with creating, refreshing and aborting and the whole service in
--     Uploads/Steps and Uploads/Whole, and its contract with the client in Uploads/Fits, with the request to
--     complete an upload that api/schemas/video.py checks in Service/Schemas. Service/Worker has
--     process_encoding_message of worker/processor.py, on top of the transactions of Service/Jobs.
--   * Common has lists, JavaScript's Map and stable sort, and decimal texts. Examples runs the code on small
--     inputs.
--
-- How asynchronous code is modelled: a component's state is a record, and each thing that can happen - a
-- click, a timer, an answer, an event of a request - is an event of its `step`. Code between two `await`s
-- is one step. What is awaited stands in the state, in a list that an answer names by place, so answers
-- come in any order. Calls, toasts and rows handed out are logged in the state, newest first.
--
-- What is assumed: part sizes are positive, as the service's configuration has them; sizes stay below 2^53,
-- where JavaScript's integers are exact, so Math.ceil of a quotient is the quotient rounded up. The
-- floating-point percentage of an upload is the argument `percent`, the date formats are the argument
-- `format_date`, the id of a new upload is in the event that begins it. A file is its list of bytes.
-- The service's transactions come one after another and are undone when they raise; ids of new rows, the
-- time, the retry delays and what the storage answers are arguments.
-- Every definition is structurally recursive. One of them counts fuel: Common/Text.show_digits gets n + 1 for
-- the number n, which is more than n has digits, and every number is read back as it was written.
-- The storage takes the same playlists throughout a run of the service: `accepts` is one function.
--
-- What is not modelled: React's rendering beyond what a component shows and offers, fetch, XMLHttpRequest,
-- hls.js and Intl themselves, whose answers and events are arguments; the UI kit under animate-ui, ui, hooks
-- and lib, which is a copy of other libraries; skeletons and sample data; and of the service its HTTP routes,
-- the broker, ffmpeg, the settings, SQL itself and transactions that overlap.
pub mod Common
pub mod Api
pub mod Uploads
pub mod Feed
pub mod Video
pub mod Service
pub mod Examples
