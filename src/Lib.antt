-- ===== src/Lib.antt =====
-- OpenVideoTrans, the free tier of a video translation and dubbing tool: a model of its Python
-- packages in which the rules that must never break are proved.
--
-- The parts and how they interact. A media worker (workers/media-worker/src/media_worker) claims
-- jobs from the control plane. For each job it downloads the source, admits it again, and runs the
-- dubbing kernel (packages/autodub-core) with the provider adapters (packages/provider-adapters):
-- ASR, then MT, then TTS. Which provider serves a stage is decided by the worker: it routes every
-- stage down a ladder of free providers, past those that the shared circuit breaker holds, and
-- re-routes after a 429 or a rejected input. The red line of the free tier is that no paid provider
-- is ever used.
--
-- The files, with paths from the repository's root:
--   Common/           helpers: lists and indexes over the native numbers, Boolean tests, results of
--                     code that may raise, integers, and texts as lists of code points
--   Schemas           packages/schemas/src/ovt_schemas/contracts.py
--   Providers/        packages/provider-adapters/src/provider_adapters:
--     Ladder          ladder.py, AUTO_LADDER and PAID_PROVIDERS
--     Circuit         circuit.py, route_free and the availability snapshot
--     Select          base.py, the registry, select and build_registry
--     Languages       languages.py, the capability table and the language gate
--     Chunker         asr_chunker.py, the request plan and the merges
--     Asr             asr.py: lines from words, languages and the script filter; Requests is the
--                     transcription by one request or by chunks
--     Mt              mt.py: the batches of a language model and the loop of m2m100
--   Kernel/           packages/autodub-core/src/autodub_core:
--     Isolation       isolation.py, job_root and the pin of the kernel's resolver to free providers
--     Aigc            aigc.py
--     Ingest          ingest of stages.py and the format guard of ffmpeg_utils.py
--     Prepare         prepare and _demucs_split of stages.py, every change of the two tracks a state
--     Diarize         _dominant_speaker and diarize of stages.py
--     Translate       translate of stages.py
--     Voices          _assign_voices of stages.py
--     Artifacts       the loop that tts and align share; a run is the list of the states of the job
--                     directory, one for each change, so that a crash is a prefix of it
--     Tts, Align      tts and align of stages.py, instances of that loop
--     Timeline        stitch_timeline and atempo_chain_for of ffmpeg_utils.py, assign_timing
--     Subtitles       _write_srt of stages.py
--     Mux             mux of stages.py; Build is its effect on the output directory step by step
--   Worker/           workers/media-worker/src/media_worker:
--     Scheduling      scheduling.py and the dispatcher loop of run_forever in worker.py, as a
--                     relation of claims and finished jobs in any order
--     Pipeline        pipeline.py: Stages and Routing are _stage_kinds, _pick, _route_plan and
--                     _exclude_and_reroute; Rotation is the loop of run_real_pipeline; Offers is
--                     _available_free_providers and _tts_pin_serviceable; Resolver is
--                     inject_provider_env and _FreePoolSelectResolver; Delivery compares
--                     _deliverables with what the kernel's mux leaves
--     Admission       config.py and admission.py
--     Job             Heartbeat._run and process_job of worker.py
--     ControlPlane    control_plane.py: the rotation of the bearer token, as a relation on a client
--                     whose calls interleave, the progress body and what is read from answers
--   ControlPlane/     apps/control-plane:
--     Claim           spike/claim.py, the claim statement as a function on the table of jobs
-- In each part the definitions stand in the file named after it, the proofs in the files below it,
-- and Tests holds small runs. A function keeps its name without the leading underscore; a class is a
-- record, an exception a value of a result type, and a dictionary or a set of names a list of which
-- only membership and lookups are read.
--
-- Bounds and loops. Times are natural numbers of milliseconds. The loops are recursions on lists and
-- on numbers of remaining turns that the source itself counts: the attempt loop makes max_reroutes + 1
-- turns and the split of the audio as many chunks as it computes. Two loops
-- run on fuel: atempo_chain_for on the numerator of the ratio, as each round doubles the denominator,
-- and the decimal print on the number itself, as it has no more digits than it counts.
--
-- What the definitions take as arguments: the methods of str that read the Unicode tables, the answers
-- of the control plane, the storage, ffmpeg and the cloud backends, the clock, the installed voices,
-- the diarizer, and for the worker how a run of the kernel ends. Paths are POSIX paths without
-- symbolic links, and a text file is written as it is and read back with universal newlines. The byte
-- estimates of asr_chunker.py and the ratios of the alignment are exact, where the source computes in
-- floats.
--
-- Not modelled: the HTTP exchange and request signing, the command lines of ffmpeg and the calls of
-- the models, JSON and logging, the stage transcribe and the composition of the stages in run_pipeline,
-- the TTS adapters, the local runner, and the TypeScript control plane and web application.
pub mod Common
pub mod Schemas
pub mod Providers
pub mod Kernel
pub mod Worker
pub mod ControlPlane
