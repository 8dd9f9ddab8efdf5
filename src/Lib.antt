-- ===== src/Lib.antt =====
-- A model of aipanel, in Python: the bridge between Asterisk and the call workers, the sessions of the
-- agents with ViciDial, the transcription of what callers say, the workers that hold the calls, and
-- the core of the panel.
--
-- The program's parts and how they interact. `sip/` registers one SIP account for each deployment
-- (account_manager.py). An INVITE on one of them is parsed (header_parser.py), gets an AudioBridge
-- with a unix socket (audio_bridge.py) and is offered to the workers through Redis; the worker that
-- connects speaks the frame protocol of workers/src/aipanel_worker/sip_protocol.py, and the call is
-- answered (call_handler.py). `session-mgr/` keeps one logged-in agent session for each deployment:
-- session_supervisor.py starts and stops a SessionWorker (session_worker.py) by the table of
-- deployments, heartbeat.py runs their heartbeats, and the adapter (adapters/v2_14.py) builds and
-- reads ViciDial's requests. `stt-server/` cuts the callers' audio into segments and transcribes them
-- (streaming.py). `workers/` holds the conversation: what the model answers, which tools it runs and
-- what is spoken (conversation.py, tools.py), and whether the caller interrupts (barge_in.py); around it
-- the call session with its loops and its teardown (call_session.py), the playback (audio_out.py), the
-- recording (recorder.py), the transcript (transcript_writer.py) and the process that takes the jobs
-- (main.py). `llm-server/` is the proxy before the language model. The workers act on ViciDial through
-- the HTTP API of the session manager (api.py). The panel's backend, `panel/`, keeps what the tenants
-- configure: users and tokens (auth/), deployments, scripts, campaigns, the nodes of the cluster
-- (api/v1/cluster.py), and the jobs that fill knowledge bases and mine calls (jobs/).
--
-- Which file models what.
--   Base, Base/*                 shared tests, lists, Python's dict and text
--   Sip/Frame, Sip/Frame/*       sip/src/aipanel_sip/audio_bridge.py: encode_frame, recv_exact,
--                                read_frame; Peer is the worker's sip_protocol.py
--   Sip/Bridge, Sip/Bridge/*     the class AudioBridge: the record Bridge is its state, each method a
--                                function from bridge to bridge; Loops has the two threads
--   Sip/Headers                  sip/src/aipanel_sip/header_parser.py: parse_headers
--   Sip/Calls, Sip/Calls/*       sip/src/aipanel_sip/call_handler.py and worker_dispatcher.py: the record
--                                Router is CallState and CallRouter, a Line is an _IncomingCall
--   Sip/Accounts, Sip/Accounts/* sip/src/aipanel_sip/account_manager.py: the record Manager
--   Vici/Model                   session-mgr/src/aipanel_vici/models.py
--   Vici/Adapter, Adapter/Parse  session-mgr/src/aipanel_vici/adapters/ and http_session.py
--   Vici/Worker, Vici/Worker/*   session-mgr/src/aipanel_vici/session_worker.py: the record Worker;
--                                Calls has the actions of the API in a state monad with exceptions
--   Vici/Supervisor, and below   session-mgr/src/aipanel_vici/session_supervisor.py; Beats is heartbeat.py
--   Stt/Stream, Stt/Stream/*     stt-server/src/aipanel_stt/streaming.py: the records State and Segment
--   Agent/BargeIn, Agent/Tools   workers/src/aipanel_worker/barge_in.py and tools.py
--   Agent/Conversation           workers/src/aipanel_worker/conversation.py: the record Talk
--   Agent/AudioOut, and below    workers/src/aipanel_worker/audio_out.py: the record Playout
--   Agent/Recorder, and below    workers/src/aipanel_worker/recorder.py
--   Agent/Transcripts, and below workers/src/aipanel_worker/transcript_writer.py
--   Agent/Session, and below     workers/src/aipanel_worker/call_session.py: the record CallSession; Config
--                                has the data that is loaded, Ending the teardown
--   Agent/Jobs, and below        workers/src/aipanel_worker/main.py: the record System is all workers
--   Vici/Api, and below          session-mgr/src/aipanel_vici/api.py; Compat also has the posts of
--                                workers/src/aipanel_worker/vici_client.py
--   Llm, Llm/*                   llm-server/src/aipanel_llm/main.py
--   Panel/Auth, and below        panel/backend/src/aipanel/auth/ and api/v1/auth.py
--   Panel/Deployments, and below panel/backend/src/aipanel/services/deployment_service.py and its routes
--   Panel/Campaigns, and below   panel/backend/src/aipanel/services/campaigns_service.py
--   Panel/Cluster, and below     panel/backend/src/aipanel/api/v1/cluster.py on the tables of db/models/ops.py
--   Panel/Ingest, and below      panel/backend/src/aipanel/jobs/kb_ingest_job.py
--   Panel/Mining, and below      panel/backend/src/aipanel/jobs/campaign_mine_job.py
--   Panel/Scripts                panel/backend/src/aipanel/schemas/agent_dsl.py, the script of an agent
-- The modules called Tests run the definitions on concrete inputs.
--
-- Conventions. A method takes the state and returns the one that it leaves; what the world does (the
-- outcome of a system call, an answer of ViciDial, the clock, Redis, a call of another thread) is an
-- argument, and what is asked of the world is recorded in the state. UUIDs are numbers; times are
-- milliseconds, delays seconds; strings are String where they are passed on and lists of code points
-- where the code walks them; bytes are numbers. Locks make the operation under them one step.
--
-- Fuel. recv_loop has the bytes that are asked for, since every round adds at least one; read_loop has
-- rounds, and one more than there are bytes is enough; drain has the bytes that wait, since every
-- round takes 1024 of them. The login loop and the loop over header lines are structural.
--
-- The cutting of frames and of batches has a round for each byte or text, since a round takes at least
-- one.
--
-- Not modelled: logging and metrics, but for the call of the log that raises in _read_loop; the code of PJSIP, httpx, Redis, Playwright, Fernet, PyJWT, Argon2, SQLAlchemy,
-- faster-whisper and silero, which are parameters; the sleeping loops of the supervisor and of the
-- scheduler; the text of JSON, whose refusal is a parameter of _read_loop; the delays of load_initial; the login page; of the workers the set-up of a
-- call, the loops of recognition, the prompt, the drain at shutdown; of the panel the other services and
-- routes; of the language server all but its proxy; the speech and embedding servers, the installer and the frontend.
pub mod Base
pub mod Sip
pub mod Vici
pub mod Stt
pub mod Agent
pub mod Llm
pub mod Panel
