-- ===== src/Agent/Session/Tests.antt =====
-- A call from its first frame to its end.
use aipanel.Base.{
  ◌≡◌, refl, String, Text, codes, true, false, List, [], ◌∷◌, none, some, ◌==◌, string_Key, arith,
}
use aipanel.Agent.Tools.{Args}
use aipanel.Agent.Conversation.{Settings, Talk, Turn, run}
use aipanel.Agent.Session.{CallSession, Read, frame, sip_read_loop}
use aipanel.Agent.Session.Loops.{IsRead, sip_read_loop-IsRead}
use aipanel.Agent.Session.Ending.{Parts, Recording, cleanup, dispositions, cleanup_coded}

abbrev started : CallSession
started = record {
  frames_in = [];
  recorder = none;
  transcripts = [];
  playout = record {
    frames_out = [];
    audio_drops = 0;
    cancelled = false;
    stopped = false;
    is_speaking = false;
    taken = [];
  };
  sent = [];
  barge_ins = 0;
  call_ended = false;
}

-- Audio, the digit 5, more audio, and a hangup before audio that is not read.
abbrev reads : List Read
reads =
    frame (0x01, 1 ∷ 2 ∷ [])
    ∷ frame (0x12, 53 ∷ [])
    ∷ frame (0x01, 3 ∷ 4 ∷ [])
    ∷ frame (0x11, [])
    ∷ frame (0x01, 5 ∷ [])
    ∷ []

sip_read_loop-IsRead_example : IsRead reads started (sip_read_loop reads started)
sip_read_loop-IsRead_example = sip_read_loop-IsRead reads started refl (omega arith)

abbrev settings : Settings
settings = record { filler_frequency = 0 }

abbrev silence : Args → Text
silence args = []

abbrev greeted : Talk
greeted = record {
  messages = [];
  turns_since_filler = 0;
  speech = [];
  has_room = λ n. true;
  posts = [];
  terminal_result = none;
  call_ended = false;
}

-- The model cannot be reached.
abbrev turns : List Turn
turns = record { text = codes "hello"; reply = none; draw = 0; filler = [] } ∷ []

abbrev parts : Parts
parts = record {
  audio_in = true;
  audio_out = true;
  conversation = some (run settings silence turns greeted).terminal_result;
  sip_writer = true;
  vici = true;
  recorder = false;
  minio_client = false;
  transcripts = true;
}

abbrev no_recording : Recording
no_recording = record { close_raises = false; has_file = false; uploaded = none }

cleanup_coded_example :
    (code : String) × (dispositions (cleanup parts no_recording 30).0 ≡ code ∷ [])
    × ((code == "") ≡ false)
cleanup_coded_example =
    cleanup_coded settings silence turns greeted parts no_recording 30 refl refl refl
