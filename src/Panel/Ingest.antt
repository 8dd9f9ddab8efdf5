-- ===== src/Panel/Ingest.antt =====
-- panel/backend/src/aipanel/jobs/kb_ingest_job.py: a document cut into chunks that overlap. The parsers are a
-- parameter; a chunk is kept as its sentences, which `join` puts together.
pub mod Overlap
pub mod Stored
use aipanel.Base.{
  ℕ, zero, suc, ◌+◌, ◌-◌, ◌*◌, ◌/◌, ◌≡◌, max, Text, codes, Bool, true, false, not, ◌&&◌, ◌||◌, List,
  [], ◌∷◌, ◌++◌, Option, none, some, length, take, drop, is_empty, ltb, leb, nat_eq, if◌then◌else◌,
}
use aipanel.Base.Texts.{is_space, strip}
use mathlib.Core.List.{reverse}

abbrev pub chunk_target_tokens : ℕ
chunk_target_tokens = 380

abbrev pub chunk_overlap_tokens : ℕ
chunk_overlap_tokens = 60

abbrev pub embed_batch_size : ℕ
embed_batch_size = 32

-- `_approx_tokens`.
unfoldable pub approx_tokens : Text → ℕ
approx_tokens text = max 1 (length text / 4)

-- `re.sub(r"[ \t]+", " ", text)`; `inside` says that the last character was one of the two.
abbrev is_blank : ℕ → Bool
is_blank c = nat_eq c 32 || nat_eq c 9

unfoldable pub squeeze : Bool → Text → Text
squeeze inside [] = []
squeeze inside (c ∷ t) =
    let rest = squeeze (is_blank c) t in
    if is_blank c then (if inside then rest else 32 ∷ rest) else c ∷ rest

-- Where `_SENT_SPLIT.split` stands: in a sentence, with whether its last character ends it, or in the
-- white space or the empty lines that part two of them.
pub data Place : Type 0 where
  within : Bool → Place
  in_space in_lines : Place

-- Whether a character is kept, left out, or begins a gap.
pub data Part : Type 0 where
  keep leave_out begin_gap : Part

abbrev is_stop : ℕ → Bool
is_stop c = nat_eq c 46 || (nat_eq c 33 || nat_eq c 63)

abbrev begins_line : Text → Bool
begins_line [] = false
begins_line (c ∷ t) = nat_eq c 10

abbrev part_within : Bool → ℕ → Text → Part × Place
part_within stopped c t =
    if stopped && is_space c
    then (begin_gap, in_space)
    else if nat_eq c 10 && begins_line t
    then (begin_gap, in_lines)
    else (keep, within (is_stop c))

abbrev part_of : Place → ℕ → Text → Part × Place
part_of (within stopped) c t = part_within stopped c t
part_of in_space c t = if is_space c then (leave_out, in_space) else part_within false c t
part_of in_lines c t = if nat_eq c 10 then (leave_out, in_lines) else part_within false c t

abbrev put_part : Part → ℕ → Text × List Text → Text × List Text
put_part keep c (now, later) = (c ∷ now, later)
put_part leave_out c (now, later) = (now, later)
put_part begin_gap c (now, later) = ([], now ∷ later)

unfoldable pub sent_split : Place → Text → Text × List Text
sent_split place [] = ([], [])
sent_split place (c ∷ t) = let next = part_of place c t in put_part next.0 c (sent_split next.1 t)

abbrev stripped : List Text → List Text
stripped [] = []
stripped (s ∷ ss) = if is_empty (strip s) then stripped ss else strip s ∷ stripped ss

unfoldable pub sentences : Text → List Text
sentences text =
    let split = sent_split (within false) (strip (squeeze false text)) in
    stripped (split.0 ∷ split.1)

-- The loop over `reversed(cur)`: the tail, from its end.
pub tail_from : ℕ → List Text → ℕ → List Text
tail_from overlap [] tail_tok = []
tail_from overlap (prev ∷ more) tail_tok =
    let rest = tail_from overlap more (tail_tok + approx_tokens prev) in
    if ltb overlap (tail_tok + approx_tokens prev) then [] else prev ∷ rest

abbrev pub tokens : List Text → ℕ
tokens [] = 0
tokens (s ∷ ss) = approx_tokens s + tokens ss

-- The loop of `_chunk` over the sentences.
pub chunk_loop : ℕ → ℕ → List Text → List Text → ℕ → List (List Text)
chunk_loop target overlap [] cur cur_tok = if is_empty cur then [] else cur ∷ []
chunk_loop target overlap (s ∷ sents) cur cur_tok =
    let full = not (is_empty cur) && ltb target (cur_tok + approx_tokens s) in
    let tail = reverse (tail_from overlap (reverse cur) 0) in
    let next = if full then tail else cur in
    let next_tok = if full then tokens tail else cur_tok in
    let rest = chunk_loop target overlap sents (next ++ s ∷ []) (next_tok + approx_tokens s) in
    if full then cur ∷ rest else rest

-- `" ".join`.
abbrev join : List Text → Text
join [] = []
join (s ∷ []) = s
join (s ∷ t ∷ more) = s ++ (32 ∷ join (t ∷ more))

abbrev join_all : List (List Text) → List Text
join_all [] = []
join_all (c ∷ cs) = join c ∷ join_all cs

unfoldable pub chunk : ℕ → ℕ → Text → List Text
chunk target overlap text = join_all (chunk_loop target overlap (sentences text) [] 0)

-- `kb_documents.status` with what is kept beside it, and the chunks of the document in the database.
pub data DocStatus : Type 0 where
  processing failed : DocStatus
  ready_with : ℕ → DocStatus

module _ (Vector : Type 0) where
  pub record ChunkRow : Type 0 where
    pub chunk_index : ℕ
    pub chunk_text : Text
    pub chunk_tokens : ℕ
    pub embedding : Vector

  pub record Document : Type 0 where
    pub status : DocStatus
    pub rows : List ChunkRow

module _ {Vector : Type 0} where
  -- The loop over the batches; `embed` is the embed server, with none where it cannot be reached. The fuel
  -- is the number of texts.
  abbrev pub extend : List Vector → Option (List Vector) → Option (List Vector)
  extend vecs none = none
  extend vecs (some more) = some (vecs ++ more)

  pub embed_all : (List Text → Option (List Vector)) → ℕ → List Text → Option (List Vector)
  embed_all embed zero texts = some []
  embed_all embed (suc fuel) texts =
      let rest = embed_all embed fuel (drop embed_batch_size texts) in
      if is_empty texts then some [] else (elim (embed (take embed_batch_size texts)) [
        | none ↦ none
        | some vecs ↦ extend vecs rest
      ])

  -- `enumerate(zip(chunks_text, all_vecs))`.
  pub chunk_rows : ℕ → List Text → List Vector → List (ChunkRow Vector)
  chunk_rows i [] vecs = []
  chunk_rows i (t ∷ texts) [] = []
  chunk_rows i (t ∷ texts) (v ∷ vecs) =
      record { chunk_index = i; chunk_text = t; chunk_tokens = approx_tokens t; embedding = v }
      ∷ chunk_rows (i + 1) texts vecs

  -- `_sync_replace_chunks`, in one transaction: an error leaves the rows as they were, and the status says so.
  abbrev replace_chunks : Bool → List (ChunkRow Vector) → Document Vector → Document Vector
  replace_chunks db_up rows doc =
      if db_up
      then record { status = ready_with (length rows); rows = rows }
      else record doc { status = failed }

  abbrev pub store : Bool → List Text → Option (List Vector) → Document Vector → Document Vector
  store db_up texts none doc = record doc { status = failed }
  store db_up texts (some vecs) doc = replace_chunks db_up (chunk_rows 0 texts vecs) doc

  abbrev pub ingest_chunks :
      (List Text → Option (List Vector)) → Bool → List Text → Document Vector → Document Vector
  ingest_chunks embed db_up [] doc =
      if db_up then record { status = ready_with 0; rows = [] } else doc
  ingest_chunks embed db_up (t ∷ texts) doc =
      store db_up (t ∷ texts) (embed_all embed (length (t ∷ texts)) (t ∷ texts)) doc

  abbrev ingest_parsed :
      (List Text → Option (List Vector)) → Bool → Option Text → Document Vector → Document Vector
  ingest_parsed embed db_up none doc = record doc { status = failed }
  ingest_parsed embed db_up (some text) doc =
      ingest_chunks embed db_up (chunk chunk_target_tokens chunk_overlap_tokens text) doc

  -- `kb_ingest_document`: `parsed` is what `_parse` gives, with none where it raises. For an empty
  -- document the error of the database is not caught, and the status stays as it is.
  pub kb_ingest_document :
      (List Text → Option (List Vector)) → Bool → Option Text → Document Vector → Document Vector
  kb_ingest_document embed db_up parsed doc =
      ingest_parsed embed db_up parsed (record doc { status = processing })
