-- ===== src/Panel/Ingest/Stored.antt =====
-- What panel/backend/src/aipanel/jobs/kb_ingest_job.py stores of a document.
use aipanel.Base.{
  ℕ, zero, suc, ◌+◌, ◌≤◌, ◌≡◌, refl, sym, ap, subst, ◌∙◌, Text, true, List, [], ◌∷◌, ◌++◌, Option,
  none, some, length, length-append, length-drop, take, drop, take-append-drop, arith,
}
use aipanel.Panel.Ingest.{
  embed_batch_size, chunk_target_tokens, chunk_overlap_tokens, chunk, ready_with, processing,
  ChunkRow, Document, extend, embed_all, chunk_rows, store, ingest_chunks, kb_ingest_document,
}

-- i, i + 1, …
abbrev pub counted : ℕ → ℕ → List ℕ
counted i zero = []
counted i (suc n) = i ∷ counted (i + 1) n

module _ {Vector : Type 0} where
  abbrev texts_of : List (ChunkRow Vector) → List Text
  texts_of [] = []
  texts_of (row ∷ rows) = row.chunk_text ∷ texts_of rows

  abbrev indexes_of : List (ChunkRow Vector) → List ℕ
  indexes_of [] = []
  indexes_of (row ∷ rows) = row.chunk_index ∷ indexes_of rows

  -- The rows have the texts, in order and numbered.
  abbrev IsNumbered : ℕ → List Text → List (ChunkRow Vector) → Type 0
  IsNumbered i texts rows = (texts_of rows ≡ texts) × (indexes_of rows ≡ counted i (length texts))

  chunk_rows-IsNumbered :
      (i : ℕ) (texts : List Text) (vecs : List Vector)
      → length vecs ≡ length texts
      → IsNumbered i texts (chunk_rows i texts vecs)
  unfolding chunk_rows
  chunk_rows-IsNumbered i [] vecs size = (refl, refl)
  chunk_rows-IsNumbered i (t ∷ texts) [] size = absurd (omega (arith, size))
  chunk_rows-IsNumbered i (t ∷ texts) (v ∷ vecs) size =
      let (same, numbers) = chunk_rows-IsNumbered (i + 1) texts vecs (omega (arith, size)) in
      (ap (λ ts. t ∷ ts) same, ap (λ ns. i ∷ ns) numbers)

  -- The embed server answers every batch, with a vector for each text.
  abbrev Answers : (List Text → Option (List Vector)) → Type 0
  Answers embed =
      (texts : List Text)
      → (vecs : List Vector) × (embed texts ≡ some vecs) × (length vecs ≡ length texts)

  embed_all-length :
      (embed : List Text → Option (List Vector)) (fuel : ℕ) (texts : List Text)
      → Answers embed
      → length texts ≤ fuel
      → (vecs : List Vector) × (embed_all embed fuel texts ≡ some vecs)
        × (length vecs ≡ length texts)
  unfolding embed_all
  embed_all-length embed zero [] answers le = ([], refl, refl)
  embed_all-length embed zero (t ∷ texts) answers le = absurd (omega (arith, le))
  embed_all-length embed (suc fuel) [] answers le = ([], refl, refl)
  embed_all-length embed (suc fuel) (t ∷ texts) answers le =
      let batch = take embed_batch_size (t ∷ texts) in
      let left = drop embed_batch_size (t ∷ texts) in
      let (vecs, got, size) = answers batch in
      let (more, rest, size') =
        embed_all-length embed fuel left answers
          (omega (arith, le, length-drop embed_batch_size (t ∷ texts))) in
      (
        vecs ++ more,
        ap (λ answer. elim answer [ none ↦ none | some vs ↦ extend vs (embed_all embed fuel left) ])
              got
            ∙ ap (extend vecs) rest,
        omega (
          arith,
          size,
          size',
          length-append vecs more,
          length-append batch left,
          ap length (take-append-drop embed_batch_size (t ∷ texts)),
        ),
      )

  -- A document with the rows of some texts, and a status that says so.
  abbrev pub IsStored : List Text → Document Vector → Type 0
  IsStored texts doc = (doc.status ≡ ready_with (length texts)) × IsNumbered 0 texts doc.rows

  rows-length : (rows : List (ChunkRow Vector)) → length (texts_of rows) ≡ length rows
  rows-length [] = refl
  rows-length (row ∷ rows) = omega (arith, rows-length rows)

  ingest_chunks-IsStored :
      (embed : List Text → Option (List Vector)) (texts : List Text) (doc : Document Vector)
      → Answers embed
      → IsStored texts (ingest_chunks embed true texts doc)
  ingest_chunks-IsStored embed [] doc answers = (refl, (refl, refl))
  ingest_chunks-IsStored embed (t ∷ texts) doc answers =
      let (vecs, got, size) =
        embed_all-length embed (length (t ∷ texts)) (t ∷ texts) answers (omega arith) in
      let fine = chunk_rows-IsNumbered 0 (t ∷ texts) vecs size in
      let rows = chunk_rows 0 (t ∷ texts) vecs in
      subst (λ answer. IsStored (t ∷ texts) (store true (t ∷ texts) answer doc)) (sym got)
        (ap ready_with (sym (rows-length rows) ∙ ap length fine.0), fine)

  -- Where the embed server answers with a vector for each text, and the database takes the rows: after the
  -- job the document is ready, with as many chunks as its text gives, and its rows have the texts of the
  -- chunks, in order and numbered from 0, whatever rows it had before.
  pub kb_ingest_document-IsStored :
      (embed : List Text → Option (List Vector)) (text : Text) (doc : Document Vector)
      → Answers embed
      → IsStored
          (chunk chunk_target_tokens chunk_overlap_tokens text)
          (kb_ingest_document embed true (some text) doc)
  unfolding kb_ingest_document
  kb_ingest_document-IsStored embed text doc answers =
      ingest_chunks-IsStored embed (chunk chunk_target_tokens chunk_overlap_tokens text)
        (record doc { status = processing }) answers
