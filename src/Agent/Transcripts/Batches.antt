-- ===== src/Agent/Transcripts/Batches.antt =====
-- The flushes that workers/src/aipanel_worker/transcript_writer.py makes of the events of a call.
use aipanel.Base.{
  ℕ, zero, suc, take, ◌≤◌, ◌<◌, ◌≡◌, refl, sym, ap, subst, ◌∙◌, String, Bool, List, [], ◌∷◌, ◌++◌,
  length, length-append, append_assoc, append-nil, leb, All, either_way, arith, Bool-cases, inl,
  inr,
}
use aipanel.Agent.Transcripts.{
  CallEvent, Flush, flush, Got, item, timeout, mark, max_batch, flush_loop, FlusherEnd, in_time,
  cancelled_after, got_until, TranscriptWriter, stop,
}

-- The events that were written.
abbrev pub written : List Got → List CallEvent
written [] = []
written (item event up ∷ gots) = event ∷ written gots
written (timeout up ∷ gots) = written gots
written (mark up ∷ gots) = []

-- The events of all flushes.
abbrev pub events_of : List Flush → List CallEvent
events_of [] = []
events_of (f ∷ flushes) = f.batch ++ events_of flushes

abbrev IsFlush : Flush → Type 0
IsFlush f = (0 < length f.batch) × (length f.batch ≤ 50)

events_of-append : (fs gs : List Flush) → events_of (fs ++ gs) ≡ events_of fs ++ events_of gs
events_of-append [] gs = refl
events_of-append (f ∷ fs) gs =
    ap (λ rest. f.batch ++ rest) (events_of-append fs gs)
    ∙ sym (append_assoc f.batch (events_of fs) (events_of gs))

All-append : (fs : List Flush) (f : Flush) → All IsFlush fs → IsFlush f → All IsFlush (fs ++ f ∷ [])
All-append [] f all fine = (fine, tt)
All-append (g ∷ fs) f (head, all) fine = (head, All-append fs f all fine)

flush-events :
    (up : Bool) (batch : List CallEvent) (fs : List Flush)
    → events_of (flush up batch fs) ≡ events_of fs ++ batch
unfolding flush
flush-events up [] fs = sym (append-nil (events_of fs))
flush-events up (e ∷ batch) fs =
    events_of-append fs (record { taken = up; batch = e ∷ batch } ∷ [])
    ∙ ap (λ rest. events_of fs ++ rest) (append-nil (e ∷ batch))

flush-All :
    (up : Bool) (batch : List CallEvent) (fs : List Flush)
    → length batch ≤ max_batch
    → All IsFlush fs
    → All IsFlush (flush up batch fs)
unfolding flush
flush-All up [] fs le all = all
flush-All up (e ∷ batch) fs le all =
    All-append fs (record { taken = up; batch = e ∷ batch }) all (omega arith, le)

-- What the flusher has done with the events `all`: they are flushed, or wait in a batch that is not full.
abbrev IsFlushed : List CallEvent → List CallEvent × List Flush → Type 0
IsFlushed all r = (events_of r.1 ++ r.0 ≡ all) × (length r.0 < max_batch) × All IsFlush r.1

flush_loop-IsFlushed :
    (gots : List Got) (batch : List CallEvent) (fs : List Flush)
    → length batch < max_batch
    → All IsFlush fs
    → IsFlushed ((events_of fs ++ batch) ++ written gots) (flush_loop gots batch fs)
unfolding flush_loop
flush_loop-IsFlushed [] batch fs lt all = (sym (append-nil (events_of fs ++ batch)), lt, all)
flush_loop-IsFlushed (timeout up ∷ gots) batch fs lt all =
    subst (λ done. IsFlushed (done ++ written gots) (flush_loop gots [] (flush up batch fs)))
      (append-nil (events_of (flush up batch fs)) ∙ flush-events up batch fs)
      (flush_loop-IsFlushed gots [] (flush up batch fs) (omega arith)
        (flush-All up batch fs (omega (arith, lt)) all))
flush_loop-IsFlushed (mark up ∷ gots) batch fs lt all = (
  append-nil (events_of (flush up batch fs))
      ∙ flush-events up batch fs
      ∙ sym (append-nil (events_of fs ++ batch)),
  omega arith,
  flush-All up batch fs (omega (arith, lt)) all,
)
flush_loop-IsFlushed (item e up ∷ gots) batch fs lt all =
    let grown = batch ++ e ∷ [] in
    let size = length-append batch (e ∷ []) in
    let same : (events_of fs ++ grown) ++ written gots
        ≡ (events_of fs ++ batch) ++ (e ∷ written gots) =
      ap (λ done. done ++ written gots) (sym (append_assoc (events_of fs) batch (e ∷ [])))
      ∙ append_assoc (events_of fs ++ batch) (e ∷ []) (written gots) in
    elim (Bool-cases (leb max_batch (length grown))) [
      | inl full ↦ rw full (
          subst (λ done. IsFlushed done (flush_loop gots [] (flush up grown fs)))
            (ap (λ done. done ++ written gots)
                (append-nil (events_of (flush up grown fs)) ∙ flush-events up grown fs)
              ∙ same)
            (flush_loop-IsFlushed gots [] (flush up grown fs) (omega arith)
              (flush-All up grown fs (omega (arith, size, lt)) all)))
      | inr room ↦ rw room (
          subst (λ done. IsFlushed done (flush_loop gots grown fs)) same
            (flush_loop-IsFlushed gots grown fs (ground (arith, room)) all))
    ]

written-mark : (gots : List Got) (up : Bool) → written (gots ++ mark up ∷ []) ≡ written gots
written-mark [] up = refl
written-mark (item e u ∷ gots) up = ap (λ es. e ∷ es) (written-mark gots up)
written-mark (timeout u ∷ gots) up = written-mark gots up
written-mark (mark u ∷ gots) up = refl

flush_loop-mark :
    (gots : List Got) (up : Bool) (batch : List CallEvent) (fs : List Flush)
    → (flush_loop (gots ++ mark up ∷ []) batch fs).0 ≡ []
unfolding flush_loop
flush_loop-mark [] up batch fs = refl
flush_loop-mark (item e u ∷ gots) up batch fs =
    either_way (λ (r : List CallEvent × List Flush). r.0 ≡ [])
      (leb max_batch (length (batch ++ e ∷ [])))
      (flush_loop (gots ++ mark up ∷ []) [] (flush u (batch ++ e ∷ []) fs))
      (flush_loop (gots ++ mark up ∷ []) (batch ++ e ∷ []) fs)
      (flush_loop-mark gots up [] (flush u (batch ++ e ∷ []) fs))
      (flush_loop-mark gots up (batch ++ e ∷ []) fs)
flush_loop-mark (timeout u ∷ gots) up batch fs = flush_loop-mark gots up [] (flush u batch fs)
flush_loop-mark (mark u ∷ gots) up batch fs = refl

written-take :
    (n : ℕ) (gots : List Got)
    → (rest : List CallEvent) × (written (take n gots) ++ rest ≡ written gots)
written-take zero gots = (written gots, refl)
written-take (suc n) [] = ([], refl)
written-take (suc n) (item e up ∷ gots) =
    let (rest, all) = written-take n gots in (rest, ap (λ es. e ∷ es) all)
written-take (suc n) (timeout up ∷ gots) = written-take n gots
written-take (suc n) (mark up ∷ gots) = ([], refl)

-- Nothing is lost where the flusher ends in time.
abbrev IsLost : FlusherEnd → List CallEvent → Type 0
IsLost (in_time last_up) lost = lost ≡ []
IsLost (cancelled_after n) lost = Unit {0}

abbrev pub Keeps : FlusherEnd → List CallEvent → List Flush → Type 0
Keeps flusher_end all flushes =
    (lost : List CallEvent) × IsLost flusher_end lost
    × (events_of flushes ++ lost ≡ all)
    × All IsFlush flushes

flushed-Keeps :
    (flusher_end : FlusherEnd) (gots : List Got)
    → Keeps flusher_end (written gots) (flush_loop (got_until flusher_end gots) [] []).1
flushed-Keeps (in_time last_up) gots =
    let r = flush_loop (gots ++ mark last_up ∷ []) [] [] in
    let (all, lt, sizes) =
      flush_loop-IsFlushed (gots ++ mark last_up ∷ []) [] [] (omega arith) tt in
    (r.0, flush_loop-mark gots last_up [] [], all ∙ written-mark gots last_up, sizes)
flushed-Keeps (cancelled_after n) gots =
    let r = flush_loop (take n gots) [] [] in
    let (all, lt, sizes) = flush_loop-IsFlushed (take n gots) [] [] (omega arith) tt in
    let (rest, whole) = written-take n gots in
    (
      r.0 ++ rest,
      tt,
      sym (append_assoc (events_of r.1) r.0 rest) ∙ ap (λ es. es ++ rest) all ∙ whole,
      sizes,
    )

-- However the events come and the flusher waits, and whether or not the database is up: after `stop` the
-- events of the flushes are those that were written, in the order of writing, each in exactly one flush
-- and between 1 and 50 in every flush. Where the flusher ends in time they are all; where it is cancelled
-- they are the first of them, and the others are lost.
pub stop-flushes :
    (outcome dispo_code : String) (duration_sec : ℕ) (gots : List Got) (flusher_end : FlusherEnd)
    (up : Bool) (w : TranscriptWriter)
    → w.flushes ≡ []
    → Keeps flusher_end
        (written gots)
        (stop outcome dispo_code duration_sec gots flusher_end up w).flushes
unfolding stop
stop-flushes outcome dispo_code duration_sec gots flusher_end up w fresh =
    subst
      (λ before.
        Keeps flusher_end (written gots) (flush_loop (got_until flusher_end gots) [] before).1)
      (sym fresh) (flushed-Keeps flusher_end gots)
