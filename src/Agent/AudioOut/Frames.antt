-- ===== src/Agent/AudioOut/Frames.antt =====
-- `_stream_tts` and `_enqueue_audio_bytes` of workers/src/aipanel_worker/audio_out.py on the same audio.
use aipanel.Base.{
  ℕ, zero, suc, ◌-◌, ◌≤◌, ◌<◌, ◌≡◌, ◌⊎◌, refl, sym, ap, subst, ◌∙◌, Bool, false, ◌||◌, List, [],
  ◌∷◌, ◌++◌, inl, inr, append_assoc, append-nil, length, length-append, length-drop, length-take,
  take, drop, take-more, drop-more, take-all, drop-all, replicate, is_empty, leb, ltb, le→leb,
  if-true, if-false, arith, either_way,
}
use aipanel.Sip.Frame.Wire.{Bytes}
use aipanel.Agent.AudioOut.{
  Playout, drop_oldest, put_frame, frames_out_maxsize, Event, Body, answered, pcm_frame_bytes,
  enqueue_frame, enqueue_pieces, enqueue_audio_bytes, cut_frames, pad, pad_out, happen_all,
  stream_chunks, stream_tts,
}

-- Nobody has cancelled the speech or stopped the pipeline.
abbrev IsOn : Playout → Type 0
IsOn p = (p.cancelled ≡ false) × (p.stopped ≡ false)

drop_oldest-IsOn : (p : Playout) (frames : List Bytes) → IsOn p → IsOn (drop_oldest p frames)
drop_oldest-IsOn p [] on = on
drop_oldest-IsOn p (f ∷ fs) on = on

enqueue_frame-IsOn : (frame : Bytes) (p : Playout) → IsOn p → IsOn (enqueue_frame frame p)
unfolding enqueue_frame
enqueue_frame-IsOn frame p on =
    either_way IsOn (ltb (length p.frames_out) frames_out_maxsize) (put_frame frame p)
      (put_frame frame (drop_oldest p p.frames_out)) on (drop_oldest-IsOn p p.frames_out on)

abbrev cut : Bytes → Playout → Bytes × Playout
cut b p = (drop pcm_frame_bytes b, enqueue_frame (take pcm_frame_bytes b) p)

is_long : (b : Bytes) → (pcm_frame_bytes ≤ length b) ⊎ (length b < pcm_frame_bytes)
is_long b = omega arith

cut_step :
    (fuel : ℕ) (b : Bytes) (p : Playout)
    → pcm_frame_bytes ≤ length b
    → cut_frames (suc fuel) b p ≡ cut_frames fuel (cut b p).0 (cut b p).1
unfolding cut_frames
cut_step fuel b p le = if-true _ _ _ (le→leb pcm_frame_bytes (length b) le)

cut_end : (b : Bytes) (p : Playout) → cut_frames zero b p ≡ (b, p)
unfolding cut_frames
cut_end b p = refl

cut_done :
    (fuel : ℕ) (b : Bytes) (p : Playout) → length b < pcm_frame_bytes → cut_frames fuel b p ≡ (b, p)
unfolding cut_frames
cut_done zero b p lt = refl
cut_done (suc fuel) b p lt = if-false (leb pcm_frame_bytes (length b)) _ _ (ground arith)

-- With fuel for every byte, less than a frame is left.
cut-short :
    (fuel : ℕ) (b : Bytes) (p : Playout)
    → length b ≤ fuel
    → length (cut_frames fuel b p).0 < pcm_frame_bytes
cut-short zero b p le =
    omega
      (arith, le, ap (λ (r : Bytes × Playout). length r.0) (cut_done zero b p (omega (arith, le))))
cut-short (suc fuel) b p le = elim (is_long b) [
  | inr short ↦
      omega (arith, short, ap (λ (r : Bytes × Playout). length r.0) (cut_done (suc fuel) b p short))
  | inl long ↦ omega (
    arith,
    ap (λ (r : Bytes × Playout). length r.0) (cut_step fuel b p long),
    cut-short fuel (cut b p).0 (cut b p).1 (omega (arith, le, long, length-drop pcm_frame_bytes b)),
  )
]

-- Any fuel that is enough gives the same.
cut_enough :
    (fuel more : ℕ) (b : Bytes) (p : Playout)
    → length b ≤ fuel
    → length b ≤ more
    → cut_frames fuel b p ≡ cut_frames more b p
cut_enough zero more b p le le' =
    cut_done zero b p (omega (arith, le)) ∙ sym (cut_done more b p (omega (arith, le)))
cut_enough (suc fuel) zero b p le le' =
    cut_done (suc fuel) b p (omega (arith, le')) ∙ sym (cut_done zero b p (omega (arith, le')))
cut_enough (suc fuel) (suc more) b p le le' = elim (is_long b) [
  | inl long ↦
      let size = length-drop pcm_frame_bytes b in
      cut_step fuel b p long
      ∙ cut_enough fuel more (cut b p).0 (cut b p).1 (omega (arith, size, long, le))
          (omega (arith, size, long, le'))
      ∙ sym (cut_step more b p long)
  | inr short ↦ cut_done (suc fuel) b p short ∙ sym (cut_done (suc more) b p short)
]

abbrev cut_from : ℕ → Bytes → Bytes × Playout → Bytes × Playout
cut_from fuel chunk r = cut_frames fuel (r.0 ++ chunk) r.1

cut-more_short :
    (fuel more later : ℕ) (b chunk : Bytes) (p : Playout)
    → length (b ++ chunk) ≤ more
    → length ((cut_frames fuel b p).0 ++ chunk) ≤ later
    → length b < pcm_frame_bytes
    → cut_from later chunk (cut_frames fuel b p) ≡ cut_frames more (b ++ chunk) p
cut-more_short fuel more later b chunk p le le' short =
    let same = cut_done fuel b p short in
    ap (cut_from later chunk) same
    ∙ cut_enough later more (b ++ chunk) p
        (omega (arith, le', ap (λ (r : Bytes × Playout). length (r.0 ++ chunk)) same)) le

-- Bytes that come later: cutting what is there first makes no difference.
pub cut-more :
    (fuel more later : ℕ) (b chunk : Bytes) (p : Playout)
    → length b ≤ fuel
    → length (b ++ chunk) ≤ more
    → length ((cut_frames fuel b p).0 ++ chunk) ≤ later
    → cut_frames later ((cut_frames fuel b p).0 ++ chunk) (cut_frames fuel b p).1
      ≡ cut_frames more (b ++ chunk) p
cut-more zero more later b chunk p le le' le'' =
    cut-more_short zero more later b chunk p le' le'' (omega (arith, le))
cut-more (suc f) zero later b chunk p le le' le'' =
    cut-more_short (suc f) zero later b chunk p le' le'' (omega (arith, le', length-append b chunk))
cut-more (suc f) (suc m) later b chunk p le le' le'' = elim (is_long b) [
  | inr short ↦ cut-more_short (suc f) (suc m) later b chunk p le' le'' short
  | inl long ↦
      let next = cut b p in
      let size = length-drop pcm_frame_bytes b in
      let stepped = cut_step f b p long in
      ap (cut_from later chunk) stepped
      ∙ cut-more f m later next.0 chunk next.1 (omega (arith, size, long, le))
          (omega (arith, size, length-append b chunk, length-append next.0 chunk, long, le'))
          (omega (arith, le'', ap (λ (r : Bytes × Playout). length (r.0 ++ chunk)) stepped))
      ∙ ap (λ rest. cut_frames m rest (enqueue_frame (take pcm_frame_bytes b) p))
          (sym (drop-more pcm_frame_bytes b chunk long))
      ∙ ap (λ frame. cut_frames m (drop pcm_frame_bytes (b ++ chunk)) (enqueue_frame frame p))
          (sym (take-more pcm_frame_bytes b chunk long))
      ∙ sym (cut_step m (b ++ chunk) p (omega (arith, length-append b chunk, long)))
]

pad_full :
    (b : Bytes) → pcm_frame_bytes ≤ length b → pad (take pcm_frame_bytes b) ≡ take pcm_frame_bytes b
pad_full b le =
    let none_missing : pcm_frame_bytes - length (take pcm_frame_bytes b) ≡ 0 =
      omega (arith, le, length-take pcm_frame_bytes b) in
    ap (λ n. take pcm_frame_bytes b ++ replicate n 0) none_missing
    ∙ append-nil (take pcm_frame_bytes b)

pieces_step :
    (fuel : ℕ) (b : Bytes) (p : Playout)
    → IsOn p
    → is_empty b ≡ false
    → enqueue_pieces (suc fuel) b p
      ≡ enqueue_pieces fuel
          (drop pcm_frame_bytes b)
          (enqueue_frame (pad (take pcm_frame_bytes b)) p)
unfolding enqueue_pieces
pieces_step fuel b p (hc, hs) some =
    if-false (is_empty b || p.cancelled || p.stopped) _ _ (ground (arith, hc, hs, some))

pieces_empty : (fuel : ℕ) (p : Playout) → enqueue_pieces fuel [] p ≡ p
unfolding enqueue_pieces
pieces_empty zero p = refl
pieces_empty (suc fuel) p = refl

abbrev padded : Bytes × Playout → Bool × Playout
padded r = pad_out r.0 r.1

-- Cutting and padding what is left puts the pieces of `_enqueue_audio_bytes`.
cut-pieces :
    (fuel : ℕ) (b : Bytes) (p : Playout)
    → IsOn p
    → length b ≤ fuel
    → pad_out (cut_frames fuel b p).0 (cut_frames fuel b p).1 ≡ (false, enqueue_pieces fuel b p)
cut-pieces fuel [] p on le =
    ap padded (cut_done fuel [] p (omega arith)) ∙ ap (λ q. (false, q)) (sym (pieces_empty fuel p))
cut-pieces zero (x ∷ b) p on le = absurd (omega (arith, le))
cut-pieces (suc fuel) (x ∷ b) p on le = elim (is_long (x ∷ b)) [
  | inl long ↦
      let next = cut (x ∷ b) p in
      ap padded (cut_step fuel (x ∷ b) p long)
      ∙ cut-pieces fuel next.0 next.1 (enqueue_frame-IsOn (take pcm_frame_bytes (x ∷ b)) p on)
          (omega (arith, le, long, length-drop pcm_frame_bytes (x ∷ b)))
      ∙ ap (λ frame. (false, enqueue_pieces fuel next.0 (enqueue_frame frame p)))
          (sym (pad_full (x ∷ b) long))
      ∙ ap (λ q. (false, q)) (sym (pieces_step fuel (x ∷ b) p on refl))
  | inr short ↦
      ap padded (cut_done (suc fuel) (x ∷ b) p short)
      ∙ ap (λ q. (false, q))
          (sym (
            pieces_step fuel (x ∷ b) p on refl
            ∙ ap
                (λ rest.
                  enqueue_pieces fuel rest (enqueue_frame (pad (take pcm_frame_bytes (x ∷ b))) p))
                (drop-all pcm_frame_bytes (x ∷ b) (omega (arith, short)))
            ∙ pieces_empty fuel (enqueue_frame (pad (take pcm_frame_bytes (x ∷ b))) p)
            ∙ ap (λ whole. enqueue_frame (pad whole) p)
                (take-all pcm_frame_bytes (x ∷ b) (omega (arith, short)))))
]

-- Chunks between which nobody does anything, and all their bytes.
abbrev pub undisturbed : List Bytes → List (List Event × Bytes)
undisturbed [] = []
undisturbed (chunk ∷ chunks) = ([], chunk) ∷ undisturbed chunks

abbrev pub concat : List Bytes → Bytes
concat [] = []
concat (chunk ∷ chunks) = chunk ++ concat chunks

pub cut_frames-IsOn : (fuel : ℕ) (b : Bytes) (p : Playout) → IsOn p → IsOn (cut_frames fuel b p).1
cut_frames-IsOn zero b p on = subst (λ (r : Bytes × Playout). IsOn r.1) (sym (cut_end b p)) on
cut_frames-IsOn (suc fuel) b p on = elim (is_long b) [
  | inl long ↦
      subst (λ (r : Bytes × Playout). IsOn r.1) (sym (cut_step fuel b p long))
        (cut_frames-IsOn fuel (cut b p).0 (cut b p).1
          (enqueue_frame-IsOn (take pcm_frame_bytes b) p on))
  | inr short ↦ subst (λ (r : Bytes × Playout). IsOn r.1) (sym (cut_done (suc fuel) b p short)) on
]

stream_step :
    (chunk : Bytes) (chunks : List (List Event × Bytes)) (body : Body) (leftover : Bytes)
    (p : Playout)
    → IsOn p
    → stream_chunks (([], chunk) ∷ chunks) body leftover p ≡ (
        let r = cut_frames (length (leftover ++ chunk)) (leftover ++ chunk) p in
        stream_chunks chunks body r.0 r.1)
unfolding stream_chunks happen_all
stream_step chunk chunks body leftover p (hc, hs) =
    if-false (p.cancelled || p.stopped) _ _ (ground (arith, hc, hs))

stream_end :
    (body : Body) (leftover : Bytes) (p : Playout)
    → body.fails ≡ false
    → body.last ≡ []
    → stream_chunks [] body leftover p ≡ pad_out leftover p
unfolding stream_chunks happen_all
stream_end body leftover p well quiet =
    if-false body.fails _ _ well ∙ ap (λ events. pad_out leftover (happen_all events p)) quiet

stream-cut :
    (chunks : List Bytes) (body : Body) (leftover : Bytes) (p : Playout)
    → IsOn p
    → length leftover < pcm_frame_bytes
    → body.fails ≡ false
    → body.last ≡ []
    → stream_chunks (undisturbed chunks) body leftover p
      ≡ padded (cut_frames (length (leftover ++ concat chunks)) (leftover ++ concat chunks) p)
stream-cut [] body leftover p on short well quiet =
    stream_end body leftover p well quiet
    ∙ ap padded (
        sym (
          ap (λ b. cut_frames (length b) b p) (append-nil leftover)
          ∙ cut_done (length leftover) leftover p short))
stream-cut (chunk ∷ chunks) body leftover p on short well quiet =
    let fuel = length (leftover ++ chunk) in
    let r = cut_frames fuel (leftover ++ chunk) p in
    stream_step chunk (undisturbed chunks) body leftover p on
    ∙ stream-cut chunks body r.0 r.1 (cut_frames-IsOn fuel (leftover ++ chunk) p on)
        (cut-short fuel (leftover ++ chunk) p (omega arith)) well quiet
    ∙ ap padded (
        cut-more fuel (length ((leftover ++ chunk) ++ concat chunks))
          (length (r.0 ++ concat chunks)) (leftover ++ chunk) (concat chunks) p (omega arith)
          (omega arith) (omega arith))
    ∙ ap (λ b. padded (cut_frames (length b) b p)) (append_assoc leftover chunk (concat chunks))

-- Where nothing was cancelled or stopped before and nothing happens meanwhile, so that nobody takes a
-- frame, barges in or stops: a stream of audio that ends well, however it is cut into chunks, puts the
-- same frames as the whole audio given at once, the last one padded, and drops as many.
pub stream_tts-enqueue_audio_bytes :
    (chunks : List Bytes) (p : Playout)
    → IsOn p
    → stream_tts (answered 200 (record { chunks = undisturbed chunks; last = []; fails = false })) p
      ≡ (false, enqueue_audio_bytes (concat chunks) p)
unfolding stream_tts enqueue_audio_bytes
stream_tts-enqueue_audio_bytes chunks p on =
    stream-cut chunks (record { chunks = undisturbed chunks; last = []; fails = false }) [] p on
      (omega arith) refl refl
    ∙ cut-pieces (length (concat chunks)) (concat chunks) p on (omega arith)
