-- ===== src/Sip/Bridge/Queues.antt =====
-- The bounded queues of AudioBridge in sip/src/aipanel_sip/audio_bridge.py.
use aipanel.Base.{
  ℕ, zero, suc, ◌+◌, ◌-◌, ◌≤◌, ◌<◌, ◌≡◌, refl, sym, ap, ◌∙◌, inl, inr, Bool-cases, List, [], ◌∷◌,
  ◌++◌, length, drop, arith, length-append, length-drop, append_assoc, append-nil, leb→le,
}
use aipanel.Sip.Frame.Wire.{Bytes}
use aipanel.Sip.Bridge.{
  Bridge, queue_max_frames, deque_append, make_room, is_full, count_drop, enqueue_inbound,
}

-- The newest frames of a history.
abbrev newest : List Bytes → List Bytes
newest hist = drop (length hist - queue_max_frames) hist

drop-snoc :
    (n : ℕ) (xs : List Bytes) (f : Bytes)
    → n ≤ length xs
    → drop n (xs ++ f ∷ []) ≡ drop n xs ++ f ∷ []
drop-snoc zero xs f h = refl
drop-snoc (suc n) [] f h = absurd (omega arith)
drop-snoc (suc n) (x ∷ xs) f h = drop-snoc n xs f (omega arith)

drop-one : (n : ℕ) (xs : List Bytes) → drop 1 (drop n xs) ≡ drop (suc n) xs
drop-one zero xs = refl
drop-one (suc n) [] = refl
drop-one (suc n) (x ∷ xs) = drop-one n xs

deque_append_room :
    (q : List Bytes) (f : Bytes) → length q < queue_max_frames → deque_append q f ≡ q ++ f ∷ []
deque_append_room q f h = ground (arith, length-append q (f ∷ []))

-- Dropping the oldest frame of a full window and adding one moves the window on by one.
push-newest :
    (hist : List Bytes) (f : Bytes)
    → deque_append (make_room (newest hist)) f ≡ newest (hist ++ f ∷ [])
push-newest hist f = elim (Bool-cases (is_full (newest hist))) [
  | inl full ↦
      let size = length-drop (length hist - queue_max_frames) hist in
      let past = length-append hist (f ∷ []) in
      let many = leb→le queue_max_frames (length (newest hist)) full in
      let next : suc (length hist - queue_max_frames) ≡ length (hist ++ f ∷ []) - queue_max_frames =
        omega arith in
      rw full (
        deque_append_room (drop 1 (newest hist)) f (omega (arith, length-drop 1 (newest hist)))
        ∙ ap (λ q. q ++ f ∷ []) (drop-one (length hist - queue_max_frames) hist)
        ∙ sym (drop-snoc (suc (length hist - queue_max_frames)) hist f (omega arith))
        ∙ ap (λ n. drop n (hist ++ f ∷ [])) next)
  | inr room ↦
      let size = length-drop (length hist - queue_max_frames) hist in
      let past = length-append hist (f ∷ []) in
      let few : length (newest hist) < queue_max_frames = ground arith in
      let none_over : length hist - queue_max_frames ≡ 0 = omega arith in
      let next : 0 ≡ length (hist ++ f ∷ []) - queue_max_frames = omega arith in
      rw room (
        deque_append_room (newest hist) f few
        ∙ ap (λ n. drop n hist ++ f ∷ []) none_over
        ∙ ap (λ n. drop n (hist ++ f ∷ [])) next)
]

unfoldable pub enqueue_all : List Bytes → Bridge → Bridge
enqueue_all [] b = b
enqueue_all (f ∷ fs) b = enqueue_all fs (enqueue_inbound f b)

count_drop-newest :
    (hist : List Bytes) (f : Bytes) (dropped : ℕ)
    → count_drop (newest hist) dropped + (length hist - queue_max_frames)
      ≡ dropped + (length (hist ++ f ∷ []) - queue_max_frames)
count_drop-newest hist f dropped =
    ground (arith, length-drop (length hist - queue_max_frames) hist, length-append hist (f ∷ []))

enqueue_all-window :
    (fs hist : List Bytes) (b : Bridge)
    → b.inbound ≡ newest hist
    → ((enqueue_all fs b).inbound ≡ newest (hist ++ fs))
      × ((enqueue_all fs b).dropped + (length hist - queue_max_frames)
          ≡ b.dropped + (length (hist ++ fs) - queue_max_frames))
unfolding enqueue_all enqueue_inbound
enqueue_all-window [] hist b e = (rw append-nil e, rw append-nil)
enqueue_all-window (f ∷ fs) hist b e =
    let b' = enqueue_inbound f b in
    let rest = enqueue_all-window fs (hist ++ f ∷ []) b' (rw e (push-newest hist f)) in
    let joined = append_assoc hist (f ∷ []) fs in
    let counted : count_drop b.inbound b.dropped + (length hist - queue_max_frames)
        ≡ b.dropped + (length (hist ++ f ∷ []) - queue_max_frames) =
      rw e (count_drop-newest hist f b.dropped) in
    (rest.0 ∙ ap newest joined, omega (arith, rest.1, counted, ap length joined))

-- A burst of frames, while nobody takes any, on a queue within its bound: it keeps the newest 50 of
-- what was there and what came, in order, and every other frame is counted as dropped.
enqueue_burst :
    (fs : List Bytes) (b : Bridge)
    → length b.inbound ≤ queue_max_frames
    → ((enqueue_all fs b).inbound ≡ newest (b.inbound ++ fs))
      × ((enqueue_all fs b).dropped ≡ b.dropped + (length b.inbound + length fs - queue_max_frames))
enqueue_burst fs b h =
    let none_over : length b.inbound - queue_max_frames ≡ 0 = omega arith in
    let window = enqueue_all-window fs b.inbound b (ap (λ n. drop n b.inbound) (sym none_over)) in
    (window.0, omega (arith, window.1, length-append b.inbound fs))
